-- ===== src/Analyzer/Copies/Grows.antt =====
-- How the map of copiers grows while src/dachs/semantics/copy_resolver.hpp resolves a deep copy.
use dachs.Base.{All, ℕ, String, ◌≡◌, false, ◌++◌, Option, some, List, [], ◌∷◌}
use dachs.Types.{AnyType, class_type, Types, FuncScope, Store}
use dachs.Scope.{Scope, resolve_func}
use dachs.Analyzer.Calls.{Definitions}
use dachs.Analyzer.Calls.Laws.{IsCallable}
use dachs.Analyzer.Copies.{Copiers, CopyOutcome}

abbrev Entries : Type 0
Entries = List (ℕ × FuncScope)

abbrev pub IsOther : ℕ → ℕ × FuncScope → Type 0
IsOther key entry = ¬ (entry.0 ≡ key)

module _ (S : Store) (fuel : ℕ) (current_scope : Scope) (defs : Definitions) where
  -- The function can be called, and results from the only candidate for the copy of a class.
  pub record IsCopier (f : FuncScope) : Type 0 where
    pub name : String
    pub ref : ℕ
    pub params : Types
    pub candidate : FuncScope
    pub only :
        resolve_func S fuel "dachs.copy" (class_type name ref params ∷ []) current_scope
        ≡ some (candidate ∷ [])
    pub not_builtin : candidate.is_builtin ≡ false
    pub callable : IsCallable S fuel current_scope defs f

  -- Entries that are added one after another: no key is in the map before, and each function is
  -- a copier.
  abbrev pub AreAdded : Entries → Entries → Type 0
  AreAdded entries [] = Unit {0}
  AreAdded entries ((key, f) ∷ new) =
      All (IsOther key) entries × IsCopier f × AreAdded (entries ++ (key, f) ∷ []) new

  -- What is in the map stays, and all else is added.
  abbrev pub Grows : Copiers → Copiers → Type 0
  Grows st st' =
      (new : Entries) × (st'.copiers.entries ≡ st.copiers.entries ++ new)
      × AreAdded st.copiers.entries new

  abbrev Good : (AnyType → Copiers → Option CopyOutcome) → Type 0
  Good rec = (t : AnyType) (st : Copiers) (r : CopyOutcome) → rec t st ≡ some r → Grows st r.1
