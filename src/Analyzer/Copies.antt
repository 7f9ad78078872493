-- ===== src/Analyzer/Copies.antt =====
-- src/dachs/semantics/copy_resolver.hpp: the copiers that a deep copy of a type calls.
pub mod Grows
use dachs.Base.{
  ℕ, zero, suc, Bool, true, false, not, ◌++◌, Option, none, some, List, [], ◌∷◌, is_empty, ◌>>=◌,
  ◌>>◌, require, ◌==◌, if◌then◌else◌,
}
use dachs.Types.{
  AnyType, class_type, tuple_type, array_type, pointer_type, qualified_type, Types, to_list,
  FuncScope, Store, lock,
}
use dachs.Types.Equality.{var_types}
use dachs.Scope.{Scope, resolve_func}
use dachs.Scope.Functions.{func_is_template}
use dachs.Analyzer.Calls.{
  CallError, Definitions, Resolved, resolved, oops, instance_of, resolve_user_func,
}

pub data CopyError : Type 0 where
  ambiguous_copier : AnyType → CopyError
  bad_copier : AnyType → CallError → CopyError

-- `copiers`, in the order of the insertion. The keys are pointers to class types, which are
-- compared and hashed by address: two types that are equal are two keys if they are two objects.
-- The addresses of the objects that are looked up, one after another, are an input of the model.
pub record CopierMap : Type 0 where
  pub entries : List (ℕ × FuncScope)
  pub addresses : ℕ → ℕ

-- The copiers that the analysis has resolved, and the errors
pub record Copiers : Type 0 where
  pub copiers : CopierMap
  pub errors : List CopyError

abbrev pub CopyOutcome : Type 0
CopyOutcome = Bool × Copiers

abbrev pub fails : CopyError → Copiers → CopyOutcome
fails e st = (false, record st { errors = st.errors ++ e ∷ [] })

-- A loop that stops at the first type that fails
unfoldable pub apply_all :
    (AnyType → Copiers → Option CopyOutcome) → List AnyType → Copiers → Option CopyOutcome
apply_all rec [] st = some (true, st)
apply_all rec (t ∷ ts) st = do
  (success, st') ← rec t st
  elim success [ false ↦ some (false, st') | true ↦ apply_all rec ts st' ]

-- `copiers.find`, and `semantics_context::copier_of` of a class
unfoldable pub copier_of : ℕ → List (ℕ × FuncScope) → Option FuncScope
copier_of address [] = none
copier_of address ((key, f) ∷ entries) =
    if key == address then some f else copier_of address entries

-- The address of the object that is looked up, and the map with those of the later lookups
abbrev pub next_address : CopierMap → ℕ
next_address m = m.addresses 0

abbrev pub looked_up : CopierMap → CopierMap
looked_up m = record m { addresses = λ i. m.addresses (suc i) }

-- `copiers.emplace`, of a key that has not been found
abbrev pub emplace_copier : ℕ → FuncScope → CopierMap → CopierMap
emplace_copier address f m = record m { entries = m.entries ++ (address, f) ∷ [] }

module _ (S : Store) (fuel : ℕ) (current_scope : Scope) (defs : Definitions) where
  -- The instance of the copier, its analysis and the check of its accessibility
  unfoldable pub prepare_copier : AnyType → FuncScope → Option Resolved
  unfolding resolve_user_func
  prepare_copier t f = do
    require (not f.is_builtin)
    template ← func_is_template S fuel f
    g ← instance_of S fuel current_scope defs template defs.instantiate f (t ∷ [])
    resolve_user_func S fuel current_scope defs g

  unfoldable pub add_copier :
      (AnyType → Copiers → Option CopyOutcome)
      → ℕ
      → AnyType
      → ℕ
      → Types
      → Copiers
      → Resolved
      → Option CopyOutcome
  unfolding apply_all
  add_copier rec address t ref params st (oops e) = some (fails (bad_copier t e) st)
  add_copier rec address t ref params st (resolved g) = do
    require (is_empty (to_list params))
    scope ← lock S ref
    apply_all rec (var_types scope.instance_var_symbols)
        (record st { copiers = emplace_copier address g st.copiers })

  unfoldable pub use_candidates :
      (AnyType → Copiers → Option CopyOutcome)
      → ℕ
      → AnyType
      → ℕ
      → Types
      → Copiers
      → List FuncScope
      → Option CopyOutcome
  unfolding prepare_copier add_copier
  use_candidates rec address t ref params st [] = some (true, st)
  use_candidates rec address t ref params st (f ∷ []) = do
    r ← prepare_copier t f
    add_copier rec address t ref params st r
  use_candidates rec address t ref params st (f ∷ g ∷ fs) = some (fails (ambiguous_copier t) st)

  -- `operator()` on a class
  unfoldable pub resolve_class :
      (AnyType → Copiers → Option CopyOutcome) → AnyType → ℕ → Types → Copiers → Option CopyOutcome
  unfolding copier_of use_candidates resolve_func
  resolve_class rec t ref params st =
      let address = next_address st.copiers in
      let found = record st { copiers = looked_up st.copiers } in
      elim (copier_of address st.copiers.entries) [
        | some f ↦ some (true, found)
        | none ↦ (do
          candidates ← resolve_func S fuel "dachs.copy" (t ∷ []) current_scope
          use_candidates rec address t ref params found candidates)
      ]

  unfoldable pub resolve_step :
      (AnyType → Copiers → Option CopyOutcome) → AnyType → Copiers → Option CopyOutcome
  unfolding resolve_class apply_all
  resolve_step rec (tuple_type ts) st = apply_all rec (to_list ts) st
  resolve_step rec (array_type t n) st = rec t st
  resolve_step rec (pointer_type t) st = rec t st
  resolve_step rec (qualified_type q t) st = rec t st
  resolve_step rec (class_type n ref ps) st = resolve_class rec (class_type n ref ps) ref ps st
  resolve_step rec t st = some (true, st)

  -- `copy_resolver`, to a depth
  unfoldable pub resolve_deep_copy : ℕ → AnyType → Copiers → Option CopyOutcome
  unfolding resolve_step
  resolve_deep_copy zero t st = none
  resolve_deep_copy (suc depth) t st = resolve_step (resolve_deep_copy depth) t st
