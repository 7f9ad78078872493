-- ===== src/Lambda/Layout.antt =====
-- The object of a lambda in src/dachs/semantics/lambda_capture_resolver.hpp.
use dachs.Base.{
  ℕ, zero, suc, ◌≡◌, refl, ap, sym, ◌∙◌, inl, inr, true, Option, none, some, List, [], ◌∷◌, ◌++◌,
  ◌==◌, ==_iff, Bool-cases, All, length, get_elem?, arith, length-append,
}
use mathlib.Core.Path.{subst}
use dachs.Base.Defined.{some_inj}
use dachs.Types.{VarSymbol, FuncScope, Store}
use dachs.Scope.{Scope}
use dachs.Lambda.{
  Tree, Capture, resolve_lambda_captures, find_capture, replace, member, member_or_kept,
  element_types,
}
use dachs.Lambda.Resolve.{IsCapture, IsLaidOut, resolve_lambda_captures-IsLaidOut}

length-element_types : (cs : List Capture) → length (element_types cs) ≡ length cs
unfolding element_types
length-element_types [] = refl
length-element_types (c ∷ cs) =
    omega
      (arith, length-append (element_types cs) (c.refered_symbol.ty ∷ []), length-element_types cs)

module _ {A : Type 0} where
  get_elem?-last : (xs : List A) (a : A) → get_elem? (xs ++ a ∷ []) (length xs) ≡ some a
  get_elem?-last [] a = refl
  get_elem?-last (x ∷ xs) a = get_elem?-last xs a

  get_elem?-append :
      (xs ys : List A) (i : ℕ) {a : A} → get_elem? xs i ≡ some a → get_elem? (xs ++ ys) i ≡ some a
  get_elem?-append [] ys i e = cc
  get_elem?-append (x ∷ xs) ys zero e = e
  get_elem?-append (x ∷ xs) ys (suc i) e = get_elem?-append xs ys i e

-- The member that a capture stands for has the type of the lambda's object at its offset, and is
-- there for the symbol.
abbrev pub IsMember : Store → ℕ → FuncScope → List Capture → VarSymbol → Capture → Type 0
IsMember S fuel f cs s c =
    (get_elem? (element_types cs) c.offset ≡ some c.introduced_type)
    × (c.refered_symbol.id ≡ s.id)
    × IsCapture S fuel f c

module _ (S : Store) (fuel : ℕ) (f : FuncScope) (s : VarSymbol) where
  first-IsMember :
      (c : Capture) (cs : List Capture)
      → IsLaidOut (c ∷ cs)
      → IsCapture S fuel f c
      → (c.refered_symbol.id == s.id) ≡ true
      → IsMember S fuel f (c ∷ cs) s c
  unfolding element_types
  first-IsMember c cs h k y = (
    ap (λ i. get_elem? (element_types cs ++ c.refered_symbol.ty ∷ []) i)
          (h.0 ∙ sym (length-element_types cs))
        ∙ get_elem?-last (element_types cs) c.refered_symbol.ty
        ∙ ap some (sym k.same_type),
    (==_iff c.refered_symbol.id s.id).0 y,
    k,
  )

  find_capture-IsMember :
      (cs : List Capture) {c : Capture}
      → IsLaidOut cs
      → All (IsCapture S fuel f) cs
      → find_capture s cs ≡ some c
      → IsMember S fuel f cs s c
  unfolding find_capture element_types
  find_capture-IsMember [] h k e = cc
  find_capture-IsMember (d ∷ cs) {c} h k e = elim (Bool-cases (d.refered_symbol.id == s.id)) [
    | inl y ↦
        subst (IsMember S fuel f (d ∷ cs) s) (some_inj (rw (y, find_capture) at e))
          (first-IsMember d cs h k.0 y)
    | inr n ↦
        let (at_offset, same, ok) = find_capture-IsMember cs h.2 k.1 (rw (n, find_capture) at e) in
        (
          get_elem?-append (element_types cs) (d.refered_symbol.ty ∷ []) c.offset at_offset,
          same,
          ok,
        )
  ]

  member-some : (o : Option Capture) {c : Capture} → member_or_kept o ≡ member c → o ≡ some c
  member-some none e = cc
  member-some (some d) e = cc

  -- If the captures of a lambda are resolved and a reference to a symbol is replaced by a
  -- member, then the lambda's object has at the member's offset an element of the member's
  -- type, and the member stands for that symbol, which is neither builtin nor global and is
  -- captured in some scope.
  pub replace-IsMember :
      (enclosing : Scope) (search_root : Tree) {cs : List Capture} {c : Capture}
      → resolve_lambda_captures S fuel f enclosing search_root ≡ some cs
      → replace cs (some s) ≡ member c
      → IsMember S fuel f cs s c
  unfolding replace
  replace-IsMember enclosing search_root {cs} {c} e m =
      let (laid_out, ok) = resolve_lambda_captures-IsLaidOut S fuel f enclosing search_root e in
      find_capture-IsMember cs laid_out ok (member-some (find_capture s cs) m)
