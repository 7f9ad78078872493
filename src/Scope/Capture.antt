-- ===== src/Scope/Capture.antt =====
-- src/dachs/semantics/lambda_capture_resolver.hpp, `capture_checker`: whether a variable that is
-- used in the body of a lambda comes from outside the lambda.
use dachs.Base.{
  ℕ, str_eq, eq_iff, ◌≡◌, refl, ◌∙◌, inl, inr, Bool, true, false, Option, none, some, List, [], ◌∷◌,
  arith, Bool-cases, any_b, ◌>>=◌,
}
use dachs.Base.Defined.{bind-some}
use dachs.Types.{VarSymbol, FuncScope, ClassScope, Store}
use dachs.Scope.{
  Scope, global_scope, local_scope, func_scope, class_scope, LocalScope, find_var, resolve_var,
}
use dachs.Scope.Functions.{func_eq}

-- The loops over the symbols of one scope: two symbols are the same if their names are.
abbrev pub declares : List VarSymbol → VarSymbol → Bool
declares vs query = any_b (λ v. str_eq query.name v.name) vs

-- The search ends with an internal error at the global scope.
unfoldable pub is_captured : Store → ℕ → VarSymbol → FuncScope → Scope → Option Bool
is_captured S fuel query threshold (global_scope g) = none
is_captured S fuel query threshold (local_scope l outer) = elim (declares l.local_vars query) [
  | true ↦ some false
  | false ↦ is_captured S fuel query threshold outer
]
is_captured S fuel query threshold (func_scope f outer) = elim (declares f.params query) [
  | true ↦ some false
  | false ↦ (do
    same ← func_eq S fuel threshold f
    elim same [ true ↦ some true | false ↦ is_captured S fuel query threshold outer ])
]
is_captured S fuel query threshold (class_scope c outer) =
    elim (declares c.instance_var_symbols query) [
      | true ↦ some false
      | false ↦ is_captured S fuel query threshold outer
    ]

-- `outer` encloses the function `f`, which is `s` or encloses it.
pub data Encloses (f : FuncScope) (outer : Scope) : Scope → Type 0 where
  here : Encloses f outer (func_scope f outer)
  in_local : (l : LocalScope) {s : Scope} → Encloses f outer s → Encloses f outer (local_scope l s)
  in_func : (g : FuncScope) {s : Scope} → Encloses f outer s → Encloses f outer (func_scope g s)
  in_class : (c : ClassScope) {s : Scope} → Encloses f outer s → Encloses f outer (class_scope c s)

-- The lambda that the search found, and what the name means there.
pub record FoundOutside (S : Store) (fuel : ℕ) (query : VarSymbol) (threshold : FuncScope)
    (s : Scope) : Type 0 where
  pub lambda : FuncScope
  pub outer : Scope
  pub encloses : Encloses lambda outer s
  pub same : func_eq S fuel threshold lambda ≡ some true
  pub meaning : resolve_var query.name s ≡ resolve_var query.name outer

declares-find_var :
    (vs : List VarSymbol) (query : VarSymbol)
    → declares vs query ≡ false
    → find_var query.name vs ≡ none
declares-find_var [] q e = refl
declares-find_var (v ∷ vs) q e =
    ground (arith, eq_iff q.name v.name, eq_iff v.name q.name, declares-find_var vs q)

skip :
    {S : Store} {fuel : ℕ} {query : VarSymbol} {threshold : FuncScope} (s outer : Scope)
    → ((f : FuncScope) (o : Scope) → Encloses f o outer → Encloses f o s)
    → resolve_var query.name s ≡ resolve_var query.name outer
    → FoundOutside S fuel query threshold outer
    → FoundOutside S fuel query threshold s
skip s outer inside e ih = record {
  lambda = ih.lambda;
  outer = ih.outer;
  encloses = inside ih.lambda ih.outer ih.encloses;
  same = ih.same;
  meaning = e ∙ ih.meaning;
}

-- A variable that the checker finds captured has a function that equals the threshold around
-- the scope of its use, and its name resolves there as it does outside that function.
pub is_captured-outside :
    (S : Store) (fuel : ℕ) (query : VarSymbol) (threshold : FuncScope) (s : Scope)
    → is_captured S fuel query threshold s ≡ some true
    → FoundOutside S fuel query threshold s
unfolding is_captured resolve_var
is_captured-outside S fuel query threshold (global_scope g) e = cc
is_captured-outside S fuel query threshold (local_scope l outer) e =
    elim (Bool-cases (declares l.local_vars query)) [
      | inl d ↦ cc (rw (d, is_captured) at e)
      | inr d ↦
          skip (local_scope l outer) outer (λ _ _ h. in_local l h)
            (rw (declares-find_var l.local_vars query d) refl)
            (is_captured-outside S fuel query threshold outer (rw (d, is_captured) at e))
    ]
is_captured-outside S fuel query threshold (func_scope f outer) e =
    elim (Bool-cases (declares f.params query)) [
      | inl d ↦ cc (rw (d, is_captured) at e)
      | inr d ↦
          let (same, found, rest) =
            bind-some (func_eq S fuel threshold f) _ (rw (d, is_captured) at e) in
          let undeclared : resolve_var query.name (func_scope f outer)
              ≡ resolve_var query.name outer =
            rw (declares-find_var f.params query d) refl in
          elim (Bool-cases same) [
            | inl s ↦ record {
              lambda = f;
              outer = outer;
              encloses = here;
              same = rw s at found;
              meaning = undeclared;
            }
            | inr s ↦
                skip (func_scope f outer) outer (λ _ _ h. in_func f h) undeclared
                  (is_captured-outside S fuel query threshold outer (rw (s, is_captured) at rest))
          ]
    ]
is_captured-outside S fuel query threshold (class_scope c outer) e =
    elim (Bool-cases (declares c.instance_var_symbols query)) [
      | inl d ↦ cc (rw (d, is_captured) at e)
      | inr d ↦
          skip (class_scope c outer) outer (λ _ _ h. in_class c h) refl
            (is_captured-outside S fuel query threshold outer (rw (d, is_captured) at e))
    ]
