-- ===== src/Types/Fuzzy/Laws.antt =====
-- Laws of `fuzzy_match` of src/dachs/semantics/type.cpp.
use dachs.Base.{
  ℕ, zero, suc, String, str_eq, ◌≡◌, refl, ap, if◌then◌else◌, Bool, false, Option, none, some, List,
  equal,
}
use dachs.Types.{
  AnyType, empty, builtin_type, class_type, tuple_type, func_type, generic_func_type, array_type,
  pointer_type, qualified_type, template_type, Types, to_list, to_option, Store,
}
use dachs.Types.Equality.{instance_var_types_of}
use dachs.Types.Equality.Laws.{str_eq_sym, equal_sym, bind_sym, equal_ref_sym}
use dachs.Types.Fuzzy.{match_var_types, match_class, match_returns, match_step, fuzzy_match}

module _ (S : Store) (rec : AnyType → AnyType → Option Bool)
    (sym_rec : (l r : AnyType) → rec l r ≡ rec r l) where
  match_var_types_sym :
      (ls rs : Option (List AnyType)) → match_var_types rec ls rs ≡ match_var_types rec rs ls
  match_var_types_sym none none = refl
  match_var_types_sym none (some y) = refl
  match_var_types_sym (some x) none = refl
  match_var_types_sym (some x) (some y) = equal_sym rec sym_rec x y

  match_returns_sym :
      (same : Option Bool) (l r : Option AnyType)
      → match_returns rec same l r ≡ match_returns rec same r l
  match_returns_sym same none none = refl
  match_returns_sym same none (some y) = refl
  match_returns_sym same (some x) none = refl
  match_returns_sym same (some x) (some y) = rw (sym_rec x y) refl

  match_class_sym :
      (n : String) (ref : ℕ) (ps : Types) (m : String) (ref' : ℕ) (qs : Types)
      → match_class S rec n ref ps m ref' qs ≡ match_class S rec m ref' qs n ref ps
  unfolding match_class
  match_class_sym n ref ps m ref' qs = rw (str_eq_sym n m) (
      ap (λ e. if str_eq m n then e else some false)
        (bind_sym (instance_var_types_of S ref ps) (instance_var_types_of S ref' qs) _ _
          match_var_types_sym))

  match_step_sym : (l r : AnyType) → match_step S rec l r ≡ match_step S rec r l
  match_step_sym (builtin_type n) (builtin_type m) = rw (str_eq_sym n m)
  match_step_sym (class_type n ref ps) (class_type m ref' qs) = match_class_sym n ref ps m ref' qs
  match_step_sym (tuple_type ts) (tuple_type us) = equal_sym rec sym_rec (to_list ts) (to_list us)
  match_step_sym (func_type ps r b) (func_type qs r' b') = rw (
    equal_sym rec sym_rec (to_list ps) (to_list qs),
    match_returns_sym (equal rec (to_list qs) (to_list ps)) (to_option r) (to_option r'),
  )
  match_step_sym (generic_func_type a) (generic_func_type b) = rw (equal_ref_sym S rec sym_rec a b)
  match_step_sym (array_type t n) (array_type u m) =
      rw (sym_rec t u, equal_ref_sym S rec sym_rec n m)
  match_step_sym (pointer_type t) (pointer_type u) = sym_rec t u
  match_step_sym (qualified_type q t) (qualified_type q' u) = sym_rec t u
  match_step_sym empty empty = refl
  match_step_sym (template_type a) (template_type b) = refl
  match_step_sym _ _ = refl

-- `fuzzy_match(l, r)` and `fuzzy_match(r, l)` give the same result, at any fuel.
pub fuzzy_match_sym :
    (S : Store) (fuel : ℕ) (l r : AnyType) → fuzzy_match S fuel l r ≡ fuzzy_match S fuel r l
unfolding fuzzy_match
fuzzy_match_sym S zero l r = refl
fuzzy_match_sym S (suc fuel) l r =
    match_step_sym S (fuzzy_match S fuel) (fuzzy_match_sym S fuel) l r
