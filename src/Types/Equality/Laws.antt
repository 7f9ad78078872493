-- ===== src/Types/Equality/Laws.antt =====
-- Laws of `==`.
use dachs.Base.{
  ℕ, zero, suc, String, str_eq, eq_iff, ==_sym, ◌≡◌, refl, ap, if◌then◌else◌, Bool, false, Option,
  none, some, List, [], ◌∷◌, ◌>>=◌, equal, equal_optional, all_zipped, length, arith,
}
use dachs.Types.{
  AnyType, empty, builtin_type, class_type, tuple_type, func_type, generic_func_type, array_type,
  pointer_type, qualified_type, template_type, Types, to_list, to_option, Store,
}
use dachs.Types.Equality.{
  type_eq, equal_step, equal_class, equal_ref, equal_var_types, instance_var_types_of,
}

pub str_eq_sym : (a b : String) → str_eq a b ≡ str_eq b a
str_eq_sym a b = ground (arith, eq_iff a b, eq_iff b a)

module _ {A : Type 0} (p : A → A → Option Bool) (sym_p : (x y : A) → p x y ≡ p y x) where
  pub all_zipped_sym : (xs ys : List A) → all_zipped p xs ys ≡ all_zipped p ys xs
  all_zipped_sym [] [] = refl
  all_zipped_sym [] (y ∷ ys) = refl
  all_zipped_sym (x ∷ xs) [] = refl
  all_zipped_sym (x ∷ xs) (y ∷ ys) = rw (sym_p x y, all_zipped_sym xs ys)

  pub equal_sym : (xs ys : List A) → equal p xs ys ≡ equal p ys xs
  equal_sym xs ys = rw (==_sym (length xs) (length ys), all_zipped_sym xs ys)

pub bind_sym :
    {A B : Type 0} (a b : Option A) (f g : A → A → Option B)
    → ((x y : A) → f x y ≡ g y x)
    → (a >>= λ x. b >>= λ y. f x y) ≡ (b >>= λ y. a >>= λ x. g y x)
bind_sym none none f g h = refl
bind_sym none (some y) f g h = refl
bind_sym (some x) none f g h = refl
bind_sym (some x) (some y) f g h = h x y

module _ (S : Store) (rec : AnyType → AnyType → Option Bool)
    (sym_rec : (l r : AnyType) → rec l r ≡ rec r l) where
  pub equal_optional_sym : (a b : Option AnyType) → equal_optional rec a b ≡ equal_optional rec b a
  equal_optional_sym none none = refl
  equal_optional_sym none (some y) = refl
  equal_optional_sym (some x) none = refl
  equal_optional_sym (some x) (some y) = sym_rec x y

  equal_var_types_sym :
      (ls rs : Option (List AnyType)) → equal_var_types rec ls rs ≡ equal_var_types rec rs ls
  equal_var_types_sym none none = refl
  equal_var_types_sym none (some y) = refl
  equal_var_types_sym (some x) none = refl
  equal_var_types_sym (some x) (some y) = equal_sym _ (λ l r. ground (arith, sym_rec l r)) x y

  pub equal_ref_sym : (a b : Option ℕ) → equal_ref a b ≡ equal_ref b a
  equal_ref_sym a b = ground arith

  equal_class_sym :
      (n : String) (ref : ℕ) (ps : Types) (m : String) (ref' : ℕ) (qs : Types)
      → equal_class S rec n ref ps m ref' qs ≡ equal_class S rec m ref' qs n ref ps
  unfolding equal_class
  equal_class_sym n ref ps m ref' qs = rw (str_eq_sym n m) (
      ap (λ e. if str_eq m n then e else some false)
        (bind_sym (instance_var_types_of S ref ps) (instance_var_types_of S ref' qs) _ _
          equal_var_types_sym))

  equal_step_sym : (l r : AnyType) → equal_step S rec l r ≡ equal_step S rec r l
  equal_step_sym empty empty = refl
  equal_step_sym (builtin_type n) (builtin_type m) = rw (str_eq_sym n m)
  equal_step_sym (class_type n ref ps) (class_type m ref' qs) = equal_class_sym n ref ps m ref' qs
  equal_step_sym (tuple_type ts) (tuple_type us) = equal_sym rec sym_rec (to_list ts) (to_list us)
  equal_step_sym (func_type ps r b) (func_type qs r' b') = rw (
    equal_sym rec sym_rec (to_list ps) (to_list qs),
    equal_optional_sym (to_option r) (to_option r'),
  )
  equal_step_sym (generic_func_type a) (generic_func_type b) = rw (equal_ref_sym a b)
  equal_step_sym (array_type t n) (array_type u m) = rw (sym_rec t u, equal_ref_sym n m)
  equal_step_sym (pointer_type t) (pointer_type u) = sym_rec t u
  equal_step_sym (qualified_type q t) (qualified_type q' u) = sym_rec t u
  equal_step_sym (template_type x) empty = refl
  equal_step_sym _ _ = refl

-- `l == r` and `r == l` give the same result, at any fuel.
pub type_eq_sym : (S : Store) (fuel : ℕ) (l r : AnyType) → type_eq S fuel l r ≡ type_eq S fuel r l
unfolding type_eq
type_eq_sym S zero l r = refl
type_eq_sym S (suc fuel) l r = equal_step_sym S (type_eq S fuel) (type_eq_sym S fuel) l r
