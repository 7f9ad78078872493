-- ===== src/Types/Equality/Total.antt =====
-- `==` gives a value on types whose expansion ends, and on no others: a class that holds itself.
use dachs.Base.{
  ℕ, zero, suc, String, str_eq, eq_refl, ◌≡◌, refl, Bool, true, false, Option, none, some, List, [],
  ◌∷◌, ◌>>=◌, equal, equal_optional, arith, ◌&&◌, All, Bool-cases, inl, inr, ◌⊎◌, ==_iff, ◌+◌, ◌*◌,
  length,
}
use dachs.Base.Defined.{HasValue, HasValue-bind, HasValue-if, HasValue-equal}
use dachs.Types.{
  AnyType, empty, builtin_type, class_type, tuple_type, func_type, generic_func_type, array_type,
  pointer_type, qualified_type, template_type, Types, nil, cons, to_list, to_option,
  is_template_type, Store, VarSymbol, ClassScope, lock,
}
use dachs.Types.Equality.{
  type_eq, equal_step, equal_class, equal_var, equal_var_types, instance_var_types_of, fill_params,
  var_types,
}
use dachs.Types.Finite.{Fits, ClassFits, AllOptional, Sized, IsRanked, Sized-Fits}

-- What holds of the list that a call returns, if it returns one.
abbrev OnList : (AnyType → Type 0) → Option (List AnyType) → Type 0
OnList P none = Unit
OnList P (some ts) = All P ts

module _ (P : AnyType → Type 0) where
  OnList-cons :
      (t : AnyType) (m : Option (List AnyType))
      → P t
      → OnList P m
      → OnList P (m >>= λ ts. some (t ∷ ts))
  OnList-cons t none h k = tt
  OnList-cons t (some ts) h k = (h, k)

  fill_params-All :
      (ss : List VarSymbol) (ps : List AnyType)
      → All P (var_types ss)
      → All P ps
      → OnList P (fill_params ss ps)
  unfolding fill_params
  fill_params-All [] [] h k = tt
  fill_params-All [] (p ∷ ps) h k = tt
  fill_params-All (s ∷ ss) [] h k = elim (Bool-cases (is_template_type s.ty)) [
    | inl e ↦ rw (e, fill_params) tt
    | inr e ↦ rw (e, fill_params) (OnList-cons s.ty _ h.0 (fill_params-All ss [] h.1 k))
  ]
  fill_params-All (s ∷ ss) (p ∷ ps) h k = elim (Bool-cases (is_template_type s.ty)) [
    | inl e ↦ rw (e, fill_params) (OnList-cons p _ k.0 (fill_params-All ss ps h.1 k.1))
    | inr e ↦ rw (e, fill_params) (OnList-cons s.ty _ h.0 (fill_params-All ss (p ∷ ps) h.1 k))
  ]

-- The types of the instance variables are found, and fit.
module _ (S : Store) (P : AnyType → Type 0) where
  pub instance_var_types_total :
      (ref : ℕ) (ps : Types)
      → ClassFits S P ref (to_list ps)
      → (o : Option (List AnyType)) × (instance_var_types_of S ref ps ≡ some o) × OnList P o
  unfolding instance_var_types_of
  instance_var_types_total ref nil h = rw (h.found) (_, refl, h.vars)
  instance_var_types_total ref (cons p ps) h =
      rw (h.found) (_, refl, fill_params-All P h.scope.instance_var_symbols _ h.vars h.params)

module _ (S : Store) (f : ℕ) (rec : AnyType → AnyType → Option Bool)
    (total : (l r : AnyType) → Fits S f l → Fits S f r → HasValue (rec l r)) where
  optional_total :
      (a b : Option AnyType)
      → AllOptional (Fits S f) a
      → AllOptional (Fits S f) b
      → HasValue (equal_optional rec a b)
  optional_total none none h k = (true, refl)
  optional_total none (some y) h k = (false, refl)
  optional_total (some x) none h k = (false, refl)
  optional_total (some x) (some y) h k = total x y h k

  var_types_total :
      (ls rs : Option (List AnyType))
      → OnList (Fits S f) ls
      → OnList (Fits S f) rs
      → HasValue (equal_var_types rec ls rs)
  var_types_total none none h k = (false, refl)
  var_types_total none (some y) h k = (false, refl)
  var_types_total (some x) none h k = (false, refl)
  var_types_total (some x) (some y) h k =
      HasValue-equal _ (Fits S f)
        (λ l r hl hr.
          HasValue-if (is_template_type l && is_template_type r) _ _ (λ _. (true, refl))
            (λ _. total l r hl hr))
        x y h k

  step_total :
      (l r : AnyType) → Fits S (suc f) l → Fits S (suc f) r → HasValue (equal_step S rec l r)
  unfolding equal_class
  step_total (class_type n ref ps) (class_type m ref' qs) h k =
      HasValue-if (str_eq n m) _ _ (λ _. classes) (λ _. (false, refl))
    where
      classes : HasValue (
          instance_var_types_of S ref ps >>= λ ls.
          instance_var_types_of S ref' qs >>= λ rs. equal_var_types rec ls rs)
      classes =
          let (ls, e, l) = instance_var_types_total S (Fits S f) ref ps h in
          let (rs, e', r) = instance_var_types_total S (Fits S f) ref' qs k in
          rw (e, e') (var_types_total ls rs l r)
  step_total (tuple_type ts) (tuple_type us) h k = HasValue-equal rec (Fits S f) total _ _ h k
  step_total (func_type ps r b) (func_type qs r' b') h k =
      HasValue-bind _ _ (HasValue-equal rec (Fits S f) total _ _ h.0 k.0) (λ same _.
        HasValue-if same _ _ (λ _. optional_total (to_option r) (to_option r') h.1 k.1)
          (λ _. (false, refl)))
  step_total (array_type t n) (array_type u m) h k =
      HasValue-bind _ _ (total t u h k)
        (λ same _. HasValue-if same _ _ (λ _. (_, refl)) (λ _. (false, refl)))
  step_total (pointer_type t) (pointer_type u) h k = total t u h k
  step_total (qualified_type q t) (qualified_type q' u) h k = total t u h k
  step_total empty empty h k = (true, refl)
  step_total (builtin_type n) (builtin_type m) h k = (_, refl)
  step_total (generic_func_type a) (generic_func_type b) h k = (_, refl)
  step_total (template_type a) (template_type b) h k = (_, refl)
  step_total _ _ h k = (false, refl)

pub type_eq_total :
    (S : Store) (f : ℕ) (l r : AnyType) → Fits S f l → Fits S f r → HasValue (type_eq S f l r)
unfolding type_eq
type_eq_total S zero l r h k = absurd h
type_eq_total S (suc f) l r h k = step_total S f (type_eq S f) (type_eq_total S f) l r h k

-- In a store where the instance variables of each class have types written with earlier
-- classes, nested less than `H` deep, the comparison of two types that are nested less than
-- `h` deep ends, within a depth of `H` for each class and `h`.
pub type_eq-ranked :
    (S : Store) (H h : ℕ) (l r : AnyType)
    → IsRanked S H
    → Sized (length S) h l
    → Sized (length S) h r
    → HasValue (type_eq S (length S * H + h) l r)
type_eq-ranked S H h l r ranked sl sr =
    type_eq_total S _ l r (Sized-Fits S H ranked _ (length S) h l (omega arith) (omega arith) sl)
      (Sized-Fits S H ranked _ (length S) h r (omega arith) (omega arith) sr)

equal-first_none :
    (p : AnyType → AnyType → Option Bool) (x : AnyType) (xs : List AnyType)
    → p x x ≡ none
    → equal p (x ∷ xs) (x ∷ xs) ≡ none
equal-first_none p x xs h = rw ((==_iff (length (x ∷ xs)) (length (x ∷ xs))).1 refl, h) refl

equal_class-none :
    (S : Store) (rec : AnyType → AnyType → Option Bool) (k : ℕ) (n : String) (c : ClassScope)
    (v : VarSymbol) (vs : List VarSymbol)
    → lock S k ≡ some c
    → c.instance_var_symbols ≡ v ∷ vs
    → is_template_type v.ty ≡ false
    → rec v.ty v.ty ≡ none
    → equal_class S rec n k nil n k nil ≡ none
unfolding equal_class instance_var_types_of
equal_class-none S rec k n c v vs e e' plain h =
    rw (eq_refl n, e, e') (equal-first_none (equal_var rec) v.ty (var_types vs) (rw (plain, h)))

-- The comparison of a class with itself has no value at any fuel if the class's first instance
-- variable is of the class itself or a pointer to it.
pub type_eq-cyclic :
    (S : Store) (f k : ℕ) (n : String) (c : ClassScope) (v : VarSymbol) (vs : List VarSymbol)
    → lock S k ≡ some c
    → c.instance_var_symbols ≡ v ∷ vs
    → (v.ty ≡ class_type n k nil) ⊎ (v.ty ≡ pointer_type (class_type n k nil))
    → type_eq S f (class_type n k nil) (class_type n k nil) ≡ none
unfolding type_eq
type_eq-cyclic S zero k n c v vs e e' h = refl
type_eq-cyclic S (suc f) k n c v vs e e' (inl h) =
    equal_class-none S (type_eq S f) k n c v vs e e' (rw h)
      (rw h (type_eq-cyclic S f k n c v vs e e' (inl h)))
type_eq-cyclic S (suc zero) k n c v vs e e' (inr h) =
    equal_class-none S (type_eq S zero) k n c v vs e e' (rw h) refl
type_eq-cyclic S (suc (suc f)) k n c v vs e e' (inr h) =
    equal_class-none S (type_eq S (suc f)) k n c v vs e e' (rw h)
      (rw h (type_eq-cyclic S f k n c v vs e e' (inr h)))
