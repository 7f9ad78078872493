-- ===== src/Types/Equality/Reflexive.antt =====
-- Types that equal themselves.
use dachs.Base.{
  ℕ, zero, suc, eq_refl, ◌≡◌, refl, ◌⊎◌, inl, inr, Bool, true, Option, none, some, List, [], ◌∷◌,
  ==_iff, length, All, All-map, all_zipped, equal, equal_optional, arith,
}
use dachs.Types.{
  AnyType, empty, builtin_type, class_type, tuple_type, func_type, generic_func_type, array_type,
  pointer_type, qualified_type, template_type, Types, to_list, to_option, is_template_type, Store,
}
use dachs.Types.Finite.{AllOptional}
use dachs.Types.Equality.{
  type_eq, equal_step, equal_class, equal_ref, equal_var, instance_var_types_of,
}

-- The class has a type for each instance variable, and `P` holds of those that are no template.
pub record VarTypesAre (S : Store) (P : AnyType → Type 0) (ref : ℕ) (ps : Types) : Type 0 where
  pub types : List AnyType
  pub found : instance_var_types_of S ref ps ≡ some (some types)
  pub each : All (λ t. (is_template_type t ≡ true) ⊎ P t) types

abbrev ReflexiveStep : Store → (AnyType → Type 0) → AnyType → Type 0
ReflexiveStep S P (class_type n ref ps) = VarTypesAre S P ref ps
ReflexiveStep S P (tuple_type ts) = All P (to_list ts)
ReflexiveStep S P (func_type ps r b) = All P (to_list ps) × AllOptional P (to_option r)
ReflexiveStep S P (array_type t n) = P t
ReflexiveStep S P (pointer_type t) = P t
ReflexiveStep S P (qualified_type q t) = P t
ReflexiveStep S P (template_type a) = ⊥
ReflexiveStep S P _ = Unit

-- The expansion of the type ends within the depth, its classes have the template parameters that
-- they need, and a template stands in it only as the type of an instance variable.
abbrev pub IsReflexive : Store → ℕ → AnyType → Type 0
IsReflexive S zero t = ⊥
IsReflexive S (suc f) t = ReflexiveStep S (IsReflexive S f) t

module _ (p : AnyType → AnyType → Option Bool) where
  all_zipped_refl :
      (ts : List AnyType) → All (λ t. p t t ≡ some true) ts → all_zipped p ts ts ≡ some true
  all_zipped_refl [] h = refl
  all_zipped_refl (t ∷ ts) h = rw (h.0) (all_zipped_refl ts h.1)

  equal_refl : (ts : List AnyType) → All (λ t. p t t ≡ some true) ts → equal p ts ts ≡ some true
  equal_refl ts h = rw ((==_iff (length ts) (length ts)).1 refl) (all_zipped_refl ts h)

equal_ref_refl : (a : Option ℕ) → equal_ref a a ≡ true
equal_ref_refl none = refl
equal_ref_refl (some a) = (==_iff a a).1 refl

module _ (S : Store) (P : AnyType → Type 0) (rec : AnyType → AnyType → Option Bool)
    (refl_rec : (t : AnyType) → P t → rec t t ≡ some true) where
  equal_var_refl : (t : AnyType) → (is_template_type t ≡ true) ⊎ P t → equal_var rec t t ≡ some true
  equal_var_refl t (inl e) = rw e refl
  equal_var_refl t (inr h) = ground (arith, refl_rec t h)

  equal_optional_refl : (o : Option AnyType) → AllOptional P o → equal_optional rec o o ≡ some true
  equal_optional_refl none h = refl
  equal_optional_refl (some t) h = refl_rec t h

  equal_step_refl : (t : AnyType) → ReflexiveStep S P t → equal_step S rec t t ≡ some true
  unfolding equal_class
  equal_step_refl empty h = refl
  equal_step_refl (builtin_type n) h = rw (eq_refl n) refl
  equal_step_refl (class_type n ref ps) h =
      rw (eq_refl n, h.found)
        (equal_refl (equal_var rec) h.types (All-map equal_var_refl h.types h.each))
  equal_step_refl (tuple_type ts) h = equal_refl rec (to_list ts) (All-map refl_rec (to_list ts) h)
  equal_step_refl (func_type ps r b) h =
      rw (equal_refl rec (to_list ps) (All-map refl_rec (to_list ps) h.0))
        (equal_optional_refl (to_option r) h.1)
  equal_step_refl (generic_func_type a) h = rw (equal_ref_refl a) refl
  equal_step_refl (array_type t n) h = rw (refl_rec t h, equal_ref_refl n) refl
  equal_step_refl (pointer_type t) h = refl_rec t h
  equal_step_refl (qualified_type q t) h = refl_rec t h
  equal_step_refl (template_type a) h = absurd h

-- A type equals itself if its expansion ends within the fuel, its classes have the parameters
-- that they need, and a template stands in it only as the type of an instance variable.
pub type_eq_refl :
    (S : Store) (f : ℕ) (t : AnyType) → IsReflexive S f t → type_eq S f t t ≡ some true
unfolding type_eq
type_eq_refl S zero t h = absurd h
type_eq_refl S (suc f) t h =
    equal_step_refl S (IsReflexive S f) (type_eq S f) (type_eq_refl S f) t h
