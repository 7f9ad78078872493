-- ===== src/Types/Equality/Fuel.antt =====
-- More fuel does not change the result of `==`.
use dachs.Base.{ℕ, zero, suc, String, str_eq, ◌≡◌, Bool, Option, none, some, List, arith, ◌≤◌, ◌&&◌}
use dachs.Base.Defined.{
  Grows, Grows-refl, Grows-bind, Grows-if, Grows-equal, Grows-equal_optional, Grows-le,
}
use dachs.Types.{
  AnyType, empty, builtin_type, class_type, tuple_type, func_type, generic_func_type, array_type,
  pointer_type, qualified_type, template_type, Types, to_list, to_option, is_template_type, Store,
}
use dachs.Types.Equality.{type_eq, equal_step, equal_class, equal_var_types, instance_var_types_of}

module _ (S : Store) (rec rec' : AnyType → AnyType → Option Bool)
    (grows : (l r : AnyType) → Grows (rec l r) (rec' l r)) where
  Grows-equal_var_types :
      (ls rs : Option (List AnyType))
      → Grows (equal_var_types rec ls rs) (equal_var_types rec' ls rs)
  Grows-equal_var_types none none = Grows-refl _
  Grows-equal_var_types none (some rs) = Grows-refl _
  Grows-equal_var_types (some ls) none = Grows-refl _
  Grows-equal_var_types (some ls) (some rs) =
      Grows-equal _ _
        (λ l r.
          Grows-if (is_template_type l && is_template_type r) _ _ _ _ (Grows-refl _) (grows l r))
        ls rs

  Grows-equal_class :
      (n : String) (ref : ℕ) (ps : Types) (m : String) (ref' : ℕ) (qs : Types)
      → Grows (equal_class S rec n ref ps m ref' qs) (equal_class S rec' n ref ps m ref' qs)
  unfolding equal_class
  Grows-equal_class n ref ps m ref' qs =
      Grows-if (str_eq n m) _ _ _ _
        (Grows-bind _ _ _ _ (Grows-refl (instance_var_types_of S ref ps)) (λ ls.
          Grows-bind _ _ _ _ (Grows-refl (instance_var_types_of S ref' qs))
            (λ rs. Grows-equal_var_types ls rs)))
        (Grows-refl _)

  Grows-equal_step : (l r : AnyType) → Grows (equal_step S rec l r) (equal_step S rec' l r)
  Grows-equal_step (class_type n ref ps) (class_type m ref' qs) =
      Grows-equal_class n ref ps m ref' qs
  Grows-equal_step (tuple_type ts) (tuple_type us) = Grows-equal _ _ grows (to_list ts) (to_list us)
  Grows-equal_step (func_type ps r b) (func_type qs r' b') =
      Grows-bind _ _ _ _ (Grows-equal _ _ grows (to_list ps) (to_list qs)) (λ same.
        Grows-if same _ _ _ _ (Grows-equal_optional _ _ grows (to_option r) (to_option r'))
          (Grows-refl _))
  Grows-equal_step (array_type t n) (array_type u m) =
      Grows-bind _ _ _ _ (grows t u) (λ same. Grows-refl _)
  Grows-equal_step (pointer_type t) (pointer_type u) = grows t u
  Grows-equal_step (qualified_type q t) (qualified_type q' u) = grows t u
  Grows-equal_step empty empty = Grows-refl _
  Grows-equal_step (builtin_type n) (builtin_type m) = Grows-refl _
  Grows-equal_step (generic_func_type a) (generic_func_type b) = Grows-refl _
  Grows-equal_step (template_type a) (template_type b) = Grows-refl _
  Grows-equal_step _ _ = Grows-refl _

type_eq-suc :
    (S : Store) (fuel : ℕ) (l r : AnyType) → Grows (type_eq S fuel l r) (type_eq S (suc fuel) l r)
unfolding type_eq
type_eq-suc S zero l r = λ a e. ground arith
type_eq-suc S (suc fuel) l r = Grows-equal_step S _ _ (type_eq-suc S fuel) l r

-- A value that `l == r` gives at some fuel, it gives at every larger one.
pub type_eq-le :
    (S : Store) (f g : ℕ) (l r : AnyType) {a : Bool}
    → f ≤ g
    → type_eq S f l r ≡ some a
    → type_eq S g l r ≡ some a
type_eq-le S f g l r {a} le e =
    Grows-le (λ n. type_eq S n l r) (λ n. type_eq-suc S n l r) f g le a e
