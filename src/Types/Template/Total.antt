-- ===== src/Types/Template/Total.antt =====
-- The tests for templates give values on types whose expansion ends, and more fuel keeps them.
use dachs.Base.{ℕ, zero, suc, ◌≤◌, refl, Bool, true, false, Option, is_empty, arith}
use dachs.Base.Defined.{
  HasValue, HasValue-if, HasValue-any_of, Grows, Grows-refl, Grows-bind, Grows-if, Grows-any_of,
  Grows-le,
}
use dachs.Types.{
  AnyType, empty, class_type, array_type, pointer_type, template_type, Types, to_list, Store, lock,
}
use dachs.Types.Equality.{var_types}
use dachs.Types.Finite.{Fits, ClassFits}
use dachs.Types.Template.{class_is_template, template_step, is_template, is_class_template}

module _ (S : Store) (P : AnyType → Type 0) (rec : AnyType → Option Bool)
    (total : (t : AnyType) → P t → HasValue (rec t)) where
  class_is_template_total :
      (ref : ℕ) (ps : Types)
      → ClassFits S P ref (to_list ps)
      → HasValue (class_is_template S rec ref ps)
  unfolding class_is_template
  class_is_template_total ref ps h =
      HasValue-if (is_empty (to_list ps)) _ _
        (λ _. rw (h.found) (HasValue-any_of rec P total _ h.vars))
        (λ _. HasValue-any_of rec P total _ h.params)

pub is_template_total :
    (S : Store) (f : ℕ) (t : AnyType) → Fits S f t → HasValue (is_template S f t)
unfolding is_template
is_template_total S zero t h = absurd h
is_template_total S (suc f) (class_type n ref ps) h =
    class_is_template_total S (Fits S f) (is_template S f) (is_template_total S f) ref ps h
is_template_total S (suc f) (array_type t n) h = is_template_total S f t h
is_template_total S (suc f) (pointer_type t) h = is_template_total S f t h
is_template_total S (suc f) (template_type a) h = (true, refl)
is_template_total S (suc f) empty h = (false, refl)
is_template_total S (suc f) _ h = (false, refl)

-- If the expansion of a type ends within a depth, the test for class templates has a value at
-- that fuel.
pub is_class_template_total :
    (S : Store) (f : ℕ) (t : AnyType) → Fits S f t → HasValue (is_class_template S f t)
unfolding is_class_template
is_class_template_total S zero t h = absurd h
is_class_template_total S (suc f) (class_type n ref ps) h =
    HasValue-if (is_empty (to_list ps)) _ _
      (λ _. rw (h.found) (HasValue-any_of _ (Fits S f) (is_template_total S f) _ h.vars))
      (λ _. HasValue-any_of _ (Fits S f) (is_class_template_total S f) _ h.params)
is_class_template_total S (suc f) (array_type t n) h = is_class_template_total S f t h
is_class_template_total S (suc f) empty h = (false, refl)
is_class_template_total S (suc f) _ h = (false, refl)

module _ (S : Store) (rec rec' : AnyType → Option Bool)
    (grows : (t : AnyType) → Grows (rec t) (rec' t)) where
  Grows-class_is_template :
      (ref : ℕ) (ps : Types)
      → Grows (class_is_template S rec ref ps) (class_is_template S rec' ref ps)
  unfolding class_is_template
  Grows-class_is_template ref ps =
      Grows-if (is_empty (to_list ps)) _ _ _ _
        (Grows-bind (lock S ref) (lock S ref) _ _ (Grows-refl _)
          (λ scope. Grows-any_of rec rec' grows (var_types scope.instance_var_symbols)))
        (Grows-any_of rec rec' grows (to_list ps))

  Grows-template_step : (t : AnyType) → Grows (template_step S rec t) (template_step S rec' t)
  Grows-template_step (class_type n ref ps) = Grows-class_is_template ref ps
  Grows-template_step (array_type t n) = grows t
  Grows-template_step (pointer_type t) = grows t
  Grows-template_step empty = Grows-refl _
  Grows-template_step _ = Grows-refl _

is_template-suc :
    (S : Store) (f : ℕ) (t : AnyType) → Grows (is_template S f t) (is_template S (suc f) t)
unfolding is_template
is_template-suc S zero t = λ a e. ground arith
is_template-suc S (suc f) t = Grows-template_step S _ _ (is_template-suc S f) t

pub is_template-le :
    (S : Store) (f g : ℕ) (t : AnyType) → f ≤ g → Grows (is_template S f t) (is_template S g t)
is_template-le S f g t = Grows-le (λ n. is_template S n t) (λ n. is_template-suc S n t) f g
