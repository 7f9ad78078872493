-- ===== src/Types/Template.antt =====
-- src/dachs/semantics/type.cpp and scope.hpp: which types are templates. Fuel as in `Equality`.
pub mod Total
use dachs.Base.{
  ℕ, zero, suc, Bool, true, false, if◌then◌else◌, Option, none, some, List, is_empty, ◌>>=◌, any_of,
}
use dachs.Types.{
  AnyType, class_type, array_type, pointer_type, template_type, Types, to_list, Store, lock,
}
use dachs.Types.Equality.{var_types}

-- `class_type::is_template`, with `class_scope::is_template` on the instance variables.
unfoldable pub class_is_template : Store → (AnyType → Option Bool) → ℕ → Types → Option Bool
class_is_template S rec ref params =
    if is_empty (to_list params)
    then (do scope ← lock S ref; any_of rec (var_types scope.instance_var_symbols))
    else any_of rec (to_list params)

abbrev pub template_step : Store → (AnyType → Option Bool) → AnyType → Option Bool
template_step S rec (class_type n ref ps) = class_is_template S rec ref ps
template_step S rec (array_type t n) = rec t
template_step S rec (pointer_type t) = rec t
template_step S rec (template_type a) = some true
template_step S rec _ = some false

-- `any_type::is_template`
unfoldable pub is_template : Store → ℕ → AnyType → Option Bool
unfolding class_is_template
is_template S zero t = none
is_template S (suc fuel) t = template_step S (is_template S fuel) t

-- `any_type::is_class_template`
unfoldable pub is_class_template : Store → ℕ → AnyType → Option Bool
is_class_template S zero t = none
is_class_template S (suc fuel) (array_type t n) = is_class_template S fuel t
is_class_template S (suc fuel) (class_type n ref ps) =
    if is_empty (to_list ps)
    then (do scope ← lock S ref; any_of (is_template S fuel) (var_types scope.instance_var_symbols))
    else any_of (is_class_template S fuel) (to_list ps)
is_class_template S (suc fuel) t = some false
