-- ===== src/Types/Instance.antt =====
-- src/dachs/semantics/type.cpp: which types are instances of a template, `instantiation_checker`
-- and `is_instantiated_from`. Fuel as in `Equality`.
pub mod Laws
use dachs.Base.{
  ℕ, zero, suc, String, str_eq, Bool, true, false, if◌then◌else◌, Option, none, some, List, ◌>>=◌,
  all_zipped, any_zipped, or_else, require, ◌>>◌, ◌==◌, length,
}
use dachs.Types.{
  AnyType, empty, builtin_type, class_type, tuple_type, func_type, generic_func_type, array_type,
  pointer_type, qualified_type, template_type, Types, to_list, to_option, Store,
}
use dachs.Types.Equality.{instance_var_types_of, equal_ref}
use dachs.Types.Template.{is_template}

-- `visit` on two optional types
abbrev pub visit_optional :
    (AnyType → AnyType → Option Bool) → Option AnyType → Option AnyType → Option Bool
visit_optional visit (some l) (some r) = visit l r
visit_optional visit none none = some true
visit_optional visit _ _ = some false

abbrev pub visit_var_types :
    (AnyType → AnyType → Option Bool) → Option (List AnyType) → Option (List AnyType) → Option Bool
visit_var_types visit (some ls) (some rs) = do
  require (length ls == length rs)
  all_zipped visit ls rs
visit_var_types visit _ _ = some false

unfoldable pub visit_class :
    Store
    → ℕ
    → (AnyType → AnyType → Option Bool)
    → String
    → ℕ
    → Types
    → String
    → ℕ
    → Types
    → Option Bool
unfolding instance_var_types_of
visit_class S fuel visit n ref ps m ref' qs =
    if str_eq n m
    then (do
      template ← is_template S fuel (class_type n ref ps)
      elim template [
        | true ↦ some false
        | false ↦ (do
          ls ← instance_var_types_of S ref ps
          rs ← instance_var_types_of S ref' qs
          visit_var_types visit ls rs)
      ])
    else some false

-- The overload of `operator()` that takes the two nodes. A null pointer is dereferenced where
-- only one of the last clauses would take it.
abbrev pub visit_step :
    Store → ℕ → (AnyType → AnyType → Option Bool) → AnyType → AnyType → Option Bool
visit_step S fuel visit l (template_type a) = some true
visit_step S fuel visit (class_type n ref ps) (class_type m ref' qs) =
    visit_class S fuel visit n ref ps m ref' qs
visit_step S fuel visit (tuple_type ts) (tuple_type us) = any_zipped visit (to_list ts) (to_list us)
visit_step S fuel visit (func_type ps r b) (func_type qs r' b') =
    or_else (visit_optional visit (to_option r) (to_option r'))
      (any_zipped visit (to_list ps) (to_list qs))
visit_step S fuel visit (array_type t n) (array_type u m) = visit t u
visit_step S fuel visit (pointer_type t) (pointer_type u) = visit t u
visit_step S fuel visit (qualified_type q t) (qualified_type q' u) = visit t u
visit_step S fuel visit (builtin_type n) (builtin_type m) = some (str_eq n m)
visit_step S fuel visit (generic_func_type a) (generic_func_type b) = some (equal_ref a b)
visit_step S fuel visit empty r = none
visit_step S fuel visit l empty = none
visit_step S fuel visit l r = some false

-- `instantiation_checker::visit` on two types
unfoldable pub visit : Store → ℕ → AnyType → AnyType → Option Bool
unfolding visit_class
visit S zero l r = none
visit S (suc fuel) l r = visit_step S fuel (visit S fuel) l r

-- The `is_instantiated_from` of each kind: the template must be one.
abbrev pub if_template : Option Bool → Option Bool → Option Bool
if_template template result = template >>= λ b. if b then result else some false

-- `any_type::is_instantiated_from`
unfoldable pub is_instantiated_from : Store → ℕ → AnyType → AnyType → Option Bool
unfolding visit
is_instantiated_from S fuel (array_type t n) (array_type u m) =
    if_template (is_template S fuel u) (visit S fuel (array_type t n) (array_type u m))
is_instantiated_from S fuel (class_type n ref ps) (class_type m ref' qs) =
    if_template (is_template S fuel (class_type m ref' qs))
      (visit S fuel (class_type n ref ps) (class_type m ref' qs))
is_instantiated_from S fuel (pointer_type t) (pointer_type u) =
    if_template (is_template S fuel u) (visit S fuel (pointer_type t) (pointer_type u))
is_instantiated_from S fuel l r = some false
