-- ===== src/Scope/Constructors.antt =====
-- src/dachs/semantics/tmp_constructor_checker.hpp: `ctor_checker`, which checks the construction
-- of static arrays and pointers, and fills in the size and the element type of the array.
pub mod Laws
use dachs.Base.{
  ℕ, Bool, true, false, not, ◌&&◌, if◌then◌else◌, Option, none, some, List, [], ◌∷◌, length,
  is_empty, leb, ltb, ◌==◌, ◌>>=◌,
}
use dachs.Types.{AnyType, array_type, pointer_type, Store, FuncScope}
use dachs.Types.Predicates.{is_builtin_named}
use dachs.Types.Equality.{type_eq}
use dachs.Types.Template.{is_template}
use dachs.Overload.{is_set}
use dachs.Scope.Members.{is_default_constructible}

-- An argument: its type, and what it is a literal of.
pub data Literal : Type 0 where
  not_literal : Literal
  uint_literal : ℕ → Literal
  other_literal : Literal

pub record Argument : Type 0 where
  pub literal : Literal
  pub ty : AnyType

-- The errors, by their messages.
pub data CtorError : Type 0 where
  invalid_arguments not_constant_uint out_of_bounds undetermined_element : CtorError
  not_constructible mismatched_element invalid_copier invalid_pointee mismatched_argument :
      CtorError

-- The type of the array after the check, and the error if there is one.
pub record Checked : Type 0 where
  pub element_type : AnyType
  pub size : Option ℕ
  pub error : Option CtorError

abbrev pub as_uint : Literal → Option ℕ
as_uint (uint_literal n) = some n
as_uint _ = none

-- `a->size && *a->size <= n`
abbrev pub is_too_large : Option ℕ → ℕ → Bool
is_too_large none n = false
is_too_large (some size) n = leb size n

abbrev pub first_argument : List Argument → Option Argument
first_argument [] = none
first_argument (a ∷ as') = some a

-- The store, the fuel and the functions that the tests on types read, and `resolve_deep_copy` of
-- the emitter, on types.
pub record Checker : Type 0 where
  pub store : Store
  pub fuel : ℕ
  pub functions : List FuncScope
  pub resolve_deep_copy : AnyType → Bool

-- The branch for one argument
unfoldable pub check_one : Checker → AnyType → Option ℕ → Option Checked
check_one k elem size = do
  template ← is_template k.store k.fuel elem
  elim template [
    | true ↦ some (record { element_type = elem; size = size; error = some undetermined_element })
    | false ↦ (do
      done ← is_default_constructible k.store k.fuel k.functions elem
      some (record {
        element_type = elem;
        size = size;
        error = if done then none else some not_constructible;
      }))
  ]

-- The element type that the branch for two arguments sets, or the error.
unfoldable pub second_type : Checker → AnyType → AnyType → Option (Option AnyType)
second_type k elem arg = do
  template ← is_template k.store k.fuel elem
  elim template [
    | true ↦ some (some arg)
    | false ↦ (do same ← type_eq k.store k.fuel arg elem; some (if same then some elem else none))
  ]

-- The branch for two arguments
unfoldable pub check_two : Checker → AnyType → AnyType → Option ℕ → Option Checked
unfolding second_type
check_two k elem arg size = do
  new_elem ← second_type k elem arg
  some (elim new_elem [
    | none ↦ record { element_type = elem; size = size; error = some mismatched_element }
    | some e ↦ record {
      element_type = e;
      size = size;
      error = if k.resolve_deep_copy arg then none else some invalid_copier;
    }
  ])

abbrev pub check_rest : Checker → AnyType → Option ℕ → List Argument → Option Checked
check_rest k elem size (a ∷ []) = check_one k elem size
check_rest k elem size (a ∷ b ∷ []) = check_two k elem b.ty size
check_rest k elem size _ = some (record { element_type = elem; size = size; error = none })

-- From the test on the size on, with its result.
abbrev pub check_bounds : Checker → AnyType → Option ℕ → List Argument → ℕ → Bool → Option Checked
check_bounds k elem size args n true =
    some (record { element_type = elem; size = size; error = some out_of_bounds })
check_bounds k elem size args n false = check_rest k elem (some n) args

-- From the first argument on, with the constant that it is.
abbrev pub check_constant : Checker → AnyType → Option ℕ → List Argument → Option ℕ → Option Checked
check_constant k elem size args none =
    some (record { element_type = elem; size = size; error = some not_constant_uint })
check_constant k elem size args (some n) = check_bounds k elem size args n (is_too_large size n)

-- There is no first argument where the array has a template for its elements and the constructor
-- no argument: it is read past the end.
unfoldable pub check_sized : Checker → AnyType → Option ℕ → List Argument → Option Checked
unfolding check_one check_two
check_sized k elem size args = do
  first ← first_argument args
  check_constant k elem size args (as_uint first.literal)

-- `ctor_checker` on an array
unfoldable pub check_array : Checker → AnyType → Option ℕ → List Argument → Option Checked
unfolding check_sized
check_array k elem size args =
    if ltb 2 (length args)
    then some (record { element_type = elem; size = size; error = some invalid_arguments })
    else (do
      template ← (if is_empty args then is_template k.store k.fuel elem else some true)
      elim template [
        | false ↦ some (record { element_type = elem; size = size; error = none })
        | true ↦ check_sized k elem size args
      ])

-- `ctor_checker` on a pointer: the error
unfoldable pub check_pointer : Checker → AnyType → List Argument → Option (Option CtorError)
check_pointer k pointee (a ∷ []) = do
  template ← (if is_set a.ty then is_template k.store k.fuel pointee else some true)
  some (
      if template
      then some invalid_pointee
      else if is_builtin_named "uint" a.ty
      then none
      else some mismatched_argument)
check_pointer k pointee _ = some (some invalid_arguments)
