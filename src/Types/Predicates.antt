-- ===== src/Types/Predicates.antt =====
-- src/dachs/semantics/type.hpp and type.cpp: the builtin types, and what is asked of a type
-- without following it further.
use dachs.Base.{
  ℕ, String, str_eq, Bool, true, false, not, ◌&&◌, if◌then◌else◌, Option, none, some, List, [], ◌∷◌,
  length, is_empty, any_b, ◌>>=◌, ◌>>◌, require, ◌==◌,
}
use dachs.Types.{
  AnyType, builtin_type, class_type, tuple_type, func_type, pointer_type, to_list, nil, VarSymbol,
  Store, lock,
}

abbrev pub builtin_types : List String
builtin_types = "int" ∷ "uint" ∷ "float" ∷ "char" ∷ "bool" ∷ "symbol" ∷ []

-- `get_builtin_type`
unfoldable pub get_builtin_type : String → Option AnyType
get_builtin_type name =
    if any_b (λ t. str_eq t name) builtin_types then some (builtin_type name) else none

abbrev pub get_unit_type : AnyType
get_unit_type = tuple_type nil

unfoldable pub is_unit : AnyType → Bool
is_unit (tuple_type ts) = is_empty (to_list ts)
is_unit t = false

unfoldable pub is_array_class : AnyType → Bool
is_array_class (class_type n ref ps) = str_eq n "array"
is_array_class t = false

unfoldable pub is_string_class : AnyType → Bool
is_string_class (class_type n ref ps) = str_eq n "string"
is_string_class t = false

-- `is_builtin`, without a name and with one
unfoldable pub is_builtin : AnyType → Bool
is_builtin (builtin_type n) = true
is_builtin (func_type ps r b) = true
is_builtin t = false

unfoldable pub is_builtin_named : String → AnyType → Bool
is_builtin_named name (builtin_type n) = str_eq n name
is_builtin_named name t = false

abbrev pub is_pointer : AnyType → Bool
is_pointer (pointer_type t) = true
is_pointer t = false

unfoldable pub is_aggregate : AnyType → Bool
unfolding is_builtin
is_aggregate t = not (is_builtin t) && not (is_pointer t)

-- `get<pointer_type>`
abbrev pub as_pointer : AnyType → Option AnyType
as_pointer (pointer_type t) = some (pointer_type t)
as_pointer t = none

-- The type of the first of `n` instance variables, if it is a pointer.
abbrev pub first_of : ℕ → List VarSymbol → Option AnyType
first_of n [] = none
first_of n (v ∷ vs) = if length (v ∷ vs) == n then as_pointer v.ty else none

-- What stands for an array class: its parameter, or the buffer of its three variables.
abbrev pub array_buffer : Store → ℕ → List AnyType → Option AnyType
array_buffer S ref (p ∷ []) = as_pointer p
array_buffer S ref [] = lock S ref >>= λ c. first_of 3 c.instance_var_symbols
array_buffer S ref _ = none

unfoldable pub get_array_underlying_type : Store → AnyType → Option AnyType
get_array_underlying_type S (class_type n ref ps) =
    if str_eq n "array" then array_buffer S ref (to_list ps) else none
get_array_underlying_type S t = none

-- The outer `none` is the failed assertion that a string class has no parameters.
unfoldable pub get_string_underlying_type : Store → AnyType → Option (Option AnyType)
get_string_underlying_type S (class_type n ref ps) =
    if str_eq n "string"
    then (do
      require (is_empty (to_list ps))
      some (lock S ref >>= λ c. first_of 2 c.instance_var_symbols))
    else some none
get_string_underlying_type S t = some none
