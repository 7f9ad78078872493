-- ===== src/Forward.antt =====
-- src/dachs/semantics/forward_analyzer_impl.hpp: the checks of functions, classes and casts after
-- all of them are defined. A check gives the number of the errors that it reports, of which there
-- are fewer than `2 ^ 64`; a message is not part of the result.
pub mod Distinct
pub mod Operators
pub mod Casts
pub mod Classes
use dachs.Base.{
  ℕ, zero, suc, ◌+◌, String, str_eq, Bool, true, false, not, ◌&&◌, ◌||◌, if◌then◌else◌, Option,
  none, some, List, [], ◌∷◌, ◌++◌, any_b, length, ◌==◌, ◌>>=◌, equal_optional,
}
use dachs.Types.{AnyType, FuncScope, Store, VarSymbol, is_template_type}
use dachs.Types.Equality.{type_eq}
use dachs.Types.Predicates.{is_aggregate}
use dachs.Scope.Functions.{func_eq, cast_from}

-- The inner loop, over the elements after `left`.
unfoldable pub count_right : {A : Type 0} → (A → A → Option Bool) → A → List A → Option ℕ
count_right same left [] = some 0
count_right same left (right ∷ rest) = do
  b ← same right left
  n ← count_right same left rest
  some (if b then suc n else n)

-- The two loops over all pairs, as each check for duplicates has them.
unfoldable pub count_pairs : {A : Type 0} → (A → A → Option Bool) → List A → Option ℕ
unfolding count_right
count_pairs same [] = some 0
count_pairs same (left ∷ rest) = do
  m ← count_right same left rest
  n ← count_pairs same rest
  some (m + n)

unfoldable pub check_functions_duplication : Store → ℕ → List FuncScope → Option ℕ
unfolding count_pairs
check_functions_duplication S fuel functions = count_pairs (func_eq S fuel) functions

-- The classes are given by their names.
unfoldable pub check_classes_duplication : List String → Option ℕ
unfolding count_pairs
check_classes_duplication classes = count_pairs (λ r l. some (str_eq r l)) classes

abbrev pub is_in : List String → String → Bool
is_in names op = any_b (str_eq op) names

abbrev pub unary_only : List String
unary_only = "~" ∷ "!" ∷ []

abbrev pub binary_only : List String
binary_only =
    ">>" ∷ "<<" ∷ "<=" ∷ ">=" ∷ "==" ∷ "!=" ∷ "&&" ∷ "||" ∷ "*" ∷ "/" ∷ "%" ∷ "<" ∷ ">" ∷ "&" ∷ "^"
    ∷ "|" ∷ "[]" ∷ []

abbrev pub ternary_only : List String
ternary_only = "[]=" ∷ []

abbrev pub unary_or_binary : List String
unary_or_binary = "+" ∷ "-" ∷ []

-- Whether a round of the loop of `check_operator_function_args` reports an error.
unfoldable pub is_wrong_arity : String → ℕ → Bool
is_wrong_arity name s =
    if is_in unary_only name && not (s == 1)
    then true
    else if is_in binary_only name && not (s == 2)
    then true
    else if is_in ternary_only name && not (s == 3)
    then true
    else is_in unary_or_binary name && (not (s == 1) && not (s == 2))

unfoldable pub check_operator_function_args : List FuncScope → ℕ
check_operator_function_args [] = 0
check_operator_function_args (f ∷ fs) =
    (if is_wrong_arity f.name (length f.params) then 1 else 0) + check_operator_function_args fs

-- The errors of the two tests on a cast function with one parameter.
abbrev pub cast_type_errors : AnyType → AnyType → ℕ
cast_type_errors param ret =
    (if is_template_type param then 1 else 0)
    + (if not (is_aggregate param) && not (is_aggregate ret) then 1 else 0)

abbrev pub cast_param_errors : List VarSymbol → AnyType → ℕ
cast_param_errors (p ∷ []) ret = cast_type_errors p.ty ret
cast_param_errors params ret = 1

-- A round of the first loop of `check_cast_funcs_duplication`
unfoldable pub cast_errors : FuncScope → Option ℕ
cast_errors f = do ret ← f.ret_type; some (cast_param_errors f.params ret)

-- The first loop
unfoldable pub count_cast_errors : List FuncScope → Option ℕ
unfolding cast_errors
count_cast_errors [] = some 0
count_cast_errors (f ∷ fs) = do m ← cast_errors f; n ← count_cast_errors fs; some (m + n)

-- The test of the second loop
unfoldable pub same_cast : Store → ℕ → FuncScope → FuncScope → Option Bool
same_cast S fuel r l = do
  rt ← cast_from r
  lt ← cast_from l
  same_param ← type_eq S fuel rt lt
  elim same_param [
    | true ↦ equal_optional (type_eq S fuel) r.ret_type l.ret_type
    | false ↦ some false
  ]

unfoldable pub check_cast_funcs_duplication : Store → ℕ → List FuncScope → Option ℕ
unfolding count_cast_errors count_pairs
check_cast_funcs_duplication S fuel cast_funcs = do
  failed ← count_cast_errors cast_funcs
  elim (failed == 0) [ false ↦ some failed | true ↦ count_pairs (same_cast S fuel) cast_funcs ]
