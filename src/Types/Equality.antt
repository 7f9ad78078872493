-- ===== src/Types/Equality.antt =====
-- src/dachs/semantics/type.hpp and type.cpp: `operator==` of the types, and the types of a
-- class's instance variables. The fuel bounds the depth of the calls, which follow the
-- instance variables of the classes and so need not end.
pub mod Laws
pub mod Fuel
pub mod Reflexive
pub mod Total
use dachs.Base.{
  ℕ, zero, suc, String, str_eq, ◌==◌, Bool, true, false, if◌then◌else◌, ◌&&◌, Option, none, some,
  List, [], ◌∷◌, map, is_empty, ◌>>=◌, equal, equal_optional,
}
use dachs.Types.{
  AnyType, empty, builtin_type, class_type, tuple_type, func_type, generic_func_type, array_type,
  pointer_type, qualified_type, template_type, Types, to_list, to_option, is_template_type,
  VarSymbol, Store, lock,
}

abbrev pub var_types : List VarSymbol → List AnyType
var_types = map (λ s. s.ty)

-- The loop over the instance variables that puts the parameters in the places of the templates:
-- `none` where there are too few or too many.
unfoldable pub fill_params : List VarSymbol → List AnyType → Option (List AnyType)
fill_params [] ps = if is_empty ps then some [] else none
fill_params (s ∷ ss) ps = elim (is_template_type s.ty) [
  | true ↦ elim ps [ [] ↦ none | q ∷ qs ↦ (do ts ← fill_params ss qs; some (q ∷ ts)) ]
  | false ↦ (do ts ← fill_params ss ps; some (s.ty ∷ ts))
]

-- The inner `none` is the function's own result `boost::none`.
unfoldable pub instance_var_types_of : Store → ℕ → Types → Option (Option (List AnyType))
unfolding fill_params
instance_var_types_of S ref params = do
  scope ← lock S ref
  let ps = to_list params
  some (
      if is_empty ps
      then some (var_types scope.instance_var_symbols)
      else fill_params scope.instance_var_symbols ps)

-- A round of the loop of `class_type::operator==`: two templates pass.
abbrev pub equal_var : (AnyType → AnyType → Option Bool) → AnyType → AnyType → Option Bool
equal_var rec l r = if is_template_type l && is_template_type r then some true else rec l r

abbrev pub equal_var_types :
    (AnyType → AnyType → Option Bool) → Option (List AnyType) → Option (List AnyType) → Option Bool
equal_var_types rec (some ls) (some rs) = equal (equal_var rec) ls rs
equal_var_types rec _ _ = some false

unfoldable pub equal_class :
    Store
    → (AnyType → AnyType → Option Bool)
    → String
    → ℕ
    → Types
    → String
    → ℕ
    → Types
    → Option Bool
unfolding instance_var_types_of
equal_class S rec n ref ps m ref' qs =
    if str_eq n m
    then (do
      ls ← instance_var_types_of S ref ps
      rs ← instance_var_types_of S ref' qs
      equal_var_types rec ls rs)
    else some false

abbrev pub equal_ref : Option ℕ → Option ℕ → Bool
equal_ref none none = true
equal_ref (some a) (some b) = a == b
equal_ref _ _ = false

-- `any_type::operator==` with the `operator==` of each node, `rec` for the calls on parts. The
-- nodes of two kinds, and any two templates, are unequal.
abbrev pub equal_step : Store → (AnyType → AnyType → Option Bool) → AnyType → AnyType → Option Bool
equal_step S rec empty empty = some true
equal_step S rec (builtin_type n) (builtin_type m) = some (str_eq n m)
equal_step S rec (class_type n ref ps) (class_type m ref' qs) = equal_class S rec n ref ps m ref' qs
equal_step S rec (tuple_type ts) (tuple_type us) = equal rec (to_list ts) (to_list us)
equal_step S rec (func_type ps r b) (func_type qs r' b') = do
  same ← equal rec (to_list ps) (to_list qs)
  if same then equal_optional rec (to_option r) (to_option r') else some false
equal_step S rec (generic_func_type a) (generic_func_type b) = some (equal_ref a b)
equal_step S rec (array_type t n) (array_type u m) = do
  same ← rec t u
  if same then some (equal_ref n m) else some false
equal_step S rec (pointer_type t) (pointer_type u) = rec t u
equal_step S rec (qualified_type q t) (qualified_type q' u) = rec t u
equal_step S rec _ _ = some false

-- `l == r`.
unfoldable pub type_eq : Store → ℕ → AnyType → AnyType → Option Bool
unfolding equal_class
type_eq S zero l r = none
type_eq S (suc fuel) l r = equal_step S (type_eq S fuel) l r
