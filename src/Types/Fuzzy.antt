-- ===== src/Types/Fuzzy.antt =====
-- src/dachs/semantics/type.cpp: `fuzzy_matcher`, which takes a template for any type. Fuel as in
-- `Equality`.
pub mod Laws
use dachs.Base.{
  ℕ, zero, suc, String, str_eq, ◌==◌, Bool, true, false, if◌then◌else◌, Option, none, some, List,
  ◌>>=◌, equal, and_then,
}
use dachs.Types.{
  AnyType, empty, builtin_type, class_type, tuple_type, func_type, generic_func_type, array_type,
  pointer_type, qualified_type, template_type, Types, to_list, to_option, Store,
}
use dachs.Types.Equality.{instance_var_types_of, equal_ref}

abbrev pub match_var_types :
    (AnyType → AnyType → Option Bool) → Option (List AnyType) → Option (List AnyType) → Option Bool
match_var_types rec (some ls) (some rs) = equal rec ls rs
match_var_types rec _ _ = some false

unfoldable pub match_class :
    Store
    → (AnyType → AnyType → Option Bool)
    → String
    → ℕ
    → Types
    → String
    → ℕ
    → Types
    → Option Bool
unfolding instance_var_types_of
match_class S rec n ref ps m ref' qs =
    if str_eq n m
    then (do
      ls ← instance_var_types_of S ref ps
      rs ← instance_var_types_of S ref' qs
      match_var_types rec ls rs)
    else some false

abbrev pub match_returns :
    (AnyType → AnyType → Option Bool) → Option Bool → Option AnyType → Option AnyType → Option Bool
match_returns rec params (some l) (some r) = and_then params (rec l r)
match_returns rec params none none = params
match_returns rec params _ _ = some false

-- `apply`, with the `operator()` that takes the two nodes, `rec` for the calls on parts.
abbrev pub match_step : Store → (AnyType → AnyType → Option Bool) → AnyType → AnyType → Option Bool
match_step S rec empty r = some false
match_step S rec l empty = some false
match_step S rec (template_type a) r = some true
match_step S rec l (template_type b) = some true
match_step S rec (class_type n ref ps) (class_type m ref' qs) = match_class S rec n ref ps m ref' qs
match_step S rec (tuple_type ts) (tuple_type us) = equal rec (to_list ts) (to_list us)
match_step S rec (func_type ps r b) (func_type qs r' b') =
    match_returns rec (equal rec (to_list ps) (to_list qs)) (to_option r) (to_option r')
match_step S rec (array_type t n) (array_type u m) = and_then (rec t u) (some (equal_ref n m))
match_step S rec (pointer_type t) (pointer_type u) = rec t u
match_step S rec (qualified_type q t) (qualified_type q' u) = rec t u
match_step S rec (builtin_type n) (builtin_type m) = some (str_eq n m)
match_step S rec (generic_func_type a) (generic_func_type b) = some (equal_ref a b)
match_step S rec l r = some false

-- `fuzzy_match`
unfoldable pub fuzzy_match : Store → ℕ → AnyType → AnyType → Option Bool
unfolding match_class
fuzzy_match S zero l r = none
fuzzy_match S (suc fuel) l r = match_step S (fuzzy_match S fuel) l r
