-- ===== src/Analyzer/Calls.antt =====
-- Calls of functions in src/dachs/semantics/analyzer.cpp: the resolution of a call, private
-- members, the compatibility of function types.
pub mod Laws
use dachs.Base.{
  ℕ, String, str_eq, Bool, true, false, not, Option, none, some, List, [], ◌∷◌, get_elem?, ◌>>=◌,
  ◌>>◌, require, if◌then◌else◌, equal,
}
use dachs.Types.{
  AnyType, class_type, Types, MaybeType, to_list, to_option, VarSymbol, ClassScope, FuncScope,
  Store,
}
use dachs.Types.Equality.{type_eq}
use dachs.Scope.{Scope, get_enclosing_func, resolve_func}
use dachs.Scope.Functions.{func_is_template}
use dachs.Scope.Members.{get_receiver_class_scope}

pub data CallError : Type 0 where
  not_found : CallError
  ambiguous : List FuncScope → CallError
  not_analyzed : FuncScope → CallError
  no_return_type : FuncScope → CallError
  private_member : FuncScope → CallError

pub data Resolved : Type 0 where
  resolved : FuncScope → Resolved
  oops : CallError → Resolved

-- The definitions of functions, as the resolution of a call uses them: whether a definition is
-- public, whether it has its return type, its analysis with the function after it, and the
-- instances of templates.
pub record Definitions : Type 0 where
  pub is_public : FuncScope → Bool
  pub has_return_type : FuncScope → Bool
  pub analyze : FuncScope → Option (Bool × FuncScope)
  pub instantiate : FuncScope → List AnyType → Option FuncScope
  pub instantiate_builtin : FuncScope → List AnyType → Option FuncScope

-- The name of the class of the first parameter
abbrev pub class_of_first : List VarSymbol → Option String
class_of_first [] = none
class_of_first (p ∷ ps) = elim p.ty [ class_type n ref qs ↦ some n | _ ↦ none ]

-- The comparison of the class that is around with the one of the member
abbrev pub has_name : String → Option ClassScope → Bool
has_name name none = false
has_name name (some c) = str_eq c.name name

-- `check_member_func_visibility`: whether the member function may be called
unfoldable pub check_member_func_visibility : Store → Scope → FuncScope → Option Bool
unfolding get_enclosing_func get_receiver_class_scope
check_member_func_visibility S current_scope member_func = do
  name ← class_of_first member_func.params
  f ← get_enclosing_func current_scope
  some (has_name name (get_receiver_class_scope S f.params))

-- `is_accessible_instance_var`
unfoldable pub is_accessible_instance_var : Store → Scope → ClassScope → VarSymbol → Option Bool
unfolding get_enclosing_func get_receiver_class_scope
is_accessible_instance_var S current_scope clazz var = elim var.is_public [
  | true ↦ some true
  | false ↦ (do
    f ← get_enclosing_func current_scope
    some (has_name clazz.name (get_receiver_class_scope S f.params)))
]

module _ (S : Store) (fuel : ℕ) (current_scope : Scope) (defs : Definitions) where
  -- The last test of `resolve_func_call`
  unfoldable pub check_accessible : FuncScope → Option Resolved
  unfolding check_member_func_visibility
  check_accessible f = elim (defs.is_public f) [
    | true ↦ some (resolved f)
    | false ↦ (do
      visible ← check_member_func_visibility S current_scope f
      some (if visible then resolved f else oops (private_member f)))
  ]

  -- After the analysis of the definition, if that was needed
  unfoldable pub check_return_type : FuncScope → Bool → Option Resolved
  unfolding check_accessible
  check_return_type f false = some (oops (not_analyzed f))
  check_return_type f true = elim f.ret_type [
    | none ↦ some (oops (no_return_type f))
    | some ret ↦ check_accessible f
  ]

  unfoldable pub resolve_user_func : FuncScope → Option Resolved
  unfolding check_return_type
  resolve_user_func f = elim (defs.has_return_type f) [
    | true ↦ check_return_type f true
    | false ↦ (do (success, analyzed) ← defs.analyze f; check_return_type analyzed success)
  ]

  -- A template that is instantiated, or the function itself
  abbrev pub instance_of :
      Bool
      → (FuncScope → List AnyType → Option FuncScope)
      → FuncScope
      → List AnyType
      → Option FuncScope
  instance_of true instantiate f args = instantiate f args
  instance_of false instantiate f args = some f

  unfoldable pub resolve_candidate : FuncScope → List AnyType → Option Resolved
  unfolding resolve_user_func
  resolve_candidate f args = do
    template ← func_is_template S fuel f
    elim f.is_builtin [
      | true ↦ (do
        ret ← f.ret_type
        g ← instance_of template defs.instantiate_builtin f args
        some (resolved g))
      | false ↦ (do g ← instance_of template defs.instantiate f args; resolve_user_func g)
    ]

  unfoldable pub resolve_only : List FuncScope → List AnyType → Option Resolved
  unfolding resolve_candidate
  resolve_only [] args = some (oops not_found)
  resolve_only (f ∷ []) args = resolve_candidate f args
  resolve_only (f ∷ g ∷ fs) args = some (oops (ambiguous (f ∷ g ∷ fs)))

  unfoldable pub resolve_func_call : String → List AnyType → Option Resolved
  unfolding resolve_only resolve_func
  resolve_func_call func_name arg_types = do
    candidates ← resolve_func S fuel func_name arg_types current_scope
    resolve_only candidates arg_types

-- `check_func_type_compatibility` of function types with the parameters and return types
abbrev pub check_params : Store → ℕ → List AnyType → List AnyType → Option Bool
check_params S fuel actual specified = equal (type_eq S fuel) actual specified

abbrev pub check_returns : Store → ℕ → Option AnyType → Option AnyType → Option Bool
check_returns S fuel (some specified) (some actual) = type_eq S fuel specified actual
check_returns S fuel _ _ = some true

unfoldable pub check_func_type_compatibility :
    Store → ℕ → Types → MaybeType → Types → MaybeType → Option Bool
unfolding type_eq
check_func_type_compatibility S fuel specified specified_ret actual actual_ret = do
  same ← check_returns S fuel (to_option specified_ret) (to_option actual_ret)
  elim same [ true ↦ check_params S fuel (to_list actual) (to_list specified) | false ↦ some false ]
