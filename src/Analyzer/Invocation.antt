-- ===== src/Analyzer/Invocation.antt =====
-- Calls of values in src/dachs/semantics/analyzer.cpp: the visit of `func_invocation`, and a call
-- `foo.bar(...)` of an instance variable `bar`.
pub mod Redirect
pub mod Values
pub mod Laws
use dachs.Base.{
  ℕ, suc, String, str_eq, Bool, true, false, not, ◌||◌, ◌&&◌, ◌++◌, Option, none, some, List, [],
  ◌∷◌, map, length, ◌==◌, all_b, ◌>>=◌, ◌>>◌, require, if◌then◌else◌,
}
use dachs.Types.{
  AnyType, is_known, class_type, func_type, generic_func_type, Types, to_list, to_option, VarSymbol,
  FuncScope, Store, lock,
}
use dachs.Types.Equality.{type_eq}
use dachs.Scope.{Scope, resolve_instance_var}
use dachs.Scope.Functions.{func_is_template, is_main_func}
use dachs.ConstFunc.{Tree, is_const_func, is_const_violated_invocation}
use dachs.Analyzer.Calls.{CallError, Resolved, resolved, oops, Definitions, resolve_func_call}

-- An expression with its type, as the check for constness reads it
pub record CallArgument : Type 0 where
  pub expr : Tree
  pub ty : AnyType

-- The expression that is called, with its type. `instance_var_access` is the `ufcs_invocation`
-- that the visit makes.
pub data Callee : Type 0 where
  var_ref : String → AnyType → Callee
  instance_var_access : CallArgument → String → AnyType → Callee
  other_callee : AnyType → Callee

abbrev pub type_of_callee : Callee → AnyType
type_of_callee (var_ref name t) = t
type_of_callee (instance_var_access a name t) = t
type_of_callee (other_callee t) = t

abbrev pub set_type_of_callee : AnyType → Callee → Callee
set_type_of_callee u (var_ref name t) = var_ref name u
set_type_of_callee u (instance_var_access a name t) = instance_var_access a name u
set_type_of_callee u (other_callee t) = other_callee u

pub record FuncInvocation : Type 0 where
  pub child : Callee
  pub args : List CallArgument
  pub is_ufcs : Bool
  pub type_of_expr : AnyType
  pub callee_scope : Option FuncScope

pub data InvocationError : Type 0 where
  wrong_number : ℕ → ℕ → InvocationError
  mismatch : ℕ → AnyType → AnyType → InvocationError
  not_a_function : AnyType → InvocationError
  invalid_reference : InvocationError
  not_callable : CallError → InvocationError
  violates_const : FuncScope → VarSymbol → InvocationError
  calls_main : InvocationError

abbrev pub VisitedCall : Type 0
VisitedCall = FuncInvocation × List InvocationError

abbrev pub call_fails : FuncInvocation → InvocationError → VisitedCall
call_fails node e = (node, e ∷ [])

abbrev pub arg_types : List CallArgument → List AnyType
arg_types args = map (λ a. a.ty) args

-- `is_a<generic_func_type>`
abbrev pub is_generic_func_type : AnyType → Bool
is_generic_func_type (generic_func_type ref) = true
is_generic_func_type t = false

-- The access to the instance variable takes the place of the callee if its type is generic.
abbrev pub access_of :
    String → FuncInvocation → CallArgument → List CallArgument → Option VarSymbol → FuncInvocation
access_of name node receiver args none = node
access_of name node receiver args (some v) = elim (is_generic_func_type v.ty) [
  | true ↦ (record node { child = instance_var_access receiver name v.ty; args = args })
  | false ↦ node
]

-- The receiver is given by its type, too.
abbrev pub access_receiver :
    Store
    → AnyType
    → String
    → FuncInvocation
    → CallArgument
    → List CallArgument
    → Option FuncInvocation
access_receiver S (class_type n ref ps) name node receiver args = do
  receiver_class ← lock S ref
  some (access_of name node receiver args (resolve_instance_var name receiver_class))
access_receiver S t name node receiver args = some node

abbrev pub access_first :
    Store → Callee → FuncInvocation → List CallArgument → Option FuncInvocation
access_first S callee node [] = none
access_first S (var_ref name t) node (receiver ∷ args) =
    access_receiver S receiver.ty name node receiver args
access_first S callee node (receiver ∷ args) = some node

-- `visit_instance_var_invocation`
unfoldable pub visit_instance_var_invocation : Store → FuncInvocation → Option FuncInvocation
visit_instance_var_invocation S node = access_first S node.child node node.args

-- The check for constness, which reads the first argument if the callee may modify it
unfoldable pub violation : FuncScope → List CallArgument → Option (Option VarSymbol)
unfolding is_const_violated_invocation
violation g [] = do require (not g.is_member_func || is_const_func g.is_const_); some none
violation g (a ∷ args) = some (is_const_violated_invocation g g.is_const_ a.expr)

abbrev pub const_errors : FuncScope → Option VarSymbol → List InvocationError
const_errors g none = []
const_errors g (some v) = violates_const g v ∷ []

abbrev pub main_errors : FuncScope → List InvocationError
main_errors f = if is_main_func f then calls_main ∷ [] else []

-- The new reference of the function's type, in the node of the callee. The type object of a
-- reference to a function is the node's own; that of an instance variable is shared with the
-- symbol, of which the change is left out.
abbrev pub refer_instance : Bool → FuncScope → FuncInvocation → FuncInvocation
refer_instance false g node = node
refer_instance true g node = record node {
  child = set_type_of_callee (generic_func_type (some g.id)) node.child;
}

module _ (S : Store) (fuel : ℕ) (current_scope : Scope) (defs : Definitions) where
  -- The loop over the types of the arguments and of the parameters, of the same number
  unfoldable pub check_args : ℕ → List AnyType → List AnyType → Option (Option InvocationError)
  unfolding type_eq
  check_args i [] ps = some none
  check_args i (a ∷ args) [] = none
  check_args i (a ∷ args) (p ∷ ps) = do
    same ← type_eq S fuel a p
    elim same [ false ↦ some (some (mismatch i a p)) | true ↦ check_args (suc i) args ps ]

  abbrev pub set_type_of_call :
      FuncInvocation → Option AnyType → Option InvocationError → Option VisitedCall
  set_type_of_call node ret (some e) = some (call_fails node e)
  set_type_of_call node ret none = do t ← ret; some (record node { type_of_expr = t }, [])

  -- A callee of a function type that is written out
  unfoldable pub call_func_type :
      FuncInvocation → List AnyType → Option AnyType → Option VisitedCall
  unfolding check_args
  call_func_type node ps ret = elim (length node.args == length ps) [
    | false ↦ some (call_fails node (wrong_number (length node.args) (length ps)))
    | true ↦ (do e ← check_args 0 (arg_types node.args) ps; set_type_of_call node ret e)
  ]

  module _ (func_of : ℕ → Option FuncScope) where
    -- A callee that refers to a function, of which the overload set of the name is called
    unfoldable pub call_resolved : FuncInvocation → FuncScope → Resolved → Option VisitedCall
    unfolding violation
    call_resolved node f (oops e) = some (call_fails node (not_callable e))
    call_resolved node f (resolved g) = do
      t ← g.ret_type
      template ← func_is_template S fuel f
      violated ← violation g node.args
      let called = record node { type_of_expr = t; callee_scope = some g }
      some (refer_instance template g called, const_errors g violated ++ main_errors f)

    unfoldable pub call_generic : FuncInvocation → Option ℕ → Option VisitedCall
    unfolding call_resolved resolve_func_call
    call_generic node none = some (call_fails node invalid_reference)
    call_generic node (some ref) = do
      f ← func_of ref
      r ← resolve_func_call S fuel current_scope defs f.name (arg_types node.args)
      call_resolved node f r

    unfoldable pub call_value : FuncInvocation → AnyType → Option VisitedCall
    unfolding call_func_type call_generic
    call_value node (func_type ps ret omitted) = call_func_type node (to_list ps) (to_option ret)
    call_value node (generic_func_type ref) = call_generic node ref
    call_value node t = some (call_fails node (not_a_function t))

    -- The two early returns on types that are not known
    unfoldable pub visit_known : FuncInvocation → Option VisitedCall
    unfolding call_value
    visit_known node =
        elim (is_known (type_of_callee node.child) && all_b is_known (arg_types node.args)) [
          | true ↦ call_value node (type_of_callee node.child)
          | false ↦ some (node, [])
        ]

    -- `visit(func_invocation)`, after the walk over the callee and the arguments
    unfoldable pub visit_func_invocation : FuncInvocation → Option VisitedCall
    unfolding visit_instance_var_invocation visit_known
    visit_func_invocation node = elim node.is_ufcs [
      | true ↦ (do node' ← visit_instance_var_invocation S node; visit_known node')
      | false ↦ visit_known node
    ]
