-- ===== src/Analyzer/Ufcs.antt =====
-- Accesses `a.b` in src/dachs/semantics/analyzer.cpp: the visit of `ufcs_invocation`.
pub mod Laws
use dachs.Base.{
  ℕ, String, Bool, true, false, Option, none, some, List, [], ◌∷◌, ◌>>=◌, if◌then◌else◌,
}
use dachs.Types.{AnyType, empty, is_known, class_type, VarSymbol, FuncScope, Store, lock}
use dachs.Scope.{Scope, resolve_instance_var}
use dachs.Scope.Members.{check_member_var, member, oops}
use dachs.ConstFunc.{Tree, is_const_violated_invocation}
use dachs.Analyzer.Calls.{
  CallError, Definitions, resolved, oops, is_accessible_instance_var, resolve_func_call,
}

pub data UfcsError : Type 0 where
  bad_member : AnyType → UfcsError
  no_member_to_assign : AnyType → UfcsError
  -- with whether a private instance variable has the name
  not_callable : CallError → Bool → UfcsError
  violates_const : FuncScope → VarSymbol → UfcsError

-- What the visit sets in the node, and the error, if there is one
pub record UfcsInvocation : Type 0 where
  pub type_of_expr : AnyType
  pub callee_scope : Option FuncScope
  pub error : Option UfcsError

abbrev pub accesses : AnyType → UfcsInvocation
accesses t = record { type_of_expr = t; callee_scope = none; error = none }

abbrev pub ufcs_fails : UfcsError → UfcsInvocation
ufcs_fails e = record { type_of_expr = empty; callee_scope = none; error = some e }

-- Whether the object has an instance variable of the name that may be accessed; if not,
-- `private_member_access_was_rejected`
pub data Access : Type 0 where
  accessible : VarSymbol → Access
  no_access : Bool → Access

abbrev pub ufcs_calls : FuncScope → AnyType → Option VarSymbol → UfcsInvocation
ufcs_calls f t (some v) = record {
  type_of_expr = t;
  callee_scope = some f;
  error = some (violates_const f v);
}
ufcs_calls f t none = record { type_of_expr = t; callee_scope = some f; error = none }

module _ (S : Store) (fuel : ℕ) (current_scope : Scope) (defs : Definitions) where
  -- The first stage of the visit
  unfoldable pub access_instance_var : String → AnyType → Option Access
  unfolding is_accessible_instance_var
  access_instance_var name t = elim t [
    | class_type n ref qs ↦ (do
      scope ← lock S ref
      elim (resolve_instance_var name scope) [
        | none ↦ some (no_access false)
        | some v ↦ (do
          ok ← is_accessible_instance_var S current_scope scope v
          some (if ok then accessible v else no_access true))
      ])
    | _ ↦ some (no_access false)
  ]

  -- The last stage: `a.foo` means `foo(a)`.
  unfoldable pub call_member : String → AnyType → Tree → Bool → Option UfcsInvocation
  unfolding resolve_func_call is_const_violated_invocation
  call_member name child_type child rejected = do
    r ← resolve_func_call S fuel current_scope defs name (child_type ∷ [])
    elim r [
      | oops e ↦ some (ufcs_fails (not_callable e rejected))
      | resolved f ↦ (do
        t ← f.ret_type
        some (ufcs_calls f t (is_const_violated_invocation f f.is_const_ child)))
    ]

  abbrev pub unless_assigned : Bool → String → AnyType → Tree → Bool → Option UfcsInvocation
  unless_assigned true name child_type child rejected =
      some (ufcs_fails (no_member_to_assign child_type))
  unless_assigned false name child_type child rejected = call_member name child_type child rejected

  -- From the members that the compiler knows on
  unfoldable pub access_other : Bool → String → AnyType → Tree → Bool → Option UfcsInvocation
  unfolding call_member check_member_var
  access_other is_assign name child_type child rejected = do
    checked ← check_member_var name child_type
    elim checked [
      | oops ↦ some (ufcs_fails (bad_member child_type))
      | member t ↦ elim (is_known t) [
        | true ↦ some (accesses t)
        | false ↦ unless_assigned is_assign name child_type child rejected
      ]
    ]

  abbrev pub after_access : Bool → String → AnyType → Tree → Access → Option UfcsInvocation
  after_access is_assign name child_type child (accessible v) = some (accesses v.ty)
  after_access is_assign name child_type child (no_access rejected) =
      access_other is_assign name child_type child rejected

  -- `visit(ufcs_invocation)`, after the walk over the child
  unfoldable pub visit_ufcs : Bool → String → AnyType → Tree → Option UfcsInvocation
  unfolding access_instance_var access_other
  visit_ufcs is_assign name child_type child = elim (is_known child_type) [
    | false ↦ some (accesses empty)
    | true ↦ (do
      a ← access_instance_var name child_type
      after_access is_assign name child_type child a)
  ]
