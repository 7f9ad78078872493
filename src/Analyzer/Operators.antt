-- ===== src/Analyzer/Operators.antt =====
-- Unary and binary operators in src/dachs/semantics/analyzer.cpp.
pub mod Laws
use dachs.Base.{
  ℕ, String, str_eq, Bool, true, false, not, ◌&&◌, ◌||◌, Option, none, some, List, [], ◌∷◌, any_b,
  ◌>>=◌, if◌then◌else◌,
}
use dachs.Types.{AnyType, empty, is_known, VarSymbol, FuncScope, Store}
use dachs.Types.Equality.{type_eq}
use dachs.Types.Predicates.{get_builtin_type, is_builtin}
use dachs.Scope.{Scope}
use dachs.ConstFunc.{Tree, is_const_violated_invocation}
use dachs.Analyzer.Calls.{CallError, Resolved, resolved, oops, Definitions, resolve_func_call}

pub data OperatorError : Type 0 where
  type_mismatch : OperatorError
  not_bool : AnyType → OperatorError
  not_callable : CallError → OperatorError
  violates_const : FuncScope → VarSymbol → OperatorError

-- What the visit sets in the node of the operator, and the error, if there is one
pub record Visited : Type 0 where
  pub type_of_expr : AnyType
  pub callee_scope : Option FuncScope
  pub error : Option OperatorError

abbrev pub typed : AnyType → Option OperatorError → Visited
typed t e = record { type_of_expr = t; callee_scope = none; error = e }

abbrev pub comparisons : List String
comparisons = "==" ∷ "!=" ∷ ">" ∷ "<" ∷ ">=" ∷ "<=" ∷ []

-- The error of an operator on a type that must be `bool`
abbrev pub bool_error : AnyType → Bool → Option OperatorError
bool_error t is_bool = if is_bool then none else some (not_bool t)

module _ (S : Store) (fuel : ℕ) where
  -- `&&` and `||`
  abbrev pub visit_logical : AnyType → Option Visited
  visit_logical lhs_type = do
    bool ← get_builtin_type "bool"
    is_bool ← type_eq S fuel lhs_type bool
    some (typed bool (bool_error lhs_type is_bool))

  abbrev pub visit_comparison : Option Visited
  visit_comparison = do bool ← get_builtin_type "bool"; some (typed bool none)

  unfoldable pub visit_builtin_binary_expr : String → AnyType → AnyType → Option Visited
  unfolding type_eq
  visit_builtin_binary_expr op lhs_type rhs_type = do
    same ← type_eq S fuel lhs_type rhs_type
    elim same [
      | false ↦ some (typed empty (some type_mismatch))
      | true ↦ elim (any_b (str_eq op) comparisons) [
        | true ↦ visit_comparison
        | false ↦ elim (str_eq op "&&" || str_eq op "||") [
          | true ↦ visit_logical lhs_type
          | false ↦ some (typed lhs_type none)
        ]
      ]
    ]

  unfoldable pub visit_builtin_unary_expr : String → AnyType → Option Visited
  unfolding type_eq
  visit_builtin_unary_expr op operand_type = elim (str_eq op "!") [
    | true ↦ visit_logical operand_type
    | false ↦ some (typed operand_type none)
  ]

abbrev pub after_operator : FuncScope → AnyType → Option VarSymbol → Visited
after_operator f t (some v) = record {
  type_of_expr = t;
  callee_scope = some f;
  error = some (violates_const f v);
}
after_operator f t none = record { type_of_expr = t; callee_scope = some f; error = none }

module _ (S : Store) (fuel : ℕ) (current_scope : Scope) (defs : Definitions) where
  unfoldable pub apply_operator : Tree → Resolved → Option Visited
  unfolding is_const_violated_invocation
  apply_operator operand (oops e) = some (typed empty (some (not_callable e)))
  apply_operator operand (resolved f) = do
    t ← f.ret_type
    some (after_operator f t (is_const_violated_invocation f f.is_const_ operand))

  -- `visit_binary_expr_call` and `visit_unary_expr_call`, on a node that has no type yet
  unfoldable pub visit_operator_call : String → List AnyType → Tree → Option Visited
  unfolding apply_operator resolve_func_call
  visit_operator_call op arg_types operand = do
    r ← resolve_func_call S fuel current_scope defs op arg_types
    apply_operator operand r

  -- `visit(binary_expr)`, after the walk over the children
  unfoldable pub visit_binary_expr : String → Tree → AnyType → AnyType → Option Visited
  unfolding visit_operator_call visit_builtin_binary_expr is_builtin
  visit_binary_expr op lhs lhs_type rhs_type = elim (is_known lhs_type && is_known rhs_type) [
    | false ↦ some (typed empty none)
    | true ↦ elim (is_builtin lhs_type && is_builtin rhs_type) [
      | true ↦ visit_builtin_binary_expr S fuel op lhs_type rhs_type
      | false ↦ visit_operator_call op (lhs_type ∷ rhs_type ∷ []) lhs
    ]
  ]

  -- `visit(unary_expr)`
  unfoldable pub visit_unary_expr : String → Tree → AnyType → Option Visited
  unfolding visit_operator_call visit_builtin_unary_expr is_builtin
  visit_unary_expr op operand operand_type = elim (is_known operand_type) [
    | false ↦ some (typed empty none)
    | true ↦ elim (is_builtin operand_type) [
      | true ↦ visit_builtin_unary_expr S fuel op operand_type
      | false ↦ visit_operator_call op (operand_type ∷ []) operand
    ]
  ]
