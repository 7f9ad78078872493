-- ===== src/Analyzer/Branches.antt =====
-- Conditions and branches in src/dachs/semantics/analyzer.cpp: `if`, `while` and `case`.
pub mod Laws
pub mod Cases
use dachs.Base.{
  ℕ, Bool, true, false, ◌&&◌, ◌++◌, Option, none, some, List, [], ◌∷◌, ◌>>=◌, if◌then◌else◌,
}
use dachs.Types.{AnyType, empty, is_known, FuncScope, Store}
use dachs.Types.Equality.{type_eq}
use dachs.Types.Predicates.{get_builtin_type, is_builtin, is_builtin_named}
use dachs.Scope.{Scope}
use dachs.Analyzer.Calls.{CallError, Definitions, Resolved, resolved, oops, resolve_func_call}
use dachs.Analyzer.Operators.{OperatorError, Visited, visit_builtin_binary_expr}

pub data BranchError : Type 0 where
  condition_not_bool : AnyType → BranchError
  block_mismatch : AnyType → AnyType → BranchError
  else_mismatch : AnyType → AnyType → BranchError
  when_operands : OperatorError → BranchError
  when_call : CallError → BranchError
  when_not_bool : FuncScope → BranchError

-- The type that an expression gets, and the errors in order
pub record Branches : Type 0 where
  pub type_of_expr : AnyType
  pub errors : List BranchError

module _ (S : Store) (fuel : ℕ) where
  -- The test of a type against another, with its error
  abbrev pub expect : AnyType → AnyType → BranchError → Option (List BranchError)
  expect t u e = do same ← type_eq S fuel t u; some (if same then [] else e ∷ [])

  unfoldable pub check_condition_expr : AnyType → Option (List BranchError)
  unfolding type_eq get_builtin_type
  check_condition_expr t = do bool ← get_builtin_type "bool"; expect t bool (condition_not_bool t)

  -- `visit` of `if_stmt`, by the types of its conditions; one condition is that of `while_stmt`
  -- and `postfix_if_stmt`.
  unfoldable pub check_conditions : List AnyType → Option (List BranchError)
  unfolding check_condition_expr
  check_conditions [] = some []
  check_conditions (t ∷ ts) = do
    e ← check_condition_expr t
    es ← check_conditions ts
    some (e ++ es)

  -- The loop over the blocks of an `if_expr`, each the types of its condition and of itself
  unfoldable pub check_blocks : AnyType → List (AnyType × AnyType) → Option (List BranchError)
  unfolding check_condition_expr
  check_blocks type [] = some []
  check_blocks type ((condition, block) ∷ blocks) = do
    e ← check_condition_expr condition
    m ← expect type block (block_mismatch type block)
    es ← check_blocks type blocks
    some (e ++ (m ++ es))

  -- `visit` of `if_expr`
  unfoldable pub visit_if_expr : List (AnyType × AnyType) → AnyType → Option Branches
  unfolding check_blocks
  visit_if_expr [] else_block = none
  visit_if_expr ((condition, type) ∷ blocks) else_block = elim (is_known type) [
    | false ↦ some (record { type_of_expr = empty; errors = [] })
    | true ↦ (do
      es ← check_blocks type ((condition, type) ∷ blocks)
      m ← expect type else_block (else_mismatch type else_block)
      some (record { type_of_expr = type; errors = es ++ m }))
  ]

-- What one condition of a `when` adds to the callees, and the error
pub record When : Type 0 where
  pub callees : List (Option FuncScope)
  pub errors : List BranchError

abbrev pub operand_errors : Option OperatorError → List BranchError
operand_errors none = []
operand_errors (some e) = when_operands e ∷ []

abbrev pub returns_bool : Option AnyType → Bool
returns_bool none = false
returns_bool (some t) = is_builtin_named "bool" t

abbrev pub after_compare : FuncScope → When
after_compare callee =
    if returns_bool callee.ret_type
    then record { callees = some callee ∷ []; errors = [] }
    else record { callees = []; errors = when_not_bool callee ∷ [] }

abbrev pub both : When → When → When
both a b = record { callees = a.callees ++ b.callees; errors = a.errors ++ b.errors }

module _ (S : Store) (fuel : ℕ) (current_scope : Scope) (defs : Definitions) where
  -- A round of `visit_switch_when_condition`
  unfoldable pub visit_when : AnyType → AnyType → Option When
  unfolding visit_builtin_binary_expr resolve_func_call is_builtin
  visit_when switcher t = elim (is_builtin switcher && is_builtin t) [
    | true ↦ (do
      v ← visit_builtin_binary_expr S fuel "==" switcher t
      some (record { callees = none ∷ []; errors = operand_errors v.error }))
    | false ↦ (do
      r ← resolve_func_call S fuel current_scope defs "==" (switcher ∷ t ∷ [])
      elim r [
        | oops e ↦ some (record { callees = []; errors = when_call e ∷ [] })
        | resolved callee ↦ some (after_compare callee)
      ])
  ]

  unfoldable pub visit_switch_when_condition : AnyType → List AnyType → Option When
  unfolding visit_when
  visit_switch_when_condition switcher [] = some (record { callees = []; errors = [] })
  visit_switch_when_condition switcher (t ∷ ts) = do
    w ← visit_when switcher t
    ws ← visit_switch_when_condition switcher ts
    some (both w ws)

-- What a `case` leaves: its type, the callees of each `when`, and the errors
pub record Switch : Type 0 where
  pub type_of_expr : AnyType
  pub when_callee_scopes : List (List (Option FuncScope))
  pub errors : List BranchError

module _ (S : Store) (fuel : ℕ) (current_scope : Scope) (defs : Definitions) where
  -- The loop of `switch_stmt`
  unfoldable pub visit_whens : AnyType → List (List AnyType) → Option Switch
  unfolding visit_switch_when_condition
  visit_whens switcher [] =
      some (record { type_of_expr = empty; when_callee_scopes = []; errors = [] })
  visit_whens switcher (conditions ∷ whens) = do
    w ← visit_switch_when_condition S fuel current_scope defs switcher conditions
    rest ← visit_whens switcher whens
    some (record rest {
      when_callee_scopes = w.callees ∷ rest.when_callee_scopes;
      errors = w.errors ++ rest.errors;
    })

  -- The loop of `switch_expr`, on the conditions and the type of each block
  unfoldable pub visit_when_blocks :
      AnyType → AnyType → List (List AnyType × AnyType) → Option Switch
  unfolding visit_switch_when_condition type_eq
  visit_when_blocks type switcher [] =
      some (record { type_of_expr = type; when_callee_scopes = []; errors = [] })
  visit_when_blocks type switcher ((conditions, block) ∷ whens) = do
    m ← expect S fuel type block (block_mismatch type block)
    w ← visit_switch_when_condition S fuel current_scope defs switcher conditions
    rest ← visit_when_blocks type switcher whens
    some (record rest {
      when_callee_scopes = w.callees ∷ rest.when_callee_scopes;
      errors = m ++ (w.errors ++ rest.errors);
    })

  -- `visit` of `switch_expr`
  unfoldable pub visit_switch_expr :
      AnyType → List (List AnyType × AnyType) → AnyType → Option Switch
  unfolding visit_when_blocks type_eq
  visit_switch_expr switcher [] else_block = none
  visit_switch_expr switcher ((conditions, type) ∷ whens) else_block = elim (is_known type) [
    | false ↦ some (record { type_of_expr = empty; when_callee_scopes = []; errors = [] })
    | true ↦ (do
      r ← visit_when_blocks type switcher ((conditions, type) ∷ whens)
      m ← expect S fuel type else_block (else_mismatch type else_block)
      some (record r { errors = r.errors ++ m }))
  ]
