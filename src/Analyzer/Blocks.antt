-- ===== src/Analyzer/Blocks.antt =====
-- The check for blocks that end without a return, of src/dachs/semantics/analyzer.cpp.
pub mod Runs
pub mod Falls
use dachs.Base.{ℕ, Bool, true, false, Option, none, some, ◌>>=◌}
use dachs.Types.{AnyType, Store}
use dachs.Types.Equality.{type_eq}
use dachs.Types.Predicates.{get_unit_type}
use dachs.Ast.{
  Location, Literal, bool_value, AnyExpr, primary_literal, other_expr, location_of_expr,
  location_of, Stmt, return_stmt, if_stmt, switch_stmt, for_stmt, while_stmt, assignment_stmt,
  initialize_stmt, postfix_if_stmt, block_stmt, any_expr, Block, statement_block, Stmts, no_stmts,
  stmts, Clauses, no_clauses, clauses, MaybeBlock, no_block, else_block,
}

-- The result of `check_terminated`, with `last_unterminated_location` after it
abbrev pub Checked : Type 0
Checked = Bool × Location

-- A loop returns true at the first statement for which the check is true.
abbrev pub or_next : Checked → (Location → Checked) → Checked
or_next (true, l) next = (true, l)
or_next (false, l) next = next l

-- A loop returns false at the first clause for which the check is false.
abbrev pub and_next : Checked → (Location → Checked) → Checked
and_next (true, l) next = next l
and_next (false, l) next = (false, l)

-- The tests on the condition of a `while`
abbrev pub is_true_literal : AnyExpr → Bool
is_true_literal (primary_literal l (bool_value b)) = b
is_true_literal (primary_literal l v) = false
is_true_literal (other_expr l) = false

abbrev pub if_true_literal : Bool → Checked → Location → Checked
if_true_literal true body l = body
if_true_literal false body l = (false, l)

unfoldable mutual
  -- `check_terminated`, from the location that is kept
  pub check_terminated : Stmt → Location → Checked
  check_terminated (return_stmt at ty) l = (true, l)
  check_terminated (if_stmt at cs e) l = and_next (check_clauses cs l) (λ m. check_else e m)
  check_terminated (switch_stmt at cs e) l = and_next (check_clauses cs l) (λ m. check_else e m)
  check_terminated (for_stmt at body) l = (false, at)
  check_terminated (while_stmt at c body) l =
      if_true_literal (is_true_literal c) (check_block body l) l
  check_terminated (assignment_stmt at) l = (false, at)
  check_terminated (initialize_stmt at) l = (false, at)
  check_terminated (postfix_if_stmt at body) l = (false, at)
  check_terminated (block_stmt b) l = check_block b l
  check_terminated (any_expr e) l = (false, location_of_expr e)

  pub check_block : Block → Location → Checked
  check_block (statement_block at b) l = check_stmts b l

  pub check_stmts : Stmts → Location → Checked
  check_stmts no_stmts l = (false, l)
  check_stmts (stmts s b) l = or_next (check_terminated s l) (λ m. check_stmts b m)

  pub check_clauses : Clauses → Location → Checked
  check_clauses no_clauses l = (true, l)
  check_clauses (clauses b cs) l = and_next (check_block b l) (λ m. check_clauses cs m)

  pub check_else : MaybeBlock → Location → Checked
  check_else no_block l = (false, l)
  check_else (else_block b) l = check_block b l

-- The place that the error names, if there is one
abbrev pub unterminated : Checked → Option Location
unterminated (true, l) = none
unterminated (false, l) = some l

-- `check_unterminated_block` of a function with a return type and a body: the error, if there is
-- one.
unfoldable pub check_unterminated_block : Store → ℕ → AnyType → Block → Option (Option Location)
unfolding type_eq check_block
check_unterminated_block S fuel ret_type body = do
  unit ← type_eq S fuel ret_type get_unit_type
  elim unit [ true ↦ some none | false ↦ some (unterminated (check_block body (location_of body))) ]
