-- ===== src/Analyzer/Blocks/Falls.antt =====
-- Errors of `check_unterminated_block` of src/dachs/semantics/analyzer.cpp: a way through the body
-- that does not return.
use dachs.Base.{ℕ, ◌≡◌, refl, ap, ◌∙◌, ◌⊎◌, inl, inr, true, false, some, Bool-cases}
use dachs.Base.Defined.{bind-some}
use dachs.Types.{AnyType, Store}
use dachs.Types.Equality.{type_eq}
use dachs.Types.Predicates.{get_unit_type}
use dachs.Ast.{
  Location, location_of, Stmt, return_stmt, if_stmt, switch_stmt, for_stmt, while_stmt,
  assignment_stmt, initialize_stmt, postfix_if_stmt, block_stmt, any_expr, Block, statement_block,
  Stmts, no_stmts, stmts, Clauses, no_clauses, clauses, MaybeBlock, no_block, else_block,
}
use dachs.Analyzer.Blocks.{
  Checked, or_next, and_next, is_true_literal, check_terminated, check_block, check_stmts,
  check_clauses, check_else, check_unterminated_block, unterminated,
}
use dachs.Analyzer.Blocks.Runs.{falls, RunStmt, RunBlock, RunStmts, RunClause, RunElse}

-- No `while true` among the statements that the check reads
abbrev mutual
  pub Ends : Stmt → Type 0
  Ends (if_stmt l cs e) = EndsClauses cs × EndsElse e
  Ends (switch_stmt l cs e) = EndsClauses cs × EndsElse e
  Ends (while_stmt l c b) = is_true_literal c ≡ false
  Ends (block_stmt b) = EndsBlock b
  Ends _ = Unit

  pub EndsBlock : Block → Type 0
  EndsBlock (statement_block l b) = EndsStmts b

  pub EndsStmts : Stmts → Type 0
  EndsStmts no_stmts = Unit
  EndsStmts (stmts s b) = Ends s × EndsStmts b

  pub EndsClauses : Clauses → Type 0
  EndsClauses no_clauses = Unit
  EndsClauses (clauses b cs) = EndsBlock b × EndsClauses cs

  pub EndsElse : MaybeBlock → Type 0
  EndsElse no_block = Unit
  EndsElse (else_block b) = EndsBlock b

or_next-both :
    (c : Checked) (k : Location → Checked)
    → (or_next c k).0 ≡ false
    → (c.0 ≡ false) × ((k c.1).0 ≡ false)
or_next-both (true, l) k e = cc
or_next-both (false, l) k e = (refl, e)

and_next-either :
    (c : Checked) (k : Location → Checked)
    → (and_next c k).0 ≡ false
    → (c.0 ≡ false) ⊎ ((k c.1).0 ≡ false)
and_next-either (true, l) k e = inr e
and_next-either (false, l) k e = inl refl

-- Blocks of which the check is false
mutual
  unfolding check_terminated

  stmt-falls :
      (s : Stmt) (l : Location) → Ends s → (check_terminated s l).0 ≡ false → RunStmt s falls
  stmt-falls (return_stmt at ty) l h e = cc
  stmt-falls (if_stmt at cs els) l h e =
      elim (and_next-either (check_clauses cs l) (λ m. check_else els m) e) [
        | inl c ↦ RunStmt.if_clause (clause-falls cs l h.0 c)
        | inr c ↦ RunStmt.if_else (else-falls els _ h.1 c)
      ]
  stmt-falls (switch_stmt at cs els) l h e =
      elim (and_next-either (check_clauses cs l) (λ m. check_else els m) e) [
        | inl c ↦ RunStmt.switch_clause (clause-falls cs l h.0 c)
        | inr c ↦ RunStmt.switch_else (else-falls els _ h.1 c)
      ]
  stmt-falls (for_stmt at body) l h e = RunStmt.for_done
  stmt-falls (while_stmt at c body) l h e = RunStmt.while_done h
  stmt-falls (assignment_stmt at) l h e = RunStmt.assigned
  stmt-falls (initialize_stmt at) l h e = RunStmt.initialized
  stmt-falls (postfix_if_stmt at body) l h e = RunStmt.skipped
  stmt-falls (block_stmt b) l h e = RunStmt.in_block (block-falls b l h e)
  stmt-falls (any_expr x) l h e = RunStmt.evaluated

  block-falls :
      (b : Block) (l : Location) → EndsBlock b → (check_block b l).0 ≡ false → RunBlock b falls
  block-falls (statement_block at b) l h e = RunBlock.run_block (stmts-falls b l h e)

  stmts-falls :
      (b : Stmts) (l : Location) → EndsStmts b → (check_stmts b l).0 ≡ false → RunStmts b falls
  stmts-falls no_stmts l h e = RunStmts.done
  stmts-falls (stmts s b) l h e =
      let (now, after) = or_next-both (check_terminated s l) (λ m. check_stmts b m) e in
      RunStmts.next (stmt-falls s l h.0 now) (stmts-falls b _ h.1 after)

  clause-falls :
      (cs : Clauses) (l : Location)
      → EndsClauses cs
      → (check_clauses cs l).0 ≡ false
      → RunClause cs falls
  clause-falls no_clauses l h e = cc
  clause-falls (clauses b cs) l h e =
      elim (and_next-either (check_block b l) (λ m. check_clauses cs m) e) [
        | inl c ↦ RunClause.first (block-falls b l h.0 c)
        | inr c ↦ RunClause.later (clause-falls cs _ h.1 c)
      ]

  else-falls :
      (m : MaybeBlock) (l : Location) → EndsElse m → (check_else m l).0 ≡ false → RunElse m falls
  else-falls no_block l h e = RunElse.no_else
  else-falls (else_block b) l h e = RunElse.the_else (block-falls b l h e)

is_unterminated :
    (c : Checked) {at : Location} → some (unterminated c) ≡ some (some at) → c.0 ≡ false
is_unterminated (true, l) e = cc
is_unterminated (false, l) e = refl

-- If `check_unterminated_block` reports an error, and the check reads no `while` whose
-- condition is the literal `true`, then the return type does not equal the unit type, and some
-- run of the body ends without a return.
pub check_unterminated_block-falls :
    (S : Store) (fuel : ℕ) (ret_type : AnyType) (body : Block) {at : Location}
    → check_unterminated_block S fuel ret_type body ≡ some (some at)
    → EndsBlock body
    → (type_eq S fuel ret_type get_unit_type ≡ some false) × RunBlock body falls
unfolding check_unterminated_block
check_unterminated_block-falls S fuel ret_type body e h =
    let (unit, eu, e1) = bind-some (type_eq S fuel ret_type get_unit_type) _ e in
    elim (Bool-cases unit) [
      | inl y ↦ cc (rw y at e1)
      | inr n ↦
          (eu ∙ ap some n, block-falls body (location_of body) h (is_unterminated _ (rw n at e1)))
    ]
