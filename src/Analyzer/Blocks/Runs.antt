-- ===== src/Analyzer/Blocks/Runs.antt =====
-- How the statements of a block run, and what `check_terminated` of
-- src/dachs/semantics/analyzer.cpp says of it.
use dachs.Base.{ℕ, ◌≡◌, refl, ap, ◌∙◌, ◌⊎◌, inl, inr, true, false, none, some, Bool-cases}
use dachs.Base.Defined.{bind-some}
use dachs.Types.{AnyType, Store}
use dachs.Types.Equality.{type_eq}
use dachs.Types.Predicates.{get_unit_type}
use dachs.Ast.{
  Location, AnyExpr, location_of, Stmt, return_stmt, if_stmt, switch_stmt, for_stmt, while_stmt,
  assignment_stmt, initialize_stmt, postfix_if_stmt, block_stmt, any_expr, Block, statement_block,
  Stmts, no_stmts, stmts, Clauses, clauses, MaybeBlock, no_block, else_block,
}
use dachs.Analyzer.Blocks.{
  Checked, or_next, and_next, is_true_literal, check_terminated, check_block, check_stmts,
  check_clauses, check_else, check_unterminated_block, unterminated,
}

pub data Outcome : Type 0 where
  falls : Outcome
  returns : Outcome

-- The ways a statement can end, whatever the values of the conditions are: a condition that is
-- the literal `true` holds, any other may hold or not. A statement that never ends has no
-- derivation.
mutual
  pub data RunStmt : Stmt → Outcome → Type 0 where
    returned : {l : Location} {t : AnyType} → RunStmt (return_stmt l t) returns
    if_clause :
        {l : Location} {cs : Clauses} {e : MaybeBlock} {o : Outcome}
        → RunClause cs o
        → RunStmt (if_stmt l cs e) o
    if_else :
        {l : Location} {cs : Clauses} {e : MaybeBlock} {o : Outcome}
        → RunElse e o
        → RunStmt (if_stmt l cs e) o
    switch_clause :
        {l : Location} {cs : Clauses} {e : MaybeBlock} {o : Outcome}
        → RunClause cs o
        → RunStmt (switch_stmt l cs e) o
    switch_else :
        {l : Location} {cs : Clauses} {e : MaybeBlock} {o : Outcome}
        → RunElse e o
        → RunStmt (switch_stmt l cs e) o
    for_done : {l : Location} {b : Block} → RunStmt (for_stmt l b) falls
    for_return : {l : Location} {b : Block} → RunBlock b returns → RunStmt (for_stmt l b) returns
    while_done :
        {l : Location} {c : AnyExpr} {b : Block}
        → is_true_literal c ≡ false
        → RunStmt (while_stmt l c b) falls
    while_round :
        {l : Location} {c : AnyExpr} {b : Block} {o : Outcome}
        → RunBlock b falls
        → RunStmt (while_stmt l c b) o
        → RunStmt (while_stmt l c b) o
    while_return :
        {l : Location} {c : AnyExpr} {b : Block}
        → RunBlock b returns
        → RunStmt (while_stmt l c b) returns
    assigned : {l : Location} → RunStmt (assignment_stmt l) falls
    initialized : {l : Location} → RunStmt (initialize_stmt l) falls
    skipped : {l : Location} {s : Stmt} → RunStmt (postfix_if_stmt l s) falls
    taken : {l : Location} {s : Stmt} {o : Outcome} → RunStmt s o → RunStmt (postfix_if_stmt l s) o
    in_block : {b : Block} {o : Outcome} → RunBlock b o → RunStmt (block_stmt b) o
    evaluated : {e : AnyExpr} → RunStmt (any_expr e) falls

  pub data RunBlock : Block → Outcome → Type 0 where
    run_block :
        {l : Location} {b : Stmts} {o : Outcome} → RunStmts b o → RunBlock (statement_block l b) o

  pub data RunStmts : Stmts → Outcome → Type 0 where
    done : RunStmts no_stmts falls
    next :
        {s : Stmt} {b : Stmts} {o : Outcome}
        → RunStmt s falls
        → RunStmts b o
        → RunStmts (stmts s b) o
    stop : {s : Stmt} {b : Stmts} → RunStmt s returns → RunStmts (stmts s b) returns

  pub data RunClause : Clauses → Outcome → Type 0 where
    first : {b : Block} {cs : Clauses} {o : Outcome} → RunBlock b o → RunClause (clauses b cs) o
    later : {b : Block} {cs : Clauses} {o : Outcome} → RunClause cs o → RunClause (clauses b cs) o

  pub data RunElse : MaybeBlock → Outcome → Type 0 where
    no_else : RunElse no_block falls
    the_else : {b : Block} {o : Outcome} → RunBlock b o → RunElse (else_block b) o

pub ruleset rules = (
  returned, if_clause, if_else, switch_clause, switch_else, for_done, for_return, while_done,
  while_round, while_return, assigned, initialized, skipped, taken, in_block, evaluated, run_block,
  done, next, stop, first, later, no_else, the_else,
)

and_next-true :
    (c : Checked) (k : Location → Checked)
    → (and_next c k).0 ≡ true
    → (c.0 ≡ true) × ((k c.1).0 ≡ true)
and_next-true (true, l) k e = (refl, e)
and_next-true (false, l) k e = cc

or_next-false :
    (c : Checked) (k : Location → Checked) → c.0 ≡ false → (or_next c k).0 ≡ true → (k c.1).0 ≡ true
or_next-false (true, l) k n e = cc
or_next-false (false, l) k n e = e

falls-returns : falls ≡ returns → ⊥
falls-returns e = cc

-- Runs of a block of which the check is true
mutual
  unfolding check_terminated check_block check_stmts check_clauses check_else

  stmt-returns :
      {s : Stmt} {o : Outcome} (l : Location)
      → RunStmt s o
      → (check_terminated s l).0 ≡ true
      → o ≡ returns
  stmt-returns l returned e = refl
  stmt-returns l (if_clause {l = at} {cs} {e = els} r) e =
      clause-returns l r (and_next-true (check_clauses cs l) (λ m. check_else els m) e).0
  stmt-returns l (if_else {l = at} {cs} {e = els} r) e =
      else-returns _ r (and_next-true (check_clauses cs l) (λ m. check_else els m) e).1
  stmt-returns l (switch_clause {l = at} {cs} {e = els} r) e =
      clause-returns l r (and_next-true (check_clauses cs l) (λ m. check_else els m) e).0
  stmt-returns l (switch_else {l = at} {cs} {e = els} r) e =
      else-returns _ r (and_next-true (check_clauses cs l) (λ m. check_else els m) e).1
  stmt-returns l for_done e = cc
  stmt-returns l (for_return r) e = refl
  stmt-returns l (while_done n) e = cc (rw n at e)
  stmt-returns l (while_round {l = at} {c} {b} r rs) e = stmt-returns l rs e
  stmt-returns l (while_return r) e = refl
  stmt-returns l assigned e = cc
  stmt-returns l initialized e = cc
  stmt-returns l skipped e = cc
  stmt-returns l (taken r) e = cc
  stmt-returns l (in_block r) e = block-returns l r e
  stmt-returns l evaluated e = cc

  block-returns :
      {b : Block} {o : Outcome} (l : Location)
      → RunBlock b o
      → (check_block b l).0 ≡ true
      → o ≡ returns
  block-returns l (run_block r) e = stmts-returns l r e

  stmts-returns :
      {b : Stmts} {o : Outcome} (l : Location)
      → RunStmts b o
      → (check_stmts b l).0 ≡ true
      → o ≡ returns
  stmts-returns l done e = cc
  stmts-returns l (next {s} {b} r rs) e = elim (Bool-cases (check_terminated s l).0) [
    | inl y ↦ absurd (falls-returns (stmt-returns l r y))
    | inr n ↦ stmts-returns _ rs (or_next-false (check_terminated s l) (λ m. check_stmts b m) n e)
  ]
  stmts-returns l (stop r) e = refl

  clause-returns :
      {cs : Clauses} {o : Outcome} (l : Location)
      → RunClause cs o
      → (check_clauses cs l).0 ≡ true
      → o ≡ returns
  clause-returns l (first {b} {cs} r) e =
      block-returns l r (and_next-true (check_block b l) (λ m. check_clauses cs m) e).0
  clause-returns l (later {b} {cs} r) e =
      clause-returns _ r (and_next-true (check_block b l) (λ m. check_clauses cs m) e).1

  else-returns :
      {m : MaybeBlock} {o : Outcome} (l : Location)
      → RunElse m o
      → (check_else m l).0 ≡ true
      → o ≡ returns
  else-returns l no_else e = cc
  else-returns l (the_else r) e = block-returns l r e

is_terminated : (c : Checked) → some (unterminated c) ≡ some none → c.0 ≡ true
is_terminated (true, l) e = refl
is_terminated (false, l) e = cc

-- If `check_unterminated_block` reports no error, then the return type equals the unit type,
-- or every run of the body that ends, ends with a return.
pub check_unterminated_block-returns :
    (S : Store) (fuel : ℕ) (ret_type : AnyType) (body : Block)
    → check_unterminated_block S fuel ret_type body ≡ some none
    → (type_eq S fuel ret_type get_unit_type ≡ some true)
      ⊎ ((o : Outcome) → RunBlock body o → o ≡ returns)
unfolding check_unterminated_block
check_unterminated_block-returns S fuel ret_type body e =
    let (unit, eu, e1) = bind-some (type_eq S fuel ret_type get_unit_type) _ e in
    elim (Bool-cases unit) [
      | inl y ↦ inl (eu ∙ ap some y)
      | inr n ↦ inr (λ o r. block-returns (location_of body) r (is_terminated _ (rw n at e1)))
    ]
