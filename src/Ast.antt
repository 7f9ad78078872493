-- ===== src/Ast.antt =====
-- src/dachs/ast/ast.hpp and ast_fwd.hpp: the statements, and of the expressions the literals and
-- the places of the others.
use dachs.Base.{ℕ, Bool}
use dachs.Types.{AnyType}

-- `int`, a machine integer with a sign.
pub data ℤ : Type 0 where
  pos : ℕ → ℤ
  negsuc : ℕ → ℤ

-- `primary_literal::value`; a `double` is given by its bits.
pub data Literal : Type 0 where
  char_value : ℕ → Literal
  double_value : ℕ → Literal
  bool_value : Bool → Literal
  int_value : ℤ → Literal
  uint_value : ℕ → Literal

-- A place in a source file
abbrev pub Location : Type 0
Location = ℕ

-- `any_expr`: a literal, or another expression
pub data AnyExpr : Type 0 where
  primary_literal : Location → Literal → AnyExpr
  other_expr : Location → AnyExpr

mutual
  -- `compound_stmt`. The body of `postfix_if_stmt` is a statement or an expression.
  pub data Stmt : Type 0 where
    return_stmt : Location → AnyType → Stmt
    if_stmt : Location → Clauses → MaybeBlock → Stmt
    switch_stmt : Location → Clauses → MaybeBlock → Stmt
    for_stmt : Location → Block → Stmt
    while_stmt : Location → AnyExpr → Block → Stmt
    assignment_stmt : Location → Stmt
    initialize_stmt : Location → Stmt
    postfix_if_stmt : Location → Stmt → Stmt
    block_stmt : Block → Stmt
    any_expr : AnyExpr → Stmt

  -- `statement_block`
  pub data Block : Type 0 where
    statement_block : Location → Stmts → Block

  pub data Stmts : Type 0 where
    no_stmts : Stmts
    stmts : Stmt → Stmts → Stmts

  -- The blocks of the clauses of an `if` or a `switch`, without the conditions
  pub data Clauses : Type 0 where
    no_clauses : Clauses
    clauses : Block → Clauses → Clauses

  pub data MaybeBlock : Type 0 where
    no_block : MaybeBlock
    else_block : Block → MaybeBlock

abbrev pub location_of_expr : AnyExpr → Location
location_of_expr (primary_literal l v) = l
location_of_expr (other_expr l) = l

abbrev pub location_of : Block → Location
location_of (statement_block l b) = l
