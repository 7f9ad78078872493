-- ===== src/Tests/Checks.antt =====
-- Small programs that the checks of src/dachs/semantics/forward_analyzer_impl.hpp and analyzer.cpp
-- read.
use dachs.Base.{◌≡◌, refl, ◌⊎◌, true, false, none, some, [], ◌∷◌}
use dachs.Types.{FuncScope, tuple_type, nil}
use dachs.Types.Equality.{type_eq}
use dachs.Types.Predicates.{get_unit_type}
use dachs.Forward.Classes.{ClassDefinition, prepare_class}
use dachs.Forward.Classes.Laws.{IsPrepared, prepare_class-IsPrepared}
use dachs.Ast.{
  other_expr, return_stmt, if_stmt, while_stmt, Block, statement_block, no_stmts, stmts, no_clauses,
  clauses, no_block, else_block,
}
use dachs.Analyzer.Blocks.{check_unterminated_block}
use dachs.Analyzer.Blocks.Runs.{Outcome, returns, falls, RunBlock, check_unterminated_block-returns}
use dachs.Analyzer.Blocks.Falls.{check_unterminated_block-falls}
use dachs.Analyzer.Returns.{Return, func, deduce_return_type}
use dachs.Analyzer.Returns.Laws.{IsDeduced, deduce_return_type-IsDeduced}
use dachs.Tests.Data.{func as make_func, int, store, var}

abbrev not_int : FuncScope
not_int = make_func 50 "!" (var 51 "x" int ∷ []) none

-- if c: ret 1 else: ret 2
abbrev both_return : Block
both_return = statement_block 1 (
    stmts
      (if_stmt 2 (clauses (statement_block 3 (stmts (return_stmt 3 int) no_stmts)) no_clauses)
        (else_block (statement_block 4 (stmts (return_stmt 4 int) no_stmts))))
      no_stmts)

check_unterminated_block-returns_example :
    (type_eq store 5 int get_unit_type ≡ some true)
    ⊎ ((o : Outcome) → RunBlock both_return o → o ≡ returns)
unfolding check_unterminated_block
check_unterminated_block-returns_example =
    check_unterminated_block-returns store 5 int both_return refl

-- if c: ret 1
abbrev one_returns : Block
one_returns = statement_block 1 (
    stmts
      (if_stmt 2 (clauses (statement_block 3 (stmts (return_stmt 3 int) no_stmts)) no_clauses)
        no_block)
      (stmts (while_stmt 5 (other_expr 5) (statement_block 6 no_stmts)) no_stmts))

check_unterminated_block-falls_example :
    (type_eq store 5 int get_unit_type ≡ some false) × RunBlock one_returns falls
unfolding check_unterminated_block
check_unterminated_block-falls_example =
    check_unterminated_block-falls store 5 int one_returns refl ((((tt, tt), tt), tt), (refl, tt))

abbrev return_int : Return
return_int = record { location = 7; ret_type = int }

abbrev return_unit : Return
return_unit = record { location = 8; ret_type = tuple_type nil }

deduce_return_type-IsDeduced_example :
    IsDeduced store 5 func (some int) (return_int ∷ return_int ∷ []) int
unfolding deduce_return_type
deduce_return_type-IsDeduced_example =
    deduce_return_type-IsDeduced store 5 func (some int) (return_int ∷ return_int ∷ []) refl

-- class Pair: a, b, with one member function
abbrev pair_class : ClassDefinition
pair_class = record {
  name = "Pair";
  instance_vars = "a" ∷ "b" ∷ [];
  member_funcs = record { name = "sum"; params = [] } ∷ [];
}

prepare_class-IsPrepared_example : IsPrepared pair_class (prepare_class pair_class)
prepare_class-IsPrepared_example = prepare_class-IsPrepared pair_class
