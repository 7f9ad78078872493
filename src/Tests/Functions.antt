-- ===== src/Tests/Functions.antt =====
-- The visit of a function that src/dachs/semantics/analyzer.cpp lets pass.
use dachs.Base.{true, false, none, List, [], ◌∷◌}
use dachs.Types.{AnyType, builtin_type, FuncScope}
use dachs.Ast.{statement_block, stmts, no_stmts, return_stmt}
use dachs.ConstFunc.{Consts, Member, var_ref, node, trees, no_trees}
use dachs.Analyzer.Returns.{func}
use dachs.Analyzer.Functions.{FunctionDef}
use dachs.Tests.Data.{point, var}

abbrev bool : AnyType
bool = builtin_type "bool"

-- func Point.origin?(self): ret true
abbrev origin : FuncScope
origin = record {
  id = 100;
  name = "origin?";
  is_builtin = false;
  params = var 101 "self" point ∷ [];
  ret_type = none;
  is_member_func = true;
  is_const_ = none;
}

abbrev origin_def : FunctionDef
origin_def = record {
  index = 0;
  scope = origin;
  kind = func;
  ret_type = none;
  is_query = true;
  body = statement_block 1 (stmts (return_stmt 2 bool) no_stmts);
  returns = record { location = 2; ret_type = bool } ∷ [];
}

abbrev members : List Member
members =
    record { scope = origin; def = node (trees (var_ref (var 101 "self" point)) no_trees) } ∷ []

abbrev none_decided : Consts
none_decided i = none
