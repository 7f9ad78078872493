-- ===== src/Tests/Lambdas.antt =====
-- A lambda with one captured variable, read by src/dachs/semantics/lambda_capture_resolver.hpp.
use dachs.Base.{refl, none, some, [], ◌∷◌, All}
use dachs.Types.{VarSymbol}
use dachs.Types.Equality.{type_eq}
use dachs.Scope.Functions.{func_eq}
use dachs.Lambda.{Tree, var_ref, block, no_trees, trees, Capture, resolve_lambda_captures, replace}
use dachs.Lambda.Resolve.{IsLaidOut, IsCapture, resolve_lambda_captures-IsLaidOut}
use dachs.Lambda.Layout.{IsMember, replace-IsMember}
use dachs.Tests.Data.{int, store, lambda, var, body}
use dachs.Tests.Data.{block as around}

-- `total` of the block around the lambda
abbrev total : VarSymbol
total = var 31 "total" int

-- x, total, total!
abbrev lambda_body : Tree
lambda_body = block body (
    trees (var_ref "x" (some (var 32 "x" int)))
      (trees (var_ref "total" (some total)) (trees (var_ref "total!" none) no_trees)))

abbrev captured : Capture
captured = record { offset = 0; introduced_type = int; refered_symbol = total }

resolve_lambda_captures-IsLaidOut_example :
    IsLaidOut (captured ∷ []) × All (IsCapture store 5 lambda) (captured ∷ [])
unfolding resolve_lambda_captures func_eq type_eq
resolve_lambda_captures-IsLaidOut_example =
    resolve_lambda_captures-IsLaidOut store 5 lambda around lambda_body refl

replace-IsMember_example : IsMember store 5 lambda (captured ∷ []) total captured
unfolding resolve_lambda_captures func_eq replace type_eq
replace-IsMember_example = replace-IsMember store 5 lambda total around lambda_body refl refl
