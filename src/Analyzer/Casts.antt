-- ===== src/Analyzer/Casts.antt =====
-- The visit of cast expressions in src/dachs/semantics/analyzer.cpp.
pub mod Laws
use dachs.Base.{ℕ, Bool, true, false, ◌||◌, Option, none, some, List, [], ◌∷◌, ◌>>=◌, if◌then◌else◌}
use dachs.Types.{AnyType, func_type, generic_func_type, Types, MaybeType, FuncScope, Store}
use dachs.Types.Equality.{type_eq}
use dachs.Types.Predicates.{is_aggregate}
use dachs.Types.Template.{is_template}
use dachs.Scope.{Scope, GlobalScope}
use dachs.Scope.Functions.{func_is_template, resolve_cast_func}
use dachs.Analyzer.Calls.{
  Definitions, check_member_func_visibility, instance_of, check_func_type_compatibility,
}

pub data CastError : Type 0 where
  to_template : AnyType → CastError
  incompatible_functions : AnyType → AnyType → CastError
  no_cast_function : AnyType → AnyType → CastError
  private_cast : FuncScope → CastError

-- What the visit leaves in the node of the cast, and the error, if there is one. The function
-- that a generic function type is converted to is `casted_func_scope`.
pub record CastExpr : Type 0 where
  pub type_of_expr : AnyType
  pub callee_cast_scope : Option FuncScope
  pub casted_func_scope : Option FuncScope
  pub error : Option CastError

abbrev pub cast_to : AnyType → CastExpr
cast_to t = record {
  type_of_expr = t;
  callee_cast_scope = none;
  casted_func_scope = none;
  error = none;
}

abbrev pub cast_fails : AnyType → CastError → CastExpr
cast_fails t e = record {
  type_of_expr = t;
  callee_cast_scope = none;
  casted_func_scope = none;
  error = some e;
}

abbrev pub cast_calls : AnyType → FuncScope → CastExpr
cast_calls t f = record {
  type_of_expr = t;
  callee_cast_scope = some f;
  casted_func_scope = none;
  error = none;
}

module _ (S : Store) (fuel : ℕ) (current_scope : Scope) (defs : Definitions) (g : GlobalScope)
    (instantiate_func_on_cast : AnyType → AnyType → Option CastExpr) (child_type : AnyType) where
  -- The branch of a cast to a function type
  unfoldable pub cast_to_func : Types → MaybeType → Bool → Option CastExpr
  unfolding check_func_type_compatibility
  cast_to_func ps ret is_proc = elim child_type [
    | generic_func_type ref ↦
        instantiate_func_on_cast (generic_func_type ref) (func_type ps ret is_proc)
    | func_type qs actual_ret actual_proc ↦ (do
      compatible ← check_func_type_compatibility S fuel ps ret qs actual_ret
      some (
          if compatible
          then cast_to (func_type qs actual_ret actual_proc)
          else cast_fails (func_type ps ret is_proc) (
              incompatible_functions (func_type ps ret is_proc)
                (func_type qs actual_ret actual_proc))))
    | _ ↦ some (cast_to (func_type ps ret is_proc))
  ]

  -- The test whether the cast function may be called
  unfoldable pub check_cast_visibility : AnyType → FuncScope → Option CastExpr
  unfolding check_member_func_visibility
  check_cast_visibility cast_type f = elim (defs.is_public f) [
    | true ↦ some (cast_calls cast_type f)
    | false ↦ (do
      visible ← check_member_func_visibility S current_scope f
      some (if visible then cast_calls cast_type f else cast_fails cast_type (private_cast f)))
  ]

  -- What is done with the result of `resolve_cast_func`
  unfoldable pub use_cast_func : AnyType → Option FuncScope → Option CastExpr
  unfolding check_cast_visibility
  use_cast_func cast_type none = some (cast_fails cast_type (no_cast_function child_type cast_type))
  use_cast_func cast_type (some f) = do
    template ← func_is_template S fuel f
    cast_func ← instance_of S fuel current_scope defs template defs.instantiate f (child_type ∷ [])
    check_cast_visibility cast_type cast_func

  -- The branch of a cast to any other type
  unfoldable pub cast_to_value : AnyType → Option CastExpr
  unfolding use_cast_func resolve_cast_func type_eq is_aggregate
  cast_to_value cast_type = elim (is_aggregate cast_type || is_aggregate child_type) [
    | false ↦ some (cast_to cast_type)
    | true ↦ (do
      same ← type_eq S fuel child_type cast_type
      elim same [
        | true ↦ some (cast_to cast_type)
        | false ↦ (do
          maybe_cast_func ← resolve_cast_func S fuel g child_type cast_type
          use_cast_func cast_type maybe_cast_func)
      ])
  ]

  -- `visit(cast_expr)`, after the type of the cast is known and its parameters are instantiated
  unfoldable pub visit_cast_expr : AnyType → Option CastExpr
  unfolding cast_to_func cast_to_value is_template
  visit_cast_expr cast_type = do
    template ← is_template S fuel cast_type
    elim template [
      | true ↦ some (cast_fails cast_type (to_template cast_type))
      | false ↦ elim cast_type [
        | func_type ps ret is_proc ↦ cast_to_func ps ret is_proc
        | t ↦ cast_to_value t
      ]
    ]
