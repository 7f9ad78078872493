-- ===== src/Analyzer/Typed.antt =====
-- Expressions `e : T` in src/dachs/semantics/analyzer.cpp.
pub mod Laws
use dachs.Base.{
  ℕ, String, str_eq, Bool, true, false, Option, none, some, List, [], ◌∷◌, or_else, not, ◌&&◌, ◌||◌,
  ◌>>=◌, ◌>>◌, require, if◌then◌else◌,
}
use dachs.Types.{
  AnyType, empty, is_known, class_type, generic_func_type, array_type, pointer_type, VarSymbol,
  FuncScope, Store, lock,
}
use dachs.Types.Equality.{type_eq}
use dachs.Types.Instance.{is_instantiated_from}
use dachs.Types.Predicates.{is_array_class, get_array_underlying_type}
use dachs.Scope.{
  Scope, global_scope, local_scope, func_scope, class_scope, get_enclosing_func,
  resolve_instance_var, resolve_var,
}
use dachs.Scope.Define.{Defined, define_global, define_local}
use dachs.Scope.Functions.{is_ctor}
use dachs.Lambda.{without_bang}

-- The types of the child and of the whole expression
pub record TypedExpr : Type 0 where
  pub child_type : AnyType
  pub type_of_expr : AnyType

pub data TypedError : Type 0 where
  types_mismatch : AnyType → AnyType → TypedError

abbrev pub pointee_type : AnyType → AnyType
pointee_type (pointer_type t) = t
pointee_type t = t

module _ (S : Store) (fuel : ℕ) where
  -- Array types, of which the lengths do not matter
  abbrev pub same_elements : AnyType → AnyType → Option Bool
  same_elements (array_type s n) (array_type a m) = type_eq S fuel s a
  same_elements s a = some false

  abbrev pub same_pointees : Option AnyType → Option AnyType → Option Bool
  same_pointees (some s) (some a) = type_eq S fuel (pointee_type s) (pointee_type a)
  same_pointees s a = some false

  -- The four tests on the actual and the specified type
  unfoldable pub fits : AnyType → AnyType → Option Bool
  unfolding is_instantiated_from type_eq get_array_underlying_type
  fits actual specified = or_else (is_instantiated_from S fuel actual specified) (
      or_else (same_elements specified actual) (
        or_else
          (same_pointees (get_array_underlying_type S specified)
            (get_array_underlying_type S actual))
          (type_eq S fuel actual specified)))

  abbrev pub set_specified : Bool → AnyType → TypedExpr → TypedExpr
  set_specified true specified node = record node { child_type = specified }
  set_specified false specified node = node

  -- `visit(typed_expr)`; `walk` gives the child's type after the walk from the one before.
  unfoldable pub visit_typed_expr :
      (AnyType → AnyType) → AnyType → TypedExpr → Option (TypedExpr × Option TypedError)
  unfolding fits is_array_class
  visit_typed_expr walk specified node = elim (is_known specified) [
    | false ↦ some (node, none)
    | true ↦ (do
      let before = set_specified (is_array_class specified) specified node
      let actual = walk before.child_type
      let after = record before { child_type = actual }
      ok ← fits actual specified
      some (
          if ok
          then (record after { type_of_expr = actual }, none)
          else (after, some (types_mismatch specified actual))))
  ]
