-- ===== src/Tests/Scopes.antt =====
-- Lookups, definitions, captures and casts in a small tree of scopes of
-- src/dachs/semantics/scope.hpp.
use dachs.Base.{◌≡◌, refl, true, none, some, [], ◌∷◌, ◌>>=◌}
use dachs.Types.{VarSymbol}
use dachs.Types.Equality.{type_eq}
use dachs.Types.Template.{is_template}
use dachs.Types.Node.{to_ast}
use dachs.Types.Predicates.{get_builtin_type}
use dachs.Scope.{resolve_class_by_name}
use dachs.Scope.Functions.{resolve_class_template}
use dachs.Scope.Templates.{IsFound, resolve_class_template-IsFound}
use dachs.Scope.Constructors.{Checker, Checked, Argument, uint_literal}
use dachs.Scope.TypeFromAst.{from_ast, success}
use dachs.Scope.TypeFromAst.RoundTrip.{IsNamed, from_ast-to_ast}
use dachs.Tests.Data.{uint, instance_store, int, float, var, store, globals, translator, written}

abbrev new_total : VarSymbol
new_total = var 50 "total" float

abbrev new_count : VarSymbol
new_count = var 51 "count" int

point-IsNamed : IsNamed translator "Point" 0
unfolding get_builtin_type resolve_class_by_name
point-IsNamed = record { not_builtin = refl; resolved = refl }

box-IsNamed : IsNamed translator "Box" 1
unfolding get_builtin_type resolve_class_by_name
box-IsNamed = record { not_builtin = refl; resolved = refl }

from_ast-to_ast_example : (to_ast [] 5 written >>= from_ast translator) ≡ some (success written)
unfolding get_builtin_type
from_ast-to_ast_example =
    from_ast-to_ast [] translator 5 written
      (((point-IsNamed, tt), (refl, tt)), ((box-IsNamed, (refl, tt)), (refl, tt)))

resolve_class_template-IsFound_example : IsFound instance_store 5 globals "Box" (int ∷ []) 2
unfolding resolve_class_template is_template type_eq
resolve_class_template-IsFound_example =
    resolve_class_template-IsFound instance_store 5 globals "Box" (int ∷ []) 2 refl

abbrev five : Argument
five = record { literal = uint_literal 5; ty = uint }

abbrev checker : Checker
checker = record { store = store; fuel = 5; functions = []; resolve_deep_copy = λ t. true }

abbrev five_ints : Checked
five_ints = record { element_type = int; size = some 5; error = none }
