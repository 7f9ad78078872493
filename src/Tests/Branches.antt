-- ===== src/Tests/Branches.antt =====
-- Branches and copies that src/dachs/semantics/analyzer.cpp and copy_resolver.hpp read.
use dachs.Base.{String, ◌≡◌, ◌↔◌, refl, true, false, none, some, [], ◌∷◌, All}
use dachs.Types.{
  AnyType, empty, builtin_type, array_type, pointer_type, template_type, tuple_type, nil, cons,
  FuncScope,
}
use dachs.Types.Equality.{type_eq}
use dachs.Types.Predicates.{is_builtin_named}
use dachs.Types.Template.{is_template}
use dachs.Types.Instance.{is_instantiated_from}
use dachs.Overload.{function_score, parameter_score}
use dachs.Scope.{Scope, global_scope}
use dachs.Analyzer.Calls.{Definitions, resolve_func_call}
use dachs.Analyzer.Branches.{visit_if_expr, visit_switch_when_condition}
use dachs.Analyzer.Branches.Laws.{IsBranch, visit_if_expr_iff}
use dachs.Analyzer.Branches.Cases.{AllCompare, visit_switch_when_condition-AllCompare}
use dachs.Analyzer.Copies.{CopierMap, resolve_deep_copy}
use dachs.Analyzer.Copies.Grows.{Grows}
use dachs.Analyzer.Initialize.{VarDecl, InitState, accepts, visit_initialize}
use dachs.Analyzer.Initialize.Accepts.{accepts-pointer}
use dachs.Analyzer.Initialize.Laws.{IsInitialized, visit_initialize-IsInitialized}
use dachs.Analyzer.Assign.{VarRef}
use dachs.Tests.Data.{int, point, store, var}

abbrev bool : AnyType
bool = builtin_type "bool"

visit_if_expr_iff_example :
    (visit_if_expr store 5 ((bool, int) ∷ (bool, int) ∷ []) int
      ≡ some (record { type_of_expr = int; errors = [] }))
    ↔ (All (IsBranch store 5 int) ((bool, int) ∷ (bool, int) ∷ [])
        × (type_eq store 5 int int ≡ some true))
visit_if_expr_iff_example = visit_if_expr_iff store 5 bool int ((bool, int) ∷ []) int refl

-- func ==(l, r : Point) : bool
abbrev equal_points : FuncScope
equal_points = record {
  id = 90;
  name = "==";
  is_builtin = false;
  params = var 91 "l" point ∷ var 92 "r" point ∷ [];
  ret_type = some bool;
  is_member_func = false;
  is_const_ = none;
}

-- func dachs.copy(self : Point) : Point
abbrev copy_point : FuncScope
copy_point = record equal_points {
  id = 93;
  name = "dachs.copy";
  params = var 94 "self" point ∷ [];
  ret_type = some point;
}

abbrev functions : Scope
functions = global_scope (record {
  functions = equal_points ∷ copy_point ∷ [];
  const_symbols = [];
  classes = 0 ∷ [];
  cast_funcs = [];
})

abbrev definitions : Definitions
definitions = record {
  is_public = λ f. true;
  has_return_type = λ f. true;
  analyze = λ f. none;
  instantiate = λ f args. none;
  instantiate_builtin = λ f args. none;
}

visit_switch_when_condition-AllCompare_example :
    AllCompare store 5 functions definitions point
      (point ∷ point ∷ [])
      (some equal_points ∷ some equal_points ∷ [])
unfolding visit_switch_when_condition resolve_func_call is_builtin_named dachs.Overload.resolve_func
    function_score parameter_score is_instantiated_from is_template type_eq
visit_switch_when_condition-AllCompare_example =
    visit_switch_when_condition-AllCompare store 5 functions definitions point (point ∷ point ∷ [])
      (record { callees = some equal_points ∷ some equal_points ∷ []; errors = [] }) refl refl

abbrev apart : CopierMap
apart = record { entries = []; addresses = λ n. n }

abbrev copied_type : AnyType
copied_type = tuple_type (cons point (cons int (cons point nil)))

-- var p : pointer(T) and a value of type pointer(int)
accepts-pointer_example :
    (accepts store 5 (pointer_type (template_type 1)) (pointer_type int) ≡ some false)
    × (accepts store 5 (array_type (template_type 1) none) (array_type int none) ≡ some true)
unfolding type_eq is_template is_instantiated_from
accepts-pointer_example =
    accepts-pointer store 5 (template_type 1) int none none refl refl refl refl refl

abbrev declared : String → VarDecl
declared name = record { name = name; symbol_type = some empty; instance_name = none }

abbrev typed_as : String → AnyType → VarDecl
typed_as name t = record (declared name) { symbol_type = some t }

abbrev ignored : VarDecl
ignored = record { name = "_"; symbol_type = none; instance_name = none }

-- Every type of a class is the same object.
abbrev no_copier : CopierMap
no_copier = record { entries = []; addresses = λ n. 0 }

abbrev one_copier : CopierMap
one_copier = record { entries = (0, copy_point) ∷ []; addresses = λ n. 0 }

abbrev no_errors_yet : InitState
no_errors_yet = record { store = store; copiers = no_copier; errors = [] }

-- var a, _, b := f() with a tuple as the value
visit_initialize-IsInitialized_example :
    IsInitialized 5 3 functions definitions none store
      (declared "a" ∷ ignored ∷ declared "b" ∷ [])
      (copied_type ∷ [])
      (typed_as "a" point ∷ ignored ∷ typed_as "b" point ∷ [])
      store
unfolding visit_initialize resolve_deep_copy dachs.Overload.resolve_func function_score
    parameter_score is_instantiated_from is_template type_eq
visit_initialize-IsInitialized_example =
    visit_initialize-IsInitialized 5 3 functions definitions none
      (declared "a" ∷ ignored ∷ declared "b" ∷ []) (copied_type ∷ []) no_errors_yet
      (
        typed_as "a" point ∷ ignored ∷ typed_as "b" point ∷ [],
        record no_errors_yet { copiers = one_copier },
      )
      refl refl refl refl

abbrev variable : VarRef
variable = record {
  name = "p";
  ty = point;
  symbol = some (record (var 95 "p" point) { immutable = false });
}

abbrev underscore : VarRef
underscore = record { name = "_"; ty = empty; symbol = none }
