-- ===== src/Tests/Calls.antt =====
-- Calls and operators that src/dachs/semantics/analyzer.cpp reads.
use dachs.Base.{◌≡◌, refl, true, false, none, some, List, [], ◌∷◌}
use dachs.Types.{AnyType, empty, generic_func_type, class_type, nil, Store, VarSymbol, FuncScope}
use dachs.Types.Equality.{type_eq}
use dachs.Types.Template.{is_template}
use dachs.Types.Instance.{is_instantiated_from}
use dachs.Overload.{overload_set, function_score, parameter_score}
use dachs.Scope.{Scope, global_scope, func_scope, resolve_func}
use dachs.Ast.{pos, int_value, primary_literal}
use dachs.ConstFunc.{var_ref as variable}
use dachs.Analyzer.Calls.{Definitions, resolve_func_call}
use dachs.Analyzer.Calls.Laws.{IsResolution, resolve_func_call-IsResolution}
use dachs.Analyzer.Index.{IndexAccess}
use dachs.Analyzer.Ufcs.{ufcs_calls, visit_ufcs}
use dachs.Analyzer.Ufcs.Laws.{IsMemberAccess, visit_ufcs-IsMemberAccess}
use dachs.Analyzer.Invocation.{
  CallArgument, instance_var_access, var_ref, FuncInvocation, visit_func_invocation,
}
use dachs.Analyzer.Invocation.Laws.{IsPassedCall, visit_func_invocation-IsPassedCall}
use dachs.Tests.Data.{int, float, point, store, var}

-- func Point.[](self, i : int) : float, a private function
abbrev at : FuncScope
at = record {
  id = 70;
  name = "[]";
  is_builtin = false;
  params = var 71 "self" point ∷ var 72 "i" int ∷ [];
  ret_type = some float;
  is_member_func = true;
  is_const_ = some true;
}

abbrev inside_point : Scope
inside_point = func_scope at (
    func_scope at (
      global_scope
        (record { functions = at ∷ []; const_symbols = []; classes = 0 ∷ []; cast_funcs = [] })))

abbrev definitions : Definitions
definitions = record {
  is_public = λ f. false;
  has_return_type = λ f. true;
  analyze = λ f. none;
  instantiate = λ f args. none;
  instantiate_builtin = λ f args. none;
}

abbrev private_x : VarSymbol
private_x = record {
  id = 73;
  name = "x";
  ty = int;
  ast_node = none;
  is_builtin = false;
  immutable = true;
  is_global = false;
  is_public = false;
}

resolve_func_call-IsResolution_example :
    (f : FuncScope) × (resolve_func store 5 "[]" (point ∷ int ∷ []) inside_point ≡ some (f ∷ []))
    × IsResolution store 5 inside_point definitions f (point ∷ int ∷ []) at
unfolding resolve_func_call dachs.Overload.resolve_func function_score parameter_score
    is_instantiated_from is_template type_eq
resolve_func_call-IsResolution_example =
    resolve_func_call-IsResolution store 5 inside_point definitions "[]" (point ∷ int ∷ []) at refl

abbrev pair : List AnyType
pair = int ∷ float ∷ []

abbrev access : IndexAccess
access = record {
  child = variable (var 74 "p" point);
  child_type = point;
  index_expr = primary_literal 1 (int_value (pos 1));
  is_assign = false;
  type_of_access = empty;
  callee_scope = none;
}

abbrev accessed : IndexAccess
accessed = record access { type_of_access = float; callee_scope = some at }

abbrev public_definitions : Definitions
public_definitions = record definitions { is_public = λ f. true }

-- func Point.norm(self) : float, a private function
abbrev norm : FuncScope
norm = record at { id = 80; name = "norm"; params = var 81 "self" point ∷ [] }

abbrev inside_norm : Scope
inside_norm = func_scope norm (
    func_scope norm (
      global_scope
        (record { functions = norm ∷ []; const_symbols = []; classes = 0 ∷ []; cast_funcs = [] })))

visit_ufcs-IsMemberAccess_example :
    IsMemberAccess store 5 inside_norm definitions false "norm" point
      (variable (var 74 "p" point))
      (ufcs_calls norm float none)
unfolding visit_ufcs dachs.Overload.resolve_func function_score parameter_score is_instantiated_from
    is_template type_eq
visit_ufcs-IsMemberAccess_example =
    visit_ufcs-IsMemberAccess store 5 inside_norm definitions false "norm" point
      (variable (var 74 "p" point)) refl refl refl

-- func Button.press(self), and the instance variable `on_press` of the class, which refers to
-- the function `press`
abbrev press : FuncScope
press = record at { id = 90; name = "press"; params = var 91 "n" int ∷ []; is_member_func = false }

abbrev on_press : VarSymbol
on_press = var 92 "on_press" (generic_func_type (some 90))

abbrev buttons : Store
buttons = (record { name = "Button"; instance_var_symbols = on_press ∷ []; instantiated = [] }) ∷ []

abbrev in_press : Scope
in_press = func_scope press (
    global_scope
      (record { functions = press ∷ []; const_symbols = []; classes = 0 ∷ []; cast_funcs = [] }))

abbrev button : CallArgument
button = record {
  expr = variable (var 93 "b" (class_type "Button" 0 nil));
  ty = class_type "Button" 0 nil;
}

abbrev three : CallArgument
three = record { expr = variable (var 94 "n" int); ty = int }

-- b.on_press(n), before the visit and after it
abbrev pressed : FuncInvocation
pressed = record {
  child = var_ref "on_press" empty;
  args = button ∷ three ∷ [];
  is_ufcs = true;
  type_of_expr = empty;
  callee_scope = none;
}

abbrev after_press : FuncInvocation
after_press = record {
  child = instance_var_access button "on_press" (generic_func_type (some 90));
  args = three ∷ [];
  is_ufcs = true;
  type_of_expr = float;
  callee_scope = some press;
}

visit_func_invocation-IsPassedCall_example :
    IsPassedCall buttons 5 in_press public_definitions (λ i. some press) pressed after_press
unfolding visit_func_invocation dachs.Overload.resolve_func function_score parameter_score
    is_instantiated_from is_template type_eq
visit_func_invocation-IsPassedCall_example =
    visit_func_invocation-IsPassedCall buttons 5 in_press public_definitions (λ i. some press)
      pressed refl
