-- ===== src/Tests/Variables.antt =====
-- Literals and variables that src/dachs/semantics/analyzer.cpp reads.
use dachs.Base.{◌≡◌, refl, true, false, none, some, [], ◌∷◌}
use dachs.Types.{AnyType, empty, class_type, template_type, array_type, nil, FuncScope, Store}
use dachs.Types.Equality.{type_eq}
use dachs.Types.Template.{is_template}
use dachs.Scope.{Scope, global_scope}
use dachs.Scope.Define.{define_local}
use dachs.Analyzer.Calls.{Definitions}
use dachs.Analyzer.Copies.{Copiers, resolve_deep_copy}
use dachs.Analyzer.Declares.{
  Declaration, after_define, new_var, visit_variable_decl, Reference, visit_var_ref,
}
use dachs.Analyzer.Declares.Refers.{visit_var_ref-declared}
use dachs.Analyzer.Literals.{ClassLiteral, check_lengths}
use dachs.Analyzer.Literals.Lengths.{check_lengths-lengths_result}
use dachs.Overload.{function_score, parameter_score}
use dachs.Types.Instance.{is_instantiated_from}
use dachs.Scope.Members.{is_default_constructible, class_constructible, resolve_ctor}
use dachs.Analyzer.Defaults.{
  ObjectConstruct, DefaultDecl, DefaultState, generate_default_construct_ast,
  visit_default_initialize,
}
use dachs.Analyzer.Defaults.Laws.{HasOne, AnyConstructs, visit_default_initialize-HasOne}
use dachs.Tests.Data.{point, int, uint, var, func, no_locals, body, store, globals}

-- total : [int], in a block
abbrev total : Declaration
total = record {
  id = 130;
  name = "total";
  is_var = true;
  instance_name = none;
  maybe_type = some (array_type int none);
}

-- total!
abbrev total_ref : Reference
total_ref = record { name = "total!"; is_lhs_of_assignment = false }

visit_var_ref-declared_example :
    visit_var_ref
      (λ i. false)
      (after_define (new_var total) (define_local (new_var total) no_locals body)).scope
      total_ref
    ≡ some (record {
      symbol = some (new_var total);
      type_of_ref = array_type int none;
      is_not_found = false;
    })
unfolding visit_variable_decl define_local
visit_var_ref-declared_example =
    visit_var_ref-declared store no_locals body total (λ i. false) total_ref refl refl refl refl
      refl refl refl

check_lengths-lengths_result_example :
    check_lengths (array_type int (some 2)) (array_type int (some 2) ∷ array_type int (some 2) ∷ [])
    ≡ some none
unfolding type_eq
check_lengths-lengths_result_example =
    check_lengths-lengths_result store 5 (array_type int (some 2)) (array_type int (some 2) ∷ [])
      refl

-- class array: buf, capacity : uint, size : uint
abbrev arrays : Store
arrays =
    (record {
      name = "array";
      instance_var_symbols =
          var 140 "buf" (template_type 7) ∷ var 141 "capacity" uint ∷ var 142 "size" uint ∷ [];
      instantiated = [];
    })
    ∷ []

abbrev in_arrays : Scope
in_arrays = global_scope (record globals { classes = 0 ∷ [] })

abbrev no_definitions : Definitions
no_definitions = record {
  is_public = λ f. true;
  has_return_type = λ f. true;
  analyze = λ f. none;
  instantiate = λ f args. none;
  instantiate_builtin = λ f args. none;
}

abbrev init : FuncScope
init = func 143 "dachs.init" [] none

abbrev int_array : AnyType
int_array = class_type "array" 1 nil

abbrev unknown : ClassLiteral
unknown = record {
  type_of_literal = empty;
  constructed_class_scope = none;
  callee_ctor_scope = none;
}

abbrev no_copiers : Copiers
no_copiers = record { copiers = record { entries = []; addresses = λ n. n }; errors = [] }

-- class Point with its constructor, and two variables of the class
abbrev init_point : FuncScope
init_point = func 150 "dachs.init" (var 151 "self" point ∷ []) (some int)

abbrev first_point : DefaultDecl
first_point = record { name = "p"; symbol = some (var 152 "p" point) }

abbrev second_point : DefaultDecl
second_point = record { name = "q"; symbol = some (var 153 "q" point) }

abbrev without_values : DefaultState
without_values = record { maybe_rhs_exprs = none; copiers = no_copiers; errors = [] }

abbrev new_point : ObjectConstruct
new_point = record {
  type_of_construct = point;
  constructed_class_scope = 0;
  callee_ctor_scope = init_point;
}

visit_default_initialize-HasOne_example :
    HasOne store 5 3
      (init_point ∷ [])
      in_arrays
      no_definitions
      (λ t. some (some t))
      (λ c.
        AnyConstructs store 5 3
          (init_point ∷ [])
          in_arrays
          no_definitions
          (λ t. some (some t))
          c
          (first_point ∷ second_point ∷ []))
      without_values
      (record { maybe_rhs_exprs = some (new_point ∷ []); copiers = no_copiers; errors = [] })
unfolding visit_default_initialize is_default_constructible generate_default_construct_ast
    resolve_ctor dachs.Overload.resolve_func function_score parameter_score is_instantiated_from
    is_template type_eq resolve_deep_copy class_constructible
visit_default_initialize-HasOne_example =
    visit_default_initialize-HasOne store 5 3 (init_point ∷ []) in_arrays no_definitions
      (λ t. some (some t)) (first_point ∷ second_point ∷ []) without_values refl
