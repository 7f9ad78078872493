-- ===== src/Tests/Templates.antt =====
-- Instances of class templates and constructors that src/dachs/semantics/analyzer.cpp reads.
use dachs.Base.{refl, some, [], ◌∷◌}
use dachs.Types.{ClassScope, Store}
use dachs.Types.Template.{is_template}
use dachs.Analyzer.Instances.{InstantiationMap, specify_instantiation}
use dachs.Analyzer.Instances.Found.{IsFound}
use dachs.Analyzer.Instances.Laws.{IsFilled, specify_instantiation-IsFilled}
use dachs.Analyzer.SelfAccess.{Tree, var_ref, func_invocation, no_trees, trees, passes}
use dachs.Analyzer.SelfAccess.Laws.{NoSelf, passes-NoSelf}
use dachs.Tests.Data.{int, point, point_class, box_class, var}

-- Box(int) with the index 2
abbrev int_box_class : ClassScope
int_box_class = record {
  name = "Box";
  instance_var_symbols = var 80 "value" int ∷ var 81 "point" point ∷ [];
  instantiated = [];
}

abbrev template : ClassScope
template = record box_class { instantiated = 2 ∷ [] }

abbrev classes : Store
classes = point_class ∷ template ∷ int_box_class ∷ []

abbrev types : InstantiationMap
types = ("value", int) ∷ ("point", point) ∷ []

specify_instantiation-IsFilled_example :
    IsFilled classes 5 template.instance_var_symbols (int ∷ []) types
    × IsFound classes 5 types (some 2)
unfolding specify_instantiation is_template
specify_instantiation-IsFilled_example =
    specify_instantiation-IsFilled classes 5 template (int ∷ []) (refl, (refl, tt))
      ((refl, tt), (tt, tt)) refl

-- print(x)
abbrev print_x : Tree
print_x = func_invocation (var_ref "print") (trees (var_ref "x") no_trees)

passes-NoSelf_example : NoSelf print_x
unfolding passes
passes-NoSelf_example = passes-NoSelf print_x (refl, tt) refl
