-- ===== src/Analyzer/Instances.antt =====
-- Instances of class templates from types that are specified, in src/dachs/semantics/analyzer.cpp.
-- A map of instantiation is a list of names and types, `empty` where a type is not known.
pub mod Found
pub mod Laws
use dachs.Base.{
  ℕ, suc, String, str_eq, Bool, true, false, not, Option, none, some, List, [], ◌∷◌, length, ◌==◌,
  ◌>>=◌, ◌>>◌, require, if◌then◌else◌, is_empty,
}
use dachs.Types.{AnyType, empty, is_known, is_template_type, VarSymbol, ClassScope, Store, lock}
use dachs.Types.Equality.{type_eq}
use dachs.Types.Template.{is_template}

abbrev pub InstantiationMap : Type 0
InstantiationMap = List (String × AnyType)

-- `map[name] = t`
unfoldable pub put : String → AnyType → InstantiationMap → InstantiationMap
put name t [] = (name, t) ∷ []
put name t ((key, u) ∷ map) = if str_eq key name then (name, t) ∷ map else (key, u) ∷ put name t map

unfoldable pub find : String → InstantiationMap → Option AnyType
find name [] = none
find name ((key, u) ∷ map) = if str_eq key name then some u else find name map

-- The loop of `generate_instantiation_map`
unfoldable pub generate_from : List VarSymbol → InstantiationMap → Option InstantiationMap
unfolding put
generate_from [] map = some map
generate_from (s ∷ ss) map = do
  require (is_known s.ty)
  generate_from ss (put s.name (if is_template_type s.ty then empty else s.ty) map)

unfoldable pub generate_instantiation_map : ClassScope → Option InstantiationMap
unfolding generate_from
generate_instantiation_map scope = generate_from scope.instance_var_symbols []

-- `already_instantiated`: the loop of `equals_to_def` over the variables of an instance
unfoldable pub equals_to_def : Store → ℕ → InstantiationMap → List VarSymbol → Option Bool
unfolding type_eq find
equals_to_def S fuel map [] = some true
equals_to_def S fuel map (decl ∷ decls) = do
  t ← find decl.name map
  same ← type_eq S fuel t decl.ty
  elim same [ true ↦ equals_to_def S fuel map decls | false ↦ some false ]

unfoldable pub find_equal : Store → ℕ → InstantiationMap → List ℕ → Option (Option ℕ)
unfolding equals_to_def
find_equal S fuel map [] = some none
find_equal S fuel map (i ∷ is) = do
  c ← lock S i
  same ← equals_to_def S fuel map c.instance_var_symbols
  elim same [ true ↦ some (some i) | false ↦ find_equal S fuel map is ]

-- `def->instantiated` as scopes
unfoldable pub already_instantiated : Store → ℕ → ClassScope → InstantiationMap → Option (Option ℕ)
unfolding find_equal
already_instantiated S fuel scope map = find_equal S fuel map scope.instantiated

-- The first loop of `substitute_class_template_params`: the variables after it
abbrev pub substitute_one : Bool → InstantiationMap → VarSymbol → Option VarSymbol
substitute_one true map s = do t ← find s.name map; some (record s { ty = t })
substitute_one false map s = some s

unfoldable pub substitute_vars :
    Store → ℕ → InstantiationMap → List VarSymbol → Option (List VarSymbol)
unfolding is_template find
substitute_vars S fuel map [] = some []
substitute_vars S fuel map (s ∷ ss) = do
  template ← is_template S fuel s.ty
  s' ← substitute_one template map s
  ss' ← substitute_vars S fuel map ss
  some (s' ∷ ss')

-- The variables that are templates, by `count_if`
unfoldable pub num_templates : Store → ℕ → List VarSymbol → Option ℕ
unfolding is_template
num_templates S fuel [] = some 0
num_templates S fuel (s ∷ ss) = do
  template ← is_template S fuel s.ty
  n ← num_templates S fuel ss
  some (if template then suc n else n)

-- The loop that puts the specified types into the map, and the assertion after it
abbrev pub next_specified :
    (List AnyType → InstantiationMap → Option InstantiationMap)
    → Bool
    → String
    → List AnyType
    → InstantiationMap
    → Option InstantiationMap
next_specified rest true name [] map = none
next_specified rest true name (p ∷ ps) map = rest ps (put name p map)
next_specified rest false name ps map = rest ps map

unfoldable pub put_specified :
    Store → ℕ → List VarSymbol → List AnyType → InstantiationMap → Option InstantiationMap
unfolding is_template
put_specified S fuel [] ps map = do require (is_empty ps); some map
put_specified S fuel (s ∷ ss) ps map = do
  template ← is_template S fuel s.ty
  next_specified (put_specified S fuel ss) template s.name ps map

-- `instantiate_class_from_specified_param_types` up to the instance that there is already: the
-- error of a wrong number of types, with the right one, or the map and the instance.
pub data Instantiation : Type 0 where
  wrong_number : ℕ → Instantiation
  instantiation : InstantiationMap → Option ℕ → Instantiation

unfoldable pub specify_instantiation : Store → ℕ → ClassScope → List AnyType → Option Instantiation
unfolding num_templates put_specified generate_instantiation_map already_instantiated
specify_instantiation S fuel scope specified = do
  n ← num_templates S fuel scope.instance_var_symbols
  elim (length specified == n) [
    | false ↦ some (wrong_number n)
    | true ↦ (do
      generated ← generate_instantiation_map scope
      map ← put_specified S fuel scope.instance_var_symbols specified generated
      found ← already_instantiated S fuel scope map
      some (instantiation map found))
  ]
