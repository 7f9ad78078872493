-- ===== src/Scope.antt =====
-- src/dachs/semantics/scope.hpp and scope.cpp: the tree of scopes seen from one of its nodes, up
-- to the root through `enclosing_scope`, and what is defined and looked up in it.
pub mod Functions
pub mod Define
pub mod Capture
pub mod Casts
pub mod Lookup
pub mod TypeFromAst
pub mod Members
pub mod Constructors
pub mod Templates
use dachs.Base.{
  ℕ, String, str_eq, starts_with, Bool, true, false, if◌then◌else◌, not, Option, none, some, List,
  [], ◌∷◌, ◌++◌, is_empty, ◌>>=◌, ◌>>◌, require, any_b, get_elem?, length, ◌==◌,
}
use dachs.Types.{AnyType, VarSymbol, ClassScope, FuncScope, Store, lock}
use dachs.Overload.{resolve_func as overload}

pub record GlobalScope : Type 0 where
  pub functions : List FuncScope
  pub const_symbols : List VarSymbol
  pub classes : List ℕ
  pub cast_funcs : List FuncScope

pub record LocalScope : Type 0 where
  pub local_vars : List VarSymbol
  pub unnamed_funcs : List FuncScope

-- A scope with the scopes around it. The children of a local scope do not matter here.
pub data Scope : Type 0 where
  global_scope : GlobalScope → Scope
  local_scope : LocalScope → Scope → Scope
  func_scope : FuncScope → Scope → Scope
  class_scope : ClassScope → Scope → Scope

-- `helper::find_if`, by a name
abbrev pub find_var : String → List VarSymbol → Option VarSymbol
find_var name [] = none
find_var name (v ∷ vs) = if str_eq v.name name then some v else find_var name vs

abbrev pub or_outer : Option VarSymbol → Option VarSymbol → Option VarSymbol
or_outer none outer = outer
or_outer (some v) outer = some v

-- `resolve_var` of each kind of scope
unfoldable pub resolve_var : String → Scope → Option VarSymbol
resolve_var name (global_scope g) = find_var name g.const_symbols
resolve_var name (local_scope l outer) =
    or_outer (find_var name l.local_vars) (resolve_var name outer)
resolve_var name (func_scope f outer) = or_outer (find_var name f.params) (resolve_var name outer)
resolve_var name (class_scope c outer) = resolve_var name outer

-- `class_scope::resolve_instance_var`
abbrev pub resolve_instance_var : String → ClassScope → Option VarSymbol
resolve_instance_var name c = find_var name c.instance_var_symbols

-- `resolve_func`
unfoldable pub resolve_func : Store → ℕ → String → List AnyType → Scope → Option (List FuncScope)
resolve_func S fuel name args (global_scope g) = overload S fuel g.functions name args
resolve_func S fuel name args (local_scope l outer) = resolve_func S fuel name args outer
resolve_func S fuel name args (func_scope f outer) = resolve_func S fuel name args outer
resolve_func S fuel name args (class_scope c outer) = resolve_func S fuel name args outer

-- The loop of `find_if` over the classes of the global scope.
unfoldable pub find_class : Store → String → List ℕ → Option (Option ℕ)
find_class S name [] = some none
find_class S name (ref ∷ refs) = do
  c ← lock S ref
  elim (str_eq c.name name) [ true ↦ some (some ref) | false ↦ find_class S name refs ]

-- `resolve_class_by_name`
unfoldable pub resolve_class_by_name : Store → String → Scope → Option (Option ℕ)
unfolding find_class
resolve_class_by_name S name (global_scope g) = find_class S name g.classes
resolve_class_by_name S name (local_scope l outer) = resolve_class_by_name S name outer
resolve_class_by_name S name (func_scope f outer) = resolve_class_by_name S name outer
resolve_class_by_name S name (class_scope c outer) = resolve_class_by_name S name outer

-- The two assertions of `func_scope::resolve_receiver`, and its result.
abbrev pub self_param : List VarSymbol → Option (Option VarSymbol)
self_param [] = none
self_param (p ∷ ps) = do require (str_eq p.name "self"); some (some p)

-- `resolve_receiver`. The global scope has no version of its own, and no enclosing scope.
unfoldable pub resolve_receiver : Scope → Option (Option VarSymbol)
resolve_receiver (global_scope g) = none
resolve_receiver (local_scope l outer) = resolve_receiver outer
resolve_receiver (func_scope f outer) = if f.is_member_func then self_param f.params else some none
resolve_receiver (class_scope c outer) = resolve_receiver outer

-- `enclosing_func_resolver` on the enclosing scope, and `get_enclosing_func` on its own.
unfoldable pub enclosing_func : Scope → Option FuncScope
enclosing_func (global_scope g) = none
enclosing_func (local_scope l outer) = enclosing_func outer
enclosing_func (func_scope f outer) = some f
enclosing_func (class_scope c outer) = enclosing_func outer

unfoldable pub get_enclosing_func : Scope → Option FuncScope
unfolding enclosing_func
get_enclosing_func (global_scope g) = none
get_enclosing_func (local_scope l outer) = enclosing_func outer
get_enclosing_func (func_scope f outer) = enclosing_func outer
get_enclosing_func (class_scope c outer) = enclosing_func outer

-- `check_shadowing_variable`: the variable that the warning names, if there is a warning.
unfoldable pub check_shadowing_variable : String → Scope → Option VarSymbol
check_shadowing_variable name (global_scope g) = none
check_shadowing_variable name (local_scope l outer) =
    or_outer (find_var name l.local_vars) (check_shadowing_variable name outer)
check_shadowing_variable name (func_scope f outer) =
    or_outer (find_var name f.params) (check_shadowing_variable name outer)
check_shadowing_variable name (class_scope c outer) = check_shadowing_variable name outer
