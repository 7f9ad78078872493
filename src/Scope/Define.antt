-- ===== src/Scope/Define.antt =====
-- src/dachs/semantics/scope.hpp: `define_symbol` and the `define_…` members that use it.
pub mod Laws
use dachs.Base.{
  ℕ, String, str_eq, starts_with, Bool, true, false, if◌then◌else◌, Option, none, some, List, [],
  ◌∷◌, ◌++◌, any_b, ◌>>=◌, any_of,
}
use dachs.Types.{VarSymbol, ClassScope, FuncScope, Store}
use dachs.Scope.{Scope, local_scope, func_scope, LocalScope, GlobalScope, check_shadowing_variable}
use dachs.Scope.Functions.{func_eq}

abbrev pub is_builtin_name : String → Bool
is_builtin_name name = starts_with name "__builtin_"

-- `define_symbol` for variables, which are the same if their names are: the new container, and
-- whether the symbol was defined.
unfoldable pub define_symbol : List VarSymbol → VarSymbol → List VarSymbol × Bool
define_symbol container symbol =
    if is_builtin_name symbol.name
    then (container, false)
    else if any_b (λ s. str_eq symbol.name s.name) container
    then (container, false)
    else (container ++ symbol ∷ [], true)

-- `global_scope::define_variable`
unfoldable pub define_global : VarSymbol → GlobalScope → GlobalScope × Bool
unfolding define_symbol
define_global v g =
    let (vs, done) = define_symbol g.const_symbols v in (record g { const_symbols = vs }, done)

-- `global_scope::force_define_constant`
unfoldable pub force_define_constant : VarSymbol → GlobalScope → GlobalScope
force_define_constant v g = record g { const_symbols = g.const_symbols ++ v ∷ [] }

-- `global_scope::define_class`
unfoldable pub define_class : ℕ → GlobalScope → GlobalScope
define_class ref g = record g { classes = g.classes ++ ref ∷ [] }

-- The new scope, whether the variable was defined, and the shadowed variable of the warning.
pub record Defined : Type 0 where
  pub scope : Scope
  pub done : Bool
  pub warning : Option VarSymbol

-- `local_scope::define_variable`
unfoldable pub define_local : VarSymbol → LocalScope → Scope → Defined
unfolding define_symbol check_shadowing_variable
define_local v l outer =
    let (vs, done) = define_symbol l.local_vars v in
    record {
      scope = local_scope (record l { local_vars = vs }) outer;
      done = done;
      warning = check_shadowing_variable v.name (local_scope l outer);
    }

-- `local_scope::define_variable_without_shadowing_check`
unfoldable pub define_local_unchecked : VarSymbol → LocalScope → LocalScope × Bool
unfolding define_symbol
define_local_unchecked v l =
    let (vs, done) = define_symbol l.local_vars v in (record l { local_vars = vs }, done)

-- `local_scope::define_unnamed_func`, where two functions are the same as overloads.
unfoldable pub define_unnamed_func : Store → ℕ → FuncScope → LocalScope → Option (LocalScope × Bool)
define_unnamed_func S fuel f l = if is_builtin_name f.name then some (l, false) else (do
  duplicated ← any_of (λ g. func_eq S fuel f g) l.unnamed_funcs
  some (
      if duplicated
      then (l, false)
      else (record l { unnamed_funcs = l.unnamed_funcs ++ f ∷ [] }, true)))

-- `func_scope::define_param`
unfoldable pub define_param : VarSymbol → FuncScope → Scope → Defined
unfolding define_symbol check_shadowing_variable
define_param v f outer =
    let (vs, done) = define_symbol f.params v in
    record {
      scope = func_scope (record f { params = vs }) outer;
      done = done;
      warning = check_shadowing_variable v.name (func_scope f outer);
    }

-- `func_scope::force_push_front_param`
unfoldable pub force_push_front_param : VarSymbol → FuncScope → FuncScope
force_push_front_param v f = record f { params = v ∷ f.params }

-- `class_scope::define_variable`
unfoldable pub define_instance_var : VarSymbol → ClassScope → ClassScope × Bool
unfolding define_symbol
define_instance_var v c =
    let (vs, done) = define_symbol c.instance_var_symbols v in
    (record c { instance_var_symbols = vs }, done)
