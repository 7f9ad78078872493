-- ===== src/Scope/Lookup.antt =====
-- What a variable's name means in a scope, and the warning about shadowing.
use dachs.Base.{String, ◌≡◌, refl, Option, none, some}
use dachs.Types.{VarSymbol}
use dachs.Scope.{
  Scope, global_scope, local_scope, func_scope, class_scope, GlobalScope, find_var, or_outer,
  resolve_var, check_shadowing_variable,
}

-- The global scope at the root.
abbrev pub root : Scope → GlobalScope
root (global_scope g) = g
root (local_scope l outer) = root outer
root (func_scope f outer) = root outer
root (class_scope c outer) = root outer

or_outer_assoc : (a b c : Option VarSymbol) → or_outer a (or_outer b c) ≡ or_outer (or_outer a b) c
or_outer_assoc none b c = refl
or_outer_assoc (some v) b c = refl

-- A name means the variable that the warning about shadowing would name, or, if there would be
-- no warning, the global constant of that name.
pub resolve_var-shadowing :
    (name : String) (s : Scope)
    → resolve_var name s
      ≡ or_outer (check_shadowing_variable name s) (find_var name (root s).const_symbols)
unfolding resolve_var check_shadowing_variable
resolve_var-shadowing name (global_scope g) = refl
resolve_var-shadowing name (local_scope l outer) = rw (resolve_var-shadowing name outer) (
    or_outer_assoc (find_var name l.local_vars) (check_shadowing_variable name outer)
      (find_var name (root outer).const_symbols))
resolve_var-shadowing name (func_scope f outer) = rw (resolve_var-shadowing name outer) (
    or_outer_assoc (find_var name f.params) (check_shadowing_variable name outer)
      (find_var name (root outer).const_symbols))
resolve_var-shadowing name (class_scope c outer) = resolve_var-shadowing name outer
