-- ===== src/Analyzer/Declares/Refers.antt =====
-- References to a variable after its declaration.
use dachs.Base.{ℕ, str_eq, eq_iff, ◌≡◌, refl, ap, ◌∙◌, Bool, false, ◌&&◌, none, some, if◌then◌else◌}
use dachs.Types.{Store}
use dachs.Scope.{Scope, LocalScope, local_scope, resolve_var}
use dachs.Lambda.{without_bang}
use dachs.Analyzer.Declares.{
  Declaration, Declared, new_var, visit_variable_decl, Reference, visit_var_ref,
}
use dachs.Analyzer.Declares.Laws.{visit_variable_decl-IsDeclared}

-- If a declaration in a block, not of `_` and of no function, is visited without an error,
-- then the visit of a reference, of which the name, without a `!` at its end, is that of the
-- declaration, sets the symbol of the declaration and the type that it has, without an error.
-- The reference is not the `_` on the left side of an assignment.
pub visit_var_ref-declared :
    (S : Store) (l : LocalScope) (outer : Scope) (decl : Declaration) {after : Declared}
    (is_func : ℕ → Bool) (r : Reference)
    → str_eq decl.name "_" ≡ false
    → visit_variable_decl S (local_scope l outer) decl ≡ some after
    → after.error ≡ none
    → is_func decl.id ≡ false
    → without_bang r.name ≡ decl.name
    → str_eq r.name "" ≡ false
    → r.is_lhs_of_assignment && str_eq r.name "_" ≡ false
    → visit_var_ref is_func after.scope r
      ≡ some
          (record { symbol = after.symbol; type_of_ref = (new_var decl).ty; is_not_found = false })
unfolding visit_var_ref
visit_var_ref-declared S l outer decl {after} is_func r named e ok no_func same some_name other =
    let declared = visit_variable_decl-IsDeclared S l outer decl named e ok in
    let found : resolve_var (without_bang r.name) after.scope ≡ some (new_var decl) = rw (same) (
      declared.means decl.name
      ∙ ap (λ b. if b then some (new_var decl) else resolve_var decl.name (local_scope l outer))
          ((eq_iff decl.name decl.name).1 refl)) in
    rw (some_name, other, found, no_func, declared.sets_symbol, visit_var_ref) refl
