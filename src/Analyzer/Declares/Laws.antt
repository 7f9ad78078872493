-- ===== src/Analyzer/Declares/Laws.antt =====
-- What a declaration is that src/dachs/semantics/analyzer.cpp lets pass.
use dachs.Base.{
  String, str_eq, ◌≡◌, ap, sym, ◌∙◌, ◌⊎◌, inl, inr, true, false, Option, none, some, Bool-cases,
  Option-cases, if◌then◌else◌,
}
use dachs.Base.Defined.{bind-some, some_inj, some-none}
use dachs.Types.{VarSymbol, FuncScope, Store}
use dachs.Scope.{Scope, LocalScope, local_scope, resolve_var}
use dachs.Scope.Define.{Defined, define_local}
use dachs.Scope.Define.Laws.{resolve_var-define_local}
use dachs.Analyzer.Declares.{
  Declaration, DeclError, Declared, enclosing_ctor, has_instance_var, new_var, has_bad_type,
  check_instance_var, define_variable, after_define, declare, visit_decl, visit_variable_decl,
}

-- The declaration is of no instance variable, or it stands in a constructor of a class that has
-- the variable.
abbrev pub MayDeclare : Store → Scope → Declaration → Type 0
MayDeclare S s decl =
    (decl.instance_name ≡ none)
    ⊎ ((name : String) × (ctor : FuncScope) × (decl.instance_name ≡ some name)
        × (enclosing_ctor s ≡ some ctor)
        × (has_instance_var S ctor.params name ≡ some true))

instance_var-MayDeclare :
    (S : Store) (s : Scope) (decl : Declaration)
    → check_instance_var S s decl ≡ some none
    → MayDeclare S s decl
unfolding check_instance_var
instance_var-MayDeclare S s decl e = elim (Option-cases decl.instance_name) [
  | inl n ↦ inl n
  | inr (name, en) ↦ elim (Option-cases (enclosing_ctor s)) [
    | inl m ↦ cc (rw (en, m, check_instance_var) at e)
    | inr (ctor, ec) ↦
        let (has, eh, e1) =
          bind-some (has_instance_var S ctor.params name) _
            (rw (en, ec, check_instance_var) at e) in
        elim (Bool-cases has) [
          | inl y ↦ inr (name, ctor, en, ec, eh ∙ ap some y)
          | inr m ↦ cc (rw m at e1)
        ]
  ]
]

-- The symbol that the visit of a declaration sets, and what names mean after it
pub record IsDeclared (S : Store) (l : LocalScope) (outer : Scope) (decl : Declaration)
    (after : Declared) : Type 0 where
  pub may_declare : MayDeclare S (local_scope l outer) decl
  pub type_is_known : has_bad_type decl.maybe_type ≡ false
  pub sets_symbol : after.symbol ≡ some (new_var decl)
  pub means :
      (name : String)
      → resolve_var name after.scope ≡ (
          if str_eq decl.name name
          then some (new_var decl)
          else resolve_var name (local_scope l outer))

define-done : (v : VarSymbol) (d : Defined) → (after_define v d).error ≡ none → d.done ≡ true
define-done v d e = elim (Bool-cases d.done) [ inl y ↦ y | inr n ↦ cc (rw n at e) ]

-- If a declaration in a block, not of `_`, is visited without an error, then it is of no
-- instance variable, or stands in a constructor of a class that has the variable, the type
-- that is written is a type, and after the visit the name means the symbol of the declaration,
-- while any other name means what it meant before.
pub visit_variable_decl-IsDeclared :
    (S : Store) (l : LocalScope) (outer : Scope) (decl : Declaration) {after : Declared}
    → str_eq decl.name "_" ≡ false
    → visit_variable_decl S (local_scope l outer) decl ≡ some after
    → after.error ≡ none
    → IsDeclared S l outer decl after
unfolding visit_variable_decl visit_decl declare define_variable
visit_variable_decl-IsDeclared S l outer decl {after} named e ok =
    let (r, er, e1) =
      bind-some (check_instance_var S (local_scope l outer) decl) _ (rw (named, visit_decl) at e) in
    go r er e1
  where
    go :
        (r : Option DeclError)
        → check_instance_var S (local_scope l outer) decl ≡ some r
        → declare (local_scope l outer) decl r ≡ some after
        → IsDeclared S l outer decl after
    go (some x) er e1 = absurd (some-none (ap (λ w. w.error) (some_inj e1) ∙ ok))
    go none er e1 = elim (Bool-cases (has_bad_type decl.maybe_type)) [
      | inl y ↦ absurd (some-none (ap (λ w. w.error) (some_inj (rw (y, declare) at e1)) ∙ ok))
      | inr n ↦
          let same = some_inj (rw (n, declare) at e1) in
          record {
            may_declare = instance_var-MayDeclare S (local_scope l outer) decl er;
            type_is_known = n;
            sets_symbol = ap (λ w. w.symbol) (sym same);
            means = λ name.
                ap (λ w. resolve_var name w.scope) (sym same)
                ∙ resolve_var-define_local (new_var decl) l outer name (
                    define-done (new_var decl) (define_local (new_var decl) l outer)
                      (ap (λ w. w.error) same ∙ ok));
          }
    ]
