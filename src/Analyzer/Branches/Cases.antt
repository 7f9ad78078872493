-- ===== src/Analyzer/Branches/Cases.antt =====
-- What the `when` conditions that src/dachs/semantics/analyzer.cpp lets pass call.
use dachs.Base.{
  ℕ, nil_of_append, ◌≡◌, refl, ap, sym, ◌∙◌, inl, inr, true, false, ◌&&◌, ◌++◌, Option, none, some,
  List, [], ◌∷◌, Bool-cases,
}
use mathlib.Core.Path.{subst}
use dachs.Base.Defined.{bind-some, some_inj}
use dachs.Types.{AnyType, FuncScope, Store}
use dachs.Types.Equality.{type_eq}
use dachs.Types.Predicates.{is_builtin}
use dachs.Scope.{Scope, resolve_func}
use dachs.Analyzer.Calls.{Definitions, Resolved, resolved, oops, resolve_func_call}
use dachs.Analyzer.Calls.Laws.{IsResolution, resolve_func_call-IsResolution}
use dachs.Analyzer.Operators.{visit_builtin_binary_expr, OperatorError}
use dachs.Analyzer.Operators.Laws.{visit_builtin_binary_expr-HasType}
use dachs.Analyzer.Branches.{
  When, when_call, operand_errors, returns_bool, after_compare, visit_when,
  visit_switch_when_condition,
}

module _ (S : Store) (fuel : ℕ) (current_scope : Scope) (defs : Definitions)
    (switcher : AnyType) where
  -- How a value of the type is compared: by the builtin operator on equal types, without a
  -- callee, or by the one function for the two types, which returns `bool`.
  abbrev pub Compares : AnyType → Option FuncScope → Type 0
  Compares t none =
      ((is_builtin switcher && is_builtin t) ≡ true) × (type_eq S fuel switcher t ≡ some true)
  Compares t (some callee) =
      ((is_builtin switcher && is_builtin t) ≡ false)
      × (returns_bool callee.ret_type ≡ true)
      × ((f : FuncScope) × (resolve_func S fuel "==" (switcher ∷ t ∷ []) current_scope
            ≡ some (f ∷ []))
          × IsResolution S fuel current_scope defs f (switcher ∷ t ∷ []) callee)

  abbrev pub AllCompare : List AnyType → List (Option FuncScope) → Type 0
  AllCompare [] [] = Unit {0}
  AllCompare [] (c ∷ cs) = ⊥
  AllCompare (t ∷ ts) [] = ⊥
  AllCompare (t ∷ ts) (c ∷ cs) = Compares t c × AllCompare ts cs

  no_operand_errors : (e : Option OperatorError) → operand_errors e ≡ [] → e ≡ none
  no_operand_errors none h = refl
  no_operand_errors (some x) h = cc

  -- One condition without an error has one callee.
  when-Compares :
      (t : AnyType) (w : When)
      → visit_when S fuel current_scope defs switcher t ≡ some w
      → w.errors ≡ []
      → (c : Option FuncScope) × (w.callees ≡ c ∷ []) × Compares t c
  unfolding visit_when
  when-Compares t w e ok = elim (Bool-cases (is_builtin switcher && is_builtin t)) [
    | inl y ↦
        let (v, ev, e1) =
          bind-some (visit_builtin_binary_expr S fuel "==" switcher t) _
            (rw (y, visit_when) at e) in
        let same = some_inj e1 in
        (
          none,
          ap (λ x. x.callees) (sym same),
          (
            y,
            (visit_builtin_binary_expr-HasType S fuel "==" switcher t ev
                (no_operand_errors v.error (ap (λ x. x.errors) same ∙ ok))).0,
          ),
        )
    | inr n ↦
        let (r, er, e1) =
          bind-some (resolve_func_call S fuel current_scope defs "==" (switcher ∷ t ∷ [])) _
            (rw (n, visit_when) at e) in
        called n r er e1
  ]
    where
      called :
          (is_builtin switcher && is_builtin t) ≡ false
          → (r : Resolved)
          → resolve_func_call S fuel current_scope defs "==" (switcher ∷ t ∷ []) ≡ some r
          → elim r [
            | oops x ↦ some (record { callees = []; errors = when_call x ∷ [] })
            | resolved callee ↦ some (after_compare callee)
          ]
            ≡ some w
          → (c : Option FuncScope) × (w.callees ≡ c ∷ []) × Compares t c
      called n (oops x) er e1 = cc (ap (λ x'. x'.errors) (some_inj e1) ∙ ok)
      called n (resolved callee) er e1 = elim (Bool-cases (returns_bool callee.ret_type)) [
        | inl y ↦ (
          some callee,
          ap (λ x. x.callees) (sym (some_inj (rw y at e1))),
          (
            n,
            y,
            resolve_func_call-IsResolution S fuel current_scope defs "==" (switcher ∷ t ∷ []) callee
                er,
          ),
        )
        | inr m ↦ cc (ap (λ x. x.errors) (some_inj (rw m at e1)) ∙ ok)
      ]

  -- If the conditions of a when clause have no error, then each has its callee in order: none
  -- if it is of a builtin type that equals the builtin type of the value, and else the
  -- resolution of == for the two types, which returns bool.
  pub visit_switch_when_condition-AllCompare :
      (conditions : List AnyType) (w : When)
      → visit_switch_when_condition S fuel current_scope defs switcher conditions ≡ some w
      → w.errors ≡ []
      → AllCompare conditions w.callees
  unfolding visit_switch_when_condition
  visit_switch_when_condition-AllCompare [] w e ok =
      subst (λ x. AllCompare [] x.callees) (some_inj e) tt
  visit_switch_when_condition-AllCompare (t ∷ ts) w e ok =
      let (a, ea, e1) = bind-some (visit_when S fuel current_scope defs switcher t) _ e in
      let (b, eb, e2) =
        bind-some (visit_switch_when_condition S fuel current_scope defs switcher ts) _ e1 in
      let (a0, b0) = nil_of_append a.errors b.errors (ap (λ x. x.errors) (some_inj e2) ∙ ok) in
      let (c, ec, compares) = when-Compares t a ea a0 in
      let rest = visit_switch_when_condition-AllCompare ts b eb b0 in
      let callees : w.callees ≡ c ∷ b.callees =
        ap (λ x. x.callees) (sym (some_inj e2)) ∙ ap (λ x. x ++ b.callees) ec in
      rw callees (compares, rest)
