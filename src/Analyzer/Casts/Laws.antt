-- ===== src/Analyzer/Casts/Laws.antt =====
-- Casts that src/dachs/semantics/analyzer.cpp lets pass.
use dachs.Base.{
  ℕ, ◌≡◌, ap, sym, ◌∙◌, ◌⊎◌, inl, inr, true, false, ◌||◌, Option, none, some, List, [], ◌∷◌, Bool,
  Bool-cases,
}
use dachs.Base.Defined.{bind-some, some_inj, some-none}
use dachs.Types.{AnyType, func_type, generic_func_type, Types, MaybeType, FuncScope, Store}
use dachs.Types.Template.{is_template}
use dachs.Types.Equality.{type_eq}
use dachs.Types.Predicates.{is_aggregate}
use dachs.Scope.{Scope, GlobalScope}
use dachs.Scope.Functions.{func_is_template, resolve_cast_func}
use dachs.Scope.Casts.{Casts, resolve_cast_func-Casts}
use dachs.Analyzer.Calls.{
  Definitions, check_member_func_visibility, instance_of, check_func_type_compatibility,
}
use dachs.Analyzer.Calls.Laws.{IsVisible, IsVisible-lem}
use dachs.Analyzer.Casts.{
  CastExpr, check_cast_visibility, use_cast_func, cast_to_func, cast_to_value, visit_cast_expr,
}

module _ (S : Store) (fuel : ℕ) (current_scope : Scope) (defs : Definitions) where
  -- The function `h` is a cast function of the two types or an instance of one.
  pub record IsCastCall (from to : AnyType) (h : FuncScope) : Type 0 where
    pub found : FuncScope
    pub casts : Casts S fuel from to found
    pub is_found_or_instance : (h ≡ found) ⊎ (defs.instantiate found (from ∷ []) ≡ some h)
    pub accessible : (defs.is_public h ≡ true) ⊎ IsVisible S fuel current_scope defs h

  -- What a cast is that passes: one that calls nothing, on types of which none is an aggregate
  -- or which are equal, or a call.
  abbrev pub IsConversion : AnyType → AnyType → Option FuncScope → Type 0
  IsConversion from to callee =
      (((is_aggregate to || is_aggregate from) ≡ false) × (callee ≡ none))
      ⊎ ((type_eq S fuel from to ≡ some true) × (callee ≡ none))
      ⊎ ((h : FuncScope) × (callee ≡ some h) × IsCastCall from to h)

  -- What a cast to a function type is that passes: from a function type that is compatible,
  -- which the cast then has, from a generic one that is converted, or from any other.
  abbrev pub IsFuncCast :
      (AnyType → AnyType → Option CastExpr) → AnyType → Types → MaybeType → Bool → CastExpr → Type 0
  IsFuncCast on_cast (func_type qs actual_ret actual_proc) ps ret is_proc c =
      (check_func_type_compatibility S fuel ps ret qs actual_ret ≡ some true)
      × (c.type_of_expr ≡ func_type qs actual_ret actual_proc)
  IsFuncCast on_cast (generic_func_type ref) ps ret is_proc c =
      on_cast (generic_func_type ref) (func_type ps ret is_proc) ≡ some c
  IsFuncCast on_cast t ps ret is_proc c = c.type_of_expr ≡ func_type ps ret is_proc

  abbrev pub IsPassed :
      (AnyType → AnyType → Option CastExpr) → AnyType → AnyType → CastExpr → Type 0
  IsPassed on_cast from (func_type ps ret is_proc) c = IsFuncCast on_cast from ps ret is_proc c
  IsPassed on_cast from t c = IsConversion from t c.callee_cast_scope

  cast_to_func-IsFuncCast :
      (g : GlobalScope) (on_cast : AnyType → AnyType → Option CastExpr) (from : AnyType)
      (ps : Types) (ret : MaybeType) (is_proc : Bool) {c : CastExpr}
      → cast_to_func S fuel current_scope defs g on_cast from ps ret is_proc ≡ some c
      → c.error ≡ none
      → IsFuncCast on_cast from ps ret is_proc c
  unfolding cast_to_func
  cast_to_func-IsFuncCast g on_cast (func_type qs actual_ret actual_proc) ps ret is_proc e ok =
      let (compatible, ec, e1) =
        bind-some (check_func_type_compatibility S fuel ps ret qs actual_ret) _ e in
      elim (Bool-cases compatible) [
        | inl y ↦ (ec ∙ ap some y, ap (λ c. c.type_of_expr) (sym (some_inj (rw y at e1))))
        | inr n ↦ absurd (some-none (ap (λ c. c.error) (some_inj (rw n at e1)) ∙ ok))
      ]
  cast_to_func-IsFuncCast g on_cast (generic_func_type ref) ps ret is_proc e ok = e
  cast_to_func-IsFuncCast g on_cast t ps ret is_proc e ok =
      ap (λ c. c.type_of_expr) (sym (some_inj e))

  instance_of-found :
      (f h : FuncScope) (args : List AnyType) (template : Bool)
      → instance_of S fuel current_scope defs template defs.instantiate f args ≡ some h
      → (h ≡ f) ⊎ (defs.instantiate f args ≡ some h)
  instance_of-found f h args true e = inr e
  instance_of-found f h args false e = inl (sym (some_inj e))

  module _ (g : GlobalScope) (on_cast : AnyType → AnyType → Option CastExpr)
      (child_type : AnyType) where
    -- A cast function that passes the test is accessible.
    visibility-accessible :
        (t : AnyType) (h : FuncScope) {c : CastExpr}
        → check_cast_visibility S fuel current_scope defs g on_cast child_type t h ≡ some c
        → c.error ≡ none
        → (c.callee_cast_scope ≡ some h)
          × ((defs.is_public h ≡ true) ⊎ IsVisible S fuel current_scope defs h)
    unfolding check_cast_visibility
    visibility-accessible t h e ok = elim (Bool-cases (defs.is_public h)) [
      | inl y ↦ (
        ap (λ c. c.callee_cast_scope) (sym (some_inj (rw (y, check_cast_visibility) at e))),
        inl y,
      )
      | inr n ↦
          let (visible, ev, e1) =
            bind-some (check_member_func_visibility S current_scope h) _
              (rw (n, check_cast_visibility) at e) in
          elim (Bool-cases visible) [
            | inl y ↦ (
              ap (λ c. c.callee_cast_scope) (sym (some_inj (rw y at e1))),
              inr (IsVisible-lem S fuel current_scope defs h (ev ∙ ap some y)),
            )
            | inr m ↦ absurd (some-none (ap (λ c. c.error) (some_inj (rw m at e1)) ∙ ok))
          ]
    ]

    use_cast_func-IsCastCall :
        (t : AnyType) (found : Option FuncScope) {c : CastExpr}
        → resolve_cast_func S fuel g child_type t ≡ some found
        → use_cast_func S fuel current_scope defs g on_cast child_type t found ≡ some c
        → c.error ≡ none
        → (h : FuncScope) × (c.callee_cast_scope ≡ some h) × IsCastCall child_type t h
    unfolding use_cast_func
    use_cast_func-IsCastCall t none r e ok =
        absurd (some-none (ap (λ c. c.error) (some_inj e) ∙ ok))
    use_cast_func-IsCastCall t (some f) r e ok =
        let (template, et, e1) = bind-some (func_is_template S fuel f) _ e in
        let (h, eh, e2) =
          bind-some
            (instance_of S fuel current_scope defs template defs.instantiate f (child_type ∷ [])) _
            e1 in
        let (called, accessible) = visibility-accessible t h e2 ok in
        (
          h,
          called,
          record {
            found = f;
            casts = resolve_cast_func-Casts S fuel g child_type t f r;
            is_found_or_instance = instance_of-found f h (child_type ∷ []) template eh;
            accessible = accessible;
          },
        )

    cast_to_value-IsConversion :
        (t : AnyType) {c : CastExpr}
        → cast_to_value S fuel current_scope defs g on_cast child_type t ≡ some c
        → c.error ≡ none
        → IsConversion child_type t c.callee_cast_scope
    unfolding cast_to_value
    cast_to_value-IsConversion t e ok =
        elim (Bool-cases (is_aggregate t || is_aggregate child_type)) [
          | inr n ↦
              inl (n, ap (λ c. c.callee_cast_scope) (sym (some_inj (rw (n, cast_to_value) at e))))
          | inl y ↦
              let (same, es, e1) =
                bind-some (type_eq S fuel child_type t) _ (rw (y, cast_to_value) at e) in
              elim (Bool-cases same) [
                | inl eq ↦ inr (
                    inl (
                      es ∙ ap some eq,
                      ap (λ c. c.callee_cast_scope) (sym (some_inj (rw eq at e1))),
                    ))
                | inr neq ↦
                    let (found, ef, e2) =
                      bind-some (resolve_cast_func S fuel g child_type t) _ (rw neq at e1) in
                    inr (inr (use_cast_func-IsCastCall t found ef e2 ok))
              ]
        ]

    known-IsPassed :
        (t : AnyType) {c : CastExpr}
        → elim t [
          | func_type ps ret is_proc ↦
              cast_to_func S fuel current_scope defs g on_cast child_type ps ret is_proc
          | u ↦ cast_to_value S fuel current_scope defs g on_cast child_type u
        ]
          ≡ some c
        → c.error ≡ none
        → IsPassed on_cast child_type t c
    known-IsPassed (func_type ps ret is_proc) e ok =
        cast_to_func-IsFuncCast g on_cast child_type ps ret is_proc e ok
    known-IsPassed t e ok = cast_to_value-IsConversion t e ok

    -- If the visit of a cast reports no error, then the cast's type is no template, and for a
    -- function type, the expression has a compatible function type that the cast takes, or a
    -- generic one that is converted, or the cast keeps its type; for another type, no cast
    -- function is called, on types that are equal or both no aggregate, or the callee is a
    -- cast function of the two types, or an instance of one, that is public or visible.
    visit_cast_expr-IsPassed :
        (t : AnyType) {c : CastExpr}
        → visit_cast_expr S fuel current_scope defs g on_cast child_type t ≡ some c
        → c.error ≡ none
        → (is_template S fuel t ≡ some false) × IsPassed on_cast child_type t c
    unfolding visit_cast_expr
    visit_cast_expr-IsPassed t e ok =
        let (template, et, e1) = bind-some (is_template S fuel t) _ e in
        elim (Bool-cases template) [
          | inl y ↦ absurd (some-none (ap (λ c. c.error) (some_inj (rw y at e1)) ∙ ok))
          | inr n ↦ (et ∙ ap some n, known-IsPassed t (rw n at e1) ok)
        ]
