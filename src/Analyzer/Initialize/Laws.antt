-- ===== src/Analyzer/Initialize/Laws.antt =====
-- The types that initialized variables get in src/dachs/semantics/analyzer.cpp.
use mathlib.Core.Path.{subst}
use dachs.Base.{
  ℕ, ◌≡◌, refl, ap, sym, ◌∙◌, ◌⊎◌, inl, inr, true, false, ◌++◌, Option, none, some, List, [], ◌∷◌,
  Bool-cases, Option-cases, nil_of_append, all_b, any_b, str_eq, length, ◌==◌, require,
}
use dachs.Base.Defined.{bind-some, some_inj}
use dachs.Types.{AnyType, is_known, tuple_type, Types, to_list, from_list, Store}
use dachs.Scope.{Scope}
use dachs.Analyzer.Calls.{Definitions}
use dachs.Analyzer.Copies.{resolve_deep_copy}
use dachs.Analyzer.Initialize.{
  VarDecl, InitError, InitState, accepts, infer_instance_var, set_symbol_type, substitute_type,
  substitute_each, substitute_sized, substitute_tuple, substitute_all, is_undefined,
  visit_initialize,
}
use dachs.Analyzer.Initialize.Infers.{Infers, infer-Infers}

no_error : (es : List InitError) (e : InitError) → ¬ (es ++ e ∷ [] ≡ [])
no_error es e h = let (a, b) = nil_of_append es (e ∷ []) h in cc

module _ (fuel depth : ℕ) (current_scope : Scope) (defs : Definitions)
    (receiver : Option (ℕ × Types)) where
  -- A declaration without a symbol, which is `_`, stays; the symbol of any other takes the type
  -- of the value, which its own type accepts among the classes after the type of an instance
  -- variable is inferred.
  abbrev pub Takes : Store → VarDecl → AnyType → VarDecl → Store → Type 0
  Takes S decl t decl' S' =
      ((decl.symbol_type ≡ none) × (decl' ≡ decl) × (S' ≡ S))
      ⊎ ((u : AnyType) × (decl.symbol_type ≡ some u)
          × (decl'.symbol_type ≡ some t)
          × Infers receiver S decl.instance_name t S'
          × (accepts S' fuel u t ≡ some true))

  -- One after another, from the classes before to those after
  abbrev pub AllTake : Store → List VarDecl → List AnyType → List VarDecl → Store → Type 0
  AllTake S [] [] [] S' = S' ≡ S
  AllTake S (decl ∷ decls) (t ∷ ts) (decl' ∷ decls') S' =
      (S1 : Store) × Takes S decl t decl' S1 × AllTake S1 decls ts decls' S'
  AllTake S decls ts decls' S' = ⊥

  symbol_type-passes :
      (decl : VarDecl) (u t : AnyType) (st : InitState) (r : VarDecl × InitState)
      → set_symbol_type fuel depth current_scope defs receiver decl u t st ≡ some r
      → r.1.errors ≡ []
      → (st.errors ≡ [])
        × (r.1.store ≡ st.store)
        × (r.0.symbol_type ≡ some t)
        × (accepts st.store fuel u t ≡ some true)
  unfolding set_symbol_type
  symbol_type-passes decl u t st r e ok =
      let (fits, ef, e1) = bind-some (accepts st.store fuel u t) _ e in
      elim (Bool-cases fits) [
        | inl y ↦
            let same = some_inj (rw y at e1) in
            (
              ap (λ x. x.1.errors) same ∙ ok,
              ap (λ x. x.1.store) (sym same),
              ap (λ x. x.0.symbol_type) (sym same),
              ef ∙ ap some y,
            )
        | inr n ↦ absurd (no_error st.errors _ (ap (λ x. x.1.errors) (some_inj (rw n at e1)) ∙ ok))
      ]

  type-Takes :
      (decl : VarDecl) (t : AnyType) (st : InitState) (r : VarDecl × InitState)
      → substitute_type fuel depth current_scope defs receiver decl t st ≡ some r
      → r.1.errors ≡ []
      → (st.errors ≡ []) × Takes st.store decl t r.0 r.1.store
  unfolding substitute_type
  type-Takes decl t st r e ok = elim (Option-cases decl.symbol_type) [
    | inl untyped ↦
        let (u, eu, e1) =
          bind-some (require (str_eq decl.name "_")) _ (rw (untyped, substitute_type) at e) in
        let same = some_inj e1 in
        (
          ap (λ x. x.1.errors) same ∙ ok,
          inl (untyped, ap (λ x. x.0) (sym same), ap (λ x. x.1.store) (sym same)),
        )
    | inr (u, typed) ↦
        let (S, eS, e1) =
          bind-some (infer_instance_var st.store receiver decl.instance_name t) _
            (rw (typed, substitute_type) at e) in
        let (c, ec, e2) =
          bind-some
            (resolve_deep_copy S fuel current_scope defs depth t
              (record { copiers = st.copiers; errors = [] }))
            _ e1 in
        elim (Bool-cases c.0) [
          | inl y ↦
              let (before, kept, set_type, fits) =
                symbol_type-passes decl u t (record st { store = S; copiers = c.1.copiers }) r
                  (rw y at e2) ok in
              (
                before,
                inr (
                  u,
                  typed,
                  set_type,
                  subst (Infers receiver st.store decl.instance_name t) (sym kept)
                      (infer-Infers receiver st.store decl.instance_name t eS),
                  ap (λ x. accepts x fuel u t) kept ∙ fits,
                ),
              )
          | inr n ↦
              absurd (no_error st.errors _ (ap (λ x. x.1.errors) (some_inj (rw n at e2)) ∙ ok))
        ]
  ]

  each-AllTake :
      (decls : List VarDecl) (ts : List AnyType) (st : InitState) (r : List VarDecl × InitState)
      → substitute_each fuel depth current_scope defs receiver decls ts st ≡ some r
      → r.1.errors ≡ []
      → (st.errors ≡ []) × AllTake st.store decls ts r.0 r.1.store
  unfolding substitute_each
  each-AllTake [] [] st r e ok =
      let same = some_inj e in
      (ap (λ x. x.1.errors) same ∙ ok, subst (λ x. AllTake st.store [] [] x.0 x.1.store) same refl)
  each-AllTake (decl ∷ decls) (t ∷ ts) st r e ok =
      let (a, ea, e1) =
        bind-some (substitute_type fuel depth current_scope defs receiver decl t st) _ e in
      let (b, eb, e2) =
        bind-some (substitute_each fuel depth current_scope defs receiver decls ts a.1) _ e1 in
      let same = some_inj e2 in
      let (none_after, rest) = each-AllTake decls ts a.1 b eb (ap (λ x. x.1.errors) same ∙ ok) in
      let (none_before, first) = type-Takes decl t st a ea none_after in
      (
        none_before,
        subst (λ x. AllTake st.store (decl ∷ decls) (t ∷ ts) x.0 x.1.store) same
            (a.1.store, first, rest),
      )
  each-AllTake [] (t ∷ ts) st r e ok = cc
  each-AllTake (decl ∷ decls) [] st r e ok = cc

  -- How the types of the values become those of the variables: as they are, as one tuple for one
  -- variable, or as the elements of the one tuple for several.
  abbrev pub IsExpansion : List VarDecl → List AnyType → List AnyType → Type 0
  IsExpansion decls ts us =
      (us ≡ ts)
      ⊎ (((decl : VarDecl) × (decls ≡ decl ∷ [])) × (us ≡ tuple_type (from_list ts) ∷ []))
      ⊎ ((es : Types) × (ts ≡ tuple_type es ∷ []) × (us ≡ to_list es))

  abbrev pub IsInitialized : Store → List VarDecl → List AnyType → List VarDecl → Store → Type 0
  IsInitialized S decls ts decls' S' =
      (us : List AnyType) × IsExpansion decls ts us × AllTake S decls us decls' S'

  sized-AllTake :
      (decls : List VarDecl) (ts : List AnyType) (st : InitState) (r : List VarDecl × InitState)
      → substitute_sized fuel depth current_scope defs receiver decls ts st ≡ some r
      → r.1.errors ≡ []
      → AllTake st.store decls ts r.0 r.1.store
  sized-AllTake decls ts st r e ok = elim (Bool-cases (length decls == length ts)) [
    | inl y ↦ (each-AllTake decls ts st r (rw (y, substitute_sized) at e) ok).1
    | inr n ↦ absurd (
        no_error st.errors _ (ap (λ x. x.1.errors) (some_inj (rw (n, substitute_sized) at e)) ∙ ok))
  ]

  tuple-IsInitialized :
      (decls : List VarDecl) (t : AnyType) (st : InitState) (r : List VarDecl × InitState)
      → substitute_tuple fuel depth current_scope defs receiver decls t st ≡ some r
      → r.1.errors ≡ []
      → IsInitialized st.store decls (t ∷ []) r.0 r.1.store
  tuple-IsInitialized decls (tuple_type ts) st r e ok =
      (to_list ts, inr (inr (ts, refl, refl)), sized-AllTake decls (to_list ts) st r e ok)
  tuple-IsInitialized decls t st r e ok =
      absurd (no_error st.errors _ (ap (λ x. x.1.errors) (some_inj e) ∙ ok))

  all-IsInitialized :
      (decls : List VarDecl) (ts : List AnyType) (st : InitState) (r : List VarDecl × InitState)
      → substitute_all fuel depth current_scope defs receiver decls ts st ≡ some r
      → r.1.errors ≡ []
      → IsInitialized st.store decls ts r.0 r.1.store
  unfolding substitute_all
  all-IsInitialized [] ts st r e ok = cc
  all-IsInitialized (decl ∷ decls) [] st r e ok = cc
  all-IsInitialized (decl ∷ []) (t ∷ []) st r e ok =
      (t ∷ [], inl refl, (each-AllTake (decl ∷ []) (t ∷ []) st r e ok).1)
  all-IsInitialized (decl ∷ []) (t ∷ u ∷ ts) st r e ok =
      let packed = tuple_type (from_list (t ∷ u ∷ ts)) ∷ [] in
      (packed, inr (inl ((decl, refl), refl)), (each-AllTake (decl ∷ []) packed st r e ok).1)
  all-IsInitialized (decl ∷ decl' ∷ decls) (t ∷ []) st r e ok =
      tuple-IsInitialized (decl ∷ decl' ∷ decls) t st r e ok
  all-IsInitialized (decl ∷ decl' ∷ decls) (t ∷ u ∷ ts) st r e ok =
      (t ∷ u ∷ ts, inl refl, sized-AllTake (decl ∷ decl' ∷ decls) (t ∷ u ∷ ts) st r e ok)

  -- If an initialization with values of known types, by declarations of which all but those of
  -- _ have symbols, reports no error, then, one declaration after another, an instance
  -- variable of the receiver's class whose type is a template gets the type of its value, and
  -- otherwise the classes stay; each symbol gets the type of its value, which its own type
  -- accepts among the classes that there are then, and a _ without one stays; the types are
  -- those of the values, one tuple of them for one variable, or the elements of the tuple that
  -- is the one value.
  pub visit_initialize-IsInitialized :
      (decls : List VarDecl) (ts : List AnyType) (st : InitState) (r : List VarDecl × InitState)
      → all_b is_known ts ≡ true
      → any_b (is_undefined fuel depth current_scope defs receiver) decls ≡ false
      → visit_initialize fuel depth current_scope defs receiver decls ts st ≡ some r
      → r.1.errors ≡ []
      → IsInitialized st.store decls ts r.0 r.1.store
  unfolding visit_initialize
  visit_initialize-IsInitialized decls ts st r known defined e ok =
      all-IsInitialized decls ts st r (rw (known, defined, visit_initialize) at e) ok
