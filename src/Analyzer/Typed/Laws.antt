-- ===== src/Analyzer/Typed/Laws.antt =====
-- What an expression `e : T` is that src/dachs/semantics/analyzer.cpp lets pass.
use dachs.Base.{ℕ, ◌≡◌, ap, sym, ◌∙◌, ◌⊎◌, inl, inr, true, none, some, Bool-cases}
use dachs.Base.Defined.{or_else-true, bind-some, some_inj}
use dachs.Types.{AnyType, is_known, Store}
use dachs.Types.Equality.{type_eq}
use dachs.Types.Instance.{is_instantiated_from}
use dachs.Types.Predicates.{is_array_class, get_array_underlying_type}
use dachs.Analyzer.Typed.{
  TypedExpr, same_elements, same_pointees, fits, set_specified, visit_typed_expr,
}

module _ (S : Store) (fuel : ℕ) where
  -- The four ways in which a type fits the one that is written
  abbrev IsFit : AnyType → AnyType → Type 0
  IsFit actual specified =
      (is_instantiated_from S fuel actual specified ≡ some true)
      ⊎ (same_elements S fuel specified actual ≡ some true)
      ⊎ (same_pointees S fuel (get_array_underlying_type S specified)
            (get_array_underlying_type S actual)
          ≡ some true)
      ⊎ (type_eq S fuel actual specified ≡ some true)

  fits-IsFit :
      (actual specified : AnyType)
      → fits S fuel actual specified ≡ some true
      → IsFit actual specified
  unfolding fits
  fits-IsFit actual specified e = elim (or_else-true _ _ e) [
    | inl h ↦ inl h
    | inr e1 ↦ elim (or_else-true _ _ e1) [
      | inl h ↦ inr (inl h)
      | inr e2 ↦ inr (inr (or_else-true _ _ e2))
    ]
  ]

  -- If the visit of `e : T`, with a `T` that is a type, reports no error, then the type of the
  -- whole is that of `e` after the walk, which for an array class `T` begins with `T` as the type
  -- of `e`; and that type is instantiated from `T`, or both are arrays with equal elements, or
  -- both array classes with equal elements, or the two types are equal.
  visit_typed_expr-IsFit :
      (walk : AnyType → AnyType) (specified : AnyType) (node : TypedExpr) {after : TypedExpr}
      → is_known specified ≡ true
      → visit_typed_expr S fuel walk specified node ≡ some (after, none)
      → (after.type_of_expr
          ≡ walk (set_specified S fuel (is_array_class specified) specified node).child_type)
        × IsFit after.type_of_expr specified
  unfolding visit_typed_expr
  visit_typed_expr-IsFit walk specified node {after} known e =
      let actual =
        walk (set_specified S fuel (is_array_class specified) specified node).child_type in
      let (ok, eo, e1) =
        bind-some (fits S fuel actual specified) _ (rw (known, visit_typed_expr) at e) in
      elim (Bool-cases ok) [
        | inr n ↦ cc (rw n at e1)
        | inl y ↦
            let same = ap (λ w. w.0.type_of_expr) (some_inj (rw y at e1)) in
            (sym same, rw (sym same) (fits-IsFit actual specified (eo ∙ ap some y)))
      ]
