-- ===== src/Analyzer/Branches/Laws.antt =====
-- Which `if` expressions src/dachs/semantics/analyzer.cpp lets pass.
use dachs.Base.{
  ℕ, nil_of_append, ◌≡◌, ◌↔◌, refl, ap, ◌∙◌, inl, inr, true, ◌++◌, Option, some, List, [], ◌∷◌, All,
  Bool-cases,
}
use dachs.Base.Defined.{bind-some, some_inj}
use dachs.Types.{AnyType, builtin_type, is_known, Store}
use dachs.Types.Equality.{type_eq}
use dachs.Types.Predicates.{get_builtin_type}
use dachs.Analyzer.Branches.{
  BranchError, Branches, expect, block_mismatch, else_mismatch, condition_not_bool,
  check_condition_expr, check_blocks, visit_if_expr,
}

module _ (S : Store) (fuel : ℕ) where
  pub expect_iff :
      (t u : AnyType) (e : BranchError)
      → (expect S fuel t u e ≡ some []) ↔ (type_eq S fuel t u ≡ some true)
  expect_iff t u e = (there, λ h. rw h refl)
    where
      there : expect S fuel t u e ≡ some [] → type_eq S fuel t u ≡ some true
      there h =
          let (same, es, e1) = bind-some (type_eq S fuel t u) _ h in
          elim (Bool-cases same) [ inl y ↦ es ∙ ap some y | inr n ↦ cc (rw n at e1) ]

  -- The condition is of type `bool`, and the block of the type of the first one.
  abbrev pub IsBranch : AnyType → AnyType × AnyType → Type 0
  IsBranch type (condition, block) =
      (type_eq S fuel condition (builtin_type "bool") ≡ some true)
      × (type_eq S fuel type block ≡ some true)

  blocks-errors :
      (type : AnyType) (blocks : List (AnyType × AnyType))
      → check_blocks S fuel type blocks ≡ some []
      → All (IsBranch type) blocks
  unfolding check_blocks check_condition_expr get_builtin_type
  blocks-errors type [] h = tt
  blocks-errors type ((condition, block) ∷ blocks) h =
      let (e, ee, h1) = bind-some (check_condition_expr S fuel condition) _ h in
      let (m, em, h2) = bind-some (expect S fuel type block (block_mismatch type block)) _ h1 in
      let (es, ees, h3) = bind-some (check_blocks S fuel type blocks) _ h2 in
      let (e0, r) = nil_of_append e (m ++ es) (some_inj h3) in
      let (m0, es0) = nil_of_append m es r in
      (
        (
          (expect_iff condition (builtin_type "bool") (condition_not_bool condition)).0
              (ee ∙ ap some e0),
          (expect_iff type block (block_mismatch type block)).0 (em ∙ ap some m0),
        ),
        blocks-errors type blocks (ees ∙ ap some es0),
      )

  errors-blocks :
      (type : AnyType) (blocks : List (AnyType × AnyType))
      → All (IsBranch type) blocks
      → check_blocks S fuel type blocks ≡ some []
  unfolding check_blocks check_condition_expr get_builtin_type
  errors-blocks type [] h = refl
  errors-blocks type ((condition, block) ∷ blocks) ((c, b), rest) =
      rw (c, b, errors-blocks type blocks rest) refl

  module _ (condition type : AnyType) (blocks : List (AnyType × AnyType)) (else_block : AnyType)
      (known : is_known type ≡ true) where
    passes : Option Branches
    passes = some (record { type_of_expr = type; errors = [] })

    AllBranches : Type 0
    AllBranches =
        All (IsBranch type) ((condition, type) ∷ blocks)
        × (type_eq S fuel type else_block ≡ some true)

    passes-AllBranches :
        visit_if_expr S fuel ((condition, type) ∷ blocks) else_block ≡ passes → AllBranches
    unfolding visit_if_expr passes AllBranches
    passes-AllBranches h =
        let (es, ees, h1) =
          bind-some (check_blocks S fuel type ((condition, type) ∷ blocks)) _
            (rw (known, visit_if_expr) at h) in
        let (m, em, h2) =
          bind-some (expect S fuel type else_block (else_mismatch type else_block)) _ h1 in
        let (es0, m0) = nil_of_append es m (ap (λ b. b.errors) (some_inj h2)) in
        (
          blocks-errors type ((condition, type) ∷ blocks) (ees ∙ ap some es0),
          (expect_iff type else_block (else_mismatch type else_block)).0 (em ∙ ap some m0),
        )

    AllBranches-passes :
        AllBranches → visit_if_expr S fuel ((condition, type) ∷ blocks) else_block ≡ passes
    unfolding visit_if_expr passes AllBranches
    AllBranches-passes (all, last) =
        rw (known, visit_if_expr)
          (rw (errors-blocks type ((condition, type) ∷ blocks) all, last) refl)

    -- An if expression of which the first block has a known type gets that type without an
    -- error exactly when each condition is of type bool, and each block and the else block of
    -- the type of the first block.
    pub visit_if_expr_iff :
        (visit_if_expr S fuel ((condition, type) ∷ blocks) else_block
          ≡ some (record { type_of_expr = type; errors = [] }))
        ↔ (All (IsBranch type) ((condition, type) ∷ blocks)
            × (type_eq S fuel type else_block ≡ some true))
    unfolding passes AllBranches
    visit_if_expr_iff = (passes-AllBranches, AllBranches-passes)
