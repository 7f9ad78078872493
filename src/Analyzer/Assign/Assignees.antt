-- ===== src/Analyzer/Assign/Assignees.antt =====
-- The left sides of assignments that pass the checks of src/dachs/semantics/analyzer.cpp.
use mathlib.Core.Path.{subst}
use dachs.Base.{◌≡◌, ◌⊎◌, inl, inr, true, false, some, List, [], ◌∷◌, All, Bool-cases, Option-cases}
use dachs.Base.Defined.{bind-some, some_inj}
use dachs.Types.{is_known, VarSymbol}
use dachs.Analyzer.Assign.{
  VarRef, Assignee, get_var_ref, is_ignored_var, Round, go_on, return_, check_assignee,
  check_assignees,
}

-- The side refers to a variable that is ignored, or that is mutable.
pub record IsMutable (lhs : Assignee) : Type 0 where
  pub v : VarRef
  pub refers : get_var_ref lhs ≡ some v
  pub may_change :
      (is_ignored_var v ≡ true) ⊎ ((s : VarSymbol) × (v.symbol ≡ some s) × (s.immutable ≡ false))

-- The variable has no type, for which the walk has reported an error.
pub record HasNoType (lhs : Assignee) : Type 0 where
  pub v : VarRef
  pub refers : get_var_ref lhs ≡ some v
  pub unknown : is_known v.ty ≡ false

abbrev pub AnyHasNoType : List Assignee → Type 0
AnyHasNoType [] = ⊥
AnyHasNoType (lhs ∷ assignees) = HasNoType lhs ⊎ AnyHasNoType assignees

-- What a round that reports no error says
abbrev RoundSays : Assignee → Round → Type 0
RoundSays lhs go_on = IsMutable lhs
RoundSays lhs (return_ es) = es ≡ [] → HasNoType lhs

assignee-RoundSays : (lhs : Assignee) (r : Round) → check_assignee lhs ≡ some r → RoundSays lhs r
unfolding check_assignee
assignee-RoundSays lhs r e = elim (Option-cases (get_var_ref lhs)) [
  | inl n ↦ subst (RoundSays lhs) (some_inj (rw (n, check_assignee) at e)) (λ h. cc)
  | inr (v, ev) ↦ elim (Bool-cases (is_ignored_var v)) [
    | inl y ↦
        subst (RoundSays lhs) (some_inj (rw (ev, y, check_assignee) at e))
          (record { v = v; refers = ev; may_change = inl y })
    | inr n ↦ elim (Bool-cases (is_known v.ty)) [
      | inr u ↦
          subst (RoundSays lhs) (some_inj (rw (ev, n, u, check_assignee) at e))
            (λ h. record { v = v; refers = ev; unknown = u })
      | inl k ↦
          let (s, es, e1) = bind-some v.symbol _ (rw (ev, n, k, check_assignee) at e) in
          elim (Bool-cases s.immutable) [
            | inl y ↦ subst (RoundSays lhs) (some_inj (rw y at e1)) (λ h. cc)
            | inr m ↦
                subst (RoundSays lhs) (some_inj (rw m at e1))
                  (record { v = v; refers = ev; may_change = inr (s, es, m) })
          ]
    ]
  ]
]

abbrev pub AllSay : List Assignee → Round → Type 0
AllSay assignees go_on = All IsMutable assignees
AllSay assignees (return_ es) = es ≡ [] → AnyHasNoType assignees

pub assignees-AllSay :
    (assignees : List Assignee) (r : Round)
    → check_assignees assignees ≡ some r
    → AllSay assignees r
unfolding check_assignees
assignees-AllSay [] r e = subst (AllSay []) (some_inj e) tt
assignees-AllSay (lhs ∷ assignees) r e =
    let (first, ef, e1) = bind-some (check_assignee lhs) _ e in
    next first (assignee-RoundSays lhs first ef) e1 (assignees-AllSay assignees)
  where
    next :
        (first : Round)
        → RoundSays lhs first
        → elim first [ return_ es ↦ some (return_ es) | go_on ↦ check_assignees assignees ] ≡ some r
        → ((r' : Round) → check_assignees assignees ≡ some r' → AllSay assignees r')
        → AllSay (lhs ∷ assignees) r
    next (return_ es) h e1 ih = subst (AllSay (lhs ∷ assignees)) (some_inj e1) (λ k. inl (h k))
    next go_on h e1 ih = later r (ih r e1)
      where
        later : (r' : Round) → AllSay assignees r' → AllSay (lhs ∷ assignees) r'
        later go_on k = (h, k)
        later (return_ es) k = λ x. inr (k x)
