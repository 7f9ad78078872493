-- ===== src/ConstFunc/Harmless.antt =====
-- The walk of `const_member_func_checker` of src/dachs/semantics/const_func_checker.hpp over trees
-- in which no function is called by name.
use dachs.Base.{ℕ, ◌≡◌, refl, ap, ◌∙◌, Bool, true, false, Option, none, some, List, if◌then◌else◌}
use dachs.Base.Defined.{bind-some, some_inj}
use dachs.Types.{AnyType, Store}
use dachs.Types.Equality.{type_eq}
use dachs.ConstFunc.{
  Tree, Trees, var_ref, ufcs_invocation, func_invocation, index_access, assignment_stmt, node,
  no_trees, trees, Member, Consts, State, assign_to, visit_lhs_of_assign, visit_assignees, visit,
  visit_all,
}

module _ (S : Store) (fuel : ℕ) (self_type : AnyType) where
  -- An assignment to the node does not change a member of a variable of the type.
  abbrev pub Keeps : Tree → Type 0
  Keeps (ufcs_invocation child (some k)) = ⊥
  Keeps (ufcs_invocation (ufcs_invocation child callee) none) = Keeps (ufcs_invocation child callee)
  Keeps (ufcs_invocation (var_ref s) none) = type_eq S fuel s.ty self_type ≡ some false
  Keeps t = Unit

  abbrev pub AllKeep : Trees → Type 0
  AllKeep no_trees = Unit
  AllKeep (trees t ts) = Keeps t × AllKeep ts

  -- No assignment in the tree changes a member of a variable of the type.
  abbrev mutual
    pub IsHarmless : Tree → Type 0
    IsHarmless (var_ref s) = Unit
    IsHarmless (ufcs_invocation child callee) = IsHarmless child
    IsHarmless (func_invocation child args callee) = Unit
    IsHarmless (index_access child index) = IsHarmless child × IsHarmless index
    IsHarmless (assignment_stmt ls rs) = AllKeep ls × AllHarmless rs
    IsHarmless (node ts) = AllHarmless ts

    pub AllHarmless : Trees → Type 0
    AllHarmless no_trees = Unit
    AllHarmless (trees t ts) = IsHarmless t × AllHarmless ts

  assign_to-true : (same b : Bool) → assign_to same b ≡ true → (same ≡ false) × (b ≡ true)
  assign_to-true true b e = cc
  assign_to-true false b e = (refl, e)

  lhs-Keeps :
      (t : Tree) (b : Bool)
      → visit_lhs_of_assign S fuel self_type t b ≡ some true
      → (b ≡ true) × Keeps t
  unfolding visit_lhs_of_assign
  lhs-Keeps (var_ref s) b e = (some_inj e, tt)
  lhs-Keeps (ufcs_invocation child (some k)) b e = cc
  lhs-Keeps (ufcs_invocation (ufcs_invocation child k) none) b e =
      lhs-Keeps (ufcs_invocation child k) b e
  lhs-Keeps (ufcs_invocation (var_ref s) none) b e =
      let (same, es, e1) = bind-some (type_eq S fuel s.ty self_type) _ e in
      let (other, kept) = assign_to-true same b (some_inj e1) in (kept, es ∙ ap some other)
  lhs-Keeps (ufcs_invocation (func_invocation c args k) none) b e = (some_inj e, tt)
  lhs-Keeps (ufcs_invocation (index_access c i) none) b e = (some_inj e, tt)
  lhs-Keeps (ufcs_invocation (assignment_stmt ls rs) none) b e = (some_inj e, tt)
  lhs-Keeps (ufcs_invocation (node ts) none) b e = (some_inj e, tt)
  lhs-Keeps (func_invocation child args k) b e = (some_inj e, tt)
  lhs-Keeps (index_access child index) b e = (some_inj e, tt)
  lhs-Keeps (assignment_stmt ls rs) b e = (some_inj e, tt)
  lhs-Keeps (node ts) b e = (some_inj e, tt)

  assignees-AllKeep :
      (ts : Trees) (b : Bool)
      → visit_assignees S fuel self_type ts b ≡ some true
      → (b ≡ true) × AllKeep ts
  unfolding visit_assignees
  assignees-AllKeep no_trees b e = (some_inj e, tt)
  assignees-AllKeep (trees t ts) b e =
      let (b', eb, e1) = bind-some (visit_lhs_of_assign S fuel self_type t b) _ e in
      let (kept, all) = assignees-AllKeep ts b' e1 in
      let (before, keeps) = lhs-Keeps t b (eb ∙ ap some kept) in (before, (keeps, all))

  Keeps-lhs : (t : Tree) → Keeps t → visit_lhs_of_assign S fuel self_type t true ≡ some true
  unfolding visit_lhs_of_assign
  Keeps-lhs (var_ref s) h = refl
  Keeps-lhs (ufcs_invocation child (some k)) h = absurd h
  Keeps-lhs (ufcs_invocation (ufcs_invocation child k) none) h =
      Keeps-lhs (ufcs_invocation child k) h
  Keeps-lhs (ufcs_invocation (var_ref s) none) h = rw h refl
  Keeps-lhs (ufcs_invocation (func_invocation c args k) none) h = refl
  Keeps-lhs (ufcs_invocation (index_access c i) none) h = refl
  Keeps-lhs (ufcs_invocation (assignment_stmt ls rs) none) h = refl
  Keeps-lhs (ufcs_invocation (node ts) none) h = refl
  Keeps-lhs (func_invocation child args k) h = refl
  Keeps-lhs (index_access child index) h = refl
  Keeps-lhs (assignment_stmt ls rs) h = refl
  Keeps-lhs (node ts) h = refl

  AllKeep-assignees :
      (ts : Trees) → AllKeep ts → visit_assignees S fuel self_type ts true ≡ some true
  unfolding visit_assignees
  AllKeep-assignees no_trees h = refl
  AllKeep-assignees (trees t ts) h = rw (Keeps-lhs t h.0) (AllKeep-assignees ts h.1)

-- No function is called by name in the tree.
abbrev mutual
  pub NoCalls : Tree → Type 0
  NoCalls (var_ref s) = Unit
  NoCalls (ufcs_invocation child callee) = NoCalls child
  NoCalls (func_invocation child args callee) = ⊥
  NoCalls (index_access child index) = NoCalls child × NoCalls index
  NoCalls (assignment_stmt ls rs) = AllNoCalls rs
  NoCalls (node ts) = AllNoCalls ts

  pub AllNoCalls : Trees → Type 0
  AllNoCalls no_trees = Unit
  AllNoCalls (trees t ts) = NoCalls t × AllNoCalls ts

module _ (S : Store) (fuel : ℕ) (check : ℕ → Consts → Option State) (members : List Member)
    (self : ℕ) (ty : AnyType) where
  if-true :
      (k : Option State) (st : State) {st' : State}
      → (if st.0 then k else some st) ≡ some st'
      → st'.0 ≡ true
      → (st.0 ≡ true) × (k ≡ some st')
  if-true k (true, c) e y = (refl, e)
  if-true k (false, c) e y = cc

  mutual
    unfolding visit

    pub visit-IsHarmless :
        (t : Tree) (st : State) {st' : State}
        → NoCalls t
        → visit S fuel check members self ty t st ≡ some st'
        → st'.0 ≡ true
        → (st.0 ≡ true) × IsHarmless S fuel ty t
    visit-IsHarmless (var_ref s) st n e y = (ap (λ r. r.0) (some_inj e) ∙ y, tt)
    visit-IsHarmless (ufcs_invocation child k) st n e y =
        let (y0, e1) = if-true _ st e y in visit-IsHarmless child st n e1 y
    visit-IsHarmless (func_invocation child args k) st n e y = absurd n
    visit-IsHarmless (index_access child index) st n e y =
        let (y0, e1) = if-true _ st e y in
        let (st1, es, e2) = bind-some (visit S fuel check members self ty child st) _ e1 in
        let (y1, second) = visit-IsHarmless index st1 n.1 e2 y in
        let (y2, first) = visit-IsHarmless child st n.0 es y1 in (y0, (first, second))
    visit-IsHarmless (assignment_stmt ls rs) st n e y =
        let (b1, eb, e1) = bind-some (visit_assignees S fuel ty ls st.0) _ e in
        let (y1, right) = visit_all-AllHarmless rs (b1, st.1) n e1 y in
        let (y0, left) = assignees-AllKeep S fuel ty ls st.0 (eb ∙ ap some y1) in
        (y0, (left, right))
    visit-IsHarmless (node ts) st n e y =
        let (y0, e1) = if-true _ st e y in visit_all-AllHarmless ts st n e1 y

    visit_all-AllHarmless :
        (ts : Trees) (st : State) {st' : State}
        → AllNoCalls ts
        → visit_all S fuel check members self ty ts st ≡ some st'
        → st'.0 ≡ true
        → (st.0 ≡ true) × AllHarmless S fuel ty ts
    visit_all-AllHarmless no_trees st n e y = (ap (λ r. r.0) (some_inj e) ∙ y, tt)
    visit_all-AllHarmless (trees t ts) st n e y =
        let (st1, es, e1) = bind-some (visit S fuel check members self ty t st) _ e in
        let (y1, later) = visit_all-AllHarmless ts st1 n.1 e1 y in
        let (y0, first) = visit-IsHarmless t st n.0 es y1 in (y0, (first, later))

  mutual
    unfolding visit

    pub harmless-visit :
        (t : Tree) (c : Consts)
        → NoCalls t
        → IsHarmless S fuel ty t
        → visit S fuel check members self ty t (true, c) ≡ some (true, c)
    harmless-visit (var_ref s) c n h = refl
    harmless-visit (ufcs_invocation child k) c n h = harmless-visit child c n h
    harmless-visit (func_invocation child args k) c n h = absurd n
    harmless-visit (index_access child index) c n h =
        rw (harmless-visit child c n.0 h.0) (harmless-visit index c n.1 h.1)
    harmless-visit (assignment_stmt ls rs) c n h =
        rw (AllKeep-assignees S fuel ty ls h.0) (harmless-visit_all rs c n h.1)
    harmless-visit (node ts) c n h = harmless-visit_all ts c n h

    harmless-visit_all :
        (ts : Trees) (c : Consts)
        → AllNoCalls ts
        → AllHarmless S fuel ty ts
        → visit_all S fuel check members self ty ts (true, c) ≡ some (true, c)
    harmless-visit_all no_trees c n h = refl
    harmless-visit_all (trees t ts) c n h =
        rw (harmless-visit t c n.0 h.0) (harmless-visit_all ts c n.1 h.1)
