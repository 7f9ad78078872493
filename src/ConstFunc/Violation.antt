-- ===== src/ConstFunc/Violation.antt =====
-- The variable that `is_const_violated_invocation` of
-- src/dachs/semantics/const_func_checker.hpp finds.
use dachs.Base.{
  ◌≡◌, refl, ◌⊎◌, inl, inr, Bool, true, false, Option, none, some, if◌then◌else◌, Bool-cases,
}
use dachs.Base.Defined.{some_inj}
use dachs.Types.{VarSymbol, FuncScope}
use dachs.ConstFunc.{
  Tree, Trees, var_ref, ufcs_invocation, func_invocation, index_access, assignment_stmt, node,
  no_trees, trees, find_immutable, find_immutable_all, is_const_func, is_const_violated_invocation,
}

-- Every variable in the tree satisfies the predicate, except those in an index.
abbrev mutual
  pub Variables : (VarSymbol → Type 0) → Tree → Type 0
  Variables P (var_ref s) = P s
  Variables P (ufcs_invocation child callee) = Variables P child
  Variables P (func_invocation child args callee) = Variables P child × AllVariables P args
  Variables P (index_access child index) = Variables P child
  Variables P (assignment_stmt ls rs) = AllVariables P ls × AllVariables P rs
  Variables P (node ts) = AllVariables P ts

  pub AllVariables : (VarSymbol → Type 0) → Trees → Type 0
  AllVariables P no_trees = Unit
  AllVariables P (trees t ts) = Variables P t × AllVariables P ts

-- Some variable in the tree, and in no index, satisfies the predicate.
abbrev mutual
  pub HasVariable : (VarSymbol → Type 0) → Tree → Type 0
  HasVariable P (var_ref s) = P s
  HasVariable P (ufcs_invocation child callee) = HasVariable P child
  HasVariable P (func_invocation child args callee) = HasVariable P child ⊎ AnyVariable P args
  HasVariable P (index_access child index) = HasVariable P child
  HasVariable P (assignment_stmt ls rs) = AnyVariable P ls ⊎ AnyVariable P rs
  HasVariable P (node ts) = AnyVariable P ts

  pub AnyVariable : (VarSymbol → Type 0) → Trees → Type 0
  AnyVariable P no_trees = ⊥
  AnyVariable P (trees t ts) = HasVariable P t ⊎ AnyVariable P ts

abbrev pub IsMutable : VarSymbol → Type 0
IsMutable s = s.immutable ≡ false

mutual
  unfolding find_immutable

  none-Variables :
      (t : Tree) (r : Option VarSymbol)
      → find_immutable t r ≡ none
      → (r ≡ none) × Variables IsMutable t
  none-Variables (var_ref s) r e = elim (Bool-cases s.immutable) [
    | inl y ↦ cc (rw y at e)
    | inr n ↦ (rw n at e, n)
  ]
  none-Variables (ufcs_invocation child k) r e = none-Variables child r e
  none-Variables (func_invocation child args k) r e =
      let (e1, later) = none-AllVariables args _ e in
      let (e0, first) = none-Variables child r e1 in (e0, (first, later))
  none-Variables (index_access child index) r e = none-Variables child r e
  none-Variables (assignment_stmt ls rs) r e =
      let (e1, left) = none-AllVariables ls _ e in
      let (e0, right) = none-AllVariables rs r e1 in (e0, (left, right))
  none-Variables (node ts) r e = none-AllVariables ts r e

  none-AllVariables :
      (ts : Trees) (r : Option VarSymbol)
      → find_immutable_all ts r ≡ none
      → (r ≡ none) × AllVariables IsMutable ts
  none-AllVariables no_trees r e = (e, tt)
  none-AllVariables (trees t ts) r e =
      let (e1, later) = none-AllVariables ts _ e in
      let (e0, first) = none-Variables t r e1 in (e0, (first, later))

-- The variable found is immutable, and is the one given.
abbrev pub IsFound : VarSymbol → VarSymbol → Type 0
IsFound s v = (v ≡ s) × (v.immutable ≡ true)

if-some :
    (b : Bool) (v : VarSymbol) (r : Option VarSymbol) {s : VarSymbol}
    → (if b then some v else r) ≡ some s
    → ((b ≡ true) × (v ≡ s)) ⊎ (r ≡ some s)
if-some true v r e = inl (refl, some_inj e)
if-some false v r e = inr e

mutual
  unfolding find_immutable

  some-HasVariable :
      (t : Tree) (r : Option VarSymbol) {s : VarSymbol}
      → find_immutable t r ≡ some s
      → (r ≡ some s) ⊎ HasVariable (IsFound s) t
  some-HasVariable (var_ref v) r e = elim (if-some v.immutable v r e) [
    | inl (y, same) ↦ inr (same, y)
    | inr e0 ↦ inl e0
  ]
  some-HasVariable (ufcs_invocation child k) r e = some-HasVariable child r e
  some-HasVariable (func_invocation child args k) r e = elim (some-AnyVariable args _ e) [
    | inl e1 ↦ elim (some-HasVariable child r e1) [ inl e0 ↦ inl e0 | inr h ↦ inr (inl h) ]
    | inr h ↦ inr (inr h)
  ]
  some-HasVariable (index_access child index) r e = some-HasVariable child r e
  some-HasVariable (assignment_stmt ls rs) r e = elim (some-AnyVariable ls _ e) [
    | inl e1 ↦ elim (some-AnyVariable rs r e1) [ inl e0 ↦ inl e0 | inr h ↦ inr (inr h) ]
    | inr h ↦ inr (inl h)
  ]
  some-HasVariable (node ts) r e = some-AnyVariable ts r e

  some-AnyVariable :
      (ts : Trees) (r : Option VarSymbol) {s : VarSymbol}
      → find_immutable_all ts r ≡ some s
      → (r ≡ some s) ⊎ AnyVariable (IsFound s) ts
  some-AnyVariable no_trees r e = inl e
  some-AnyVariable (trees t ts) r e = elim (some-AnyVariable ts _ e) [
    | inl e1 ↦ elim (some-HasVariable t r e1) [ inl e0 ↦ inl e0 | inr h ↦ inr (inl h) ]
    | inr h ↦ inr (inr h)
  ]

-- What each result says of a call
abbrev pub IsViolation : FuncScope → Option Bool → Tree → Option VarSymbol → Type 0
IsViolation callee is_const receiver (some s) =
    (callee.is_member_func ≡ true)
    × (is_const_func is_const ≡ false)
    × HasVariable (IsFound s) receiver
IsViolation callee is_const receiver none =
    (callee.is_member_func ≡ false) ⊎ (is_const_func is_const ≡ true) ⊎ Variables IsMutable receiver

-- A variable that `is_const_violated_invocation` gives is immutable and stands in the receiver
-- outside of an index, and the callee is a member function that is not const; if it gives
-- none, the callee is no member function, or const, or every such variable is mutable.
pub is_const_violated_invocation-IsViolation :
    (callee : FuncScope) (is_const : Option Bool) (receiver : Tree) (result : Option VarSymbol)
    → is_const_violated_invocation callee is_const receiver ≡ result
    → IsViolation callee is_const receiver result
unfolding is_const_violated_invocation
is_const_violated_invocation-IsViolation callee is_const receiver none e =
    elim (Bool-cases callee.is_member_func) [
      | inl m ↦ elim (Bool-cases (is_const_func is_const)) [
        | inl y ↦ inr (inl y)
        | inr n ↦ inr (inr (none-Variables receiver none (rw (m, n) at e)).1)
      ]
      | inr m ↦ inl m
    ]
is_const_violated_invocation-IsViolation callee is_const receiver (some s) e =
    elim (Bool-cases callee.is_member_func) [
      | inl m ↦ elim (Bool-cases (is_const_func is_const)) [
        | inl y ↦ cc (rw (m, y) at e)
        | inr n ↦ elim (some-HasVariable receiver none (rw (m, n) at e)) [
          | inl c ↦ cc
          | inr h ↦ (m, n, h)
        ]
      ]
      | inr m ↦ cc (rw m at e)
    ]
