-- ===== src/Analyzer/SelfAccess/Laws.antt =====
-- What it means that a statement passes the check for `self` in
-- src/dachs/semantics/analyzer.cpp.
use dachs.Base.{
  String, str_eq, ◌≡◌, refl, inl, inr, Bool, true, false, not, ◌||◌, Option, none, some, [],
  if◌then◌else◌, Bool-cases, arith,
}
use dachs.Analyzer.SelfAccess.{
  Tree, Trees, var_ref, func_invocation, ufcs_invocation, node, no_trees, trees, Checker, no_access,
  contains_self_access, with_func, with_ufcs, check, check_all, violated_member_name,
  is_initialized, passes,
}

-- No reference in the tree is to `self`.
abbrev mutual
  pub NoSelf : Tree → Type 0
  NoSelf (var_ref name) = str_eq name "self" ≡ false
  NoSelf (func_invocation callee args) = NoSelf callee × AllNoSelf args
  NoSelf (ufcs_invocation child member) = NoSelf child
  NoSelf (node ts) = AllNoSelf ts

  pub AllNoSelf : Trees → Type 0
  AllNoSelf no_trees = Unit
  AllNoSelf (trees t ts) = NoSelf t × AllNoSelf ts

-- In a call with a reference as its first argument, `self` is neither in the function nor in a
-- later argument.
abbrev mutual
  pub IsVisible : Tree → Type 0
  IsVisible (var_ref name) = Unit
  IsVisible (func_invocation callee no_trees) = IsVisible callee
  IsVisible (func_invocation callee (trees (var_ref name) args)) = NoSelf callee × AllNoSelf args
  IsVisible (func_invocation callee (trees a args)) =
      IsVisible callee × IsVisible a × AllVisible args
  IsVisible (ufcs_invocation child member) = IsVisible child
  IsVisible (node ts) = AllVisible ts

  pub AllVisible : Trees → Type 0
  AllVisible no_trees = Unit
  AllVisible (trees t ts) = IsVisible t × AllVisible ts

if-false :
    (b : Bool) (c d : Checker)
    → contains_self_access d ≡ true
    → contains_self_access (if b then d else c) ≡ false
    → (b ≡ false) × (contains_self_access c ≡ false)
if-false true c d y e = cc
if-false false c d y e = (refl, e)

with_func-false :
    (name : String) (callee : Tree) (c : Checker)
    → contains_self_access (with_func name callee c) ≡ false
    → (str_eq name "self" ≡ false) × (contains_self_access c ≡ false)
with_func-false name callee c e = if-false (str_eq name "self") c _ (ground arith) e

with_ufcs-false :
    (name member : String) (c : Checker)
    → contains_self_access (with_ufcs name member c) ≡ false
    → (str_eq name "self" ≡ false) × (contains_self_access c ≡ false)
with_ufcs-false name member c e = if-false (str_eq name "self") c _ (ground arith) e

node-false :
    (b : Bool) (c d : Checker)
    → (b ≡ contains_self_access c)
    → contains_self_access (if b then c else d) ≡ false
    → contains_self_access d ≡ false
node-false true c d same e = cc
node-false false c d same e = e

-- Three visits after one another, each of which keeps an access that there is
visits_false :
    {P Q R : Type 0} {b₀ b₁ b₂ b₃ : Bool}
    → (b₃ ≡ false → R × (b₂ ≡ false))
    → (b₂ ≡ false → Q × (b₁ ≡ false))
    → (b₁ ≡ false → P × (b₀ ≡ false))
    → b₃ ≡ false
    → (P × (Q × R)) × (b₀ ≡ false)
visits_false third second first e =
    let (r, e2) = third e in let (q, e1) = second e2 in let (p, e0) = first e1 in ((p, (q, r)), e0)

guarded :
    {P : Type 0} (c d : Checker)
    → (contains_self_access d ≡ false → P × (contains_self_access c ≡ false))
    → contains_self_access (if contains_self_access c then c else d) ≡ false
    → P × (contains_self_access c ≡ false)
guarded c d h e = h (node-false (contains_self_access c) c d refl e)

mutual
  unfolding check

  check-NoSelf :
      (t : Tree) (c : Checker)
      → IsVisible t
      → contains_self_access (check t c) ≡ false
      → NoSelf t × (contains_self_access c ≡ false)
  check-NoSelf (var_ref name) c v e = if-false (str_eq name "self") c _ refl e
  check-NoSelf (func_invocation callee no_trees) c v e =
      let (first, before) = guarded c (check callee c) (λ y. check-NoSelf callee c v y) e in
      ((first, tt), before)
  check-NoSelf (func_invocation callee (trees (var_ref name) args)) c v e =
      let (first, before) = with_func-false name callee c e in ((v.0, (first, v.1)), before)
  check-NoSelf (func_invocation callee (trees (func_invocation f bs) args)) c v e =
      visits_false (λ y. check_all-AllNoSelf args _ v.2 y)
        (guarded _ _ (λ y. check-NoSelf (func_invocation f bs) _ v.1 y))
        (guarded c _ (λ y. check-NoSelf callee c v.0 y)) e
  check-NoSelf (func_invocation callee (trees (ufcs_invocation f m) args)) c v e =
      visits_false (λ y. check_all-AllNoSelf args _ v.2 y)
        (guarded _ _ (λ y. check-NoSelf (ufcs_invocation f m) _ v.1 y))
        (guarded c _ (λ y. check-NoSelf callee c v.0 y)) e
  check-NoSelf (func_invocation callee (trees (node ts) args)) c v e =
      visits_false (λ y. check_all-AllNoSelf args _ v.2 y)
        (guarded _ _ (λ y. check-NoSelf (node ts) _ v.1 y))
        (guarded c _ (λ y. check-NoSelf callee c v.0 y)) e
  check-NoSelf (ufcs_invocation (var_ref name) member) c v e = with_ufcs-false name member c e
  check-NoSelf (ufcs_invocation (func_invocation f args) member) c v e =
      guarded c _ (λ y. check-NoSelf (func_invocation f args) c v y) e
  check-NoSelf (ufcs_invocation (ufcs_invocation f m) member) c v e =
      guarded c _ (λ y. check-NoSelf (ufcs_invocation f m) c v y) e
  check-NoSelf (ufcs_invocation (node ts) member) c v e =
      guarded c _ (λ y. check-NoSelf (node ts) c v y) e
  check-NoSelf (node ts) c v e = guarded c _ (λ y. check_all-AllNoSelf ts c v y) e

  check_all-AllNoSelf :
      (ts : Trees) (c : Checker)
      → AllVisible ts
      → contains_self_access (check_all ts c) ≡ false
      → AllNoSelf ts × (contains_self_access c ≡ false)
  check_all-AllNoSelf no_trees c v e = (tt, e)
  check_all-AllNoSelf (trees t ts) c v e =
      let (later, e1) = check_all-AllNoSelf ts _ v.1 e in
      let (first, before) = guarded c (check t c) (λ y. check-NoSelf t c v.0 y) e1 in
      ((first, later), before)

none_in : (o : Option String) → is_initialized [] o ≡ false
none_in (some n) = refl
none_in none = refl

none-initialized :
    (c : Checker)
    → (not (contains_self_access c) || is_initialized [] (violated_member_name c)) ≡ true
    → contains_self_access c ≡ false
none-initialized c e = elim (Bool-cases (contains_self_access c)) [
  | inl y ↦ cc (rw (y, none_in (violated_member_name c)) at e)
  | inr n ↦ n
]

-- If a statement of a constructor passes the check for `self` while no variable is
-- initialized, and no call in it that has a reference as its first argument has `self` in the
-- function or in a later argument, then no reference in the statement is to `self`.
pub passes-NoSelf : (stmt : Tree) → IsVisible stmt → passes [] stmt ≡ true → NoSelf stmt
unfolding passes
passes-NoSelf stmt v e =
    (check-NoSelf stmt no_access v (none-initialized (check stmt no_access) e)).0
