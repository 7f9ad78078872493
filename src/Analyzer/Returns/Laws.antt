-- ===== src/Analyzer/Returns/Laws.antt =====
-- What `deduce_return_type` of src/dachs/semantics/analyzer.cpp gives.
use dachs.Base.{
  ℕ, ◌≡◌, refl, sym, ap, ◌∙◌, ◌⊎◌, inl, inr, Bool, true, false, Option, none, some, List, [], ◌∷◌,
  any_of, All, Bool-cases,
}
use mathlib.Core.Path.{subst}
use dachs.Base.Defined.{bind-some, some_inj}
use dachs.Types.{AnyType, Store, is_known}
use dachs.Types.Equality.{type_eq}
use dachs.Types.Template.{is_template}
use dachs.Types.Instance.{is_instantiated_from}
use dachs.Types.Predicates.{get_unit_type}
use dachs.Ast.{Location}
use dachs.Analyzer.Returns.Gather.{types_of, gather_all-known, known-gather_all}
use dachs.Analyzer.Returns.{
  FuncKind, func, proc, Return, Gathered, gather_all, nothing_gathered, ReturnError,
  proc_returns_value, Deduced, deduced, failed, not_equal, returns_value, check_instance,
  check_specified, unless, deduce_from, deduce_unit, deduce_gathered, deduce_return_type,
}

-- `t` is the specified type, or an instance of it if it is a template.
abbrev pub Fits : Store → ℕ → Option AnyType → AnyType → Type 0
Fits S fuel none t = Unit
Fits S fuel (some ret) t =
    ((is_template S fuel ret ≡ some true) × (is_instantiated_from S fuel t ret ≡ some true))
    ⊎ ((is_template S fuel ret ≡ some false) × (type_eq S fuel ret t ≡ some true))

check_instance-cases :
    (S : Store) (fuel : ℕ) (ret t : AnyType) (b : Bool) {u : AnyType}
    → check_instance S fuel ret t b ≡ some (deduced u)
    → (t ≡ u)
      × (((b ≡ true) × (is_instantiated_from S fuel t ret ≡ some true))
          ⊎ ((b ≡ false) × (type_eq S fuel ret t ≡ some true)))
check_instance-cases S fuel ret t true {u} e =
    let (b, eb, e1) = bind-some (is_instantiated_from S fuel t ret) _ e in
    elim (Bool-cases b) [
      | inl y ↦ (cc (rw y at e1), inl (refl, eb ∙ ap some y))
      | inr n ↦ cc (rw n at e1)
    ]
check_instance-cases S fuel ret t false {u} e =
    let (b, eb, e1) = bind-some (type_eq S fuel ret t) _ e in
    elim (Bool-cases b) [
      | inl y ↦ (cc (rw y at e1), inr (refl, eb ∙ ap some y))
      | inr n ↦ cc (rw n at e1)
    ]

check_specified-Fits :
    (S : Store) (fuel : ℕ) (specified : Option AnyType) (t : AnyType) {u : AnyType}
    → check_specified S fuel specified t ≡ some (deduced u)
    → (t ≡ u) × Fits S fuel specified t
unfolding check_specified
check_specified-Fits S fuel none t e = (cc, tt)
check_specified-Fits S fuel (some ret) t e =
    let (b, eb, e1) = bind-some (is_template S fuel ret) _ e in
    let (same, fits) = check_instance-cases S fuel ret t b e1 in
    (
      same,
      elim fits [ inl (y, h) ↦ inl (eb ∙ ap some y, h) | inr (n, h) ↦ inr (eb ∙ ap some n, h) ],
    )

-- None of the types differs from the first.
any_of-not_equal :
    (S : Store) (fuel : ℕ) (t : AnyType) (ts : List AnyType)
    → any_of (λ u. not_equal S fuel t u) ts ≡ some false
    → All (λ u. type_eq S fuel t u ≡ some true) ts
any_of-not_equal S fuel t [] e = tt
any_of-not_equal S fuel t (u ∷ us) e =
    let (n, en, e1) = bind-some (not_equal S fuel t u) _ e in
    let (b, eb, e2) = bind-some (type_eq S fuel t u) _ en in
    elim (Bool-cases b) [
      | inl y ↦ (eb ∙ ap some y, any_of-not_equal S fuel t us (rw (sym (some_inj e2), y) at e1))
      | inr f ↦ cc (rw (sym (some_inj e2), f) at e1)
    ]

-- A `proc` has one return at most, of the unit type.
abbrev pub FitsKind : Store → ℕ → FuncKind → AnyType → List Return → Type 0
FitsKind S fuel func t rest = Unit
FitsKind S fuel proc t rest = (rest ≡ []) × (type_eq S fuel t get_unit_type ≡ some true)

-- The type `t` is that of each return, and agrees with the kind of the function and with the type
-- that is specified.
abbrev pub IsDeduced : Store → ℕ → FuncKind → Option AnyType → List Return → AnyType → Type 0
IsDeduced S fuel kind none [] t = t ≡ get_unit_type
IsDeduced S fuel kind (some ret) [] t =
    (t ≡ get_unit_type) × (type_eq S fuel ret get_unit_type ≡ some true)
IsDeduced S fuel kind specified (r ∷ rest) t =
    All (λ q. (is_known q.ret_type ≡ true) × (type_eq S fuel t q.ret_type ≡ some true)) (r ∷ rest)
    × FitsKind S fuel kind t rest
    × Fits S fuel specified t

unless-deduced :
    (b : Bool) (err : ReturnError) (k : Option Deduced) {u : AnyType}
    → unless b err k ≡ some (deduced u)
    → (b ≡ false) × (k ≡ some (deduced u))
unless-deduced true err k e = cc
unless-deduced false err k e = (refl, e)

returns_value-FitsKind :
    (S : Store) (fuel : ℕ) (kind : FuncKind) (t : AnyType) (rest : List Return)
    → returns_value S fuel kind t (types_of rest) ≡ some false
    → FitsKind S fuel kind t rest
unfolding returns_value
returns_value-FitsKind S fuel func t rest e = tt
returns_value-FitsKind S fuel proc t [] e =
    let (b, eb, e1) = bind-some (type_eq S fuel t get_unit_type) _ e in
    elim (Bool-cases b) [ inl y ↦ (refl, eb ∙ ap some y) | inr n ↦ cc (rw n at e1) ]
returns_value-FitsKind S fuel proc t (r ∷ rest) e = cc

known_returns :
    (P : AnyType → Type 0) (rs : List Return)
    → All (λ q. is_known q.ret_type ≡ true) rs
    → All P (types_of rs)
    → All (λ q. (is_known q.ret_type ≡ true) × P q.ret_type) rs
known_returns P [] k h = tt
known_returns P (r ∷ rs) k h = ((k.0, h.0), known_returns P rs k.1 h.1)

deduce_from-IsDeduced :
    (S : Store) (fuel : ℕ) (kind : FuncKind) (specified : Option AnyType) (r : Return)
    (rest : List Return) {u : AnyType}
    → All (λ q. is_known q.ret_type ≡ true) (r ∷ rest)
    → deduce_from S fuel kind specified r.ret_type (types_of rest) ≡ some (deduced u)
    → IsDeduced S fuel kind specified (r ∷ rest) u
unfolding deduce_from
deduce_from-IsDeduced S fuel kind specified r rest {u} known e =
    let (value, ev, e1) = bind-some (returns_value S fuel kind r.ret_type (types_of rest)) _ e in
    let (no_value, e2) = unless-deduced value _ _ e1 in
    let (differ, ed, e3) =
      bind-some (any_of (λ t. not_equal S fuel r.ret_type t) (types_of (r ∷ rest))) _ e2 in
    let (no_differ, e4) = unless-deduced differ _ _ e3 in
    let (same, fits) = check_specified-Fits S fuel specified r.ret_type e4 in
    (
      known_returns (λ v. type_eq S fuel u v ≡ some true) (r ∷ rest) known
          (subst (λ t. All (λ v. type_eq S fuel t v ≡ some true) (types_of (r ∷ rest))) same
            (any_of-not_equal S fuel r.ret_type (types_of (r ∷ rest)) (ed ∙ ap some no_differ))),
      subst (λ t. FitsKind S fuel kind t rest) same
          (returns_value-FitsKind S fuel kind r.ret_type rest (ev ∙ ap some no_value)),
      subst (λ t. Fits S fuel specified t) same fits,
    )

deduce_unit-IsDeduced :
    (S : Store) (fuel : ℕ) (kind : FuncKind) (specified : Option AnyType) {u : AnyType}
    → deduce_unit S fuel specified ≡ some (deduced u)
    → IsDeduced S fuel kind specified [] u
unfolding deduce_unit
deduce_unit-IsDeduced S fuel kind none e = cc
deduce_unit-IsDeduced S fuel kind (some ret) e =
    let (b, eb, e1) = bind-some (type_eq S fuel ret get_unit_type) _ e in
    elim (Bool-cases b) [ inl y ↦ (cc (rw y at e1), eb ∙ ap some y) | inr n ↦ cc (rw n at e1) ]

no_failure :
    (S : Store) (fuel : ℕ) (kind : FuncKind) (specified : Option AnyType) (ts : List AnyType)
    (ats : List Location) {u : AnyType}
    → deduce_gathered S fuel kind specified ts ats ≡ some (deduced u)
    → ats ≡ []
no_failure S fuel kind specified ts [] e = refl
no_failure S fuel kind specified ts (at ∷ ats) e = cc

gathered-IsDeduced :
    (S : Store) (fuel : ℕ) (kind : FuncKind) (specified : Option AnyType) (rs : List Return)
    (g : Gathered) {u : AnyType}
    → (g.failed_return_stmts ≡ []
        → All (λ r. is_known r.ret_type ≡ true) rs × (g.result_types ≡ types_of rs))
    → deduce_gathered S fuel kind specified g.result_types g.failed_return_stmts ≡ some (deduced u)
    → IsDeduced S fuel kind specified rs u
gathered-IsDeduced S fuel kind specified [] g h e =
    let failures = no_failure S fuel kind specified g.result_types g.failed_return_stmts e in
    let (known, types) = h failures in
    deduce_unit-IsDeduced S fuel kind specified (rw (failures, types) at e)
gathered-IsDeduced S fuel kind specified (r ∷ rs) g h e =
    let failures = no_failure S fuel kind specified g.result_types g.failed_return_stmts e in
    let (known, types) = h failures in
    deduce_from-IsDeduced S fuel kind specified r rs known (rw (failures, types) at e)

-- If `deduce_return_type` succeeds, then the type of every return statement is known and equal
-- to the deduced one, which is the unit type if there is none; a `proc` has one return at
-- most, of the unit type; and the specified type, if there is one, equals the deduced one or
-- is a template of it.
pub deduce_return_type-IsDeduced :
    (S : Store) (fuel : ℕ) (kind : FuncKind) (specified : Option AnyType) (rs : List Return)
    {u : AnyType}
    → deduce_return_type S fuel kind specified rs ≡ some (deduced u)
    → IsDeduced S fuel kind specified rs u
unfolding deduce_return_type
deduce_return_type-IsDeduced S fuel kind specified rs e =
    gathered-IsDeduced S fuel kind specified rs (gather_all rs nothing_gathered)
      (λ failures.
        let (known, types, before) = gather_all-known rs nothing_gathered failures in
        (known, types))
      e

-- A `proc` with two return statements or more, all of known types, is an error even if each
-- returns the unit type.
deduce_return_type-proc :
    (S : Store) (fuel : ℕ) (specified : Option AnyType) (r q : Return) (rs : List Return)
    → All (λ p. is_known p.ret_type ≡ true) (r ∷ q ∷ rs)
    → deduce_return_type S fuel proc specified (r ∷ q ∷ rs) ≡ some (failed proc_returns_value)
unfolding deduce_return_type deduce_from returns_value
deduce_return_type-proc S fuel specified r q rs known =
    let (types, failures) = known-gather_all (r ∷ q ∷ rs) nothing_gathered known in
    rw (types, failures) refl
