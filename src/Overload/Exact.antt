-- ===== src/Overload/Exact.antt =====
-- Where a function takes the arguments of a call exactly, the call resolves to such functions.
use dachs.Base.{
  ℕ, suc, ◌≤◌, ◌≡◌, inl, inr, ◌-◌, sym, ◌∙◌, String, Bool, true, false, Option, none, some, ◌>>=◌,
  List, [], ◌∷◌, ◌++◌, length, arith, Option-cases, if◌then◌else◌, ◌==◌, All, any_b, filterb,
  Bool-cases,
}
use mathlib.Core.Path.{subst}
use dachs.Base.Defined.{bind-some, some_inj}
use dachs.Types.{AnyType, FuncScope, Store}
use dachs.Overload.{Score, Candidate, function_score, is_other, emplace, emplace_all, overload_set}
use dachs.Overload.Narrow.{is_best, best, lex, score, perfect, depth, as_good}
use dachs.Overload.Best.{viable, overload_set_lem}
use dachs.Overload.Match.{EachScore, pow3, function_score-le, function_score-exact, pow3-pos}

module _ (S : Store) (fuel : ℕ) (name : String) (args : List AnyType) where
  -- The score of `f` for the call is `k`.
  abbrev pub Scores : ℕ → FuncScope → Type 0
  Scores k f = (t : Score) × (function_score S fuel f args ≡ some t) × (t.score ≡ k)

  abbrev Known : Candidate → Type 0
  Known c = function_score S fuel c.1 args ≡ some c.0

  abbrev OnSome : (List Candidate → Type 0) → Option (List Candidate) → Type 0
  OnSome P none = Unit
  OnSome P (some cs) = P cs

  -- Where the score of one candidate is `k`.
  abbrev Has : ℕ → List Candidate → Type 0
  Has k cs = any_b (λ c. score c == k) cs ≡ true

  abbrev add : Score → FuncScope → List Candidate → List Candidate
  add s f cs = if s.score == 0 then cs else (s, f) ∷ cs

  viable-Known : (fs : List FuncScope) → OnSome (All Known) (viable S fuel name args fs)
  viable-Known [] = tt
  viable-Known (f ∷ fs) = elim (Bool-cases (is_other name args f)) [
    | inl other ↦ rw (other, viable) (viable-Known fs)
    | inr same ↦ elim (Option-cases (function_score S fuel f args)) [
      | inl e ↦ rw (same, viable, e) tt
      | inr (s, e) ↦ rw (same, viable, e) (step s e (viable S fuel name args fs) (viable-Known fs))
    ]
  ]
    where
      step :
          (s : Score)
          → function_score S fuel f args ≡ some s
          → (o : Option (List Candidate)) → OnSome (All Known) o
          → OnSome (All Known) (o >>= λ cs. some (add s f cs))
      step s e none h = tt
      step s e (some cs) h = elim (Bool-cases (s.score == 0)) [
        | inl z ↦ rw z h
        | inr z ↦ rw z (e, h)
      ]

  -- A function among those searched that fits and has the score `k`, is among the viable ones.
  viable-Has :
      (before after : List FuncScope) (f : FuncScope) (s : Score) (k : ℕ)
      → is_other name args f ≡ false
      → function_score S fuel f args ≡ some s
      → s.score ≡ suc k
      → OnSome (Has (suc k)) (viable S fuel name args (before ++ f ∷ after))
  viable-Has [] after f s k same e v = rw (same, viable, e) (step (viable S fuel name args after))
    where
      step : (o : Option (List Candidate)) → OnSome (Has (suc k)) (o >>= λ cs. some (add s f cs))
      step none = tt
      step (some cs) = ground arith
  viable-Has (g ∷ before) after f s k same e v =
      let ih = viable-Has before after f s k same e v in
      elim (Bool-cases (is_other name args g)) [
        | inl other ↦ rw (other, viable) ih
        | inr same ↦ elim (Option-cases (function_score S fuel g args)) [
          | inl e ↦ rw (same, viable, e) tt
          | inr (t, e) ↦
              rw (same, viable, e) (step t (viable S fuel name args (before ++ f ∷ after)) ih)
        ]
      ]
    where
      step :
          (t : Score) (o : Option (List Candidate))
          → OnSome (Has (suc k)) o
          → OnSome (Has (suc k)) (o >>= λ cs. some (add t g cs))
      step t none h = tt
      step t (some cs) h = ground arith

best-ge :
    (r : Candidate → Candidate → Bool) (k : ℕ) (ds : List Candidate) (c : Candidate)
    → any_b (λ d. score d == k) ds ≡ true
    → best (lex score r) ds c ≡ true
    → k ≤ score c
best-ge r k [] c h b = ground arith
best-ge r k (d ∷ ds) c h b = ground (arith, best-ge r k ds c)

All-filterb :
    (P Q : Candidate → Type 0) (p : Candidate → Bool)
    → ((c : Candidate) → P c → p c ≡ true → Q c)
    → (cs : List Candidate) → All P cs
    → All Q (filterb p cs)
All-filterb P Q p f [] h = tt
All-filterb P Q p f (c ∷ cs) h = elim (Bool-cases (p c)) [
  | inl e ↦ rw e (f c h.0 e, All-filterb P Q p f cs h.1)
  | inr e ↦ rw e (All-filterb P Q p f cs h.1)
]

module _ (Q : FuncScope → Type 0) where
  All-snoc : (fs : List FuncScope) (f : FuncScope) → All Q fs → Q f → All Q (fs ++ f ∷ [])
  All-snoc [] f h q = (q, tt)
  All-snoc (g ∷ fs) f h q = (h.0, All-snoc fs f h.1 q)

  All-emplace : (f : FuncScope) (fs : List FuncScope) → All Q fs → Q f → All Q (emplace f fs)
  All-emplace f fs h q = elim (Bool-cases (any_b (λ g. g.id == f.id) fs)) [
    | inl e ↦ rw e h
    | inr e ↦ rw e (All-snoc fs f h q)
  ]

  All-emplace_all :
      (cs : List Candidate) (fs : List FuncScope)
      → All (λ c. Q c.1) cs
      → All Q fs
      → All Q (emplace_all cs fs)
  All-emplace_all [] fs h k = k
  All-emplace_all (c ∷ cs) fs h k = All-emplace_all cs _ h.1 (All-emplace c.1 fs k h.0)

-- If a function has the name and the number of parameters of a call with at most 40 arguments,
-- and each of its parameters scores 3, then every function of the overload set, where there is
-- one, has the score 3 to the number of arguments.
pub overload_set-exact :
    (S : Store) (fuel : ℕ) (name : String) (args : List AnyType) (before after : List FuncScope)
    (f : FuncScope) {result : List FuncScope}
    → length args ≤ 40
    → is_other name args f ≡ false
    → EachScore S fuel (λ s. s.score ≡ 3) args f.params
    → overload_set S fuel (before ++ f ∷ after) name args ≡ some result
    → All (Scores S fuel name args (pow3 (length args))) result
overload_set-exact S fuel name args before after f {result} short same each e =
    let (t, found, full) = function_score-exact S fuel f args short each in
    let fs = before ++ f ∷ after in
    let (cs, v, r) =
      bind-some (viable S fuel name args fs) _ (sym (overload_set_lem S fuel fs name args) ∙ e) in
    let k = pow3 (length args) in
    let k_pos : suc (k - 1) ≡ k = omega (arith, pow3-pos (length args)) in
    let has : any_b (λ c. score c == k) cs ≡ true =
      rw (← k_pos)
        (rw v at (viable-Has S fuel name args before after f t (k - 1) same found (omega arith))) in
    let known = rw v at (viable-Known S fuel name args fs) in
    subst (All (Scores S fuel name args k)) (some_inj r) (
      All-emplace_all (Scores S fuel name args k) (filterb (is_best cs) cs) []
        (All-filterb (Known S fuel name args) (λ c. Scores S fuel name args k c.1) (is_best cs)
          (λ c q b. (
            c.0,
            q,
            omega (
              arith,
              function_score-le S fuel c.1 args c.0 short q,
              best-ge (lex perfect (lex depth as_good)) k cs c has b,
            ),
          ))
          cs known)
        tt)
