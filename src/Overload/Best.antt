-- ===== src/Overload/Best.antt =====
-- Overload resolution against its specification: the functions with the name and the number of
-- parameters of the call, and a score other than 0, that are best by score, then by perfect
-- matches, then by template depth.
use dachs.Base.{
  ℕ, ◌≡◌, refl, ◌∙◌, sym, ap, inl, inr, String, Bool, true, false, if◌then◌else◌, not, Option, none,
  some, ◌>>=◌, List, [], ◌∷◌, ◌++◌, ltb, leb, any_b, ◌==◌, filterb, arith, is_empty, Bool-cases,
  Option-cases, dec_lt, ◌<◌, ◌&&◌,
}
use mathlib.Core.Path.{subst₂}
use mathlib.Core.List.{append-nil, append_assoc}
use dachs.Types.{AnyType, FuncScope, Store}
use dachs.Overload.{
  Score, Candidate, function_score, is_other, keep_if_max, first_loop, first_overload_set, max_key,
  narrow_if_many, emplace, emplace_all, overload_set,
}
use dachs.Overload.Narrow.{
  largest, narrow_if_many_lem, score, perfect, depth, is_best, largest-largest-largest,
  max_key-attained, max_key-ge, max_key-Below,
}

-- The functions that fit the call at all, with their scores, in the order of their definition.
abbrev pub viable : Store → ℕ → String → List AnyType → List FuncScope → Option (List Candidate)
viable S fuel name args [] = some []
viable S fuel name args (f ∷ fs) = if is_other name args f then viable S fuel name args fs else (do
  s ← function_score S fuel f args
  cs ← viable S fuel name args fs
  some (if s.score == 0 then cs else (s, f) ∷ cs))

-- The loop of the first stage, over viable candidates.
abbrev push : Candidate → List Candidate × ℕ → List Candidate × ℕ
push c (cs, m) = if leb m c.0.score then (cs ++ c ∷ [], c.0.score) else (cs, m)

abbrev push_all : List Candidate → List Candidate × ℕ → List Candidate × ℕ
push_all [] st = st
push_all (c ∷ cs) st = push_all cs (push c st)

abbrev kept : List Candidate × ℕ → List Candidate
kept (cs, m) = filterb (λ c. not (ltb c.0.score m)) cs

push_all-keep :
    (s : Score) (f : FuncScope) (st : List Candidate × ℕ) (m : Option (List Candidate))
    → (m >>= λ cs. some (push_all cs (keep_if_max s f st))) ≡ (
        (m >>= λ cs. some (if s.score == 0 then cs else (s, f) ∷ cs)) >>= λ cs.
        some (push_all cs st))
push_all-keep s f st none = refl
push_all-keep s f st (some cs) = elim (Bool-cases (s.score == 0)) [ inl e ↦ rw e | inr e ↦ rw e ]

module _ (S : Store) (fuel : ℕ) (name : String) (args : List AnyType) where
  first_loop_lem :
      (fs : List FuncScope) (st : List Candidate × ℕ)
      → first_loop S fuel name args fs st
        ≡ (viable S fuel name args fs >>= λ cs. some (push_all cs st))
  unfolding first_loop
  first_loop_lem [] st = refl
  first_loop_lem (f ∷ fs) st = elim (Bool-cases (is_other name args f)) [
    | inl other ↦ rw (other, first_loop) (first_loop_lem fs st)
    | inr same ↦ elim (Option-cases (function_score S fuel f args)) [
      | inl e ↦ rw (same, first_loop, e)
      | inr (s, e) ↦
          rw (same, first_loop, e)
            (first_loop_lem fs (keep_if_max s f st)
              ∙ push_all-keep s f st (viable S fuel name args fs))
    ]
  ]

filter-drop :
    (p : Candidate → Bool) (c : Candidate) (ds cs : List Candidate)
    → p c ≡ false
    → filterb p (ds ++ c ∷ cs) ≡ filterb p (ds ++ cs)
filter-drop p c [] cs h = rw h
filter-drop p c (d ∷ ds) cs h = rw (filter-drop p c ds cs h)

-- What the loop over `cs` makes of a state, where `k` is the largest score so far and `all` are
-- the candidates that were offered.
abbrev Keeps : List Candidate × ℕ → ℕ → List Candidate → List Candidate → Type 0
Keeps st k cs all =
    ((push_all cs st).1 ≡ max_key score k cs)
    × (kept (push_all cs st) ≡ filterb (λ c. not (ltb (score c) (max_key score k cs))) all)

push_all-Keeps : (cs ds : List Candidate) (m : ℕ) → Keeps (push_all [] (ds, m)) m cs (ds ++ cs)
push_all-Keeps [] ds m = (refl, ap (filterb (λ c. not (ltb (score c) m))) (sym (append-nil ds)))
push_all-Keeps (c ∷ cs) ds m = elim (dec_lt (score c) m) [
  | yes lt ↦
      let (top, rest) = push_all-Keeps cs ds m in
      subst₂ (λ st k. Keeps st k cs (ds ++ c ∷ cs)) (sym (push-less lt)) (ground arith)
        (top, rest ∙ sym (filter-drop _ c ds cs (ground (arith, max_key-ge score m cs))))
  | no ge ↦
      let (top, rest) = push_all-Keeps cs (ds ++ c ∷ []) (score c) in
      subst₂ (λ st k. Keeps st k cs (ds ++ c ∷ cs)) (sym (push-more ge)) (ground arith)
        (
          top,
          rest
              ∙ ap (filterb (λ d. not (ltb (score d) (max_key score (score c) cs))))
                  (append_assoc ds (c ∷ []) cs),
        )
]
  where
    push-less : score c < m → push c (ds, m) ≡ (ds, m)
    push-less lt =
        let e : leb m (score c) ≡ false = ground arith in
        ap (λ b. if b then (ds ++ c ∷ [], score c) else (ds, m)) e

    push-more : ¬ (score c < m) → push c (ds, m) ≡ (ds ++ c ∷ [], score c)
    push-more ge =
        let e : leb m (score c) ≡ true = ground arith in
        ap (λ b. if b then (ds ++ c ∷ [], score c) else (ds, m)) e

module _ (S : Store) (fuel : ℕ) (fs : List FuncScope) (name : String) (args : List AnyType) where
  first_overload_set_lem :
      first_overload_set S fuel fs name args
      ≡ (viable S fuel name args fs >>= λ cs. some (largest score cs))
  unfolding first_overload_set
  first_overload_set_lem =
      rw (first_loop_lem S fuel name args fs ([], 0)) (step (viable S fuel name args fs))
    where
      step :
          (o : Option (List Candidate))
          → ((o >>= λ cs. some (push_all cs ([], 0))) >>= λ st. some (kept st))
            ≡ (o >>= λ cs. some (largest score cs))
      step none = refl
      step (some cs) = ap some ((push_all-Keeps cs [] 0).1)

  -- The overload set is the set of the viable candidates that are best by score, then by the
  -- number of perfect matches, then by template depth, with one of two functions that have one
  -- address; it has no value exactly where the scores of the candidates have none.
  pub overload_set_lem :
      overload_set S fuel fs name args
      ≡ (viable S fuel name args fs >>= λ cs. some (emplace_all (filterb (is_best cs) cs) []))
  unfolding overload_set
  overload_set_lem = rw first_overload_set_lem (step (viable S fuel name args fs))
    where
      stages : List Candidate → Option (List FuncScope)
      stages first = do
        second ← narrow_if_many perfect first
        third ← narrow_if_many depth second
        some (emplace_all third [])

      step :
          (o : Option (List Candidate))
          → ((o >>= λ cs. some (largest score cs)) >>= stages)
            ≡ (o >>= λ cs. some (emplace_all (filterb (is_best cs) cs) []))
      step none = refl
      step (some cs) =
          rw
            (
              narrow_if_many_lem perfect (largest score cs),
              narrow_if_many_lem depth (largest perfect (largest score cs)),
              largest-largest-largest cs,
            )
            refl

filterb-ne :
    (key : Candidate → ℕ) (m : ℕ) (cs : List Candidate)
    → any_b (λ d. key d == m) cs ≡ true
    → is_empty (filterb (λ c. not (ltb (key c) m)) cs) ≡ false
filterb-ne key m [] h = cc
filterb-ne key m (c ∷ cs) h = ground (arith, filterb-ne key m cs)

is_empty-largest :
    (key : Candidate → ℕ) (cs : List Candidate) → is_empty (largest key cs) ≡ is_empty cs
is_empty-largest key [] = refl
is_empty-largest key (c ∷ cs) =
    filterb-ne key _ (c ∷ cs)
      (ground (arith, max_key-attained key (c ∷ cs) 0, max_key-Below key (c ∷ cs) 0))

is_empty-append : (fs : List FuncScope) (f : FuncScope) → is_empty (fs ++ f ∷ []) ≡ false
is_empty-append [] f = refl
is_empty-append (g ∷ fs) f = refl

is_empty-emplace : (f : FuncScope) (fs : List FuncScope) → is_empty (emplace f fs) ≡ false
is_empty-emplace f [] = refl
is_empty-emplace f (g ∷ fs) = ground (arith, is_empty-append (g ∷ fs) f)

is_empty-emplace_all :
    (cs : List Candidate) (fs : List FuncScope)
    → is_empty (emplace_all cs fs) ≡ (is_empty cs && is_empty fs)
is_empty-emplace_all [] fs = refl
is_empty-emplace_all (c ∷ cs) fs =
    is_empty-emplace_all cs (emplace c.1 fs) ∙ ground (arith, is_empty-emplace c.1 fs)

-- Where the scores of the viable candidates are known, and with them the overload set, the set
-- is empty exactly if no candidate is viable.
pub is_empty-overload_set :
    (S : Store) (fuel : ℕ) (fs : List FuncScope) (name : String) (args : List AnyType)
    {cs : List Candidate} {result : List FuncScope}
    → viable S fuel name args fs ≡ some cs
    → overload_set S fuel fs name args ≡ some result
    → is_empty result ≡ is_empty cs
is_empty-overload_set S fuel fs name args {cs} {result} e h =
    rw
      (
        found,
        is_empty-emplace_all (filterb (is_best cs) cs) [],
        ← largest-largest-largest cs,
        is_empty-largest,
        is_empty-largest,
        is_empty-largest,
      )
      (ground arith)
  where
    found : result ≡ emplace_all (filterb (is_best cs) cs) []
    found = ground (arith, overload_set_lem S fuel fs name args)
