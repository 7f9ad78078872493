-- ===== src/Overload/Narrow.antt =====
-- Narrowing a vector to its largest keys, in stages, is the choice of the elements that are
-- largest in the lexicographic order of the keys.
use dachs.Base.{
  dec_lt, ℕ, ◌≤◌, ◌<◌, ◌≡◌, refl, ◌∙◌, sym, ap, ◌⊎◌, inl, Bool, true, false, if◌then◌else◌, not,
  ◌&&◌, ◌||◌, some, List, [], ◌∷◌, ltb, lt→ltb, any_b, ◌==◌, length, filterb, all_b, arith, All,
}
use dachs.Overload.{Candidate, max_key, narrow_down_score_by, narrow_if_many}

-- The elements with the largest key.
abbrev pub largest : (Candidate → ℕ) → List Candidate → List Candidate
largest key cs = filterb (λ c. not (ltb (key c) (max_key key 0 cs))) cs

abbrev Below : (Candidate → ℕ) → ℕ → List Candidate → Type 0
Below key m cs = All (λ c. key c ≤ m) cs

module _ (key : Candidate → ℕ) where
  pub max_key-ge : (m : ℕ) (cs : List Candidate) → m ≤ max_key key m cs
  max_key-ge m [] = omega arith
  max_key-ge m (c ∷ cs) = ground (arith, max_key-ge (if ltb m (key c) then key c else m) cs)

  pub max_key-Below : (cs : List Candidate) (m : ℕ) → Below key (max_key key m cs) cs
  max_key-Below [] m = tt
  max_key-Below (c ∷ cs) m =
      let m' = if ltb m (key c) then key c else m in
      (ground (arith, max_key-ge m' cs), max_key-Below cs m')

  -- The largest key is the first one, or that of an element.
  pub max_key-attained :
      (cs : List Candidate) (m : ℕ)
      → (max_key key m cs ≡ m) ⊎ (any_b (λ d. key d == max_key key m cs) cs ≡ true)
  max_key-attained [] m = inl refl
  max_key-attained (c ∷ cs) m =
      ground (arith, max_key-attained cs (if ltb m (key c) then key c else m))

  max_key-first :
      (c : Candidate) (cs : List Candidate) → max_key key 0 (c ∷ cs) ≡ max_key key (key c) cs
  max_key-first c cs = ap (λ m. max_key key m cs) (ground arith)

  pub narrow_lem :
      (c : Candidate) (cs : List Candidate)
      → narrow_down_score_by key (c ∷ cs) ≡ some (largest key (c ∷ cs))
  unfolding narrow_down_score_by
  narrow_lem c cs =
      ap (λ m. some (filterb (λ d. not (ltb (key d) m)) (c ∷ cs))) (sym (max_key-first c cs))

  -- Narrowing keeps a vector of one element, so it may be left out there.
  pub narrow_if_many_lem : (cs : List Candidate) → narrow_if_many key cs ≡ some (largest key cs)
  narrow_if_many_lem [] = refl
  narrow_if_many_lem (c ∷ []) = ground arith
  narrow_if_many_lem (c ∷ d ∷ cs) =
      rw (lt→ltb 1 (length (c ∷ d ∷ cs)) (omega arith)) (narrow_lem c (d ∷ cs))

-- `r d c` says that `d` is no better than `c`.
abbrev pub best : (Candidate → Candidate → Bool) → List Candidate → Candidate → Bool
best r cs c = all_b (λ d. r d c) cs

-- By the key, and then by `r`.
abbrev pub lex : (Candidate → ℕ) → (Candidate → Candidate → Bool) → Candidate → Candidate → Bool
lex key r d c = ltb (key d) (key c) || (key d == key c && r d c)

module _ (key : Candidate → ℕ) (r : Candidate → Candidate → Bool) (m : ℕ) where
  best-max :
      (ds : List Candidate) (c : Candidate)
      → Below key m ds
      → key c ≡ m
      → best r (filterb (λ d. not (ltb (key d) m)) ds) c ≡ best (lex key r) ds c
  best-max [] c h e = refl
  best-max (d ∷ ds) c h e = ground (arith, best-max ds c h.1 e)

  best-less :
      (ds : List Candidate) (c : Candidate)
      → any_b (λ d. key d == m) ds ≡ true
      → key c < m
      → best (lex key r) ds c ≡ false
  best-less [] c h lt = ground arith
  best-less (d ∷ ds) c h lt = ground (arith, best-less ds c)

  filter-filter :
      (p q : Candidate → Bool) (cs : List Candidate)
      → Below key m cs
      → ((c : Candidate) → key c ≤ m → (not (ltb (key c) m) && p c) ≡ q c)
      → filterb p (filterb (λ c. not (ltb (key c) m)) cs) ≡ filterb q cs
  filter-filter p q [] b h = refl
  filter-filter p q (c ∷ cs) b h = ground (arith, h c b.0, filter-filter p q cs b.1 h)

module _ (key : Candidate → ℕ) (r : Candidate → Candidate → Bool) where
  best-largest :
      (cs : List Candidate)
      → filterb (best r (largest key cs)) (largest key cs) ≡ filterb (best (lex key r) cs) cs
  best-largest [] = refl
  best-largest (c ∷ cs) =
      filter-filter key r m (best r (largest key (c ∷ cs))) (best (lex key r) (c ∷ cs)) (c ∷ cs)
        (max_key-Below key (c ∷ cs) 0)
        λ d le. elim (dec_lt (key d) m) [
          | yes lt ↦ ground (arith, best-less key r m (c ∷ cs) d attained lt)
          | no ge ↦ ground (arith, best-max key r m (c ∷ cs) d (max_key-Below key (c ∷ cs) 0))
        ]
    where
      m : ℕ
      m = max_key key 0 (c ∷ cs)

      attained : any_b (λ d. key d == m) (c ∷ cs) ≡ true
      attained = ground (arith, max_key-attained key (c ∷ cs) 0, max_key-Below key (c ∷ cs) 0)

abbrev pub score : Candidate → ℕ
score c = c.0.score

abbrev pub perfect : Candidate → ℕ
perfect c = c.0.num_perfect_match

abbrev pub depth : Candidate → ℕ
depth c = c.0.total_template_depth

abbrev pub as_good : Candidate → Candidate → Bool
as_good d c = true

-- `c` is among the best: no element has a higher score, nor as high a score and more perfect
-- matches, nor as many of both and a higher template depth.
abbrev pub is_best : List Candidate → Candidate → Bool
is_best = best (lex score (lex perfect (lex depth as_good)))

best-true : (cs : List Candidate) (c : Candidate) → best as_good cs c ≡ true
best-true [] c = refl
best-true (d ∷ ds) c = best-true ds c

filter-true :
    (p : Candidate → Bool) (cs : List Candidate)
    → ((c : Candidate) → p c ≡ true)
    → filterb p cs ≡ cs
filter-true p [] h = refl
filter-true p (c ∷ cs) h = rw (h c, filter-true p cs h)

pub largest-largest-largest :
    (cs : List Candidate)
    → largest depth (largest perfect (largest score cs)) ≡ filterb (is_best cs) cs
largest-largest-largest cs =
    let ds = largest score cs in
    let es = largest perfect ds in
    let fs = largest depth es in
    sym (filter-true (best as_good fs) fs (best-true fs))
    ∙ best-largest depth as_good es
    ∙ best-largest perfect (lex depth as_good) ds
    ∙ best-largest score (lex perfect (lex depth as_good)) cs
