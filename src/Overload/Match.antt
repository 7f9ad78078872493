-- ===== src/Overload/Match.antt =====
-- The score of a function, over all its parameters: its bound, the functions that reach it, and
-- where the product of the scores leaves `size_t`.
use dachs.Base.{
  ℕ, zero, suc, ◌+◌, ◌*◌, ◌%◌, ◌≤◌, ◌<◌, ◌≡◌, refl, sym, ap, ◌∙◌, false, some, List, [], ◌∷◌,
  length, arith, ◌==◌,
}
use native.Mathlib.Nat.{le_trans}
use dachs.Base.Defined.{bind-some}
use dachs.Types.{AnyType, VarSymbol, FuncScope, Store}
use dachs.Overload.{
  Score, parameter_score, score_loop, function_score, combine, initial_score, u64_mod,
}

abbrev pub pow3 : ℕ → ℕ
pow3 zero = 1
pow3 (suc n) = 3 * pow3 n

-- The scores of the parameters of a call, in order: `P` holds of each.
abbrev pub EachScore : Store → ℕ → (Score → Type 0) → List AnyType → List VarSymbol → Type 0
EachScore S fuel P [] [] = Unit
EachScore S fuel P (a ∷ args) (p ∷ ps) =
    ((s : Score) × (parameter_score S fuel a p.ty ≡ some s) × P s) × EachScore S fuel P args ps
EachScore S fuel P _ _ = ⊥

parameter_score-le :
    (S : Store) (fuel : ℕ) (a p : AnyType) {s : Score}
    → parameter_score S fuel a p ≡ some s
    → s.score ≤ 3
unfolding parameter_score
parameter_score-le S fuel a p h = ground arith

-- The score after `n` parameters that each score 2, from a score `x`.
abbrev doubled : ℕ → ℕ → ℕ
doubled zero x = x
doubled (suc n) x = doubled n ((x * 2) % u64_mod)

doubled-add : (k n x : ℕ) → doubled (k + n) x ≡ doubled n (doubled k x)
doubled-add zero n x = let e : 0 + n ≡ n = omega arith in ap (λ m. doubled m x) e
doubled-add (suc k) n x =
    let e : suc k + n ≡ suc (k + n) = omega arith in
    ap (λ m. doubled m x) e ∙ doubled-add k n ((x * 2) % u64_mod)

doubled-zero : (n : ℕ) → doubled n 0 ≡ 0
doubled-zero zero = refl
doubled-zero (suc n) = doubled-zero n

pub pow3-pos : (n : ℕ) → 1 ≤ pow3 n
pow3-pos zero = omega arith
pow3-pos (suc n) = omega (arith, pow3-pos n)

mul_mono : (a b p : ℕ) → a ≤ b → a * p ≤ b * p
mul_mono a b p h = grind arith

product-le : (x y p : ℕ) → y ≤ 3 → ((x * y) % u64_mod) * p ≤ x * (3 * p)
product-le x y p h =
    let wrapped : (x * y) % u64_mod ≤ x * y = omega arith in
    let times : x * y ≤ x * 3 = omega (arith, mul_mono y 3 x h) in
    omega (arith, mul_mono ((x * y) % u64_mod) (x * 3) p (omega arith))

product-eq : (x p : ℕ) → 1 ≤ p → x * (3 * p) < u64_mod → ((x * 3) % u64_mod) * p ≡ x * (3 * p)
product-eq x p h lt =
    let small : x * 3 ≤ (x * 3) * p = omega (arith, mul_mono 1 p (x * 3) h) in
    let same : (x * 3) % u64_mod ≡ x * 3 = omega arith in rw same (omega arith)

module _ (S : Store) (fuel : ℕ) where
  score_loop-doubled :
      (args : List AnyType) (params : List VarSymbol) (total : Score)
      → EachScore S fuel (λ s. s.score ≡ 2) args params
      → (t : Score) × (score_loop S fuel args params total ≡ some t)
        × (t.score ≡ doubled (length args) total.score)
  unfolding score_loop
  score_loop-doubled [] [] total h = (total, refl, refl)
  score_loop-doubled [] (p ∷ ps) total h = absurd h
  score_loop-doubled (a ∷ args) [] total h = absurd h
  score_loop-doubled (a ∷ args) (p ∷ ps) total ((s, e, two), rest) =
      let (t, e', h') = score_loop-doubled args ps (combine total s) rest in
      (t, rw e e', h' ∙ ap (λ x. doubled (length args) ((total.score * x) % u64_mod)) two)

  -- A function scores 0, as one that does not match, if the call has at least 64 arguments and
  -- each parameter scores 2.
  pub function_score-overflow :
      (f : FuncScope) (n : ℕ) (args : List AnyType)
      → length args ≡ 64 + n
      → EachScore S fuel (λ s. s.score ≡ 2) args f.params
      → (t : Score) × (function_score S fuel f args ≡ some t) × (t.score ≡ 0)
  unfolding function_score
  function_score-overflow f n args e h =
      let (t, e', h') = score_loop-doubled args f.params initial_score h in
      let long : (length args == 0) ≡ false = ground arith in
      (t, rw long e', h' ∙ ap (λ k. doubled k 1) e ∙ doubled-add 64 n 1 ∙ doubled-zero n)

  score_loop-le :
      (args : List AnyType) (params : List VarSymbol) (total t : Score)
      → total.score * pow3 (length args) < u64_mod
      → score_loop S fuel args params total ≡ some t
      → t.score ≤ total.score * pow3 (length args)
  unfolding score_loop
  score_loop-le [] [] total t lt e = ground arith
  score_loop-le [] (p ∷ ps) total t lt e = ground arith
  score_loop-le (a ∷ args) [] total t lt e = ground arith
  score_loop-le (a ∷ args) (p ∷ ps) total t lt e =
      let (s, e', rest) = bind-some (parameter_score S fuel a p.ty) _ e in
      let step =
        product-le total.score s.score (pow3 (length args)) (parameter_score-le S fuel a p.ty e') in
      le_trans (score_loop-le args ps (combine total s) t (omega arith) rest) step

  score_loop-exact :
      (args : List AnyType) (params : List VarSymbol) (total : Score)
      → total.score * pow3 (length args) < u64_mod
      → EachScore S fuel (λ s. s.score ≡ 3) args params
      → (t : Score) × (score_loop S fuel args params total ≡ some t)
        × (t.score ≡ total.score * pow3 (length args))
  unfolding score_loop
  score_loop-exact [] [] total lt h = (total, refl, omega arith)
  score_loop-exact [] (p ∷ ps) total lt h = absurd h
  score_loop-exact (a ∷ args) [] total lt h = absurd h
  score_loop-exact (a ∷ args) (p ∷ ps) total lt ((s, e, three), rest) =
      let step = product-eq total.score (pow3 (length args)) (pow3-pos (length args)) lt in
      let same : (combine total s).score * pow3 (length args)
          ≡ total.score * pow3 (length (a ∷ args)) =
        rw three step in
      let (t, e', h) = score_loop-exact args ps (combine total s) (omega arith) rest in
      (t, rw e e', h ∙ same)

pow3-le : (m n : ℕ) → n ≤ m → pow3 n ≤ pow3 m
pow3-le m zero h = pow3-pos m
pow3-le zero (suc n) h = absurd (omega arith)
pow3-le (suc m) (suc n) h = omega (arith, pow3-le m n (omega arith))

pow3-small : (n : ℕ) → n ≤ 40 → 1 * pow3 n < u64_mod
pow3-small n h = omega (arith, pow3-le 40 n h)

suc-zero : (n : ℕ) → (suc n == 0) ≡ false
suc-zero n = ground arith

module _ (S : Store) (fuel : ℕ) (f : FuncScope) where
  function_score-cons :
      (a : AnyType) (args : List AnyType)
      → function_score S fuel f (a ∷ args) ≡ score_loop S fuel (a ∷ args) f.params initial_score
  unfolding function_score
  function_score-cons a args = rw (suc-zero (length args)) refl

  -- With at most 40 arguments, the score of a function is at most 3 to their number.
  pub function_score-le :
      (args : List AnyType) (t : Score)
      → length args ≤ 40
      → function_score S fuel f args ≡ some t
      → t.score ≤ pow3 (length args)
  unfolding function_score
  function_score-le [] t h e = ground arith
  function_score-le (a ∷ args) t h e = omega (
    arith,
    score_loop-le S fuel (a ∷ args) f.params initial_score t (pow3-small (length (a ∷ args)) h)
        (sym (function_score-cons a args) ∙ e),
  )

  -- It is that where each parameter scores 3.
  pub function_score-exact :
      (args : List AnyType)
      → length args ≤ 40
      → EachScore S fuel (λ s. s.score ≡ 3) args f.params
      → (t : Score) × (function_score S fuel f args ≡ some t) × (t.score ≡ pow3 (length args))
  unfolding function_score
  function_score-exact [] h each = (initial_score, refl, refl)
  function_score-exact (a ∷ args) h each =
      let (t, e, same) =
        score_loop-exact S fuel (a ∷ args) f.params initial_score (pow3-small (length (a ∷ args)) h)
          each in
      (t, function_score-cons a args ∙ e, omega arith)
