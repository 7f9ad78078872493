-- ===== src/Base/Defined.antt =====
-- The loops of `Loops` with calls that give values: a call that gives its value with less fuel
-- gives it with more (`Grows`), and a loop gives a value if the calls do.
use Prim.Native.Nat.{ℕ, zero, suc, ◌+◌, ◌-◌, ◌≤◌}
use mathlib.Core.Path.{◌≡◌, refl}
use mathlib.Core.Bool.{Bool, true, false}
use mathlib.Core.Logic.{◌⊎◌, inl, inr}
use mathlib.Core.List.{List, [], ◌∷◌}
use mathlib.Core.Path.{subst}
use mathlib.Core.Option.{Option, none, some}
use native.Mathlib.Omega.{arith}
use dachs.Base.Tests.{if◌then◌else◌, ◌==◌, ==_iff}
use dachs.Base.Lists.{length, All}
use dachs.Base.Loops.{
  ◌>>=◌, require, and_then, or_else, any_of, all_zipped, any_zipped, equal, equal_optional,
}

-- Where the first call gives a value, so does the second, and the same.
abbrev pub Grows {ℓ} : {A : Type ℓ} → Option A → Option A → Type ℓ
Grows {A} m n = (a : A) → m ≡ some a → n ≡ some a

-- The call gives a value.
abbrev pub HasValue {ℓ} : {A : Type ℓ} → Option A → Type ℓ
HasValue {A} m = (a : A) × (m ≡ some a)

pub Grows-refl {ℓ} : {A : Type ℓ} (m : Option A) → Grows m m
Grows-refl m a e = e

pub Grows-bind :
    {A B : Type 0} (m n : Option A) (f g : A → Option B)
    → Grows m n
    → ((a : A) → Grows (f a) (g a))
    → Grows (m >>= f) (n >>= g)
Grows-bind none n f g h k b e = ground arith
Grows-bind (some a) n f g h k b e = rw (h a refl) (k a b e)

pub Grows-if :
    {A : Type 0} (b : Bool) (m n m' n' : Option A)
    → Grows m m'
    → Grows n n'
    → Grows (if b then m else n) (if b then m' else n')
Grows-if true m n m' n' h k = h
Grows-if false m n m' n' h k = k

pub Grows-and_then :
    (m n m' n' : Option Bool) → Grows m m' → Grows n n' → Grows (and_then m n) (and_then m' n')
Grows-and_then m n m' n' h k = Grows-bind m m' _ _ h (λ b. Grows-if b _ _ _ _ k (Grows-refl _))

pub Grows-or_else :
    (m n m' n' : Option Bool) → Grows m m' → Grows n n' → Grows (or_else m n) (or_else m' n')
Grows-or_else m n m' n' h k = Grows-bind m m' _ _ h (λ b. Grows-if b _ _ _ _ (Grows-refl _) k)

module _ {A : Type 0} (p q : A → Option Bool) (grows : (x : A) → Grows (p x) (q x)) where
  pub Grows-any_of : (xs : List A) → Grows (any_of p xs) (any_of q xs)
  Grows-any_of [] = Grows-refl _
  Grows-any_of (x ∷ xs) = Grows-or_else _ _ _ _ (grows x) (Grows-any_of xs)

module _ {A : Type 0} (p q : A → A → Option Bool) (grows : (x y : A) → Grows (p x y) (q x y)) where
  pub Grows-all_zipped : (xs ys : List A) → Grows (all_zipped p xs ys) (all_zipped q xs ys)
  Grows-all_zipped [] [] = Grows-refl _
  Grows-all_zipped [] (y ∷ ys) = Grows-refl _
  Grows-all_zipped (x ∷ xs) [] = Grows-refl _
  Grows-all_zipped (x ∷ xs) (y ∷ ys) = Grows-and_then _ _ _ _ (grows x y) (Grows-all_zipped xs ys)

  pub Grows-any_zipped : (xs ys : List A) → Grows (any_zipped p xs ys) (any_zipped q xs ys)
  Grows-any_zipped [] [] = Grows-refl _
  Grows-any_zipped [] (y ∷ ys) = Grows-refl _
  Grows-any_zipped (x ∷ xs) [] = Grows-refl _
  Grows-any_zipped (x ∷ xs) (y ∷ ys) = Grows-or_else _ _ _ _ (grows x y) (Grows-any_zipped xs ys)

  pub Grows-equal : (xs ys : List A) → Grows (equal p xs ys) (equal q xs ys)
  Grows-equal xs ys =
      Grows-if (length xs == length ys) _ _ _ _ (Grows-all_zipped xs ys) (Grows-refl _)

  pub Grows-equal_optional : (a b : Option A) → Grows (equal_optional p a b) (equal_optional q a b)
  Grows-equal_optional none none = Grows-refl _
  Grows-equal_optional none (some y) = Grows-refl _
  Grows-equal_optional (some x) none = Grows-refl _
  Grows-equal_optional (some x) (some y) = grows x y

pub HasValue-bind :
    {A B : Type 0} (m : Option A) (f : A → Option B)
    → HasValue m
    → ((a : A) → m ≡ some a → HasValue (f a))
    → HasValue (m >>= f)
HasValue-bind none f h k = absurd (ground arith)
HasValue-bind (some a) f h k = k a refl

pub HasValue-if :
    {A : Type 0} (b : Bool) (m n : Option A)
    → (b ≡ true → HasValue m)
    → (b ≡ false → HasValue n)
    → HasValue (if b then m else n)
HasValue-if true m n h k = h refl
HasValue-if false m n h k = k refl

pub HasValue-and_then : (m n : Option Bool) → HasValue m → HasValue n → HasValue (and_then m n)
HasValue-and_then m n h k =
    HasValue-bind m _ h (λ b _. HasValue-if b _ _ (λ _. k) (λ _. (false, refl)))

pub HasValue-or_else : (m n : Option Bool) → HasValue m → HasValue n → HasValue (or_else m n)
HasValue-or_else m n h k =
    HasValue-bind m _ h (λ b _. HasValue-if b _ _ (λ _. (true, refl)) (λ _. k))

module _ {A : Type 0} (p : A → Option Bool) (P : A → Type 0)
    (total : (x : A) → P x → HasValue (p x)) where
  pub HasValue-any_of : (xs : List A) → All P xs → HasValue (any_of p xs)
  HasValue-any_of [] h = (false, refl)
  HasValue-any_of (x ∷ xs) h = HasValue-or_else _ _ (total x h.0) (HasValue-any_of xs h.1)

module _ {A : Type 0} (p : A → A → Option Bool) (P : A → Type 0)
    (total : (x y : A) → P x → P y → HasValue (p x y)) where
  pub HasValue-all_zipped :
      (xs ys : List A) → length xs ≡ length ys → All P xs → All P ys → HasValue (all_zipped p xs ys)
  HasValue-all_zipped [] [] e h k = (true, refl)
  HasValue-all_zipped [] (y ∷ ys) e h k = absurd (omega arith)
  HasValue-all_zipped (x ∷ xs) [] e h k = absurd (omega arith)
  HasValue-all_zipped (x ∷ xs) (y ∷ ys) e h k =
      HasValue-and_then _ _ (total x y h.0 k.0) (HasValue-all_zipped xs ys (omega arith) h.1 k.1)

  pub HasValue-equal : (xs ys : List A) → All P xs → All P ys → HasValue (equal p xs ys)
  HasValue-equal xs ys h k =
      HasValue-if (length xs == length ys) _ _
        (λ e. HasValue-all_zipped xs ys ((==_iff _ _).0 e) h k) (λ _. (false, refl))

  pub HasValue-equal_optional :
      (a b : Option A)
      → ((x : A) → a ≡ some x → P x)
      → ((y : A) → b ≡ some y → P y)
      → HasValue (equal_optional p a b)
  HasValue-equal_optional none none h k = (true, refl)
  HasValue-equal_optional none (some y) h k = (false, refl)
  HasValue-equal_optional (some x) none h k = (false, refl)
  HasValue-equal_optional (some x) (some y) h k = total x y (h x refl) (k y refl)

-- A function on fuel whose value stays when the fuel grows by one.
module _ {A : Type 0} (g : ℕ → Option A) (step : (n : ℕ) → Grows (g n) (g (suc n))) where
  Grows-add : (k n : ℕ) → Grows (g n) (g (k + n))
  Grows-add zero n a e = subst (λ m. g m ≡ some a) (omega arith) e
  Grows-add (suc k) n a e =
      subst (λ m. g m ≡ some a) (omega arith) (step (k + n) a (Grows-add k n a e))

  pub Grows-le : (m n : ℕ) → m ≤ n → Grows (g m) (g n)
  Grows-le m n h a e = subst (λ i. g i ≡ some a) (omega arith) (Grows-add (n - m) m a e)

pub bind-some :
    {A B : Type 0} (m : Option A) (f : A → Option B) {b : B}
    → (m >>= f) ≡ some b
    → (a : A) × (m ≡ some a) × (f a ≡ some b)
bind-some none f h = absurd (ground arith)
bind-some (some a) f h = (a, refl, h)

pub some_inj : {A : Type 0} {a b : A} → some a ≡ some b → a ≡ b
some_inj h = cc

pub some-none : {A : Type 0} {a : A} → some a ≡ none → ⊥
some-none e = cc

pub require-true : (b : Bool) {u : Unit {0}} → require b ≡ some u → b ≡ true
require-true true e = refl
require-true false e = cc

pub or_else-true : (a b : Option Bool) → or_else a b ≡ some true → (a ≡ some true) ⊎ (b ≡ some true)
or_else-true none b e = cc
or_else-true (some true) b e = inl refl
or_else-true (some false) b e = inr e
