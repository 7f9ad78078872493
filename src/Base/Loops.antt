-- ===== src/Base/Loops.antt =====
-- Calls that may give no value, and the loops of the program over them. `none` stands for a call
-- of the program that gives none: its recursion does not end within the fuel, or it leaves what
-- the language defines (a failed `assert`, a null or expired pointer, a read past the end).
use mathlib.Core.Bool.{Bool, true, false}
use mathlib.Core.List.{List, [], ◌∷◌}
use mathlib.Core.Option.{Option, none, some}
use dachs.Base.Tests.{if◌then◌else◌, ◌==◌}
use dachs.Base.Lists.{length}

infixl 5 ◌>>=◌ ◌>>◌
abbrev pub ◌>>=◌ {ℓ κ} : {A : Type ℓ} {B : Type κ} → Option A → (A → Option B) → Option B
none >>= f = none
some a >>= f = f a

abbrev pub ◌>>◌ {ℓ} : {B : Type ℓ} → Option (Unit {0}) → Option B → Option B
m >> k = m >>= λ _. k

-- `assert(b)`.
abbrev pub require : Bool → Option (Unit {0})
require true = some tt
require false = none

-- `l && r` where both may give no value: the right one is not run after a false left one.
abbrev pub and_then : Option Bool → Option Bool → Option Bool
and_then l r = l >>= λ b. if b then r else some false

-- `l || r`.
abbrev pub or_else : Option Bool → Option Bool → Option Bool
or_else l r = l >>= λ b. if b then some true else r

module _ {ℓ} {A : Type ℓ} where
  -- `any_of`: stops at the first element that passes.
  abbrev pub any_of : (A → Option Bool) → List A → Option Bool
  any_of p [] = some false
  any_of p (x ∷ xs) = or_else (p x) (any_of p xs)

  -- A loop over `helper::zipped` that returns false at the first pair that fails. The zip
  -- iterator stops where both ranges end, so ranges of different lengths are read past an end.
  abbrev pub all_zipped : (A → A → Option Bool) → List A → List A → Option Bool
  all_zipped p [] [] = some true
  all_zipped p (x ∷ xs) (y ∷ ys) = and_then (p x y) (all_zipped p xs ys)
  all_zipped p _ _ = none

  -- A loop over `helper::zipped` that returns true at the first pair that passes.
  abbrev pub any_zipped : (A → A → Option Bool) → List A → List A → Option Bool
  any_zipped p [] [] = some false
  any_zipped p (x ∷ xs) (y ∷ ys) = or_else (p x y) (any_zipped p xs ys)
  any_zipped p _ _ = none

  -- `equal` on ranges with random access: the lengths first, then the pairs.
  abbrev pub equal : (A → A → Option Bool) → List A → List A → Option Bool
  equal p xs ys = if length xs == length ys then all_zipped p xs ys else some false

  -- `==` of two optional values.
  abbrev pub equal_optional : (A → A → Option Bool) → Option A → Option A → Option Bool
  equal_optional p none none = some true
  equal_optional p (some x) (some y) = p x y
  equal_optional p _ _ = some false
