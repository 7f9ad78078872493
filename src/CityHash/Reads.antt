-- ===== src/CityHash/Reads.antt =====
-- Which memory the reads of `cityhash64` in runtime/src/dachs/runtime.hpp touch.
use dachs.Base.{
  ℕ, zero, suc, ◌+◌, ◌-◌, ◌*◌, ◌/◌, ◌^◌, ◌≤◌, ◌<◌, ◌≡◌, refl, ◌⊎◌, inl, inr, Bool, true, false,
  Option, none, some, List, length, Option-cases, Bool-cases, ◌==◌, leb, arith, ◌>>=◌,
}
use dachs.CityHash.Words.{sub64}
use dachs.CityHash.{
  finish, blocks_len, loadword, loadword_back, hash_len_0_to_16, hash_len_17_to_32,
  hash_len_33_to_64, weak_hash_at, weak_hash_back, round, rounds, start, cityhash64, State,
}

abbrev pub is_some {ℓ} : {A : Type ℓ} → Option A → Bool
is_some none = false
is_some (some a) = true

loadword-in : (mem : List ℕ) (off : ℕ) → off + 8 ≤ length mem → is_some (loadword mem off) ≡ true
unfolding loadword
loadword-in mem off h = ground arith

loadword_back-in :
    (mem : List ℕ) (back : ℕ)
    → back ≤ length mem
    → 8 ≤ back
    → is_some (loadword_back mem back) ≡ true
unfolding loadword_back
loadword_back-in mem back h k = ground (arith, loadword-in mem (length mem - back))

short-in :
    (mem : List ℕ)
    → length mem ≤ 16
    → (length mem < 4) ⊎ (8 < length mem)
    → is_some (hash_len_0_to_16 mem) ≡ true
unfolding hash_len_0_to_16
short-in mem h k = ground (arith, loadword-in mem 0, loadword_back-in mem 8)

short-out : (mem : List ℕ) → 4 ≤ length mem → length mem ≤ 8 → hash_len_0_to_16 mem ≡ none
unfolding hash_len_0_to_16
short-out mem h k = ground arith

middle-in : (mem : List ℕ) → 16 < length mem → is_some (hash_len_17_to_32 mem) ≡ true
unfolding hash_len_17_to_32
middle-in mem h =
    ground
      (arith, loadword-in mem 0, loadword-in mem 8, loadword_back-in mem 8, loadword_back-in mem 16)

long-in : (mem : List ℕ) → 32 < length mem → is_some (hash_len_33_to_64 mem) ≡ true
unfolding hash_len_33_to_64
long-in mem h = ground (
  arith,
  loadword-in mem 0,
  loadword-in mem 8,
  loadword-in mem 16,
  loadword-in mem 24,
  loadword_back-in mem 8,
  loadword_back-in mem 16,
  loadword_back-in mem 24,
  loadword_back-in mem 32,
)

weak_hash_at-in :
    (mem : List ℕ) (off a b : ℕ) → off + 32 ≤ length mem → is_some (weak_hash_at mem off a b) ≡ true
unfolding weak_hash_at
weak_hash_at-in mem off a b h = ground (
  arith,
  loadword-in mem off,
  loadword-in mem (off + 8),
  loadword-in mem (off + 16),
  loadword-in mem (off + 24),
)

weak_hash_back-in :
    (mem : List ℕ) (back a b : ℕ)
    → back ≤ length mem
    → 32 ≤ back
    → is_some (weak_hash_back mem back a b) ≡ true
unfolding weak_hash_back
weak_hash_back-in mem back a b h k = ground (arith, weak_hash_at-in mem (length mem - back) a b)

round-in :
    (mem : List ℕ) (off : ℕ) (st : State)
    → off + 64 ≤ length mem
    → is_some (round mem off st) ≡ true
unfolding round
round-in mem off st h = ground (
  arith,
  loadword-in mem (off + 8),
  loadword-in mem (off + 16),
  loadword-in mem (off + 40),
  loadword-in mem (off + 48),
  weak_hash_at-in mem off,
  weak_hash_at-in mem (off + 32),
)

start-in : (mem : List ℕ) → 64 ≤ length mem → is_some (start mem) ≡ true
unfolding start
start-in mem h = ground (
  arith,
  loadword-in mem 0,
  loadword_back-in mem 16,
  loadword_back-in mem 24,
  loadword_back-in mem 40,
  loadword_back-in mem 48,
  loadword_back-in mem 56,
  weak_hash_back-in mem 32,
  weak_hash_back-in mem 64,
)

sub64-le : (a b : ℕ) → b ≤ a → a < 2 ^ 64 → sub64 a b ≡ a - b
unfolding sub64
sub64-le a b h k = omega (arith)

-- With `n + 1` blocks of 64 bytes left from `off`, more than `n` rounds of fuel are enough.
rounds-in :
    (fuel n : ℕ) (mem : List ℕ) (off len : ℕ) (st : State)
    → n < fuel
    → len ≡ 64 * (n + 1)
    → off + len ≤ length mem
    → len < 2 ^ 64
    → is_some (rounds fuel mem off len st) ≡ true
unfolding rounds
rounds-in zero n mem off len st lt eq h r = absurd (omega arith)
rounds-in (suc fuel) n mem off len st lt eq h r =
    let ih = rounds-in fuel (n - 1) mem (off + 64) (sub64 len 64) in
    let e64 = sub64-le len 64 (omega arith) r in
    elim (Option-cases (round mem off st)) [
      | inl e ↦ absurd (ground (arith, round-in mem off st (omega arith)))
      | inr (st', e) ↦ elim (Bool-cases (sub64 len 64 == 0)) [
        | inl z ↦ rw (e, z) refl
        | inr z ↦ rw (e, z) (ih st' (ground arith) (ground arith) (omega arith) (omega arith))
      ]
    ]

is_some-bind :
    {A B : Type 0} (m : Option A) (f : A → Option B)
    → is_some m ≡ true
    → ((a : A) → is_some (f a) ≡ true)
    → is_some (m >>= f) ≡ true
is_some-bind none f h k = absurd (ground arith)
is_some-bind (some a) f h k = k a

blocks-in :
    (mem : List ℕ) (st : State)
    → 64 < length mem
    → length mem < 2 ^ 64
    → is_some (rounds (length mem) mem 0 (blocks_len (length mem)) st) ≡ true
blocks-in mem st h r =
    rounds-in (length mem) ((length mem - 1) / 64 - 1) mem 0 (blocks_len (length mem)) st
      (omega arith) (omega arith) (omega arith) (omega arith)

-- On fewer than 4 or more than 8 bytes, and fewer than 2 to the 64, `cityhash64` reads only
-- bytes that it is given, and ends with a hash.
pub cityhash64-in_bounds :
    (mem : List ℕ)
    → (length mem < 4) ⊎ (8 < length mem)
    → length mem < 2 ^ 64
    → is_some (cityhash64 mem) ≡ true
unfolding cityhash64
cityhash64-in_bounds mem h r = elim (Bool-cases (leb (length mem) 64)) [
  | inl e ↦ ground (arith, short-in mem, middle-in mem, long-in mem)
  | inr e ↦
      (let long = is_some-bind (start mem) _ (start-in mem (ground arith)) (λ st.
          is_some-bind (rounds (length mem) mem 0 (blocks_len (length mem)) st)
            (λ st'. some (finish st')) (blocks-in mem st (ground arith) r) (λ _. refl)) in
        ground (arith, long))
]

-- On 4 to 8 bytes, `cityhash64` reads past the end of the bytes that it is given.
pub cityhash64-out_of_bounds :
    (mem : List ℕ) → 4 ≤ length mem → length mem ≤ 8 → cityhash64 mem ≡ none
unfolding cityhash64
cityhash64-out_of_bounds mem h k = ground (arith, short-out mem h k)
