-- ===== src/CityHash/Words.antt =====
-- runtime/src/dachs/runtime.hpp: the arithmetic of `cityhash64` on words, and the reading of a
-- word with the lowest byte first.
use Prim.Native.Nat.{bit_xor, bit_or}
use dachs.Base.{ℕ, zero, suc, ◌+◌, ◌-◌, ◌*◌, ◌/◌, ◌%◌, ◌^◌, if◌then◌else◌, List, ◌==◌, get_or}

abbrev pub word_mod : ℕ
word_mod = 2 ^ 64

abbrev pub k0 : ℕ
k0 = 0xc3a5c85c97cb3127

abbrev pub k1 : ℕ
k1 = 0xb492b66fbe98f273

abbrev pub k2 : ℕ
k2 = 0x9ae16a3b2f90404f

abbrev pub k3 : ℕ
k3 = 0xc949d7c7509e6557

-- Arithmetic of 64 bits, which wraps.
unfoldable pub add64 : ℕ → ℕ → ℕ
add64 a b = (a + b) % word_mod

unfoldable pub sub64 : ℕ → ℕ → ℕ
sub64 a b = (a + word_mod - b) % word_mod

unfoldable pub mul64 : ℕ → ℕ → ℕ
mul64 a b = (a * b) % word_mod

-- A conversion to `uint32_t`, and a left shift of one.
unfoldable pub to32 : ℕ → ℕ
to32 a = a % 2 ^ 32

unfoldable pub shl32 : ℕ → ℕ → ℕ
shl32 a n = (a * 2 ^ n) % 2 ^ 32

unfoldable pub shr : ℕ → ℕ → ℕ
shr a n = a / 2 ^ n

unfoldable pub rotate_by_at_least_1 : ℕ → ℕ → ℕ
unfolding shr
rotate_by_at_least_1 val shift = bit_or (shr val shift) ((val * 2 ^ (64 - shift)) % word_mod)

unfoldable pub rotate : ℕ → ℕ → ℕ
unfolding rotate_by_at_least_1
rotate val shift = if shift == 0 then val else rotate_by_at_least_1 val shift

unfoldable pub shift_mix : ℕ → ℕ
unfolding shr
shift_mix val = bit_xor val (shr val 47)

unfoldable pub hash_len_16 : ℕ → ℕ → ℕ
unfolding mul64 shift_mix
hash_len_16 u v =
    let mul : ℕ = 0x9ddfea08eb382d69 in
    let a = shift_mix (mul64 (bit_xor u v) mul) in
    let b = shift_mix (mul64 (bit_xor v a) mul) in mul64 b mul

-- The word that `memcpy` takes from eight bytes, lowest byte first.
unfoldable pub word_from : ℕ → List ℕ → ℕ → ℕ
word_from zero mem off = 0
word_from (suc n) mem off = get_or mem off 0 + 256 * word_from n mem (off + 1)

unfoldable pub word : List ℕ → ℕ → ℕ
unfolding word_from
word mem off = word_from 8 mem off
