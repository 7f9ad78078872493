-- ===== src/CityHash.antt =====
-- runtime/src/dachs/runtime.hpp: `cityhash64`, with `Size` an unsigned integer of 64 bits, which
-- `__dachs_gen_symbol__` calls. The memory behind `s` is the list of its `len` bytes: a read
-- before its start or past its end gives `none`.
pub mod Words
pub mod Reads
use Prim.Native.Nat.{bit_xor}
use dachs.Base.{
  ℕ, zero, suc, ◌+◌, ◌-◌, ◌*◌, ◌/◌, ◌%◌, ◌^◌, Bool, true, false, if◌then◌else◌, Option, none, some,
  List, leb, ltb, ◌==◌, length, ◌>>=◌, get_or,
}
use Words.{
  add64, sub64, mul64, shl32, to32, rotate, rotate_by_at_least_1, shift_mix, hash_len_16, word, k0,
  k1, k2, k3,
}

-- `loadword(s + off)`
unfoldable pub loadword : List ℕ → ℕ → Option ℕ
loadword mem off = if leb (off + 8) (length mem) then some (word mem off) else none

-- `loadword(s + len - back)`
unfoldable pub loadword_back : List ℕ → ℕ → Option ℕ
unfolding loadword
loadword_back mem back = if leb back (length mem) then loadword mem (length mem - back) else none

unfoldable pub hash_len_0_to_16 : List ℕ → Option ℕ
unfolding loadword loadword_back
hash_len_0_to_16 mem =
    let len = length mem in
    if ltb 8 len
    then (do
      a ← loadword mem 0
      b ← loadword_back mem 8
      some (bit_xor (hash_len_16 a (rotate_by_at_least_1 (add64 b len) len)) b))
    else if leb 4 len
    then (do
      a ← loadword mem 0
      b ← loadword_back mem 4
      some (hash_len_16 (add64 len (shl32 (to32 a) 3)) (to32 b)))
    else if ltb 0 len
    then (let a = get_or mem 0 0 in
        let b = get_or mem (len / 2) 0 in
        let c = get_or mem (len - 1) 0 in
        let y = to32 (a + shl32 b 8) in
        let z = to32 (len + shl32 c 2) in
        some (mul64 (shift_mix (bit_xor (mul64 y k2) (mul64 z k3))) k2))
    else some k2

unfoldable pub hash_len_17_to_32 : List ℕ → Option ℕ
unfolding loadword loadword_back
hash_len_17_to_32 mem = do
  a' ← loadword mem 0
  b ← loadword mem 8
  c' ← loadword_back mem 8
  d' ← loadword_back mem 16
  let a = mul64 a' k1
  let c = mul64 c' k2
  let d = mul64 d' k0
  some (
      hash_len_16 (add64 (add64 (rotate (sub64 a b) 43) (rotate c 30)) d)
        (add64 (sub64 (add64 a (rotate (bit_xor b k3) 20)) c) (length mem)))

abbrev pub Pair : Type 0
Pair = ℕ × ℕ

-- `weak_hash_len_32_with_seeds` on four words
unfoldable pub weak_hash : ℕ → ℕ → ℕ → ℕ → ℕ → ℕ → Pair
weak_hash w x y z a₀ b₀ =
    let a₁ = add64 a₀ w in
    let b₁ = rotate (add64 (add64 b₀ a₁) z) 21 in
    let c = a₁ in
    let a₂ = add64 a₁ x in
    let a₃ = add64 a₂ y in let b₂ = add64 b₁ (rotate a₃ 44) in (add64 a₃ z, add64 b₂ c)

-- `weak_hash_len_32_with_seeds` on the memory from `s + off`
unfoldable pub weak_hash_at : List ℕ → ℕ → ℕ → ℕ → Option Pair
unfolding loadword weak_hash
weak_hash_at mem off a b = do
  w ← loadword mem off
  x ← loadword mem (off + 8)
  y ← loadword mem (off + 16)
  z ← loadword mem (off + 24)
  some (weak_hash w x y z a b)

-- `weak_hash_len_32_with_seeds` on the memory from `s + len - back`
unfoldable pub weak_hash_back : List ℕ → ℕ → ℕ → ℕ → Option Pair
unfolding weak_hash_at
weak_hash_back mem back a b =
    if leb back (length mem) then weak_hash_at mem (length mem - back) a b else none

unfoldable pub hash_len_33_to_64 : List ℕ → Option ℕ
unfolding loadword loadword_back
hash_len_33_to_64 mem = do
  let len = length mem
  z₀ ← loadword mem 24
  p ← loadword mem 0
  q ← loadword_back mem 16
  let a₀ = add64 p (mul64 (add64 len q) k0)
  let b₀ = rotate (add64 a₀ z₀) 52
  let c₀ = rotate a₀ 37
  r ← loadword mem 8
  let a₁ = add64 a₀ r
  let c₁ = add64 c₀ (rotate a₁ 7)
  t ← loadword mem 16
  let a₂ = add64 a₁ t
  let vf = add64 a₂ z₀
  let vs = add64 (add64 b₀ (rotate a₂ 31)) c₁
  a₃ ← loadword_back mem 32
  u ← loadword_back mem 8
  let z₁ = add64 z₀ u
  let b₁ = rotate (add64 a₃ z₁) 52
  let c₂ = rotate a₃ 37
  v ← loadword_back mem 24
  let a₄ = add64 a₃ v
  let c₃ = add64 c₂ (rotate a₄ 7)
  w ← loadword_back mem 16
  let a₅ = add64 a₄ w
  let wf = add64 a₅ z₁
  let ws = add64 (add64 b₁ (rotate a₅ 31)) c₃
  let r' = shift_mix (add64 (mul64 (add64 vf ws) k2) (mul64 (add64 wf vs) k0))
  some (mul64 (shift_mix (add64 (mul64 r' k0) vs)) k2)

-- The state of the loop: `x`, `y`, `z`, `v`, `w`.
pub record State : Type 0 where
  pub x : ℕ
  pub y : ℕ
  pub z : ℕ
  pub v : Pair
  pub w : Pair

-- The body of the loop, with `s` at `off`.
unfoldable pub round : List ℕ → ℕ → State → Option State
unfolding loadword weak_hash_at
round mem off st = do
  p ← loadword mem (off + 8)
  let x₁ = mul64 (rotate (add64 (add64 (add64 st.x st.y) st.v.0) p) 37) k1
  q ← loadword mem (off + 48)
  let y₁ = mul64 (rotate (add64 (add64 st.y st.v.1) q) 42) k1
  let x₂ = bit_xor x₁ st.w.1
  r ← loadword mem (off + 40)
  let y₂ = add64 y₁ (add64 st.v.0 r)
  let z₁ = mul64 (rotate (add64 st.z st.w.0) 33) k1
  v₁ ← weak_hash_at mem off (mul64 st.v.1 k1) (add64 x₂ st.w.0)
  t ← loadword mem (off + 16)
  w₁ ← weak_hash_at mem (off + 32) (add64 z₁ st.w.1) (add64 y₂ t)
  some (record { x = z₁; y = y₂; z = x₂; v = v₁; w = w₁ })

-- `do … while (len != 0)`, with `len` as it counts down.
unfoldable pub rounds : ℕ → List ℕ → ℕ → ℕ → State → Option State
unfolding round
rounds zero mem off len st = none
rounds (suc fuel) mem off len st = do
  st' ← round mem off st
  let len' = sub64 len 64
  elim (len' == 0) [ true ↦ some st' | false ↦ rounds fuel mem (off + 64) len' st' ]

-- The result, after the loop.
unfoldable pub finish : State → ℕ
finish st =
    hash_len_16 (add64 (add64 (hash_len_16 st.v.0 st.w.0) (mul64 (shift_mix st.y) k1)) st.z)
      (add64 (hash_len_16 st.v.1 st.w.1) st.x)

-- The part of `cityhash64` for more than 64 bytes, up to the loop.
unfoldable pub start : List ℕ → Option State
unfolding loadword_back weak_hash_back
start mem = do
  let len = length mem
  x₀ ← loadword_back mem 40
  p ← loadword_back mem 16
  q ← loadword_back mem 56
  let y₀ = add64 p q
  r ← loadword_back mem 48
  t ← loadword_back mem 24
  let z₀ = hash_len_16 (add64 r len) t
  v₀ ← weak_hash_back mem 64 len z₀
  w₀ ← weak_hash_back mem 32 (add64 y₀ k1) x₀
  u ← loadword mem 0
  some (record { x = add64 (mul64 x₀ k1) u; y = y₀; z = z₀; v = v₀; w = w₀ })

-- `(len - 1) & ~63`
abbrev pub blocks_len : ℕ → ℕ
blocks_len len = (len - 1) / 64 * 64

-- `cityhash64::operator()`. A round of the loop takes 64 bytes, so the length is enough fuel.
unfoldable pub cityhash64 : List ℕ → Option ℕ
unfolding hash_len_0_to_16 hash_len_17_to_32 hash_len_33_to_64 start rounds finish
cityhash64 mem =
    let len = length mem in
    if leb len 32
    then (if leb len 16 then hash_len_0_to_16 mem else hash_len_17_to_32 mem)
    else if leb len 64
    then hash_len_33_to_64 mem
    else (do st ← start mem; st' ← rounds len mem 0 (blocks_len len) st; some (finish st'))
