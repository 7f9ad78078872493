-- ===== src/Tests/Hashes.antt =====
-- Hashes of symbols by `cityhash64` of runtime/src/dachs/runtime.hpp.
use dachs.Base.{◌≡◌, true, none, [], ◌∷◌, inr, arith}
use dachs.CityHash.{cityhash64}
use dachs.CityHash.Reads.{is_some, cityhash64-in_bounds, cityhash64-out_of_bounds}
use dachs.Tests.Data.{repeat}

cityhash64-in_bounds_example : is_some (cityhash64 (repeat 200 97)) ≡ true
cityhash64-in_bounds_example =
    cityhash64-in_bounds (repeat 200 97) (inr (omega arith)) (omega arith)

-- The symbol `name`
cityhash64-out_of_bounds_example : cityhash64 (110 ∷ 97 ∷ 109 ∷ 101 ∷ []) ≡ none
cityhash64-out_of_bounds_example =
    cityhash64-out_of_bounds (110 ∷ 97 ∷ 109 ∷ 101 ∷ []) (omega arith) (omega arith)
