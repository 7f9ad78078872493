-- ===== src/Scope/Constructors/Laws.antt =====
-- What holds of an array whose construction passes the check of
-- src/dachs/semantics/tmp_constructor_checker.hpp.
use dachs.Base.{
  ℕ, ◌≡◌, true, false, inl, inr, Option, none, some, List, [], ◌∷◌, arith, Bool-cases, Option-cases,
}
use dachs.Types.{AnyType}
use dachs.Types.Template.{is_template}
use dachs.Scope.Members.{is_default_constructible}
use dachs.Scope.Constructors.{
  Checker, Checked, Argument, as_uint, is_too_large, check_one, check_two, check_rest, check_sized,
  check_array,
}

-- The size is the constant of the argument.
pub record IsSized (size : Option ℕ) (a : Argument) (r : Checked) : Type 0 where
  pub constant : ℕ
  pub is_constant : as_uint a.literal ≡ some constant
  pub in_bounds : is_too_large size constant ≡ false
  pub has_size : r.size ≡ some constant

check_rest-size :
    (k : Checker) (elem : AnyType) (n : ℕ) (args : List Argument) {r : Checked}
    → check_rest k elem (some n) args ≡ some r
    → r.size ≡ some n
unfolding check_one check_two
check_rest-size k elem n [] e = cc
check_rest-size k elem n (a ∷ []) e = ground arith
check_rest-size k elem n (a ∷ b ∷ []) e = ground arith
check_rest-size k elem n (a ∷ b ∷ c ∷ args) e = cc

check_sized-rest :
    (k : Checker) (elem : AnyType) (size : Option ℕ) (a : Argument) (args : List Argument)
    {r : Checked}
    → check_sized k elem size (a ∷ args) ≡ some r
    → r.error ≡ none
    → (n : ℕ) × (as_uint a.literal ≡ some n)
      × (is_too_large size n ≡ false)
      × (check_rest k elem (some n) (a ∷ args) ≡ some r)
unfolding check_sized
check_sized-rest k elem size a args {r} e ok = elim (Option-cases (as_uint a.literal)) [
  | inl no_constant ↦ cc (rw (no_constant, check_sized) at e)
  | inr (n, constant) ↦ elim (Bool-cases (is_too_large size n)) [
    | inl large ↦ cc (rw (constant, large, check_sized) at e)
    | inr small ↦ (n, constant, small, rw (constant, small, check_sized) at e)
  ]
]

check_array-sized :
    (k : Checker) (elem : AnyType) (size : Option ℕ) (a : Argument) (args : List Argument)
    {r : Checked}
    → check_array k elem size (a ∷ args) ≡ some r
    → r.error ≡ none
    → check_sized k elem size (a ∷ args) ≡ some r
unfolding check_array
check_array-sized k elem size a [] e ok = e
check_array-sized k elem size a (b ∷ []) e ok = e
check_array-sized k elem size a (b ∷ c ∷ args) e ok = absurd (ground arith)

-- If the construction of an array with arguments passes, then the first argument is a
-- constant, which becomes the array's size and is below the size that it had, if it had one.
pub check_array-IsSized :
    (k : Checker) (elem : AnyType) (size : Option ℕ) (a : Argument) (args : List Argument)
    {r : Checked}
    → check_array k elem size (a ∷ args) ≡ some r
    → r.error ≡ none
    → IsSized size a r
check_array-IsSized k elem size a args e ok =
    let (n, constant, small, rest) =
      check_sized-rest k elem size a args (check_array-sized k elem size a args e ok) ok in
    record {
      constant = n;
      is_constant = constant;
      in_bounds = small;
      has_size = check_rest-size k elem n (a ∷ args) rest;
    }

-- If the construction of an array with one argument passes, then its element type is no
-- template and is default constructible.
pub check_array-constructible :
    (k : Checker) (elem : AnyType) (size : Option ℕ) (a : Argument) {r : Checked}
    → check_array k elem size (a ∷ []) ≡ some r
    → r.error ≡ none
    → (is_template k.store k.fuel elem ≡ some false)
      × (is_default_constructible k.store k.fuel k.functions elem ≡ some true)
unfolding check_one
check_array-constructible k elem size a e ok =
    let (n, constant, small, rest) =
      check_sized-rest k elem size a [] (check_array-sized k elem size a [] e ok) ok in
    ground arith
