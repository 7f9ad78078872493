-- ===== src/Analyzer/Literals/Lengths.antt =====
-- The lengths of elements that are arrays, once their types are found equal.
use dachs.Base.{
  ℕ, zero, suc, ◌≡◌, refl, ap, sym, ◌∙◌, Bool, true, false, not, Option, none, some, List, [], ◌∷◌,
  All, ◌==◌, ==_iff, Bool-cases, inl, inr, any_of, ◌>>=◌,
}
use dachs.Base.Defined.{bind-some, some_inj}
use dachs.Types.{AnyType, array_type, Store}
use dachs.Types.Equality.{type_eq, equal_ref}
use dachs.Analyzer.Literals.{
  LiteralError, size_of, knows_size, all_know, differs_from, type_differs, check_sizes,
  check_lengths,
}

equal_ref-same : (n m : Option ℕ) → equal_ref n m ≡ true → n ≡ m
equal_ref-same none none e = refl
equal_ref-same none (some b) e = cc
equal_ref-same (some a) none e = cc
equal_ref-same (some a) (some b) e = ap some ((==_iff a b).0 e)

-- Two types that are equal have the same size, if the first is an array type.
type_eq-size_of :
    (S : Store) (fuel : ℕ) (t : AnyType) (n : Option ℕ) (u : AnyType)
    → type_eq S fuel (array_type t n) u ≡ some true
    → size_of u ≡ n
unfolding type_eq
type_eq-size_of S zero t n u e = cc
type_eq-size_of S (suc fuel) t n (array_type v m) e =
    let (same, es, e1) = bind-some (type_eq S fuel t v) _ e in
    elim (Bool-cases same) [
      | inl y ↦ sym (equal_ref-same n m (some_inj (rw y at e1)))
      | inr f ↦ cc (rw f at e1)
    ]
type_eq-size_of S (suc fuel) t n u e = cc

-- Every one has the size.
abbrev AllSized : Option ℕ → List AnyType → Type 0
AllSized n = All (λ u. size_of u ≡ n)

all_know-unknown : (t : AnyType) (ts : List AnyType) → size_of t ≡ none → all_know (t ∷ ts) ≡ none
all_know-unknown t ts e = rw e refl

module _ (k : ℕ) where
  all_know-sized :
      (ts : List AnyType) → AllSized (some k) ts → not (k == 0) ≡ true → all_know ts ≡ some true
  all_know-sized [] h y = refl
  all_know-sized (t ∷ ts) (e, h) y = rw (e, y, all_know-sized ts h y) refl

  all_know-empty :
      (t : AnyType) (ts : List AnyType)
      → size_of t ≡ some k
      → not (k == 0) ≡ false
      → all_know (t ∷ ts) ≡ some false
  all_know-empty t ts e y = rw (e, y) refl

  any_known-empty :
      (ts : List AnyType)
      → AllSized (some k) ts
      → not (k == 0) ≡ false
      → any_of knows_size ts ≡ some false
  any_known-empty [] h y = refl
  any_known-empty (t ∷ ts) (e, h) y = rw (e, y, any_known-empty ts h y) refl

  any_differs-sized :
      (ts : List AnyType) → AllSized (some k) ts → any_of (differs_from k) ts ≡ some false
  any_differs-sized [] h = refl
  any_differs-sized (t ∷ ts) (e, h) = rw (e, (==_iff k k).1 refl, any_differs-sized ts h) refl

  check_sizes-sized :
      (t : AnyType) (ts : List AnyType)
      → size_of t ≡ some k
      → AllSized (some k) ts
      → check_sizes true t ts ≡ some none
  check_sizes-sized t ts e h = rw (e, any_differs-sized ts h) refl

  sized-check_lengths :
      (t : AnyType) (ts : List AnyType)
      → AllSized (some k) (t ∷ ts)
      → (b : Bool) → not (k == 0) ≡ b
      → (all_know (t ∷ ts) >>= λ all. check_sizes all t (t ∷ ts)) ≡ some none
  sized-check_lengths t ts (e, h) true y =
      rw (all_know-sized (t ∷ ts) (e, h) y) (check_sizes-sized t (t ∷ ts) e (e, h))
  sized-check_lengths t ts (e, h) false y =
      rw (all_know-empty t ts e y, any_known-empty (t ∷ ts) (e, h) y) refl

-- If no type differs from the first, then every one equals it.
pub differs-AllSame :
    (S : Store) (fuel : ℕ) (t : AnyType) (ts : List AnyType)
    → any_of (type_differs S fuel t) ts ≡ some false
    → All (λ u. type_eq S fuel t u ≡ some true) ts
differs-AllSame S fuel t [] e = tt
differs-AllSame S fuel t (u ∷ ts) e =
    let (d, ed, e1) = bind-some (type_differs S fuel t u) _ e in
    let (same, es, e2) = bind-some (type_eq S fuel t u) _ ed in
    elim (Bool-cases same) [
      | inl y ↦ (es ∙ ap some y, differs-AllSame S fuel t ts (rw (sym (some_inj e2), y) at e1))
      | inr n ↦ cc (rw (sym (some_inj e2), n) at e1)
    ]

-- All elements have the size of the first.
same-AllSized :
    (S : Store) (fuel : ℕ) (t : AnyType) (n : Option ℕ) (ts : List AnyType)
    → All (λ u. type_eq S fuel (array_type t n) u ≡ some true) ts
    → AllSized n ts
same-AllSized S fuel t n [] h = tt
same-AllSized S fuel t n (u ∷ ts) (e, h) =
    (type_eq-size_of S fuel t n u e, same-AllSized S fuel t n ts h)

-- What the check of lengths gives for elements of one type: no error, and no result for arrays
-- of a size that is not known
abbrev pub lengths_result : AnyType → Option (Option LiteralError)
lengths_result (array_type t none) = none
lengths_result t = some none

array-check_lengths :
    (t : AnyType) (n : Option ℕ) (ts : List AnyType)
    → AllSized n (array_type t n ∷ ts)
    → (all_know (array_type t n ∷ ts) >>= λ all.
        check_sizes all (array_type t n) (array_type t n ∷ ts))
      ≡ lengths_result (array_type t n)
array-check_lengths t none ts h = refl
array-check_lengths t (some k) ts h = sized-check_lengths k (array_type t (some k)) ts h _ refl

-- If the types of all elements equal that of the first, then the check of their lengths
-- reports no error; it has a result unless they are arrays of a size that is not known.
pub check_lengths-lengths_result :
    (S : Store) (fuel : ℕ) (t : AnyType) (ts : List AnyType)
    → any_of (type_differs S fuel t) (t ∷ ts) ≡ some false
    → check_lengths t (t ∷ ts) ≡ lengths_result t
unfolding check_lengths
check_lengths-lengths_result S fuel (array_type t n) ts e = array-check_lengths t n ts (
    same-AllSized S fuel t n (array_type t n ∷ ts)
      (differs-AllSame S fuel (array_type t n) (array_type t n ∷ ts) e))
check_lengths-lengths_result S fuel t ts e = refl
