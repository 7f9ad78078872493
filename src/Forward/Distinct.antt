-- ===== src/Forward/Distinct.antt =====
-- What it means that a check for duplicates of src/dachs/semantics/forward_analyzer_impl.hpp
-- passes.
use dachs.Base.{
  ℕ, zero, suc, ◌≡◌, refl, ◌↔◌, inl, inr, Bool, false, Option, some, List, [], ◌∷◌, String, str_eq,
  eq_iff, ap, get_elem?, ◌∙◌, All, arith, Bool-cases, ◌>>=◌,
}
use mathlib.Core.Path.{subst}
use dachs.Base.Defined.{bind-some, some_inj}
use dachs.Types.{FuncScope, ClassScope, Store, lock}
use dachs.Types.Equality.Laws.{str_eq_sym}
use dachs.Scope.{find_class}
use dachs.Scope.Functions.{func_eq}
use dachs.Forward.{count_right, count_pairs, check_functions_duplication, check_classes_duplication}

-- No two elements are the same: each is compared with every later one.
abbrev pub IsDistinct : {A : Type 0} → (A → A → Option Bool) → List A → Type 0
IsDistinct same [] = Unit
IsDistinct same (left ∷ rest) =
    All (λ right. same right left ≡ some false) rest × IsDistinct same rest

module _ {A : Type 0} (same : A → A → Option Bool) where
  count_right-zero :
      (left : A) (rest : List A)
      → (count_right same left rest ≡ some 0) ↔ All (λ right. same right left ≡ some false) rest
  unfolding count_right
  count_right-zero left [] = (λ _. tt, λ _. refl)
  count_right-zero left (right ∷ rest) = (
    λ e.
        let (b, eb, e1) = bind-some (same right left) _ e in
        let (n, en, e2) = bind-some (count_right same left rest) _ e1 in
        elim (Bool-cases b) [
          | inl y ↦ cc (rw y at e2)
          | inr y ↦ (rw y at eb, (count_right-zero left rest).0 (ground arith))
        ],
    λ h. rw (h.0, (count_right-zero left rest).1 h.1) refl,
  )

  pub count_pairs-zero : (xs : List A) → (count_pairs same xs ≡ some 0) ↔ IsDistinct same xs
  unfolding count_pairs
  count_pairs-zero [] = (λ _. tt, λ _. refl)
  count_pairs-zero (left ∷ rest) = (
    λ e.
        let (m, em, e1) = bind-some (count_right same left rest) _ e in
        let (n, en, e2) = bind-some (count_pairs same rest) _ e1 in
        ((count_right-zero left rest).0 (ground arith), (count_pairs-zero rest).0 (ground arith)),
    λ h. rw ((count_right-zero left rest).1 h.0, (count_pairs-zero rest).1 h.1) refl,
  )

-- The check for duplicate functions reports no error exactly if no function equals an earlier
-- one as an overload.
pub check_functions_duplication-IsDistinct :
    (S : Store) (fuel : ℕ) (fs : List FuncScope)
    → (check_functions_duplication S fuel fs ≡ some 0) ↔ IsDistinct (func_eq S fuel) fs
unfolding check_functions_duplication
check_functions_duplication-IsDistinct S fuel fs = count_pairs-zero (func_eq S fuel) fs

-- The classes that the references stand for have the names, in order.
abbrev pub ClassNames : Store → List ℕ → List String → Type 0
ClassNames S [] [] = Unit
ClassNames S (ref ∷ refs) (n ∷ ns) =
    ((c : ClassScope) × (lock S ref ≡ some c) × (c.name ≡ n)) × ClassNames S refs ns
ClassNames S _ _ = ⊥

All-get :
    {A : Type 0} (P : A → Type 0) (xs : List A) (i : ℕ) {x : A}
    → All P xs
    → get_elem? xs i ≡ some x
    → P x
All-get P [] i h e = cc
All-get P (y ∷ xs) zero h e = subst P (some_inj e) h.0
All-get P (y ∷ xs) (suc i) h e = All-get P xs i h.1 e

find_class_unique :
    (S : Store) (refs : List ℕ) (ns : List String) (i : ℕ) {ref : ℕ} {name : String}
    → ClassNames S refs ns
    → IsDistinct (λ r l. some (str_eq r l)) ns
    → get_elem? refs i ≡ some ref
    → get_elem? ns i ≡ some name
    → find_class S name refs ≡ some (some ref)
unfolding find_class
find_class_unique S [] ns i c d er en = cc
find_class_unique S (k ∷ refs) [] i c d er en = absurd c
find_class_unique S (k ∷ refs) (n ∷ ns) zero {ref} {name} ((cls, found, same), cs) d er en =
    let found_name = (eq_iff cls.name name).1 (same ∙ some_inj en) in
    rw (found, ◌>>=◌, found_name) (ap some er)
find_class_unique S (k ∷ refs) (n ∷ ns) (suc i) {ref} {name} ((cls, found, same), cs) d er en =
    let other = some_inj (All-get (λ r. some (str_eq r n) ≡ some false) ns i d.0 en) in
    let other_name = ap (λ m. str_eq m name) same ∙ str_eq_sym n name ∙ other in
    rw (found, ◌>>=◌, other_name) (find_class_unique S refs ns i cs d.1 er en)

-- If the check for duplicate classes reports no error for the names of the classes, in order,
-- then the search for the name of a class finds that class.
pub check_classes_duplication-find_class :
    (S : Store) (refs : List ℕ) (ns : List String) (i : ℕ) {ref : ℕ} {name : String}
    → ClassNames S refs ns
    → check_classes_duplication ns ≡ some 0
    → get_elem? refs i ≡ some ref
    → get_elem? ns i ≡ some name
    → find_class S name refs ≡ some (some ref)
unfolding check_classes_duplication
check_classes_duplication-find_class S refs ns i c e er en =
    find_class_unique S refs ns i c ((count_pairs-zero (λ r l. some (str_eq r l)) ns).0 e) er en
