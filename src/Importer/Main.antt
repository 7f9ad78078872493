-- ===== src/Importer/Main.antt =====
-- The functions named `main` after the imports of src/dachs/parser/importer.cpp.
use dachs.Base.{
  ℕ, zero, suc, ◌≡◌, refl, ap, sym, ◌∙◌, inl, inr, Bool, not, List, [], ◌∷◌, ◌++◌, filterb,
  Bool-cases, Option-cases,
}
use mathlib.Core.List.{append-nil}
use dachs.Importer.{
  FilePath, Import, Inu, FunctionDefinition, Importer, Imported, imported, parse_error, out_of_fuel,
  is_main, merge, find_path, is_in, insert, after_import, import_one, import_loop, import_program,
}

abbrev pub mains : Inu → List FunctionDefinition
mains program = filterb is_main program.functions

-- If there is a program, it has the functions named `main` that are given.
abbrev pub HasMains : List FunctionDefinition → Imported → Type 0
HasMains ms (imported program a) = mains program ≡ ms
HasMains ms (parse_error at) = Unit
HasMains ms out_of_fuel = Unit

filterb-append :
    {A : Type 0} (p : A → Bool) (xs ys : List A)
    → filterb p (xs ++ ys) ≡ filterb p xs ++ filterb p ys
filterb-append p [] ys = refl
filterb-append p (x ∷ xs) ys = elim (Bool-cases (p x)) [
  | inl y ↦ rw (y, filterb-append p xs ys) refl
  | inr n ↦ rw (n, filterb-append p xs ys) refl
]

filterb-not :
    {A : Type 0} (p : A → Bool) (xs : List A) → filterb p (filterb (λ x. not (p x)) xs) ≡ []
filterb-not p [] = refl
filterb-not p (x ∷ xs) = elim (Bool-cases (p x)) [
  | inl y ↦ rw y (filterb-not p xs)
  | inr n ↦ rw (n, n) (filterb-not p xs)
]

mains-merge : (lhs rhs : Inu) → mains (merge lhs rhs) ≡ mains lhs
mains-merge lhs rhs =
    filterb-append is_main lhs.functions _
    ∙ ap (λ xs. filterb is_main lhs.functions ++ xs) (filterb-not is_main rhs.functions)
    ∙ append-nil (filterb is_main lhs.functions)

after_import-HasMains :
    (program : Inu) (r : Imported) (rest : Inu → List FilePath → Imported)
    → ((q : Inu) (b : List FilePath) → HasMains (mains q) (rest q b))
    → HasMains (mains program) (after_import program r rest)
after_import-HasMains program (imported other b) rest h =
    rw (sym (mains-merge program other)) (h (merge program other) b)
after_import-HasMains program (parse_error at) rest h = tt
after_import-HasMains program out_of_fuel rest h = tt

import_one-HasMains :
    (rec : Inu → FilePath → List FilePath → Imported) (imp : Importer) (i : Import) (program : Inu)
    (a : List FilePath) (rest : Inu → List FilePath → Imported)
    → ((q : Inu) (b : List FilePath) → HasMains (mains q) (rest q b))
    → HasMains (mains program) (import_one rec imp i program a rest)
unfolding import_one
import_one-HasMains rec imp i program a rest h = elim (Option-cases (find_path imp i)) [
  | inl e ↦ rw (e, import_one) tt
  | inr (p, e) ↦ elim (Bool-cases (is_in p a)) [
    | inl y ↦ rw (e, y, import_one) (h program a)
    | inr m ↦ elim (Option-cases (imp.fs.read_file p)) [
      | inl r ↦ rw (e, m, r, import_one) tt
      | inr (code, r) ↦ rw (e, m, r, import_one) (after_import-HasMains program _ rest h)
    ]
  ]
]

import_loop-HasMains :
    (rec : Inu → FilePath → List FilePath → Imported) (imp : Importer) (is : List Import)
    (program : Inu) (a : List FilePath)
    → HasMains (mains program) (import_loop rec imp is program a)
unfolding import_loop
import_loop-HasMains rec imp [] program a = refl
import_loop-HasMains rec imp (i ∷ is) program a =
    import_one-HasMains rec imp i program a (λ q b. import_loop rec imp is q b)
      (import_loop-HasMains rec imp is)

-- If the import of a program gives a program, then its functions named `main` are those that
-- it had before, in their order.
pub import_program-HasMains :
    (fuel : ℕ) (imp : Importer) (program : Inu) (file : FilePath) (a : List FilePath)
    → HasMains (mains program) (import_program fuel imp program file a)
unfolding import_program
import_program-HasMains zero imp program file a = tt
import_program-HasMains (suc fuel) imp program file a =
    import_loop-HasMains (import_program fuel imp) imp program.imports program (insert file a)
