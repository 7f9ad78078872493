-- ===== src/Importer/Ends.antt =====
-- The depth of imports in src/dachs/parser/importer.cpp, over finitely many files.
use dachs.Base.{
  ℕ, zero, suc, ◌+◌, ◌≤◌, ◌<◌, str_eq, eq_iff, ◌≡◌, ap, sym, ◌∙◌, inl, inr, true, false, some, List,
  [], ◌∷◌, if◌then◌else◌, Bool-cases, Option-cases, arith, eq_refl,
}
use dachs.Importer.{
  FilePath, Import, Inu, Parsed, parsed, syntax_error, Importer, Imported, imported, parse_error,
  out_of_fuel, merge, find_path, is_in, insert, after_import, import_one, import_loop,
  import_program,
}

-- The number of the files that are not imported yet
abbrev pub remaining : List FilePath → List FilePath → ℕ
remaining [] already = 0
remaining (f ∷ files) already = (if is_in f already then 0 else 1) + remaining files already

-- Every path in the one list is in the other.
abbrev pub IsWithin : List FilePath → List FilePath → Type 0
IsWithin a b = (p : FilePath) → is_in p a ≡ true → is_in p b ≡ true

insert-IsWithin : (p : FilePath) (a : List FilePath) → IsWithin a (insert p a)
insert-IsWithin p a q h = ground arith

insert_self : (p : FilePath) (a : List FilePath) → is_in p (insert p a) ≡ true
insert_self p a = ground (arith, eq_refl p)

remaining-IsWithin :
    (files a b : List FilePath) → IsWithin a b → remaining files b ≤ remaining files a
remaining-IsWithin [] a b h = omega arith
remaining-IsWithin (f ∷ files) a b h = ground (arith, h f, remaining-IsWithin files a b h)

remaining-insert :
    (files : List FilePath) (p : FilePath) (a : List FilePath)
    → is_in p files ≡ true
    → is_in p a ≡ false
    → suc (remaining files (insert p a)) ≤ remaining files a
remaining-insert [] p a m n = cc
remaining-insert (f ∷ files) p a m n = elim (Bool-cases (str_eq p f)) [
  | inl y ↦
      let same = (eq_iff p f).0 y in
      let absent = sym (ap (λ q. is_in q a) same) ∙ n in
      let present = sym (ap (λ q. is_in q (insert p a)) same) ∙ insert_self p a in
      let later = remaining-IsWithin files a (insert p a) (insert-IsWithin p a) in
      rw (absent, present) (omega arith)
  | inr o ↦
      let later = remaining-insert files p a (ground arith) n in
      ground (arith, insert-IsWithin p a f)
]

-- The result is one that is reached within the fuel, and the set of files has only grown.
abbrev pub IsDone : List FilePath → Imported → Type 0
IsDone a (imported program b) = IsWithin a b
IsDone a (parse_error at) = Unit
IsDone a out_of_fuel = ⊥

IsDone-trans : (a b : List FilePath) (r : Imported) → IsWithin a b → IsDone b r → IsDone a r
IsDone-trans a b (imported program c) h d = λ p m. d p (h p m)
IsDone-trans a b (parse_error at) h d = tt
IsDone-trans a b out_of_fuel h d = d

module _ (imp : Importer) (files : List FilePath)
    (found : (i : Import) (p : FilePath) → find_path imp i ≡ some p → is_in p files ≡ true) where
  -- Imports from files end while at most `n` files remain.
  abbrev Ends : ℕ → (Inu → FilePath → List FilePath → Imported) → Type 0
  Ends n rec =
      (program : Inu) (p : FilePath) (a : List FilePath)
      → remaining files (insert p a) < n
      → IsDone (insert p a) (rec program p a)

  after_import-IsDone :
      (program : Inu) (a : List FilePath) (r : Imported) (rest : Inu → List FilePath → Imported)
      → IsDone a r
      → ((q : Inu) (b : List FilePath) → IsWithin a b → IsDone b (rest q b))
      → IsDone a (after_import program r rest)
  after_import-IsDone program a (imported other b) rest d h =
      IsDone-trans a b _ d (h (merge program other) b d)
  after_import-IsDone program a (parse_error at) rest d h = tt
  after_import-IsDone program a out_of_fuel rest d h = d

  parsed-IsDone :
      (n : ℕ) (rec : Inu → FilePath → List FilePath → Imported) (p : FilePath) (a : List FilePath)
      → Ends n rec
      → is_in p files ≡ true
      → is_in p a ≡ false
      → remaining files a ≤ n
      → (q : Parsed)
      → IsDone a (elim q [ parsed ast ↦ rec ast p a | syntax_error at ↦ parse_error at ])
  parsed-IsDone n rec p a ends here new le (syntax_error at) = tt
  parsed-IsDone n rec p a ends here new le (parsed ast) =
      let fewer = remaining-insert files p a here new in
      IsDone-trans a (insert p a) _ (insert-IsWithin p a) (ends ast p a (omega arith))

  import_one-IsDone :
      (n : ℕ) (rec : Inu → FilePath → List FilePath → Imported) (i : Import) (program : Inu)
      (a : List FilePath) (rest : Inu → List FilePath → Imported)
      → Ends n rec
      → remaining files a ≤ n
      → ((q : Inu) (b : List FilePath) → IsWithin a b → IsDone b (rest q b))
      → IsDone a (import_one rec imp i program a rest)
  unfolding import_one
  import_one-IsDone n rec i program a rest ends le h = elim (Option-cases (find_path imp i)) [
    | inl e ↦ rw (e, import_one) tt
    | inr (p, e) ↦ elim (Bool-cases (is_in p a)) [
      | inl y ↦ rw (e, y, import_one) (h program a (λ q m. m))
      | inr m ↦ elim (Option-cases (imp.fs.read_file p)) [
        | inl r ↦ rw (e, m, r, import_one) tt
        | inr (code, r) ↦
            rw (e, m, r, import_one)
              (after_import-IsDone program a _ rest
                (parsed-IsDone n rec p a ends (found i p e) m le (imp.parse code p)) h)
      ]
    ]
  ]

  import_loop-IsDone :
      (n : ℕ) (rec : Inu → FilePath → List FilePath → Imported) (is : List Import) (program : Inu)
      (a : List FilePath)
      → Ends n rec
      → remaining files a ≤ n
      → IsDone a (import_loop rec imp is program a)
  unfolding import_loop
  import_loop-IsDone n rec [] program a ends le = λ p m. m
  import_loop-IsDone n rec (i ∷ is) program a ends le =
      import_one-IsDone n rec i program a (λ q b. import_loop rec imp is q b) ends le
        (λ q b within.
          let fewer = remaining-IsWithin files a b within in
          import_loop-IsDone n rec is q b ends (omega arith))

  -- If the files that imports are found in are among finitely many, and fewer of them remain
  -- than the fuel is, then the import of a program ends, with a program or an error, and the
  -- set of imported files has only grown.
  pub import_program-IsDone :
      (fuel : ℕ) (program : Inu) (file : FilePath) (a : List FilePath)
      → remaining files (insert file a) < fuel
      → IsDone (insert file a) (import_program fuel imp program file a)
  unfolding import_program
  import_program-IsDone zero program file a lt = omega arith
  import_program-IsDone (suc fuel) program file a lt =
      import_loop-IsDone fuel (import_program fuel imp) program.imports program (insert file a)
        (import_program-IsDone fuel) (omega arith)
