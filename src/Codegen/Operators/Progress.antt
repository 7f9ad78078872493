-- ===== src/Codegen/Operators/Progress.antt =====
-- The operators on numbers that src/dachs/semantics/analyzer.cpp lets pass have instructions.
use mathlib.Core.Path.{subst}
use dachs.Base.{
  ℕ, String, str_eq, eq_iff, ◌≡◌, refl, ap, sym, ◌∙◌, ◌⊎◌, inl, inr, Bool, true, false, ◌||◌, none,
  some, List, [], ◌∷◌, ◌++◌, map, All, any_b, Bool-cases,
}
use dachs.Base.Defined.{HasValue}
use dachs.Types.{AnyType, builtin_type, Store}
use dachs.Analyzer.Operators.{Visited, visit_builtin_binary_expr}
use dachs.Analyzer.Operators.Laws.{bool_type, visit_builtin_binary_expr-HasType}
use dachs.Codegen.Operators.{
  Instruction, icmp_slt, icmp_ult, fcmp_ult, icmp_sgt, icmp_ugt, fcmp_ugt, icmp_sle, icmp_ule,
  fcmp_ule, icmp_sge, icmp_uge, fcmp_uge, icmp_eq, fcmp_ueq, icmp_ne, fcmp_une, choose, arithmetic,
  relational, logical, select, by_kind, by_equality, a_shr, shl, mul, f_mul, s_div, u_div, f_div,
  s_rem, u_rem, f_rem, add, f_add, sub, f_sub, and_, xor_, or_,
}
use dachs.Codegen.Operators.Typed.{Entry, ◌⊗◌, is_bool, not_comparison}

-- The types of numbers
abbrev pub numeric_types : List String
numeric_types = "int" ∷ "uint" ∷ "float" ∷ []

abbrev pub keys : List Entry → List String
keys entries = map (λ e. e.0) entries

abbrev builtin_name : AnyType → String
builtin_name (builtin_type n) = n
builtin_name t = ""

abbrev is_logical : String → Bool
is_logical op = str_eq op "&&" || str_eq op "||"

-- A key that is in the chain chooses what its entry gives.
choose-HasValue :
    (op : String) (entries : List Entry)
    → any_b (str_eq op) (keys entries) ≡ true
    → is_logical op ≡ false
    → All (λ (e : Entry). is_logical e.0 ≡ false → HasValue e.1) entries
    → HasValue (choose op entries)
unfolding choose
choose-HasValue op [] e l h = cc
choose-HasValue op ((key, value) ∷ rest) e l h = elim (Bool-cases (str_eq op key)) [
  | inl y ↦ rw (y, choose) (h.0 (ap is_logical (sym ((eq_iff op key).0 y)) ∙ l))
  | inr n ↦ rw (n, choose) (choose-HasValue op rest (rw n at e) l h.1)
]

numeric-cases :
    (name : String)
    → any_b (str_eq name) numeric_types ≡ true
    → (name ≡ "int") ⊎ (name ≡ "uint") ⊎ (name ≡ "float")
numeric-cases name e = elim (Bool-cases (str_eq name "int")) [
  | inl y ↦ inl ((eq_iff name "int").0 y)
  | inr n ↦ elim (Bool-cases (str_eq name "uint")) [
    | inl y ↦ inr (inl ((eq_iff name "uint").0 y))
    | inr m ↦ elim (Bool-cases (str_eq name "float")) [
      | inl y ↦ inr (inr ((eq_iff name "float").0 y))
      | inr l ↦ cc (rw (n, m, l) at e)
    ]
  ]
]

module _ (name : String) (numeric : any_b (str_eq name) numeric_types ≡ true) where
  by_kind-HasValue : (a b c : Instruction) → HasValue (by_kind name (some a) (some b) (some c))
  by_kind-HasValue a b c = elim (numeric-cases name numeric) [
    | inl e ↦ rw e (a, refl)
    | inr (inl e) ↦ rw e (b, refl)
    | inr (inr e) ↦ rw e (c, refl)
  ]

  by_equality-HasValue : (a b : Instruction) → HasValue (by_equality name a b)
  by_equality-HasValue a b = elim (numeric-cases name numeric) [
    | inl e ↦ rw e (a, refl)
    | inr (inl e) ↦ rw e (a, refl)
    | inr (inr e) ↦ rw e (b, refl)
  ]

  entries-HasValue :
      All
        (λ (e : Entry). is_logical e.0 ≡ false → HasValue e.1)
        (arithmetic name ++ (relational name ++ logical name))
  entries-HasValue =
      (λ l. (a_shr, refl))
      ⊗ (λ l. (shl, refl))
      ⊗ (λ l. by_kind-HasValue mul mul f_mul)
      ⊗ (λ l. by_kind-HasValue s_div u_div f_div)
      ⊗ (λ l. by_kind-HasValue s_rem u_rem f_rem)
      ⊗ (λ l. by_kind-HasValue add add f_add)
      ⊗ (λ l. by_kind-HasValue sub sub f_sub)
      ⊗ (λ l. (and_, refl))
      ⊗ (λ l. (xor_, refl))
      ⊗ (λ l. (or_, refl))
      ⊗ (λ l. by_kind-HasValue icmp_slt icmp_ult fcmp_ult)
      ⊗ (λ l. by_kind-HasValue icmp_sgt icmp_ugt fcmp_ugt)
      ⊗ (λ l. by_kind-HasValue icmp_sle icmp_ule fcmp_ule)
      ⊗ (λ l. by_kind-HasValue icmp_sge icmp_uge fcmp_uge)
      ⊗ (λ l. by_equality-HasValue icmp_eq fcmp_ueq)
      ⊗ (λ l. by_equality-HasValue icmp_ne fcmp_une)
      ⊗ (λ l. cc)
      ⊗ (λ l. cc)
      ⊗ tt

  not_bool : ¬ (builtin_type name ≡ bool_type)
  not_bool e =
      let named = subst (λ n. any_b (str_eq n) numeric_types ≡ true) (ap builtin_name e) numeric in
      cc

  -- For each binary operator that the generator knows, if it has no error in the analysis on
  -- an int, uint or float, then an instruction is selected for it.
  pub select-HasValue :
      (S : Store) (fuel : ℕ) (op : String) (rhs_type : AnyType) {v : Visited}
      → any_b (str_eq op) (keys (arithmetic name ++ (relational name ++ logical name))) ≡ true
      → visit_builtin_binary_expr S fuel op (builtin_type name) rhs_type ≡ some v
      → v.error ≡ none
      → HasValue (select op name)
  unfolding select
  select-HasValue S fuel op rhs_type known e ok = elim (Bool-cases (is_logical op)) [
    | inr n ↦
        choose-HasValue op (arithmetic name ++ (relational name ++ logical name)) known n
          entries-HasValue
    | inl y ↦
        elim (visit_builtin_binary_expr-HasType S fuel op (builtin_type name) rhs_type e ok).1 [
          | inl (c, t) ↦ cc (not_comparison op y)
          | inr (inl (l, t, b)) ↦ absurd (not_bool (is_bool S fuel name b))
          | inr (inr (c, l, t)) ↦ cc
        ]
  ]
