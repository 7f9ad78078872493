-- ===== src/Codegen/Operators/Typed.antt =====
-- The instructions that the code generator chooses for operators, against the types that
-- src/dachs/semantics/analyzer.cpp gives to the expressions.
use mathlib.Core.Path.{subst}
use dachs.Base.{
  ℕ, zero, suc, String, str_eq, eq_iff, ◌≡◌, refl, ap, sym, ◌∙◌, inl, inr, Bool, true, false, ◌||◌,
  Option, none, some, List, [], ◌∷◌, ◌++◌, All, any_b, Bool-cases, if◌then◌else◌,
}
use dachs.Base.Defined.{some_inj}
use dachs.Types.{AnyType, builtin_type, Store}
use dachs.Types.Equality.{type_eq}
use dachs.Analyzer.Operators.{Visited, comparisons, visit_builtin_binary_expr}
use dachs.Analyzer.Operators.Laws.{bool_type, visit_builtin_binary_expr-HasType}
use dachs.Codegen.Operators.{
  Instruction, icmp_slt, icmp_ult, fcmp_ult, icmp_sgt, icmp_ugt, fcmp_ugt, icmp_sle, icmp_ule,
  fcmp_ule, icmp_sge, icmp_uge, fcmp_uge, icmp_eq, fcmp_ueq, icmp_ne, fcmp_une, choose, arithmetic,
  relational, logical, select, is_int, is_uint, is_float, by_kind, by_equality, unless_float,
}

-- Documented of LLVM: comparisons give an `i1`.
abbrev pub is_comparison : Instruction → Bool
is_comparison icmp_slt = true
is_comparison icmp_ult = true
is_comparison fcmp_ult = true
is_comparison icmp_sgt = true
is_comparison icmp_ugt = true
is_comparison fcmp_ugt = true
is_comparison icmp_sle = true
is_comparison icmp_ule = true
is_comparison fcmp_ule = true
is_comparison icmp_sge = true
is_comparison icmp_uge = true
is_comparison fcmp_uge = true
is_comparison icmp_eq = true
is_comparison fcmp_ueq = true
is_comparison icmp_ne = true
is_comparison fcmp_une = true
is_comparison i = false

-- The type of an instruction's result, on operands of a type
abbrev pub result_type : Instruction → AnyType → AnyType
result_type i operand = if is_comparison i then bool_type else operand

abbrev pub Entry : Type 0
Entry = String × Option Instruction

infixr 20 ◌⊗◌
abbrev pub ◌⊗◌ {ℓ κ} : {A : Type ℓ} {B : Type κ} → A → B → A × B
a ⊗ b = (a, b)

-- What `choose` gives has the property of its entry, if there is one.
choose-All :
    (P : String → Instruction → Type 0) (op : String) (entries : List Entry)
    → All (λ (e : Entry). (i : Instruction) → e.1 ≡ some i → P e.0 i) entries
    → (i : Instruction) → choose op entries ≡ some i
    → P op i
unfolding choose
choose-All P op [] h i e = cc
choose-All P op ((key, value) ∷ rest) h i e = elim (Bool-cases (str_eq op key)) [
  | inl y ↦ subst (λ k. P k i) (sym ((eq_iff op key).0 y)) (h.0 i (rw (y, choose) at e))
  | inr n ↦ choose-All P op rest h.1 i (rw (n, choose) at e)
]

-- What each kind of entry may give
module _ (Q : Instruction → Type 0) where
  given : {a : Instruction} → Q a → (i : Instruction) → some a ≡ some i → Q i
  given q i e = subst Q (some_inj e) q

  given_by_kind :
      (name : String) {a b c : Instruction}
      → Q a
      → Q b
      → Q c
      → (i : Instruction) → by_kind name (some a) (some b) (some c) ≡ some i
      → Q i
  given_by_kind name qa qb qc i e = elim (Bool-cases (is_int name)) [
    | inl y ↦ given qa i (rw y at e)
    | inr n ↦ elim (Bool-cases (is_uint name)) [
      | inl y ↦ given qb i (rw (n, y) at e)
      | inr m ↦ elim (Bool-cases (is_float name)) [
        | inl y ↦ given qc i (rw (n, m, y) at e)
        | inr l ↦ cc (rw (n, m, l) at e)
      ]
    ]
  ]

  given_by_equality :
      (name : String) {a b : Instruction}
      → Q a
      → Q b
      → (i : Instruction) → by_equality name a b ≡ some i
      → Q i
  given_by_equality name qa qb i e =
      elim (Bool-cases (is_int name || is_uint name || str_eq name "symbol")) [
        | inl y ↦ given qa i (rw y at e)
        | inr n ↦ elim (Bool-cases (is_float name)) [
          | inl y ↦ given qb i (rw (n, y) at e)
          | inr l ↦ cc (rw (n, l) at e)
        ]
      ]

  given_unless_float :
      (name : String) {a : Instruction}
      → Q a
      → (i : Instruction) → unless_float name a ≡ some i
      → Q i
  given_unless_float name qa i e = elim (Bool-cases (is_float name)) [
    | inl y ↦ cc (rw y at e)
    | inr n ↦ given qa i (rw n at e)
  ]

select-comparison :
    (op name : String) (i : Instruction)
    → select op name ≡ some i
    → is_comparison i ≡ any_b (str_eq op) comparisons
unfolding select
select-comparison op name =
    let no = λ (j : Instruction). is_comparison j ≡ false in
    let yes_ = λ (j : Instruction). is_comparison j ≡ true in
    choose-All (λ k j. is_comparison j ≡ any_b (str_eq k) comparisons) op
      (arithmetic name ++ (relational name ++ logical name))
      (given no refl
        ⊗ given no refl
        ⊗ given_by_kind no name refl refl refl
        ⊗ given_by_kind no name refl refl refl
        ⊗ given_by_kind no name refl refl refl
        ⊗ given_by_kind no name refl refl refl
        ⊗ given_by_kind no name refl refl refl
        ⊗ given no refl
        ⊗ given no refl
        ⊗ given no refl
        ⊗ given_by_kind yes_ name refl refl refl
        ⊗ given_by_kind yes_ name refl refl refl
        ⊗ given_by_kind yes_ name refl refl refl
        ⊗ given_by_kind yes_ name refl refl refl
        ⊗ given_by_equality yes_ name refl refl
        ⊗ given_by_equality yes_ name refl refl
        ⊗ given_unless_float no name refl
        ⊗ given_unless_float no name refl
        ⊗ tt)

pub is_bool :
    (S : Store) (fuel : ℕ) (name : String)
    → type_eq S fuel (builtin_type name) bool_type ≡ some true
    → builtin_type name ≡ bool_type
unfolding type_eq
is_bool S zero name e = cc
is_bool S (suc fuel) name e = ap builtin_type ((eq_iff name "bool").0 (some_inj e))

pub not_comparison :
    (op : String)
    → (str_eq op "&&" || str_eq op "||") ≡ true
    → any_b (str_eq op) comparisons ≡ false
not_comparison op e = elim (Bool-cases (str_eq op "&&")) [
  | inl y ↦ rw ((eq_iff op "&&").0 y) refl
  | inr n ↦ rw ((eq_iff op "||").0 (rw n at e)) refl
]

-- If a binary operator on a builtin type has no error in the analysis, and an instruction is
-- selected for it, then the result of the instruction, a bit for a comparison and else of the
-- operands' type, has the type that the analysis gives to the expression.
pub select-HasType :
    (S : Store) (fuel : ℕ) (op name : String) (rhs_type : AnyType) {v : Visited} (i : Instruction)
    → visit_builtin_binary_expr S fuel op (builtin_type name) rhs_type ≡ some v
    → v.error ≡ none
    → select op name ≡ some i
    → result_type i (builtin_type name) ≡ v.type_of_expr
select-HasType S fuel op name rhs_type {v} i e ok chosen =
    let compares = select-comparison op name i chosen in
    elim (visit_builtin_binary_expr-HasType S fuel op (builtin_type name) rhs_type e ok).1 [
      | inl (c, t) ↦ rw (compares ∙ c) (sym t)
      | inr (inl (l, t, b)) ↦ rw (compares ∙ not_comparison op l) (is_bool S fuel name b ∙ sym t)
      | inr (inr (c, l, t)) ↦ rw (compares ∙ c) (sym t)
    ]
