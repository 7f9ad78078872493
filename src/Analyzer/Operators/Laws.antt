-- ===== src/Analyzer/Operators/Laws.antt =====
-- Operators that src/dachs/semantics/analyzer.cpp lets pass.
use dachs.Base.{
  ℕ, String, str_eq, ◌≡◌, refl, ap, sym, ◌∙◌, ◌⊎◌, inl, inr, Bool, true, false, ◌||◌, none, some,
  any_b, Bool-cases,
}
use dachs.Base.Defined.{bind-some, some_inj, some-none}
use dachs.Types.{AnyType, builtin_type, Store}
use dachs.Types.Equality.{type_eq}
use dachs.Types.Predicates.{get_builtin_type}
use dachs.Analyzer.Operators.{
  Visited, comparisons, bool_error, visit_logical, visit_builtin_binary_expr,
}

abbrev pub bool_type : AnyType
bool_type = builtin_type "bool"

-- The typing rule of the binary operators on builtin types
abbrev HasType : Store → ℕ → String → AnyType → AnyType → Type 0
HasType S fuel op operand t =
    ((any_b (str_eq op) comparisons ≡ true) × (t ≡ bool_type))
    ⊎ (((str_eq op "&&" || str_eq op "||") ≡ true)
        × (t ≡ bool_type)
        × (type_eq S fuel operand bool_type ≡ some true))
    ⊎ ((any_b (str_eq op) comparisons ≡ false)
        × ((str_eq op "&&" || str_eq op "||") ≡ false)
        × (t ≡ operand))

bool_error-none : (t : AnyType) (b : Bool) → bool_error t b ≡ none → b ≡ true
bool_error-none t true e = refl
bool_error-none t false e = cc

logical-HasType :
    (S : Store) (fuel : ℕ) (operand : AnyType) {v : Visited}
    → visit_logical S fuel operand ≡ some v
    → v.error ≡ none
    → (v.type_of_expr ≡ bool_type) × (type_eq S fuel operand bool_type ≡ some true)
unfolding get_builtin_type
logical-HasType S fuel operand e ok =
    let (is_bool, eb, e1) = bind-some (type_eq S fuel operand bool_type) _ e in
    let same = bool_error-none operand is_bool (ap (λ v. v.error) (some_inj e1) ∙ ok) in
    (sym (ap (λ v. v.type_of_expr) (some_inj e1)), eb ∙ ap some same)

-- If a binary operator on builtin types has no error, then the operand types are equal, and
-- the result is `bool` for a comparison, `bool` on operands that are `bool` for a logical
-- operator, and the left operand's type for any other.
pub visit_builtin_binary_expr-HasType :
    (S : Store) (fuel : ℕ) (op : String) (lhs_type rhs_type : AnyType) {v : Visited}
    → visit_builtin_binary_expr S fuel op lhs_type rhs_type ≡ some v
    → v.error ≡ none
    → (type_eq S fuel lhs_type rhs_type ≡ some true) × HasType S fuel op lhs_type v.type_of_expr
unfolding visit_builtin_binary_expr get_builtin_type
visit_builtin_binary_expr-HasType S fuel op lhs_type rhs_type {v} e ok =
    let (same, es, e1) = bind-some (type_eq S fuel lhs_type rhs_type) _ e in
    elim (Bool-cases same) [
      | inr n ↦ absurd (some-none (ap (λ w. w.error) (some_inj (rw n at e1)) ∙ ok))
      | inl y ↦ (
        es ∙ ap some y,
        elim (Bool-cases (any_b (str_eq op) comparisons)) [
          | inl c ↦ inl (c, sym (ap (λ w. w.type_of_expr) (some_inj (rw (y, c) at e1))))
          | inr c ↦ elim (Bool-cases (str_eq op "&&" || str_eq op "||")) [
            | inl l ↦
                let (t, b) = logical-HasType S fuel lhs_type (rw (y, c, l) at e1) ok in
                inr (inl (l, t, b))
            | inr l ↦
                inr (inr (c, l, sym (ap (λ w. w.type_of_expr) (some_inj (rw (y, c, l) at e1)))))
          ]
        ],
      )
    ]
