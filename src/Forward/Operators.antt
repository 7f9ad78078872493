-- ===== src/Forward/Operators.antt =====
-- Calls of operators after the check of their parameters in
-- src/dachs/semantics/forward_analyzer_impl.hpp.
use dachs.Base.{
  ℕ, ◌≡◌, refl, inl, inr, String, str_eq, eq_iff, true, false, some, List, [], ◌∷◌, length, arith,
  Bool-cases, ◌==◌, ==_iff,
}
use dachs.Types.{AnyType, FuncScope, Store}
use dachs.Overload.{is_other, overload_set}
use dachs.Overload.Best.{viable, overload_set_lem}
use dachs.Forward.{is_wrong_arity, check_operator_function_args}

check-cons :
    (f : FuncScope) (fs : List FuncScope)
    → check_operator_function_args (f ∷ fs) ≡ 0
    → (is_wrong_arity f.name (length f.params) ≡ false) × (check_operator_function_args fs ≡ 0)
unfolding check_operator_function_args
check-cons f fs e = ground arith

other_arity :
    (f : FuncScope) (op : String) (args : List AnyType)
    → is_wrong_arity f.name (length f.params) ≡ false
    → is_wrong_arity op (length args) ≡ true
    → is_other op args f ≡ true
other_arity f op args ok wrong = elim (Bool-cases (str_eq f.name op)) [
  | inl same ↦ elim (Bool-cases (length args == length f.params)) [
    | inl len ↦
        let e1 = (eq_iff f.name op).0 same in
        let e2 = (==_iff (length args) (length f.params)).0 len in cc
    | inr len ↦ ground arith
  ]
  | inr other ↦ ground arith
]

viable-operator :
    (S : Store) (fuel : ℕ) (fs : List FuncScope) (op : String) (args : List AnyType)
    → check_operator_function_args fs ≡ 0
    → is_wrong_arity op (length args) ≡ true
    → viable S fuel op args fs ≡ some []
viable-operator S fuel [] op args e w = refl
viable-operator S fuel (f ∷ fs) op args e w =
    let (ok, rest) = check-cons f fs e in
    rw (other_arity f op args ok w, viable) (viable-operator S fuel fs op args rest w)

-- If the check of operators reports no error, then a call of an operator with a number of
-- arguments that it forbids has an empty overload set.
pub overload_set-operator :
    (S : Store) (fuel : ℕ) (fs : List FuncScope) (op : String) (args : List AnyType)
    → check_operator_function_args fs ≡ 0
    → is_wrong_arity op (length args) ≡ true
    → overload_set S fuel fs op args ≡ some []
overload_set-operator S fuel fs op args e w =
    rw (overload_set_lem S fuel fs op args, viable-operator S fuel fs op args e w) refl
