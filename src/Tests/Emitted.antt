-- ===== src/Tests/Emitted.antt =====
-- Instructions for operators that src/dachs/codegen/llvmir/tmp_builtin_operator_ir_emitter.hpp
-- emits, with a builder that computes.
use dachs.Base.{ℕ, zero, suc, none, ◌≡◌, refl, Bool, false, not, ◌&&◌, ◌||◌, ◌==◌, ltb}
use dachs.Types.{builtin_type, nil, cons}
use dachs.Types.Equality.{type_eq}
use dachs.Types.Predicates.{get_builtin_type}
use dachs.Base.Defined.{HasValue}
use dachs.Analyzer.Operators.{typed, visit_builtin_binary_expr}
use dachs.Codegen.Operators.{
  Instruction, Builder, and_, or_, icmp_slt, icmp_eq, icmp_ne, emit, select,
}
use dachs.Codegen.Operators.Typed.{result_type, select-HasType}
use dachs.Codegen.Operators.Progress.{select-HasValue}
use dachs.Codegen.Operators.Tuples.{IsLogic, IsComparison, emit-IsComparison}
use dachs.Tests.Data.{int, float, store}

-- A value of a register: a bit, a number, or a pointer to a structure.
data Value : Type 0 where
  bit : Bool → Value
  integer : ℕ → Value
  structure : Value → Value → Value

abbrev truth : Value → Bool
truth (bit b) = b
truth v = false

abbrev number : Value → ℕ
number (integer n) = n
number v = 0

abbrev execute : Instruction → Value → Value → Value
execute and_ a b = bit (truth a && truth b)
execute or_ a b = bit (truth a || truth b)
execute icmp_eq a b = bit (number a == number b)
execute icmp_ne a b = bit (not (number a == number b))
execute icmp_slt a b = bit (ltb (number a) (number b))
execute i a b = integer 0

abbrev member : ℕ → Value → Value
member i (structure a b) = elim i [ zero ↦ a | suc n ↦ b ]
member i v = v

abbrev machine : Builder
machine = record {
  Value = Value;
  binary = execute;
  neg = λ v. v;
  f_neg = λ v. v;
  not_ = λ v. bit (not (truth v));
  element = member;
}

machine-IsLogic : IsLogic machine truth
machine-IsLogic = record { of_and = λ a b. refl; of_or = λ a b. refl; of_not = λ a. refl }

-- (1, 2) and (1, 3)
abbrev one_two : Value
one_two = structure (integer 1) (integer 2)

abbrev one_three : Value
one_three = structure (integer 1) (integer 3)

emit-IsComparison_example :
    IsComparison machine truth machine-IsLogic "!="
      (cons int (cons int nil))
      one_two
      one_three
      (bit false)
unfolding emit
emit-IsComparison_example =
    emit-IsComparison machine truth machine-IsLogic "!=" (cons int (cons int nil)) one_two one_three
      (bit false) refl

select-HasType_example : result_type icmp_slt int ≡ builtin_type "bool"
unfolding visit_builtin_binary_expr select type_eq get_builtin_type
select-HasType_example =
    select-HasType store 5 "<" "int" int {v = typed (builtin_type "bool") none} icmp_slt refl refl
      refl

select-HasValue_example : HasValue (select "+" "float")
unfolding visit_builtin_binary_expr type_eq get_builtin_type
select-HasValue_example =
    select-HasValue "float" refl store 5 "+" float {v = typed float none} refl refl refl
