-- ===== src/Codegen/Operators.antt =====
-- src/dachs/codegen/llvmir/tmp_builtin_operator_ir_emitter.hpp: which instructions of LLVM stand
-- for the operators on builtin types and on tuples.
pub mod Typed
pub mod Progress
pub mod Tuples
use dachs.Base.{
  ℕ, suc, String, str_eq, Bool, true, false, not, ◌||◌, Option, none, some, List, [], ◌∷◌, any_b,
  ◌++◌, ◌>>=◌, if◌then◌else◌,
}
use dachs.Types.{AnyType, builtin_type, array_type, tuple_type, Types, nil, cons}
use dachs.Analyzer.Operators.{comparisons}

-- The instructions that `CreateAShr` and the others of the builder make.
pub data Instruction : Type 0 where
  a_shr shl mul f_mul s_div u_div f_div s_rem u_rem f_rem : Instruction
  add f_add sub f_sub and_ xor_ or_ : Instruction
  icmp_slt icmp_ult fcmp_ult icmp_sgt icmp_ugt fcmp_ugt : Instruction
  icmp_sle icmp_ule fcmp_ule icmp_sge icmp_uge fcmp_uge : Instruction
  icmp_eq fcmp_ueq icmp_ne fcmp_une : Instruction

-- `llvm::IRBuilder`, as the emitters use it: `element` is a load of `CreateStructGEP`.
pub record Builder : Type 1 where
  pub Value : Type 0
  pub binary : Instruction → Value → Value → Value
  pub neg : Value → Value
  pub f_neg : Value → Value
  pub not_ : Value → Value
  pub element : ℕ → Value → Value

-- A chain of `if (op == …) … else if`, with `nullptr` at its end
unfoldable pub choose : {A : Type 0} → String → List (String × Option A) → Option A
choose op [] = none
choose op ((key, value) ∷ rest) = if str_eq op key then value else choose op rest

abbrev pub is_int : String → Bool
is_int name = str_eq name "int" || str_eq name "bool" || str_eq name "char"

abbrev pub is_uint : String → Bool
is_uint name = str_eq name "uint"

abbrev pub is_float : String → Bool
is_float name = str_eq name "float"

-- `if (is_int) … else if (is_uint) … else if (is_float) …`
abbrev pub by_kind :
    String → Option Instruction → Option Instruction → Option Instruction → Option Instruction
by_kind name signed unsigned floating =
    if is_int name
    then signed
    else if is_uint name
    then unsigned
    else if is_float name
    then floating
    else none

-- `==` and `!=` are also for symbols.
abbrev pub by_equality : String → Instruction → Instruction → Option Instruction
by_equality name integral floating =
    if is_int name || is_uint name || str_eq name "symbol"
    then some integral
    else if is_float name
    then some floating
    else none

abbrev pub unless_float : String → Instruction → Option Instruction
unless_float name i = if not (is_float name) then some i else none

abbrev pub arithmetic : String → List (String × Option Instruction)
arithmetic name =
    (">>", some a_shr)
    ∷ ("<<", some shl)
    ∷ ("*", by_kind name (some mul) (some mul) (some f_mul))
    ∷ ("/", by_kind name (some s_div) (some u_div) (some f_div))
    ∷ ("%", by_kind name (some s_rem) (some u_rem) (some f_rem))
    ∷ ("+", by_kind name (some add) (some add) (some f_add))
    ∷ ("-", by_kind name (some sub) (some sub) (some f_sub))
    ∷ ("&", some and_)
    ∷ ("^", some xor_)
    ∷ ("|", some or_)
    ∷ []

abbrev pub relational : String → List (String × Option Instruction)
relational name =
    ("<", by_kind name (some icmp_slt) (some icmp_ult) (some fcmp_ult))
    ∷ (">", by_kind name (some icmp_sgt) (some icmp_ugt) (some fcmp_ugt))
    ∷ ("<=", by_kind name (some icmp_sle) (some icmp_ule) (some fcmp_ule))
    ∷ (">=", by_kind name (some icmp_sge) (some icmp_uge) (some fcmp_uge))
    ∷ ("==", by_equality name icmp_eq fcmp_ueq)
    ∷ ("!=", by_equality name icmp_ne fcmp_une)
    ∷ []

abbrev pub logical : String → List (String × Option Instruction)
logical name = ("&&", unless_float name and_) ∷ ("||", unless_float name or_) ∷ []

-- The instruction of `emit(builtin_type)`
unfoldable pub select : String → String → Option Instruction
unfolding choose
select op name = choose op (arithmetic name ++ (relational name ++ logical name))

module _ (builder : Builder) where
  open builder use {Value, binary, neg, f_neg, not_, element}

  -- `tmp_builtin_unary_op_ir_emitter::emit`
  unfoldable pub emit_unary : String → String → Value → Option Value
  emit_unary op name value =
      if str_eq op "+"
      then some value
      else if str_eq op "-"
      then (if is_int name
          then some (neg value)
          else if is_float name
          then some (f_neg value)
          else none)
      else if str_eq op "~" || str_eq op "!"
      then (if not (is_float name) then some (not_ value) else none)
      else none

  abbrev pub emit_builtin : String → String → Value → Value → Option Value
  emit_builtin op name lhs rhs = do i ← select op name; some (binary i lhs rhs)

  abbrev pub negated : Option Value → Option Value
  negated none = none
  negated (some v) = emit_unary "!" "bool" v

  -- What `emit` gives for a type: the outer option is for behaviour that is not defined, the
  -- inner one is for `nullptr`. `connective` is the operator that folds the elements.
  unfoldable mutual
    unfolding select emit_unary

    pub emit : String → AnyType → Value → Value → Option (Option Value)
    emit op (builtin_type name) lhs rhs = some (emit_builtin op name lhs rhs)
    emit op (tuple_type ts) lhs rhs = elim (any_b (str_eq op) comparisons) [
      | false ↦ some none
      | true ↦ elim (str_eq op "==" || str_eq op "!=") [
        | true ↦ emit_folded op "&&" ts lhs rhs
        | false ↦ elim (str_eq op "<" || str_eq op ">") [
          | true ↦ emit_folded op "||" ts lhs rhs
          | false ↦ (do
            inverse ← emit_folded (if str_eq op ">=" then "<" else ">") "||" ts lhs rhs
            some (negated inverse))
        ]
      ]
    ]
    emit op t lhs rhs = some none

    -- The read of the first element's type is out of bounds in the empty tuple.
    pub emit_folded : String → String → Types → Value → Value → Option (Option Value)
    emit_folded op connective nil lhs rhs = none
    emit_folded op connective (cons t ts) lhs rhs = do
      first ← emit op t (element 0 lhs) (element 0 rhs)
      emit_rest op connective ts 1 lhs rhs first

    pub emit_rest :
        String → String → Types → ℕ → Value → Value → Option Value → Option (Option Value)
    emit_rest op connective nil i lhs rhs folding = some folding
    emit_rest op connective (cons t ts) i lhs rhs folding = do
      next ← emit op t (element i lhs) (element i rhs)
      elim folding [
        | none ↦ some none
        | some a ↦ elim next [
          | none ↦ some none
          | some b ↦ emit_rest op connective ts (suc i) lhs rhs (emit_builtin connective "bool" a b)
        ]
      ]
