-- ===== src/ConstFunc.antt =====
-- src/dachs/semantics/const_func_checker.hpp: whether a member function changes its receiver, and
-- calls of those that do on immutable objects.
pub mod Harmless
pub mod Check
pub mod Violation
use dachs.Base.{
  ℕ, zero, suc, Bool, true, false, not, ◌||◌, Option, none, some, List, get_elem?, ◌==◌, ◌>>=◌,
  ◌>>◌, require, if◌then◌else◌,
}
use dachs.Types.{AnyType, VarSymbol, FuncScope, Store}
use dachs.Types.Equality.{type_eq}
use dachs.Scope.{self_param}
use dachs.Scope.Functions.{func_is_template, is_ctor}

-- A syntax node as the walker shows it: `node` is any node that both checkers visit only by its
-- children, also an `any_expr`, which wraps each expression and has that one child, and the
-- definition of a function, whose first children are its parameters. A `callee_scope` is the index of a function, `none` where it is expired; a variable is
-- the symbol that it stands for.
mutual
  pub data Tree : Type 0 where
    var_ref : VarSymbol → Tree
    ufcs_invocation : Tree → Option ℕ → Tree
    func_invocation : Tree → Trees → Option ℕ → Tree
    index_access : Tree → Tree → Tree
    assignment_stmt : Trees → Trees → Tree
    node : Trees → Tree

  pub data Trees : Type 0 where
    no_trees : Trees
    trees : Tree → Trees → Trees

-- A function with its definition
pub record Member : Type 0 where
  pub scope : FuncScope
  pub def : Tree

-- The member `is_const_` of each function, by the function's index
abbrev pub Consts : Type 0
Consts = ℕ → Option Bool

abbrev pub set_const : ℕ → Bool → Consts → Consts
set_const i b c = λ j. if j == i then some b else c j

-- `is_const_func`, and the functions that are decided
abbrev pub State : Type 0
State = Bool × Consts

-- `func_scope::resolve_receiver`
abbrev pub receiver_of : FuncScope → Option (Option VarSymbol)
receiver_of f = if f.is_member_func then self_param f.params else some none

-- The state after an assignment to a member of a variable
abbrev pub assign_to : Bool → Bool → Bool
assign_to same is_const = if same then false else is_const

module _ (S : Store) (fuel : ℕ) (self_type : AnyType) where
  -- `const_member_func_checker::visit_lhs_of_assign`, and `is_const_func` after it
  unfoldable pub visit_lhs_of_assign : Tree → Bool → Option Bool
  unfolding type_eq
  visit_lhs_of_assign (ufcs_invocation child (some callee)) b = none
  visit_lhs_of_assign (ufcs_invocation (ufcs_invocation child callee) none) b =
      visit_lhs_of_assign (ufcs_invocation child callee) b
  visit_lhs_of_assign (ufcs_invocation (var_ref s) none) b = do
    same ← type_eq S fuel s.ty self_type
    some (assign_to same b)
  visit_lhs_of_assign t b = some b

  -- The loop over `assignees`
  unfoldable pub visit_assignees : Trees → Bool → Option Bool
  unfolding visit_lhs_of_assign
  visit_assignees no_trees b = some b
  visit_assignees (trees t ts) b = do b' ← visit_lhs_of_assign t b; visit_assignees ts b'

-- The part of `visit_invocation` that finds out whether the callee is const; `check` is
-- `check_const` of another function.
abbrev pub decide : (ℕ → Consts → Option State) → ℕ → Option Bool → Consts → Option State
decide check callee (some is_const) c = some (is_const, c)
decide check callee none c = do
  (is_const, c') ← check callee c
  some (is_const, set_const callee is_const c')

abbrev pub visit_same_class : (ℕ → Consts → Option State) → ℕ → Bool → State → Option State
visit_same_class check callee true (b, c) = decide check callee (c callee) c
visit_same_class check callee false (b, c) = some (b, c)

module _ (S : Store) (fuel : ℕ) (check : ℕ → Consts → Option State) (members : List Member) where
  abbrev pub visit_receiver : AnyType → ℕ → Option VarSymbol → State → Option State
  visit_receiver self_type callee none st = some st
  visit_receiver self_type callee (some receiver) st = do
    same ← type_eq S fuel self_type receiver.ty
    visit_same_class check callee same st

  -- `visit_invocation`, in the function `self`
  unfoldable pub visit_invocation : ℕ → AnyType → Option ℕ → State → Option State
  unfolding type_eq
  visit_invocation self self_type none st = some st
  visit_invocation self self_type (some callee) st = if callee == self then some st else (do
    m ← get_elem? members callee
    receiver ← receiver_of m.scope
    visit_receiver self_type callee receiver st)

  -- The walk over a definition with `const_member_func_checker`
  unfoldable mutual
    unfolding visit_invocation visit_assignees

    pub visit : ℕ → AnyType → Tree → State → Option State
    visit self ty (var_ref s) st = some st
    visit self ty (ufcs_invocation child callee) st =
        if st.0 then visit self ty child st else some st
    visit self ty (func_invocation child args callee) st = visit_invocation self ty callee st
    visit self ty (index_access child index) st =
        if st.0 then (visit self ty child st >>= λ st'. visit self ty index st') else some st
    visit self ty (assignment_stmt assignees rhs_exprs) st =
        visit_assignees S fuel ty assignees st.0 >>= λ b. visit_all self ty rhs_exprs (b, st.1)
    visit self ty (node ts) st = if st.0 then visit_all self ty ts st else some st

    pub visit_all : ℕ → AnyType → Trees → State → Option State
    visit_all self ty no_trees st = some st
    visit_all self ty (trees t ts) st = visit self ty t st >>= λ st'. visit_all self ty ts st'

-- `assert(!scope->is_const_)`
abbrev pub is_undecided : Option Bool → Bool
is_undecided none = true
is_undecided (some b) = false

-- `check_const`, at a depth of calls
unfoldable pub check_const : Store → ℕ → List Member → ℕ → ℕ → Consts → Option State
unfolding visit
check_const S fuel members zero self c = none
check_const S fuel members (suc depth) self c = do
  m ← get_elem? members self
  template ← func_is_template S fuel m.scope
  require (not template)
  require (is_undecided (c self))
  elim (not m.scope.is_member_func || is_ctor m.scope) [
    | true ↦ some (false, c)
    | false ↦ (do
      p ← get_elem? m.scope.params 0
      visit S fuel (check_const S fuel members depth) members self p.ty m.def (true, c))
  ]

-- The walk with `const_func_invocation_checker`, from the result so far
unfoldable mutual
  pub find_immutable : Tree → Option VarSymbol → Option VarSymbol
  find_immutable (var_ref s) result = if s.immutable then some s else result
  find_immutable (ufcs_invocation child callee) result = find_immutable child result
  find_immutable (func_invocation child args callee) result =
      find_immutable_all args (find_immutable child result)
  find_immutable (index_access child index) result = find_immutable child result
  find_immutable (assignment_stmt assignees rhs_exprs) result =
      find_immutable_all assignees (find_immutable_all rhs_exprs result)
  find_immutable (node ts) result = find_immutable_all ts result

  pub find_immutable_all : Trees → Option VarSymbol → Option VarSymbol
  find_immutable_all no_trees result = result
  find_immutable_all (trees t ts) result = find_immutable_all ts (find_immutable t result)

-- `func_scope::is_const`
abbrev pub is_const_func : Option Bool → Bool
is_const_func (some b) = b
is_const_func none = false

-- `is_const_violated_invocation` of a call with a receiver: the left operand of an operator, the
-- first argument of a function, the object of a UFCS call or an index access.
unfoldable pub is_const_violated_invocation : FuncScope → Option Bool → Tree → Option VarSymbol
unfolding find_immutable
is_const_violated_invocation callee is_const receiver =
    if not callee.is_member_func || is_const_func is_const
    then none
    else find_immutable receiver none
