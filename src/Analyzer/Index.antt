-- ===== src/Analyzer/Index.antt =====
-- `index_access_analyzer` of src/dachs/semantics/analyzer.cpp.
pub mod Laws
use dachs.Base.{
  ℕ, String, str_eq, Bool, true, false, not, ◌&&◌, ◌||◌, Option, none, some, List, [], ◌∷◌, length,
  leb, get_elem?, ◌>>=◌, if◌then◌else◌,
}
use dachs.Types.{
  AnyType, is_known, builtin_type, class_type, tuple_type, func_type, generic_func_type, array_type,
  pointer_type, qualified_type, template_type, to_list, VarSymbol, FuncScope, Store,
}
use dachs.Types.Equality.{type_eq}
use dachs.Types.Predicates.{get_builtin_type, is_builtin_named}
use dachs.Scope.{Scope}
use dachs.Ast.{ℤ, pos, negsuc, Literal, int_value, uint_value, AnyExpr, primary_literal, other_expr}
use dachs.ConstFunc.{Tree, is_const_violated_invocation}
use dachs.Analyzer.Calls.{CallError, Resolved, resolved, oops, Definitions, resolve_func_call}

-- The members of `index_access` that the analyzer reads and sets. `child` is the object with its
-- type, as the check for constness reads it.
pub record IndexAccess : Type 0 where
  pub child : Tree
  pub child_type : AnyType
  pub index_expr : AnyExpr
  pub is_assign : Bool
  pub type_of_access : AnyType
  pub callee_scope : Option FuncScope

pub data IndexError : Type 0 where
  not_int : AnyType → IndexError
  not_literal : IndexError
  out_of_bounds : ℤ → IndexError
  not_indexable : IndexError
  not_callable : CallError → IndexError
  violates_const : FuncScope → VarSymbol → IndexError
  type_mismatch : IndexError

-- The node after the analysis, and the error, if there is one
abbrev pub Analyzed : Type 0
Analyzed = IndexAccess × Option IndexError

abbrev pub set_type : IndexAccess → AnyType → Analyzed
set_type access t = (record access { type_of_access = t }, none)

abbrev pub is_index_type : AnyType → Bool
is_index_type t = is_builtin_named "int" t || is_builtin_named "uint" t

-- Arrays, pointers and strings, with the type of an element
unfoldable pub index_elements : AnyType → AnyType → IndexAccess → Analyzed
unfolding is_builtin_named
index_elements element index_type access =
    if is_index_type index_type
    then set_type access element
    else (access, some (not_int index_type))

abbrev pub tuple_element : List AnyType → ℕ → IndexAccess → Bool → Option Analyzed
tuple_element ts n access true = some (access, some (out_of_bounds (pos n)))
tuple_element ts n access false = do t ← get_elem? ts n; some (set_type access t)

-- Tuples. An index below zero is out of bounds before it is converted to `unsigned int`.
unfoldable pub index_tuple : List AnyType → AnyExpr → IndexAccess → Option Analyzed
index_tuple ts (primary_literal at (int_value (negsuc n))) access =
    some (access, some (out_of_bounds (negsuc n)))
index_tuple ts (primary_literal at (int_value (pos n))) access =
    tuple_element ts n access (leb (length ts) n)
index_tuple ts (primary_literal at (uint_value n)) access =
    tuple_element ts n access (leb (length ts) n)
index_tuple ts (primary_literal at v) access = some (access, some not_literal)
index_tuple ts (other_expr at) access = some (access, some not_literal)

abbrev pub set_return_type : Option AnyType → IndexAccess → Analyzed
set_return_type (some t) access = set_type access t
set_return_type none access = (access, none)

-- The test for constness after a call of `f`, and the type
abbrev pub after_call : FuncScope → IndexAccess → Option VarSymbol → Analyzed
after_call f access (some violated) = (access, some (violates_const f violated))
after_call f access none = set_return_type f.ret_type access

module _ (S : Store) (fuel : ℕ) (current_scope : Scope) (defs : Definitions) where
  -- `visit_invocation` of the node, and the test for constness
  unfoldable pub apply_call : IndexAccess → Resolved → Option Analyzed
  unfolding is_const_violated_invocation
  apply_call access (oops e) = some (access, some (not_callable e))
  apply_call access (resolved f) = do
    t ← f.ret_type
    let called = record access { type_of_access = t; callee_scope = some f }
    some (after_call f called (is_const_violated_invocation f f.is_const_ access.child))

  unfoldable pub analyze_index_operator : String → List AnyType → IndexAccess → Option Analyzed
  unfolding apply_call resolve_func_call
  analyze_index_operator op arg_types access = do
    r ← resolve_func_call S fuel current_scope defs op arg_types
    apply_call access r

  -- The types that have no index access of their own
  abbrev pub index_other : AnyType → AnyType → IndexAccess → Option Analyzed
  index_other t index_type access =
      if access.is_assign
      then some (access, none)
      else analyze_index_operator "[]" (t ∷ index_type ∷ []) access

  -- The visitor on the type of the object
  unfoldable pub index_access_analyzer : AnyType → AnyType → IndexAccess → Option Analyzed
  unfolding index_elements index_tuple analyze_index_operator
  index_access_analyzer (array_type t n) index_type access =
      some (index_elements t index_type access)
  index_access_analyzer (pointer_type t) index_type access =
      some (index_elements t index_type access)
  index_access_analyzer (tuple_type ts) index_type access =
      index_tuple (to_list ts) access.index_expr access
  index_access_analyzer (builtin_type n) index_type access = elim (str_eq n "string") [
    | true ↦ (do char ← get_builtin_type "char"; some (index_elements char index_type access))
    | false ↦ some (access, some not_indexable)
  ]
  index_access_analyzer t index_type access = index_other t index_type access

  -- `visit(index_access)`, after the walk over the children
  unfoldable pub visit_index_access : AnyType → IndexAccess → Option Analyzed
  unfolding index_access_analyzer
  visit_index_access index_type access =
      if is_known access.child_type && is_known index_type
      then index_access_analyzer access.child_type index_type access
      else some (access, none)

  -- `analyze_lhs_of_assign`
  unfoldable pub analyze_lhs_of_assign : AnyType → AnyType → IndexAccess → Option Analyzed
  unfolding analyze_index_operator type_eq
  analyze_lhs_of_assign index_type rhs_type access = elim (is_known rhs_type) [
    | false ↦ some (access, none)
    | true ↦ elim (is_known access.type_of_access) [
      | true ↦ (do
        same ← type_eq S fuel access.type_of_access rhs_type
        some (access, (if same then none else some type_mismatch)))
      | false ↦ analyze_index_operator "[]=" (access.child_type ∷ index_type ∷ rhs_type ∷ []) access
    ]
  ]
