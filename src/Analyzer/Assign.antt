-- ===== src/Analyzer/Assign.antt =====
-- Assignments in src/dachs/semantics/analyzer.cpp.
pub mod Assignees
pub mod Laws
use dachs.Base.{
  ℕ, String, str_eq, Bool, true, false, not, ◌&&◌, ◌||◌, ◌++◌, Option, none, some, List, [], ◌∷◌,
  all_b, length, ◌==◌, ◌>>=◌, ◌>>◌, require, if◌then◌else◌,
}
use dachs.Types.{AnyType, is_known, VarSymbol, FuncScope, Store}
use dachs.Types.Equality.{type_eq}
use dachs.Scope.{Scope}
use dachs.Analyzer.Calls.{Definitions}
use dachs.Analyzer.Copies.{CopierMap, Copiers, CopyError, resolve_deep_copy}
use dachs.Analyzer.Index.{IndexAccess, IndexError, Analyzed, analyze_lhs_of_assign}

pub record VarRef : Type 0 where
  pub name : String
  pub ty : AnyType
  pub symbol : Option VarSymbol

-- The left side of an assignment, with the types of its parts. An index access comes with its
-- node and the type of its index.
pub data Assignee : Type 0 where
  var_ref : VarRef → Assignee
  index_access : Assignee → IndexAccess → AnyType → Assignee
  typed_expr : Assignee → AnyType → Assignee
  ufcs_invocation : Assignee → AnyType → Assignee
  other_expr : AnyType → Assignee

pub data AssignError : Type 0 where
  not_assignable : AssignError
  immutable_variable : VarSymbol → AssignError
  copy_failed : List CopyError → AssignError
  bad_index : IndexError → AssignError
  assign_mismatch : AnyType → AnyType → AssignError
  tuple_expansion : AssignError

abbrev pub type_of : Assignee → AnyType
type_of (var_ref v) = v.ty
type_of (index_access child access index_type) = access.type_of_access
type_of (typed_expr child t) = t
type_of (ufcs_invocation child t) = t
type_of (other_expr t) = t

-- `var_ref_getter_for_lhs_of_assign`
unfoldable pub get_var_ref : Assignee → Option VarRef
get_var_ref (var_ref v) = some v
get_var_ref (index_access child access index_type) = get_var_ref child
get_var_ref (typed_expr child t) = get_var_ref child
get_var_ref (ufcs_invocation child t) = get_var_ref child
get_var_ref (other_expr t) = none

abbrev pub has_symbol : VarRef → Bool
has_symbol v = elim v.symbol [ none ↦ false | some s ↦ true ]

abbrev pub is_ignored_var : VarRef → Bool
is_ignored_var v = str_eq v.name "_" && not (has_symbol v)

-- A round of the check for immutable variables: the loop goes on, or the visit returns, with
-- an error or without one.
pub data Round : Type 0 where
  go_on : Round
  return_ : List AssignError → Round

abbrev pub check_symbol : VarSymbol → Round
check_symbol s = if s.immutable then return_ (immutable_variable s ∷ []) else go_on

unfoldable pub check_assignee : Assignee → Option Round
unfolding get_var_ref
check_assignee lhs = elim (get_var_ref lhs) [
  | none ↦ some (return_ (not_assignable ∷ []))
  | some v ↦ elim (is_ignored_var v) [
    | true ↦ some go_on
    | false ↦ elim (is_known v.ty) [
      | false ↦ some (return_ [])
      | true ↦ (do s ← v.symbol; some (check_symbol s))
    ]
  ]
]

unfoldable pub check_assignees : List Assignee → Option Round
unfolding check_assignee
check_assignees [] = some go_on
check_assignees (lhs ∷ assignees) = do
  r ← check_assignee lhs
  elim r [ return_ es ↦ some (return_ es) | go_on ↦ check_assignees assignees ]

-- The errors, and the copiers that are resolved
abbrev pub Assigned : Type 0
Assigned = List AssignError × CopierMap

abbrev pub expansion_error : Bool → List AssignError
expansion_error expansion = if expansion then tuple_expansion ∷ [] else []

abbrev pub index_error : Option IndexError → List AssignError
index_error none = []
index_error (some e) = bad_index e ∷ []

module _ (S : Store) (fuel depth : ℕ) (current_scope : Scope) (defs : Definitions)
    (expansion : Bool) where
  -- `resolve_deep_copy`, with the errors that it adds if it fails
  unfoldable pub copy : AnyType → CopierMap → Option (Bool × List CopyError × CopierMap)
  unfolding resolve_deep_copy
  copy t copiers = do
    (success, st) ←
        resolve_deep_copy S fuel current_scope defs depth t
          (record { copiers = copiers; errors = [] })
    some (success, st.errors, st.copiers)

  -- The comparison of the two types
  unfoldable pub check_types : AnyType → AnyType → Option (List AssignError)
  unfolding type_eq
  check_types lhs_type rhs_type = elim (is_known lhs_type) [
    | false ↦ some []
    | true ↦ (do
      same ← type_eq S fuel lhs_type rhs_type
      some (if same then [] else assign_mismatch lhs_type rhs_type ∷ expansion_error expansion))
  ]

  -- Index accesses are analyzed with the type of the value, other sides are compared with it.
  unfoldable pub check_assignment : Assignee → AnyType → Option (List AssignError)
  unfolding check_types analyze_lhs_of_assign
  check_assignment (index_access child access index_type) rhs_type = elim (is_known index_type) [
    | false ↦ some []
    | true ↦ (do
      (after, e) ← analyze_lhs_of_assign S fuel current_scope defs index_type rhs_type access
      some (index_error e))
  ]
  check_assignment lhs rhs_type = check_types (type_of lhs) rhs_type

  -- The loop over both sides, of which the types on the right are known
  unfoldable pub assign_each : List Assignee → List AnyType → CopierMap → Option Assigned
  unfolding copy check_assignment
  assign_each [] [] copiers = some ([], copiers)
  assign_each (lhs ∷ assignees) (t ∷ ts) copiers = do
    (success, failures, copiers') ← copy t copiers
    es ← elim success [ true ↦ check_assignment lhs t | false ↦ some (copy_failed failures ∷ []) ]
    (rest, copiers'') ← assign_each assignees ts copiers'
    some (es ++ rest, copiers'')
  assign_each assignees ts copiers = none

  -- `visit(assignment_stmt)`, after the walk over both sides
  unfoldable pub visit_assignment : List Assignee → List AnyType → CopierMap → Option Assigned
  unfolding check_assignees assign_each
  visit_assignment assignees rhs_types copiers = do
    require (length assignees == length rhs_types)
    elim (all_b is_known rhs_types) [
      | false ↦ some (expansion_error expansion, copiers)
      | true ↦ (do
        r ← check_assignees assignees
        elim r [
          | return_ es ↦ some (es, copiers)
          | go_on ↦ assign_each assignees rhs_types copiers
        ])
    ]
