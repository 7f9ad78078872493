-- ===== src/Analyzer/Assign/Laws.antt =====
-- Assignments that src/dachs/semantics/analyzer.cpp lets pass.
use dachs.Base.{ℕ, ◌≡◌, ◌⊎◌, Bool, true, false, none, some, List, [], ◌∷◌}
use dachs.Types.{AnyType, is_known, FuncScope, Store}
use dachs.Types.Equality.{type_eq}
use dachs.Scope.{Scope, resolve_func}
use dachs.ConstFunc.Violation.{IsViolation}
use dachs.Analyzer.Calls.Laws.{IsResolution}
use dachs.Analyzer.Calls.{Definitions}
use dachs.Analyzer.Copies.{CopierMap, CopyError}
use dachs.Analyzer.Index.{IndexAccess}
use dachs.Analyzer.Assign.{Assignee, index_access, type_of, copy}

module _ (S : Store) (fuel depth : ℕ) (current_scope : Scope) (defs : Definitions)
    (expansion : Bool) where
  -- The types of a side without an index access
  abbrev pub HasTypeOf : AnyType → AnyType → Type 0
  HasTypeOf lhs_type rhs_type =
      (is_known lhs_type ≡ false) ⊎ (type_eq S fuel lhs_type rhs_type ≡ some true)

  -- The operator `[]=` of the object, the index and the value is resolved, and does not change an
  -- immutable object.
  pub record IsStored (access : IndexAccess) (index_type rhs_type : AnyType) : Type 0 where
    pub candidate : FuncScope
    pub only :
        resolve_func S fuel "[]=" (access.child_type ∷ index_type ∷ rhs_type ∷ []) current_scope
        ≡ some (candidate ∷ [])
    pub callee : FuncScope
    pub resolution :
        IsResolution S fuel current_scope defs candidate
          (access.child_type ∷ index_type ∷ rhs_type ∷ [])
          callee
    pub keeps_const : IsViolation callee callee.is_const_ access.child none

  -- The value can be assigned to the side: an index access has the type of the value or, without
  -- a type of its own, stores it by the operator.
  abbrev pub Takes : Assignee → AnyType → Type 0
  Takes (index_access child access index_type) rhs_type =
      (is_known index_type ≡ false)
      ⊎ ((is_known access.type_of_access ≡ true)
          × (type_eq S fuel access.type_of_access rhs_type ≡ some true))
      ⊎ ((is_known access.type_of_access ≡ false) × IsStored access index_type rhs_type)
  Takes lhs rhs_type = HasTypeOf (type_of lhs) rhs_type

  -- The copiers that a copy of the value needs are resolved.
  abbrev pub IsCopied : AnyType → Type 0
  IsCopied t =
      (before : CopierMap) × (failures : List CopyError) × (after : CopierMap) × (copy S fuel depth
          current_scope defs expansion t before
        ≡ some (true, failures, after))

  abbrev pub AllTake : List Assignee → List AnyType → Type 0
  AllTake [] [] = Unit {0}
  AllTake (lhs ∷ assignees) (t ∷ ts) = Takes lhs t × IsCopied t × AllTake assignees ts
  AllTake assignees ts = ⊥
