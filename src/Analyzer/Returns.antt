-- ===== src/Analyzer/Returns.antt =====
-- `return_types_gatherer` and `deduce_return_type` of src/dachs/semantics/analyzer.cpp. The
-- return statements of a function are given in the order of the walk, each with the type of what
-- it returns, `empty` where that is not known.
pub mod Gather
pub mod Laws
use dachs.Base.{
  ℕ, Bool, true, false, not, Option, none, some, List, [], ◌∷◌, ◌++◌, ◌==◌, length, any_of, ◌>>=◌,
  if◌then◌else◌, is_empty,
}
use dachs.Types.{AnyType, Store, is_known}
use dachs.Types.Equality.{type_eq}
use dachs.Types.Template.{is_template}
use dachs.Types.Instance.{is_instantiated_from}
use dachs.Types.Predicates.{get_unit_type}
use dachs.Ast.{Location}

pub data FuncKind : Type 0 where
  func : FuncKind
  proc : FuncKind

pub record Return : Type 0 where
  pub location : Location
  pub ret_type : AnyType

-- The members of `return_types_gatherer`
pub record Gathered : Type 0 where
  pub result_types : List AnyType
  pub failed_return_stmts : List Location

abbrev pub nothing_gathered : Gathered
nothing_gathered = record { result_types = []; failed_return_stmts = [] }

-- `visit(return_stmt)`
abbrev pub gather : Return → Gathered → Gathered
gather r g =
    if is_known r.ret_type
    then record g { result_types = g.result_types ++ r.ret_type ∷ [] }
    else record g { failed_return_stmts = g.failed_return_stmts ++ r.location ∷ [] }

unfoldable pub gather_all : List Return → Gathered → Gathered
gather_all [] g = g
gather_all (r ∷ rs) g = gather_all rs (gather r g)

pub data ReturnError : Type 0 where
  cannot_deduce : Location → ReturnError
  proc_returns_value : ReturnError
  mismatch_among_returns : ReturnError
  cannot_instantiate : AnyType → ReturnError
  mismatch_with_specified : AnyType → ReturnError

-- `deduced t` means that `t` becomes the `ret_type` of the function and of its scope.
pub data Deduced : Type 0 where
  deduced : AnyType → Deduced
  failed : ReturnError → Deduced

abbrev pub not_equal : Store → ℕ → AnyType → AnyType → Option Bool
not_equal S fuel l r = do b ← type_eq S fuel l r; some (not b)

-- The condition of the error of a `proc`, where `first` is the first of the types
unfoldable pub returns_value : Store → ℕ → FuncKind → AnyType → List AnyType → Option Bool
returns_value S fuel func first rest = some false
returns_value S fuel proc first [] = not_equal S fuel first get_unit_type
returns_value S fuel proc first (t ∷ rest) = some true

abbrev pub check_instance : Store → ℕ → AnyType → AnyType → Bool → Option Deduced
check_instance S fuel ret t true = do
  b ← is_instantiated_from S fuel t ret
  some (if b then deduced t else failed (cannot_instantiate t))
check_instance S fuel ret t false = do
  b ← type_eq S fuel ret t
  some (if b then deduced t else failed (mismatch_with_specified t))

-- The tests on the type that the source specifies
unfoldable pub check_specified : Store → ℕ → Option AnyType → AnyType → Option Deduced
unfolding type_eq is_template is_instantiated_from
check_specified S fuel none t = some (deduced t)
check_specified S fuel (some ret) t = do b ← is_template S fuel ret; check_instance S fuel ret t b

abbrev pub unless : Bool → ReturnError → Option Deduced → Option Deduced
unless true e next = some (failed e)
unless false e next = next

unfoldable pub deduce_from :
    Store → ℕ → FuncKind → Option AnyType → AnyType → List AnyType → Option Deduced
unfolding returns_value check_specified
deduce_from S fuel kind specified first rest = do
  value ← returns_value S fuel kind first rest
  unless value proc_returns_value (do
    differ ← any_of (λ t. not_equal S fuel first t) (first ∷ rest)
    unless differ mismatch_among_returns (check_specified S fuel specified first))

-- The branch without a return statement
unfoldable pub deduce_unit : Store → ℕ → Option AnyType → Option Deduced
unfolding type_eq
deduce_unit S fuel none = some (deduced get_unit_type)
deduce_unit S fuel (some ret) = do
  b ← type_eq S fuel ret get_unit_type
  some (if b then deduced get_unit_type else failed (mismatch_with_specified get_unit_type))

abbrev pub deduce_gathered :
    Store → ℕ → FuncKind → Option AnyType → List AnyType → List Location → Option Deduced
deduce_gathered S fuel kind specified ts (at ∷ ats) = some (failed (cannot_deduce at))
deduce_gathered S fuel kind specified (t ∷ ts) [] = deduce_from S fuel kind specified t ts
deduce_gathered S fuel kind specified [] [] = deduce_unit S fuel specified

unfoldable pub deduce_return_type :
    Store → ℕ → FuncKind → Option AnyType → List Return → Option Deduced
unfolding gather_all deduce_from deduce_unit
deduce_return_type S fuel kind specified returns =
    let g = gather_all returns nothing_gathered in
    deduce_gathered S fuel kind specified g.result_types g.failed_return_stmts
