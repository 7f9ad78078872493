-- ===== src/Analyzer/Functions.antt =====
-- The visit of function definitions in src/dachs/semantics/analyzer.cpp.
pub mod Laws
use dachs.Base.{
  ℕ, Bool, true, false, not, ◌&&◌, ◌||◌, ◌++◌, Option, none, some, List, [], ◌∷◌, any_of, filterb,
  map, is_empty, ◌>>=◌, ◌>>◌, require, if◌then◌else◌,
}
use dachs.Types.{AnyType, is_known, class_type, VarSymbol, FuncScope, Store}
use dachs.Types.Equality.{type_eq}
use dachs.Types.Predicates.{get_builtin_type, get_unit_type}
use dachs.Scope.Functions.{func_is_template, is_ctor, is_copier}
use dachs.Ast.{Location, Block}
use dachs.ConstFunc.{Consts, Member, set_const, check_const}
use dachs.Analyzer.Blocks.{check_unterminated_block}
use dachs.Analyzer.Returns.{
  FuncKind, func, proc, Return, ReturnError, deduced, failed, Deduced, not_equal,
  deduce_return_type,
}

-- A definition with its scope. `index` is the place of the function among the members that
-- `check_const` reads, `is_query` says whether its name has a `?`, and the returns are those
-- of its body, in the order of the walk.
pub record FunctionDef : Type 0 where
  pub index : ℕ
  pub scope : FuncScope
  pub kind : FuncKind
  pub ret_type : Option AnyType
  pub is_query : Bool
  pub body : Block
  pub returns : List Return

pub data FuncError : Type 0 where
  query_procedure : FuncError
  bad_return : ReturnError → FuncError
  unterminated_block : Location → FuncError
  query_not_bool : AnyType → FuncError
  bad_copier : AnyType → AnyType → FuncError
  cannot_deduce_recursion : FuncError
  conflicting_returns : List AnyType → FuncError

-- The definition, the functions that are known to be const, and the errors
pub record VisitedFunction : Type 0 where
  pub def : FunctionDef
  pub consts : Consts
  pub errors : List FuncError

abbrev pub set_ret_type : AnyType → FunctionDef → FunctionDef
set_ret_type t def = record def {
  ret_type = some t;
  scope = record def.scope { ret_type = some t };
}

abbrev pub unchanged : FunctionDef → Consts → List FuncError → VisitedFunction
unchanged def consts errors = record { def = def; consts = consts; errors = errors }

-- What comes before the walk: an error, the end of the visit, or the walk.
pub data Begun : Type 0 where
  stops : List FuncError → Begun
  walks : FunctionDef → Begun

abbrev pub is_proc : FuncKind → Bool
is_proc proc = true
is_proc func = false

abbrev pub with_ctor_type : FunctionDef → FunctionDef
with_ctor_type def = if is_ctor def.scope then set_ret_type get_unit_type def else def

unfoldable pub begin_function : Store → ℕ → FunctionDef → Option Begun
begin_function S fuel def = elim (is_proc def.kind && def.is_query) [
  | true ↦ some (stops (query_procedure ∷ []))
  | false ↦ (do
    template ← func_is_template S fuel def.scope
    some (if template then stops [] else walks (with_ctor_type def)))
]

-- The known types of `recursive_function_return_type_resolver`
abbrev pub known_types : List Return → List AnyType
known_types returns = filterb is_known (map (λ r. r.ret_type) returns)

abbrev pub has_ret_type : FunctionDef → Bool
has_ret_type def = elim def.ret_type [ none ↦ false | some t ↦ true ]

unfoldable pub resolve_recursion :
    Store → ℕ → FunctionDef → Consts → List AnyType → Option VisitedFunction
resolve_recursion S fuel def consts [] = some (unchanged def consts (cannot_deduce_recursion ∷ []))
resolve_recursion S fuel def consts (t ∷ ts) = do
  differ ← any_of (λ u. not_equal S fuel t u) (t ∷ ts)
  some (
      if differ
      then unchanged def consts (conflicting_returns (t ∷ ts) ∷ [])
      else unchanged (set_ret_type t def) consts [])

-- The visit of a function that was visited before
unfoldable pub revisit_function : Store → ℕ → FunctionDef → Consts → Option VisitedFunction
unfolding resolve_recursion
revisit_function S fuel def consts = do
  template ← func_is_template S fuel def.scope
  elim (has_ret_type def || is_proc def.kind || template) [
    | true ↦ some (unchanged def consts [])
    | false ↦ resolve_recursion S fuel def consts (known_types def.returns)
  ]

-- The two last tests, with their errors
unfoldable pub check_query : Store → ℕ → Bool → AnyType → Option (List FuncError)
unfolding type_eq get_builtin_type
check_query S fuel false t = some []
check_query S fuel true t = do
  bool ← get_builtin_type "bool"
  same ← type_eq S fuel t bool
  some (if same then [] else query_not_bool t ∷ [])

abbrev pub is_class_type : AnyType → Bool
is_class_type (class_type n ref ps) = true
is_class_type t = false

abbrev pub copier_param : List VarSymbol → Option AnyType
copier_param [] = none
copier_param (p ∷ ps) = some p.ty

unfoldable pub check_copier : Store → ℕ → FuncScope → AnyType → Option (List FuncError)
unfolding type_eq
check_copier S fuel f t = elim (is_copier f) [
  | false ↦ some []
  | true ↦ (do
    receiver ← copier_param f.params
    require (is_class_type receiver)
    same ← type_eq S fuel t receiver
    some (if same then [] else bad_copier receiver t ∷ []))
]

module _ (S : Store) (fuel : ℕ) (members : List Member) (depth : ℕ) where
  -- The last steps, on a definition that has its return type
  unfoldable pub finish_typed : FunctionDef → AnyType → Consts → Option VisitedFunction
  unfolding check_query check_copier check_const
  finish_typed def t consts = do
    queries ← check_query S fuel def.is_query t
    copies ← check_copier S fuel def.scope t
    (is_const, consts') ← check_const S fuel members depth def.index consts
    some (record {
      def = def;
      consts = set_const def.index is_const consts';
      errors = queries ++ copies;
    })

  abbrev pub unless_unterminated :
      FunctionDef → AnyType → Consts → Option Location → Option VisitedFunction
  unless_unterminated def t consts (some at) =
      some (unchanged def consts (unterminated_block at ∷ []))
  unless_unterminated def t consts none = finish_typed def t consts

  unfoldable pub after_deduction : FunctionDef → Consts → Deduced → Option VisitedFunction
  unfolding finish_typed check_unterminated_block
  after_deduction def consts (failed e) = some (unchanged def consts (bad_return e ∷ []))
  after_deduction def consts (deduced t) = do
    at ← check_unterminated_block S fuel t def.body
    unless_unterminated (set_ret_type t def) t consts at

  -- What comes after the walk
  unfoldable pub finish_function : FunctionDef → Consts → Option VisitedFunction
  unfolding after_deduction deduce_return_type
  finish_function def consts = do
    d ← deduce_return_type S fuel def.kind def.ret_type def.returns
    after_deduction def consts d
