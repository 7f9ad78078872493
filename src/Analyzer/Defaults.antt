-- ===== src/Analyzer/Defaults.antt =====
-- Initializations without values in src/dachs/semantics/analyzer.cpp.
pub mod Laws
use dachs.Base.{
  ℕ, String, Bool, true, false, not, ◌++◌, Option, none, some, List, [], ◌∷◌, is_empty, ◌>>=◌, ◌>>◌,
  require,
}
use dachs.Types.{AnyType, is_known, class_type, Types, to_list, VarSymbol, FuncScope, Store}
use dachs.Types.Template.{is_template}
use dachs.Scope.{Scope}
use dachs.Scope.Functions.{func_is_template}
use dachs.Scope.Members.{resolve_ctor, is_default_constructible}
use dachs.Analyzer.Calls.{Definitions, instance_of}
use dachs.Analyzer.Copies.{Copiers, resolve_deep_copy}

-- `object_construct`, as the default construction sets it
pub record ObjectConstruct : Type 0 where
  pub type_of_construct : AnyType
  pub constructed_class_scope : ℕ
  pub callee_ctor_scope : FuncScope

pub data DefaultError : Type 0 where
  not_deduced : String → DefaultError
  not_instantiated : AnyType → DefaultError
  not_constructible : String → AnyType → DefaultError
  not_generated : String → AnyType → DefaultError

-- A declaration: its name, and its symbol if that could be defined. The instantiation changes
-- the type object of the symbol, which is not kept here after the round.
pub record DefaultDecl : Type 0 where
  pub name : String
  pub symbol : Option VarSymbol

-- `maybe_rhs_exprs` of the statement, which has none before the visit; the copiers; the errors
pub record DefaultState : Type 0 where
  pub maybe_rhs_exprs : Option (List ObjectConstruct)
  pub copiers : Copiers
  pub errors : List DefaultError

abbrev pub add_default_error : DefaultError → DefaultState → DefaultState
add_default_error e st = record st { errors = st.errors ++ e ∷ [] }

-- A round of the loop that goes on, or returns
pub data DefaultRound : Type 0 where
  goes_on : DefaultState → DefaultRound
  returns_early : DefaultState → DefaultRound

-- The functions are those of the global scope. `instantiate_param_types` gives the type after
-- the instantiation of its class templates, unless that is an error.
module _ (S : Store) (fuel depth : ℕ) (functions : List FuncScope) (current_scope : Scope)
    (defs : Definitions) (instantiate_param_types : AnyType → Option (Option AnyType)) where
  -- The only constructor, or the instance of it, and the node; `none` inside for `nullptr`
  abbrev pub construct_with : AnyType → ℕ → List FuncScope → Option (Option ObjectConstruct)
  construct_with t ref (ctor ∷ []) = do
    template ← func_is_template S fuel ctor
    g ← instance_of S fuel current_scope defs template defs.instantiate ctor (t ∷ [])
    still ← func_is_template S fuel g
    require (not still)
    some (
        some
          (record { type_of_construct = t; constructed_class_scope = ref; callee_ctor_scope = g }))
  construct_with t ref ctors = some none

  unfoldable pub generate_default_construct_ast :
      AnyType → ℕ → Types → Option (Option ObjectConstruct)
  unfolding resolve_ctor is_template
  generate_default_construct_ast t ref params = do
    template ← is_template S fuel t
    require (not template)
    require (is_empty (to_list params))
    ctors ← resolve_ctor S fuel functions (t ∷ [])
    construct_with t ref ctors

  abbrev pub set_construct :
      DefaultDecl → AnyType → Option ObjectConstruct → DefaultState → Option DefaultState
  set_construct decl t none st = some (add_default_error (not_generated decl.name t) st)
  set_construct decl t (some construct) st = do
    (success, copiers) ← resolve_deep_copy S fuel current_scope defs depth t st.copiers
    some (record st { maybe_rhs_exprs = some (construct ∷ []); copiers = copiers })

  abbrev pub construct_class : DefaultDecl → AnyType → DefaultState → Option DefaultState
  construct_class decl (class_type n ref params) st = do
    made ← generate_default_construct_ast (class_type n ref params) ref params
    set_construct decl (class_type n ref params) made st
  construct_class decl t st = some st

  -- From the test of the type on
  unfoldable pub construct_default : DefaultDecl → AnyType → DefaultState → Option DefaultState
  unfolding is_default_constructible generate_default_construct_ast resolve_deep_copy
  construct_default decl t st = do
    constructible ← is_default_constructible S fuel functions t
    elim constructible [
      | false ↦ some (add_default_error (not_constructible decl.name t) st)
      | true ↦ construct_class decl t st
    ]

  abbrev pub default_typed :
      DefaultDecl → AnyType → Option AnyType → DefaultState → Option DefaultRound
  default_typed decl t none st = some (returns_early (add_default_error (not_instantiated t) st))
  default_typed decl t (some u) st = do st' ← construct_default decl u st; some (goes_on st')

  abbrev pub default_known : DefaultDecl → Bool → AnyType → DefaultState → Option DefaultRound
  default_known decl false t st =
      some (returns_early (add_default_error (not_deduced decl.name) st))
  default_known decl true t st = do
    instantiated ← instantiate_param_types t
    default_typed decl t instantiated st

  unfoldable pub default_one : DefaultDecl → DefaultState → Option DefaultRound
  unfolding construct_default
  default_one decl st = elim decl.symbol [
    | none ↦ some (returns_early st)
    | some v ↦ default_known decl (is_known v.ty) v.ty st
  ]

  -- The part of `visit(initialize_stmt)` for a statement without values
  unfoldable pub visit_default_initialize : List DefaultDecl → DefaultState → Option DefaultState
  unfolding default_one
  visit_default_initialize [] st = some st
  visit_default_initialize (decl ∷ decls) st = do
    r ← default_one decl st
    elim r [ returns_early st' ↦ some st' | goes_on st' ↦ visit_default_initialize decls st' ]
