-- ===== src/Analyzer/Initialize.antt =====
-- Initializations of variables in src/dachs/semantics/analyzer.cpp.
pub mod Accepts
pub mod Infers
pub mod Laws
use dachs.Base.{
  ℕ, String, str_eq, Bool, true, false, not, ◌&&◌, ◌||◌, ◌++◌, Option, none, some, List, [], ◌∷◌,
  all_b, any_b, length, set, map, is_empty, or_else, ◌==◌, ◌>>=◌, ◌>>◌, require, if◌then◌else◌,
}
use dachs.Types.{
  AnyType, is_known, is_template_type, class_type, tuple_type, array_type, pointer_type, Types,
  to_list, from_list, VarSymbol, ClassScope, FuncScope, Store, lock,
}
use dachs.Types.Equality.{type_eq}
use dachs.Types.Instance.{is_instantiated_from}
use dachs.Scope.{Scope, resolve_instance_var}
use dachs.Analyzer.Calls.{Definitions}
use dachs.Analyzer.Copies.{CopierMap, CopyError, resolve_deep_copy}

-- A declaration: the type of its symbol, if there is one, and for `@name` the name of the
-- instance variable.
pub record VarDecl : Type 0 where
  pub name : String
  pub symbol_type : Option AnyType
  pub instance_name : Option String

pub data InitError : Type 0 where
  copy_failed : List CopyError → InitError
  init_mismatch : VarDecl → AnyType → InitError
  not_tuple : AnyType → InitError
  size_mismatch : ℕ → ℕ → InitError

-- The classes, the copiers that are resolved, and the errors
pub record InitState : Type 0 where
  pub store : Store
  pub copiers : CopierMap
  pub errors : List InitError

abbrev pub add_error : InitError → InitState → InitState
add_error e st = record st { errors = st.errors ++ e ∷ [] }

-- The tests of `substitute_type` on the type of the symbol and that of the value
unfoldable pub accepts_parts : Store → ℕ → AnyType → AnyType → Option Bool
unfolding type_eq is_instantiated_from
accepts_parts S fuel (class_type n ref ps) t = is_instantiated_from S fuel t (class_type n ref ps)
accepts_parts S fuel (array_type u n) (array_type t m) =
    or_else (is_instantiated_from S fuel (array_type t m) (array_type u n)) (type_eq S fuel u t)
accepts_parts S fuel (pointer_type u) (pointer_type t) =
    or_else (is_instantiated_from S fuel (pointer_type u) (pointer_type t)) (type_eq S fuel u t)
accepts_parts S fuel u t = some false

unfoldable pub accepts : Store → ℕ → AnyType → AnyType → Option Bool
unfolding accepts_parts type_eq
accepts S fuel u t = elim (is_known u) [
  | false ↦ some true
  | true ↦ (do
    same ← type_eq S fuel u t
    elim same [ true ↦ some true | false ↦ accepts_parts S fuel u t ])
]

-- The first variable of the name gets the type.
abbrev pub retype : String → AnyType → List VarSymbol → List VarSymbol
retype name t [] = []
retype name t (v ∷ vs) =
    if str_eq v.name name then record v { ty = t } ∷ vs else v ∷ retype name t vs

abbrev pub set_var_type : Store → ℕ → ClassScope → String → AnyType → Store
set_var_type S ref c name t =
    set S ref (record c { instance_var_symbols = retype name t c.instance_var_symbols })

-- The instance variable of the receiver takes the type of the value, if its own is a template.
unfoldable pub infer_instance_var :
    Store → Option (ℕ × Types) → Option String → AnyType → Option Store
infer_instance_var S receiver none t = some S
infer_instance_var S none (some name) t = none
infer_instance_var S (some (ref, params)) (some name) t = do
  c ← lock S ref
  v ← resolve_instance_var name c
  elim (is_template_type v.ty) [
    | false ↦ some S
    | true ↦ (do require (is_empty (to_list params)); some (set_var_type S ref c name t))
  ]

-- `fuel` and `depth` as in `type_eq` and `resolve_deep_copy`; `receiver` is the class of the
-- receiver of the constructor that is around, with its parameters.
module _ (fuel depth : ℕ) (current_scope : Scope) (defs : Definitions)
    (receiver : Option (ℕ × Types)) where
  abbrev pub Initialized : Type 0
  Initialized = VarDecl × InitState

  -- The comparison, and the type that the symbol gets
  unfoldable pub set_symbol_type : VarDecl → AnyType → AnyType → InitState → Option Initialized
  unfolding accepts
  set_symbol_type decl u t st = do
    ok ← accepts st.store fuel u t
    some (
        if ok
        then (record decl { symbol_type = some t }, st)
        else (decl, add_error (init_mismatch decl t) st))

  -- The lambda `substitute_type`
  unfoldable pub substitute_type : VarDecl → AnyType → InitState → Option Initialized
  unfolding infer_instance_var set_symbol_type resolve_deep_copy
  substitute_type decl t st = elim decl.symbol_type [
    | none ↦ (do require (str_eq decl.name "_"); some (decl, st))
    | some u ↦ (do
      S ← infer_instance_var st.store receiver decl.instance_name t
      (success, copies) ←
          resolve_deep_copy S fuel current_scope defs depth t
            (record { copiers = st.copiers; errors = [] })
      elim success [
        | false ↦ some (
          decl,
          add_error (copy_failed copies.errors) (record st { store = S; copiers = copies.copiers }),
        )
        | true ↦ set_symbol_type decl u t (record st { store = S; copiers = copies.copiers })
      ])
  ]

  abbrev pub AllInitialized : Type 0
  AllInitialized = List VarDecl × InitState

  unfoldable pub substitute_each : List VarDecl → List AnyType → InitState → Option AllInitialized
  unfolding substitute_type
  substitute_each [] [] st = some ([], st)
  substitute_each (decl ∷ decls) (t ∷ ts) st = do
    (decl', st') ← substitute_type decl t st
    (decls', st'') ← substitute_each decls ts st'
    some (decl' ∷ decls', st'')
  substitute_each decls ts st = none

  -- Several declarations and as many values
  abbrev pub substitute_sized : List VarDecl → List AnyType → InitState → Option AllInitialized
  substitute_sized decls ts st =
      if length decls == length ts
      then substitute_each decls ts st
      else some (decls, add_error (size_mismatch (length decls) (length ts)) st)

  -- Several declarations and one value, which must be a tuple
  abbrev pub substitute_tuple : List VarDecl → AnyType → InitState → Option AllInitialized
  substitute_tuple decls (tuple_type ts) st = substitute_sized decls (to_list ts) st
  substitute_tuple decls t st = some (decls, add_error (not_tuple t) st)

  -- The types of the values against the declarations, by their numbers
  unfoldable pub substitute_all : List VarDecl → List AnyType → InitState → Option AllInitialized
  unfolding substitute_each
  substitute_all [] ts st = none
  substitute_all (decl ∷ decls) [] st = none
  substitute_all (decl ∷ []) (t ∷ []) st = substitute_each (decl ∷ []) (t ∷ []) st
  substitute_all (decl ∷ []) (t ∷ u ∷ ts) st =
      substitute_each (decl ∷ []) (tuple_type (from_list (t ∷ u ∷ ts)) ∷ []) st
  substitute_all (decl ∷ decl' ∷ decls) (t ∷ []) st = substitute_tuple (decl ∷ decl' ∷ decls) t st
  substitute_all (decl ∷ decl' ∷ decls) (t ∷ u ∷ ts) st =
      substitute_sized (decl ∷ decl' ∷ decls) (t ∷ u ∷ ts) st

  abbrev pub is_undefined : VarDecl → Bool
  is_undefined decl =
      not (str_eq decl.name "_") && elim decl.symbol_type [ none ↦ true | some t ↦ false ]

  -- `visit(initialize_stmt)` with values, after the walk over them
  unfoldable pub visit_initialize : List VarDecl → List AnyType → InitState → Option AllInitialized
  unfolding substitute_all
  visit_initialize decls rhs_types st = elim (all_b is_known rhs_types) [
    | false ↦ some (decls, st)
    | true ↦ elim (any_b is_undefined decls) [
      | true ↦ some (decls, st)
      | false ↦ substitute_all decls rhs_types st
    ]
  ]
