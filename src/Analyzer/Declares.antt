-- ===== src/Analyzer/Declares.antt =====
-- Variables in src/dachs/semantics/analyzer.cpp: their declarations and the references to them.
pub mod Laws
pub mod Refers
use dachs.Base.{
  ℕ, String, str_eq, Bool, true, false, Option, none, some, List, [], ◌∷◌, or_else, not, ◌&&◌, ◌||◌,
  ◌>>=◌, ◌>>◌, require, if◌then◌else◌,
}
use dachs.Types.{
  AnyType, empty, is_known, class_type, generic_func_type, array_type, pointer_type, VarSymbol,
  FuncScope, Store, lock,
}
use dachs.Types.Equality.{type_eq}
use dachs.Types.Instance.{is_instantiated_from}
use dachs.Types.Predicates.{is_array_class, get_array_underlying_type}
use dachs.Scope.{
  Scope, global_scope, local_scope, func_scope, class_scope, get_enclosing_func,
  resolve_instance_var, resolve_var,
}
use dachs.Scope.Define.{Defined, define_global, define_local}
use dachs.Scope.Functions.{is_ctor}
use dachs.Lambda.{without_bang}

-- A declaration, with the name of the instance variable for `@name`, and the type that is written
-- as `from_type_node` gives it
pub record Declaration : Type 0 where
  pub id : ℕ
  pub name : String
  pub is_var : Bool
  pub instance_name : Option String
  pub maybe_type : Option AnyType

pub data DeclError : Type 0 where
  outside_ctor : String → DeclError
  not_defined : String → DeclError
  bad_type : DeclError
  defined_twice : DeclError

-- The symbol that is set, the scope after the visit, and the error, if there is one
pub record Declared : Type 0 where
  pub symbol : Option VarSymbol
  pub scope : Scope
  pub error : Option DeclError

-- `enclosing_ctor`
unfoldable pub enclosing_ctor : Scope → Option FuncScope
unfolding get_enclosing_func
enclosing_ctor s = do f ← get_enclosing_func s; if is_ctor f then some f else none

-- Whether the class of a constructor has the instance variable; the assertions on `self` are
-- the results `none`.
unfoldable pub has_instance_var : Store → List VarSymbol → String → Option Bool
has_instance_var S [] name = none
has_instance_var S (self ∷ params) name =
    if str_eq self.name "self"
    then (elim self.ty [
      | class_type n ref ps ↦ (do
        receiver_scope ← lock S ref
        some (elim (resolve_instance_var name receiver_scope) [ none ↦ false | some v ↦ true ]))
      | _ ↦ none
    ])
    else none

-- The symbol of a declaration
abbrev pub new_var : Declaration → VarSymbol
new_var decl = record {
  id = decl.id;
  name = decl.name;
  ty = elim decl.maybe_type [ none ↦ empty | some t ↦ t ];
  ast_node = some decl.id;
  is_builtin = false;
  immutable = elim decl.is_var [ true ↦ false | false ↦ true ];
  is_global = false;
  is_public = true;
}

abbrev pub has_bad_type : Option AnyType → Bool
has_bad_type none = false
has_bad_type (some t) = elim (is_known t) [ true ↦ false | false ↦ true ]

-- The checks of an instance variable; the inner `none` is passing.
unfoldable pub check_instance_var : Store → Scope → Declaration → Option (Option DeclError)
unfolding enclosing_ctor has_instance_var
check_instance_var S s decl = elim decl.instance_name [
  | none ↦ some none
  | some name ↦ elim (enclosing_ctor s) [
    | none ↦ some (some (outside_ctor decl.name))
    | some ctor ↦ (do
      has ← has_instance_var S ctor.params name
      some (if has then none else some (not_defined decl.name)))
  ]
]

-- `define_variable` of a global or local scope; other scopes raise an internal error, save classes,
-- which are not visited.
unfoldable pub define_variable : VarSymbol → Scope → Option Defined
unfolding define_global define_local
define_variable v (global_scope g) =
    let (g', done) = define_global v g in
    some (record { scope = global_scope g'; done = done; warning = none })
define_variable v (local_scope l outer) = some (define_local v l outer)
define_variable v (func_scope f outer) = none
define_variable v (class_scope c outer) = none

abbrev pub after_define : VarSymbol → Defined → Declared
after_define v d = record {
  symbol = some v;
  scope = d.scope;
  error = if d.done then none else some defined_twice;
}

-- The lambda `visit_decl`, once the checks of an instance variable are done
unfoldable pub declare : Scope → Declaration → Option DeclError → Option Declared
unfolding define_variable
declare s decl (some e) = some (record { symbol = none; scope = s; error = some e })
declare s decl none = elim (has_bad_type decl.maybe_type) [
  | true ↦ some (record { symbol = some (new_var decl); scope = s; error = some bad_type })
  | false ↦ (do d ← define_variable (new_var decl) s; some (after_define (new_var decl) d))
]

unfoldable pub visit_decl : Store → Scope → Declaration → Option Declared
unfolding check_instance_var declare
visit_decl S s decl = elim (str_eq decl.name "_") [
  | true ↦ some (record { symbol = none; scope = s; error = none })
  | false ↦ (do e ← check_instance_var S s decl; declare s decl e)
]

-- `visit(variable_decl)`, before the walk over the declaration
unfoldable pub visit_variable_decl : Store → Scope → Declaration → Option Declared
unfolding visit_decl
visit_variable_decl S (class_scope c outer) decl =
    some (record { symbol = none; scope = class_scope c outer; error = none })
visit_variable_decl S (func_scope f outer) decl = none
visit_variable_decl S (global_scope g) decl = visit_decl S (global_scope g) decl
visit_variable_decl S (local_scope l outer) decl = visit_decl S (local_scope l outer) decl

-- A reference, as it is written
pub record Reference : Type 0 where
  pub name : String
  pub is_lhs_of_assignment : Bool

-- The symbol and the type that are set, and whether the error is reported that there is none
pub record Referred : Type 0 where
  pub symbol : Option VarSymbol
  pub type_of_ref : AnyType
  pub is_not_found : Bool

abbrev pub not_referred : Bool → Referred
not_referred b = record { symbol = none; type_of_ref = empty; is_not_found = b }

-- The type object of its own that a reference to a function gets, and the assertions on the
-- function's type
abbrev pub copy_func_type : AnyType → Option AnyType
copy_func_type (generic_func_type (some ref)) = some (generic_func_type (some ref))
copy_func_type t = none

-- `is_func` says which nodes of the syntax tree are definitions of functions.
abbrev pub should_copy_deeply : (ℕ → Bool) → VarSymbol → Bool
should_copy_deeply is_func s =
    s.is_builtin || elim s.ast_node [ none ↦ false | some node ↦ is_func node ]

abbrev pub refer : (ℕ → Bool) → VarSymbol → Option Referred
refer is_func s = do
  t ← elim (should_copy_deeply is_func s) [ true ↦ copy_func_type s.ty | false ↦ some s.ty ]
  some (record { symbol = some s; type_of_ref = t; is_not_found = false })

-- `visit(var_ref)`, which has no children to walk over
unfoldable pub visit_var_ref : (ℕ → Bool) → Scope → Reference → Option Referred
unfolding resolve_var
visit_var_ref is_func s r = do
  require (not (str_eq r.name ""))
  elim (r.is_lhs_of_assignment && str_eq r.name "_") [
    | true ↦ some (not_referred false)
    | false ↦ elim (resolve_var (without_bang r.name) s) [
      | none ↦ some (not_referred true)
      | some v ↦ refer is_func v
    ]
  ]
