-- ===== src/Scope/TypeFromAst.antt =====
-- src/dachs/semantics/type_from_ast.hpp: the type that a node of the syntax tree stands for in a
-- scope. `none` stands for an exception, or a failed lookup of a shared object.
pub mod RoundTrip
use dachs.Base.{ℕ, String, Bool, true, false, if◌then◌else◌, Option, none, some, ◌>>=◌}
use dachs.Types.{
  AnyType, empty, class_type, tuple_type, func_type, array_type, pointer_type, qualified_type,
  template_type, Types, nil, cons, no_type, the_type, Store, lock,
}
use dachs.Types.Predicates.{get_builtin_type}
use dachs.Types.Node.{
  Node, Nodes, MaybeNode, qualified_node, tuple_node, func_node, array_node, any_array_node,
  dict_node, pointer_node, any_pointer_node, typeof_node, primary_node, no_nodes, node_cons,
  no_node, the_node,
}
use dachs.Overload.{is_set}
use dachs.Scope.{Scope, resolve_class_by_name}

-- What the translator holds: the scope, the analyzer if there is one, as the types that it gives
-- to expressions, and whether a return type may be left out.
pub record Translator : Type 0 where
  pub store : Store
  pub current_scope : Scope
  pub analyzer : Option (ℕ → AnyType)
  pub allow_omit_return : Bool

-- A name, with the class of that name, and the translated parameters.
abbrev pub from_class :
    Translator
    → String
    → Option ℕ
    → Option (Types × Option String)
    → Option (AnyType × Option String)
from_class env name none params = some (empty, some name)
from_class env name (some ref) params = do
  scope ← lock env.store ref
  (ts, failed) ← params
  some (class_type scope.name ref ts, failed)

-- A name, with the builtin type of that name.
abbrev pub from_primary :
    Translator
    → String
    → Option AnyType
    → Option String
    → Option (Types × Option String)
    → Option (AnyType × Option String)
from_primary env name (some builtin) failed params = some (builtin, failed)
from_primary env name none failed params = do
  c ← resolve_class_by_name env.store name env.current_scope
  from_class env name c params

-- `node_to_type_translator`, with its `failed_name` before and after.
unfoldable mutual
  pub from_node : Translator → Node → Option String → Option (AnyType × Option String)
  from_node env (primary_node name params) failed =
      from_primary env name (get_builtin_type name) failed (from_nodes env params failed)
  from_node env (array_node n) failed = do
    (t, failed') ← from_node env n failed
    some (array_type t none, failed')
  from_node env (any_array_node id) failed = some (array_type (template_type id) none, failed)
  from_node env (pointer_node n) failed = do
    (t, failed') ← from_node env n failed
    some (pointer_type t, failed')
  from_node env (any_pointer_node id) failed = some (pointer_type (template_type id), failed)
  from_node env (tuple_node ns) failed = do
    (ts, failed') ← from_nodes env ns failed
    some (tuple_type ts, failed')
  from_node env (qualified_node q n) failed = do
    (t, failed') ← from_node env n failed
    some (qualified_type q t, failed')
  from_node env (func_node ns ret missing) failed = do
    (ts, failed') ← from_nodes env ns failed
    elim missing [ true ↦ none | false ↦ from_func env ts ret failed' ]
  from_node env (typeof_node expr) failed = do
    type_of ← env.analyzer
    let t = type_of expr
    some (t, if is_set t then failed else some "invalid typeof() use")
  from_node env (dict_node k v) failed = none

  pub from_nodes : Translator → Nodes → Option String → Option (Types × Option String)
  from_nodes env no_nodes failed = some (nil, failed)
  from_nodes env (node_cons n ns) failed = do
    (t, failed₁) ← from_node env n failed
    (ts, failed₂) ← from_nodes env ns failed₁
    some (cons t ts, failed₂)

  -- The function type, with its parameters translated.
  pub from_func : Translator → Types → MaybeNode → Option String → Option (AnyType × Option String)
  from_func env ts no_node failed = some (
    func_type ts no_type false,
    if env.allow_omit_return then failed else some "function type missing return type",
  )
  from_func env ts (the_node n) failed = do
    (t, failed') ← from_node env n failed
    some (func_type ts (the_type t) false, failed')

-- `helper::probable`
pub data Probable : Type 0 where
  success : AnyType → Probable
  oops : String → Probable

-- `from_ast`
unfoldable pub from_ast : Translator → Node → Option Probable
unfolding from_node
from_ast env n = do
  (t, failed) ← from_node env n none
  some (elim failed [ none ↦ success t | some name ↦ oops name ])
