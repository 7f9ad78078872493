-- ===== src/Types/Node.antt =====
-- src/dachs/ast/ast.hpp and src/dachs/semantics/type.cpp: the nodes of the syntax tree that
-- stand for types, and `to_ast`, by `type_to_node_translator`. Locations are left out.
use dachs.Base.{
  ℕ, zero, suc, String, Bool, false, Option, none, some, List, [], ◌∷◌, ◌>>=◌, get_elem?,
}
use dachs.Types.{
  AnyType, empty, builtin_type, class_type, tuple_type, func_type, generic_func_type, array_type,
  pointer_type, qualified_type, template_type, to_list, to_option, Qualifier, FuncScope,
}
use dachs.Types.Equality.{var_types}

-- An array or a pointer without its type is told by the identity of its node, an expression by
-- its own.
mutual
  pub data Node : Type 0 where
    qualified_node : Qualifier → Node → Node
    tuple_node : Nodes → Node
    func_node : Nodes → MaybeNode → Bool → Node
    array_node : Node → Node
    any_array_node : ℕ → Node
    dict_node : Node → Node → Node
    pointer_node : Node → Node
    any_pointer_node : ℕ → Node
    typeof_node : ℕ → Node
    primary_node : String → Nodes → Node

  pub data Nodes : Type 0 where
    no_nodes : Nodes
    node_cons : Node → Nodes → Nodes

  pub data MaybeNode : Type 0 where
    no_node : MaybeNode
    the_node : Node → MaybeNode

-- The loops over a vector of types
abbrev pub each_node : (AnyType → Option Node) → List AnyType → Option Nodes
each_node rec [] = some no_nodes
each_node rec (t ∷ ts) = do n ← rec t; ns ← each_node rec ts; some (node_cons n ns)

abbrev pub func_to_node : (AnyType → Option Node) → List AnyType → Option AnyType → Option Node
func_to_node rec ps none = do ns ← each_node rec ps; some (func_node ns no_node false)
func_to_node rec ps (some r) = do
  ns ← each_node rec ps
  n ← rec r
  some (func_node ns (the_node n) false)

-- The `operator()` of each kind, `rec` for `apply_recursively`. A template fails an assertion;
-- so does a generic function type without a function.
abbrev pub to_node_step : List FuncScope → (AnyType → Option Node) → AnyType → Option Node
to_node_step F rec empty = none
to_node_step F rec (builtin_type n) = some (primary_node n no_nodes)
to_node_step F rec (class_type n ref ps) = do
  ns ← each_node rec (to_list ps)
  some (primary_node n ns)
to_node_step F rec (tuple_type ts) = do ns ← each_node rec (to_list ts); some (tuple_node ns)
to_node_step F rec (func_type ps r b) = func_to_node rec (to_list ps) (to_option r)
to_node_step F rec (generic_func_type none) = none
to_node_step F rec (generic_func_type (some ref)) = do
  scope ← get_elem? F ref
  func_to_node rec (var_types scope.params) scope.ret_type
to_node_step F rec (array_type t size) = do n ← rec t; some (array_node n)
to_node_step F rec (pointer_type t) = do n ← rec t; some (pointer_node n)
to_node_step F rec (qualified_type q t) = do n ← rec t; some (qualified_node q n)
to_node_step F rec (template_type a) = none

-- `to_ast`, in a store of functions. The fuel bounds the depth of the calls.
unfoldable pub to_ast : List FuncScope → ℕ → AnyType → Option Node
to_ast F zero t = none
to_ast F (suc fuel) t = to_node_step F (to_ast F fuel) t
