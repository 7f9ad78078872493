-- ===== src/Scope/TypeFromAst/RoundTrip.antt =====
-- `to_ast` of src/dachs/semantics/type.cpp, and `from_ast` back.
use dachs.Base.{ℕ, zero, suc, String, ◌≡◌, refl, true, false, Option, none, some, List, All, ◌>>=◌}
use dachs.Types.{
  AnyType, empty, builtin_type, class_type, tuple_type, func_type, generic_func_type, array_type,
  pointer_type, qualified_type, template_type, Types, nil, cons, to_list, no_type, the_type,
  FuncScope,
}
use dachs.Types.Predicates.{get_builtin_type}
use dachs.Types.Node.{
  Node, Nodes, to_ast, each_node, primary_node, tuple_node, func_node, array_node, pointer_node,
  qualified_node, no_nodes, node_cons, no_node, the_node,
}
use dachs.Scope.{resolve_class_by_name}
use dachs.Scope.Functions.Laws.{resolve_class_by_name-HasName}
use dachs.Scope.TypeFromAst.{Translator, from_node, from_nodes, from_ast, success}

-- The class that the name of a class type means in the scope is the one that the type is of.
pub record IsNamed (env : Translator) (name : String) (ref : ℕ) : Type 0 where
  pub not_builtin : get_builtin_type name ≡ none
  pub resolved : resolve_class_by_name env.store name env.current_scope ≡ some (some ref)

abbrev WritableStep : Translator → (AnyType → Type 0) → AnyType → Type 0
WritableStep env P (builtin_type n) = get_builtin_type n ≡ some (builtin_type n)
WritableStep env P (class_type n ref ps) = IsNamed env n ref × All P (to_list ps)
WritableStep env P (tuple_type ts) = All P (to_list ts)
WritableStep env P (func_type ps (the_type r) false) = All P (to_list ps) × P r
WritableStep env P (func_type ps no_type false) =
    All P (to_list ps) × (env.allow_omit_return ≡ true)
WritableStep env P (array_type t none) = P t
WritableStep env P (pointer_type t) = P t
WritableStep env P (qualified_type q t) = P t
WritableStep env P _ = ⊥

-- The type can be written in the scope, and is nested less deep than the number: it has no
-- template, no generic function and no array with a size, and the names of its classes mean them.
abbrev pub Writable : Translator → ℕ → AnyType → Type 0
Writable env zero t = ⊥
Writable env (suc h) t = WritableStep env (Writable env h) t

-- A node that the type is written as, and that is read as the type.
record RoundTrips (F : List FuncScope) (env : Translator) (h : ℕ) (t : AnyType) : Type 0 where
  node : Node
  written : to_ast F h t ≡ some node
  read : (failed : Option String) → from_node env node failed ≡ some (t, failed)

record AllRoundTrip (F : List FuncScope) (env : Translator) (h : ℕ) (ts : Types) : Type 0 where
  nodes : Nodes
  all_written : each_node (to_ast F h) (to_list ts) ≡ some nodes
  all_read : (failed : Option String) → from_nodes env nodes failed ≡ some (ts, failed)

module _ (F : List FuncScope) (env : Translator) where
  all_round_trip :
      (h : ℕ)
      → ((t : AnyType) → Writable env h t → RoundTrips F env h t)
      → (ts : Types) → All (Writable env h) (to_list ts)
      → AllRoundTrip F env h ts
  unfolding from_node
  all_round_trip h ih nil w = record { nodes = no_nodes; all_written = refl; all_read = λ _. refl }
  all_round_trip h ih (cons t ts) w =
      let one = ih t w.0 in
      let rest = all_round_trip h ih ts w.1 in
      record {
        nodes = node_cons one.node rest.nodes;
        all_written = rw (one.written, rest.all_written) refl;
        all_read = λ failed. rw (one.read failed, rest.all_read failed) refl;
      }

  round_trip : (h : ℕ) (t : AnyType) → Writable env h t → RoundTrips F env h t
  unfolding from_node to_ast
  round_trip zero t w = absurd w
  round_trip (suc h) (builtin_type n) w = record {
    node = primary_node n no_nodes;
    written = refl;
    read = λ failed. rw w refl;
  }
  round_trip (suc h) (class_type n ref ps) w =
      let ns = all_round_trip h (round_trip h) ps w.1 in
      let named = w.0 in
      let c = resolve_class_by_name-HasName env.store n env.current_scope ref named.resolved in
      record {
        node = primary_node n ns.nodes;
        written = rw ns.all_written refl;
        read = λ failed.
            rw (named.not_builtin, named.resolved, c.found, ns.all_read failed, c.same_name) refl;
      }
  round_trip (suc h) (tuple_type ts) w =
      let ns = all_round_trip h (round_trip h) ts w in
      record {
        node = tuple_node ns.nodes;
        written = rw ns.all_written refl;
        read = λ failed. rw (ns.all_read failed) refl;
      }
  round_trip (suc h) (func_type ps no_type false) w =
      let ns = all_round_trip h (round_trip h) ps w.0 in
      record {
        node = func_node ns.nodes no_node false;
        written = rw ns.all_written refl;
        read = λ failed. rw (ns.all_read failed, w.1) refl;
      }
  round_trip (suc h) (func_type ps (the_type r) false) w =
      let ns = all_round_trip h (round_trip h) ps w.0 in
      let one = round_trip h r w.1 in
      record {
        node = func_node ns.nodes (the_node one.node) false;
        written = rw (ns.all_written, one.written) refl;
        read = λ failed. rw (ns.all_read failed, one.read failed) refl;
      }
  round_trip (suc h) (array_type t none) w =
      let one = round_trip h t w in
      record {
        node = array_node one.node;
        written = rw one.written refl;
        read = λ failed. rw (one.read failed) refl;
      }
  round_trip (suc h) (pointer_type t) w =
      let one = round_trip h t w in
      record {
        node = pointer_node one.node;
        written = rw one.written refl;
        read = λ failed. rw (one.read failed) refl;
      }
  round_trip (suc h) (qualified_type q t) w =
      let one = round_trip h t w in
      record {
        node = qualified_node q one.node;
        written = rw one.written refl;
        read = λ failed. rw (one.read failed) refl;
      }
  round_trip (suc h) empty w = absurd w
  round_trip (suc h) (generic_func_type r) w = absurd w
  round_trip (suc h) (template_type a) w = absurd w
  round_trip (suc h) (array_type t (some n)) w = absurd w
  round_trip (suc h) (func_type ps no_type true) w = absurd w
  round_trip (suc h) (func_type ps (the_type r) true) w = absurd w

-- A type that can be written in a scope, in the sense of `Writable`, has a node, and the node
-- is read in that scope as the same type.
pub from_ast-to_ast :
    (F : List FuncScope) (env : Translator) (h : ℕ) (t : AnyType)
    → Writable env h t
    → (to_ast F h t >>= from_ast env) ≡ some (success t)
unfolding from_ast
from_ast-to_ast F env h t w =
    let trip = round_trip F env h t w in rw (trip.written, trip.read none) refl
