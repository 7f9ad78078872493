-- ===== src/Analyzer/Literals.antt =====
-- Literals in src/dachs/semantics/analyzer.cpp: their types, and the classes that those of arrays
-- and strings construct.
pub mod Lengths
pub mod Laws
use dachs.Base.{
  ℕ, String, Bool, true, false, not, ◌++◌, Option, none, some, List, [], ◌∷◌, length, ◌==◌, any_of,
  and_then, ◌>>=◌, ◌>>◌, require, if◌then◌else◌,
}
use dachs.Types.{
  AnyType, is_known, class_type, tuple_type, array_type, pointer_type, nil, from_list, ClassScope,
  FuncScope, Store, lock,
}
use dachs.Types.Equality.{type_eq}
use dachs.Types.Template.{is_template}
use dachs.Types.Predicates.{get_builtin_type, get_array_underlying_type, is_string_class}
use dachs.Scope.{Scope, resolve_class_by_name}
use dachs.Ast.{Literal, char_value, double_value, bool_value, int_value, uint_value}
use dachs.Analyzer.Calls.{Definitions}
use dachs.Analyzer.Copies.{Copiers, resolve_deep_copy}

-- `visit(primary_literal)`: the name of the builtin type
abbrev pub selector : Literal → String
selector (char_value c) = "char"
selector (double_value d) = "float"
selector (bool_value b) = "bool"
selector (int_value i) = "int"
selector (uint_value n) = "uint"

unfoldable pub visit_primary_literal : Literal → Option AnyType
unfolding get_builtin_type
visit_primary_literal v = get_builtin_type (selector v)

unfoldable pub visit_symbol_literal : Option AnyType
unfolding get_builtin_type
visit_symbol_literal = get_builtin_type "symbol"

-- `visit(tuple_literal)`: the type, and whether the error about a tuple of one element is reported
unfoldable pub visit_tuple_literal : List AnyType → AnyType × Bool
visit_tuple_literal types = (tuple_type (from_list types), length types == 1)

-- What `visit_class_construct_impl` gives: the class with its type and the constructor, or an
-- error.
pub data Construction : Type 0 where
  constructs : ℕ → AnyType → FuncScope → Construction
  construction_failed : Construction

pub data LiteralError : Type 0 where
  not_typed : LiteralError
  typed_with_template : LiteralError
  invalid_type : AnyType → LiteralError
  element_types_differ : AnyType → LiteralError
  lengths_differ : LiteralError
  some_have_length : LiteralError
  -- the error of the construction, and the one that says where it is
  while_constructing : LiteralError

-- A literal that constructs a class: its type before the visit or after it, and what is set
pub record ClassLiteral : Type 0 where
  pub type_of_literal : AnyType
  pub constructed_class_scope : Option ℕ
  pub callee_ctor_scope : Option FuncScope

-- The literal, the copiers and their errors, and the literal's own error
abbrev pub LiteralOutcome : Type 0
LiteralOutcome = ClassLiteral × Copiers × Option LiteralError

abbrev pub constructed : ℕ → AnyType → FuncScope → ClassLiteral
constructed ref t ctor = record {
  type_of_literal = t;
  constructed_class_scope = some ref;
  callee_ctor_scope = some ctor;
}

-- The `size` of an array type. Other types, and arrays whose size is not known, are read past
-- an optional that is empty.
abbrev pub size_of : AnyType → Option ℕ
size_of (array_type t n) = n
size_of t = none

-- `knows_size`, which converts the size itself
abbrev pub knows_size : AnyType → Option Bool
knows_size t = do n ← size_of t; some (not (n == 0))

-- `all_of`: stops at the first element that fails
abbrev pub all_know : List AnyType → Option Bool
all_know [] = some true
all_know (t ∷ ts) = and_then (knows_size t) (all_know ts)

abbrev pub differs_from : ℕ → AnyType → Option Bool
differs_from size t = do n ← size_of t; some (not (n == size))

abbrev pub check_sizes : Bool → AnyType → List AnyType → Option (Option LiteralError)
check_sizes true arg0_type types = do
  arg0_size ← size_of arg0_type
  differ ← any_of (differs_from arg0_size) types
  some (if differ then some lengths_differ else none)
check_sizes false arg0_type types = do
  known ← any_of knows_size types
  some (if known then some some_have_length else none)

abbrev pub is_array : AnyType → Bool
is_array (array_type t n) = true
is_array t = false

-- The check of the lengths of elements that are arrays
unfoldable pub check_lengths : AnyType → List AnyType → Option (Option LiteralError)
check_lengths arg0_type types = elim (is_array arg0_type) [
  | true ↦ (do all ← all_know types; check_sizes all arg0_type types)
  | false ↦ some none
]

abbrev pub type_differs : Store → ℕ → AnyType → AnyType → Option Bool
type_differs S fuel arg0_type t = do same ← type_eq S fuel arg0_type t; some (not same)

module _ (S : Store) (fuel depth : ℕ) (current_scope : Scope) (defs : Definitions)
    (visit_class_construct_impl : ℕ → List AnyType → Option Construction) where
  abbrev pub after_construction :
      AnyType → ClassLiteral → Copiers → Construction → Option LiteralOutcome
  after_construction elem_type lit st construction_failed = some (lit, st, some while_constructing)
  after_construction elem_type lit st (constructs ref t ctor) = do
    (success, st') ← resolve_deep_copy S fuel current_scope defs depth elem_type st
    some (constructed ref t ctor, st', none)

  -- The class of a name, the assertion that there is one, and its own type
  unfoldable pub class_named : String → Option (ℕ × AnyType)
  unfolding resolve_class_by_name
  class_named name = do
    found ← resolve_class_by_name S name current_scope
    ref ← found
    clazz ← lock S ref
    some (ref, class_type clazz.name ref nil)

  unfoldable pub visit_array_literal_construction :
      AnyType → ClassLiteral → Copiers → Option LiteralOutcome
  unfolding class_named is_template get_builtin_type resolve_deep_copy
  visit_array_literal_construction elem_type lit st = do
    (ref, t) ← class_named "array"
    template ← is_template S fuel t
    require template
    uint ← get_builtin_type "uint"
    made ← visit_class_construct_impl ref (t ∷ pointer_type elem_type ∷ uint ∷ [])
    after_construction elem_type lit st made

  -- The literal without elements, whose type is that of a `:` around it
  unfoldable pub visit_empty_array : ClassLiteral → Copiers → Option LiteralOutcome
  unfolding visit_array_literal_construction get_array_underlying_type
  visit_empty_array lit st = elim (is_known lit.type_of_literal) [
    | false ↦ some (lit, st, some not_typed)
    | true ↦ (do
      template ← is_template S fuel lit.type_of_literal
      elim template [
        | true ↦ some (lit, st, some typed_with_template)
        | false ↦ elim (get_array_underlying_type S lit.type_of_literal) [
          | some (pointer_type t) ↦ visit_array_literal_construction t lit st
          | _ ↦ some (lit, st, some (invalid_type lit.type_of_literal))
        ]
      ])
  ]

  abbrev pub after_lengths :
      AnyType → ClassLiteral → Copiers → Option LiteralError → Option LiteralOutcome
  after_lengths arg0_type lit st (some e) = some (lit, st, some e)
  after_lengths arg0_type lit st none = visit_array_literal_construction arg0_type lit st

  -- `visit(array_literal)`, after the walk over the elements, whose types are given
  unfoldable pub visit_array_literal : List AnyType → ClassLiteral → Copiers → Option LiteralOutcome
  unfolding visit_empty_array visit_array_literal_construction type_eq check_lengths
  visit_array_literal [] lit st = visit_empty_array lit st
  visit_array_literal (t ∷ ts) lit st = do
    differ ← any_of (type_differs S fuel t) (t ∷ ts)
    elim differ [
      | true ↦ some (lit, st, some (element_types_differ t))
      | false ↦ (do e ← check_lengths t (t ∷ ts); after_lengths t lit st e)
    ]

  -- `visit(string_literal)`
  unfoldable pub visit_string_literal : ClassLiteral → Option (ClassLiteral × Option LiteralError)
  unfolding class_named get_builtin_type is_string_class
  visit_string_literal lit = do
    (ref, t) ← class_named "string"
    char ← get_builtin_type "char"
    uint ← get_builtin_type "uint"
    made ← visit_class_construct_impl ref (t ∷ pointer_type char ∷ uint ∷ [])
    elim made [
      | construction_failed ↦ some (lit, some while_constructing)
      | constructs c u ctor ↦ (do require (is_string_class u); some (constructed c u ctor, none))
    ]
