-- ===== src/Types.antt =====
-- src/dachs/semantics/type.hpp, symbol.hpp, and the data members of scope.hpp: the types of the
-- language, the symbols, the scopes of functions and classes.
-- A `shared_ptr` to a scope is an index into a `Store`, since classes and types refer to one
-- another in cycles. An `any_type` whose pointer is null is `empty`.
pub mod Equality
pub mod Finite
pub mod Template
pub mod Instance
pub mod Predicates
pub mod Fuzzy
pub mod Node
use dachs.Base.{ℕ, String, Bool, true, false, Option, none, some, List, [], ◌∷◌, get_elem?}

pub data Qualifier : Type 0 where
  maybe : Qualifier

mutual
  pub data AnyType : Type 0 where
    empty : AnyType
    builtin_type : String → AnyType
    class_type : String → ℕ → Types → AnyType
    tuple_type : Types → AnyType
    func_type : Types → MaybeType → Bool → AnyType
    generic_func_type : Option ℕ → AnyType
    array_type : AnyType → Option ℕ → AnyType
    pointer_type : AnyType → AnyType
    qualified_type : Qualifier → AnyType → AnyType
    template_type : ℕ → AnyType

  -- `std::vector<any_type>`
  pub data Types : Type 0 where
    nil : Types
    cons : AnyType → Types → Types

  -- `boost::optional<any_type>`
  pub data MaybeType : Type 0 where
    no_type : MaybeType
    the_type : AnyType → MaybeType

abbrev pub to_list : Types → List AnyType
to_list nil = []
to_list (cons t ts) = t ∷ to_list ts

abbrev pub from_list : List AnyType → Types
from_list [] = nil
from_list (t ∷ ts) = cons t (from_list ts)

abbrev pub to_option : MaybeType → Option AnyType
to_option no_type = none
to_option (the_type t) = some t

-- `any_type::operator bool`
abbrev pub is_known : AnyType → Bool
is_known empty = false
is_known t = true

abbrev pub is_template_type : AnyType → Bool
is_template_type (template_type n) = true
is_template_type t = false

-- `var_symbol`, with the members of `basic_symbol`. `id` tells the shared objects apart.
pub record VarSymbol : Type 0 where
  pub id : ℕ
  pub name : String
  pub ty : AnyType
  pub ast_node : Option ℕ
  pub is_builtin : Bool
  pub immutable : Bool
  pub is_global : Bool
  pub is_public : Bool

-- `instantiated` is the member of the class definition, `def->instantiated`, as scopes.
pub record ClassScope : Type 0 where
  pub name : String
  pub instance_var_symbols : List VarSymbol
  pub instantiated : List ℕ

-- `id` tells the shared objects apart.
pub record FuncScope : Type 0 where
  pub id : ℕ
  pub name : String
  pub is_builtin : Bool
  pub params : List VarSymbol
  pub ret_type : Option AnyType
  pub is_member_func : Bool
  pub is_const_ : Option Bool

-- The class scopes that are alive, by their index.
abbrev pub Store : Type 0
Store = List ClassScope

-- `weak_ptr::lock`, on an index that is in use
abbrev pub lock : Store → ℕ → Option ClassScope
lock S ref = get_elem? S ref
