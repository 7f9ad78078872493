-- ===== src/Lambda.antt =====
-- src/dachs/semantics/lambda_capture_resolver.hpp: the variables that a lambda captures, their
-- places in the lambda's object, and the accesses that replace them.
pub mod Resolve
pub mod Layout
use Prim.Native.String.{slice, len}
use dachs.Base.{
  ℕ, suc, ◌-◌, String, str_eq, Bool, true, false, ◌||◌, Option, none, some, List, [], ◌∷◌, ◌++◌,
  any_b, ◌==◌, ◌>>=◌, ◌>>◌, require, if◌then◌else◌,
}
use dachs.Types.{
  AnyType, empty, Types, tuple_type, nil, to_list, from_list, VarSymbol, FuncScope, Store,
}
use dachs.Scope.{Scope, resolve_var}
use dachs.Scope.Capture.{is_captured}
use dachs.Scope.Define.{force_push_front_param}

-- A node in the body of a lambda: a reference, with its symbol or `none` where that is expired,
-- a block with its scope, another lambda with its receiver, or any other node with its children.
mutual
  pub data Tree : Type 0 where
    var_ref : String → Option VarSymbol → Tree
    block : Scope → Trees → Tree
    lambda_expr : Tree → Tree
    node : Trees → Tree

  pub data Trees : Type 0 where
    no_trees : Trees
    trees : Tree → Trees → Trees

-- An element of `captured_offset_map`. The member that is introduced is the one at `offset` of the
-- lambda's object; its name is made from the offset.
pub record Capture : Type 0 where
  pub offset : ℕ
  pub introduced_type : AnyType
  pub refered_symbol : VarSymbol

-- The members of `lambda_capture_resolver` that the walk changes; the latest capture is the first.
-- `sym_map` has the symbols by their `id`.
pub record Resolver : Type 0 where
  pub captures : List Capture
  pub offset : ℕ
  pub sym_map : List ℕ

abbrev pub no_captures : Resolver
no_captures = record { captures = []; offset = 0; sym_map = [] }

-- The name without a `!` at the end
abbrev pub without_bang : String → String
without_bang name =
    if str_eq (slice name (len name - 1) (len name)) "!" then slice name 0 (len name - 1) else name

unfoldable pub get_symbol_from_var : Scope → String → Option VarSymbol → Option VarSymbol
unfolding resolve_var
get_symbol_from_var current_scope name none = resolve_var (without_bang name) current_scope
get_symbol_from_var current_scope name (some s) = some s

-- `generate_invocation_from`, and the entry in `sym_map`
abbrev pub add_capture : VarSymbol → Resolver → Resolver
add_capture s r = record {
  captures = record { offset = r.offset; introduced_type = s.ty; refered_symbol = s } ∷ r.captures;
  offset = suc r.offset;
  sym_map = s.id ∷ r.sym_map;
}

abbrev pub add_if_captured : Bool → VarSymbol → Resolver → Resolver
add_if_captured captured s r =
    if captured then (if any_b (λ i. i == s.id) r.sym_map then r else add_capture s r) else r

module _ (S : Store) (fuel : ℕ) (lambda_scope : FuncScope) where
  -- `visit(var_ref)` with the symbol
  unfoldable pub visit_symbol : Scope → Option VarSymbol → Resolver → Option Resolver
  unfolding is_captured
  visit_symbol current_scope none r = some r
  visit_symbol current_scope (some s) r = elim (s.is_builtin || s.is_global) [
    | true ↦ some r
    | false ↦ (do
      captured ← is_captured S fuel s lambda_scope current_scope
      some (add_if_captured captured s r))
  ]

  unfoldable mutual
    unfolding visit_symbol get_symbol_from_var

    pub resolve : Scope → Tree → Resolver → Option Resolver
    resolve current_scope (var_ref name s) r =
        visit_symbol current_scope (get_symbol_from_var current_scope name s) r
    resolve current_scope (block scope ts) r = resolve_all scope ts r
    resolve current_scope (lambda_expr receiver) r = resolve current_scope receiver r
    resolve current_scope (node ts) r = resolve_all current_scope ts r

    pub resolve_all : Scope → Trees → Resolver → Option Resolver
    resolve_all current_scope no_trees r = some r
    resolve_all current_scope (trees t ts) r =
        resolve current_scope t r >>= λ r'. resolve_all current_scope ts r'

  -- `resolve_lambda_captures`, in the scope of the lambda, which `enclosing` encloses
  unfoldable pub resolve_lambda_captures : Scope → Tree → Option (List Capture)
  unfolding resolve
  resolve_lambda_captures enclosing search_root = do
    r ← resolve (Scope.func_scope lambda_scope enclosing) search_root no_captures
    some r.captures

-- The search of `lambda_capture_replacer` for the capture of a symbol
unfoldable pub find_capture : VarSymbol → List Capture → Option Capture
find_capture s [] = none
find_capture s (c ∷ cs) = if c.refered_symbol.id == s.id then some c else find_capture s cs

-- What takes the place of an expression: for a reference, the member of the lambda's object
pub data Replaced : Type 0 where
  kept : Replaced
  member : Capture → Replaced

abbrev pub member_or_kept : Option Capture → Replaced
member_or_kept (some c) = member c
member_or_kept none = kept

-- `lambda_capture_replacer::visit` of a reference with its symbol
unfoldable pub replace : List Capture → Option VarSymbol → Replaced
unfolding find_capture
replace captures none = kept
replace captures (some s) = member_or_kept (find_capture s captures)

-- The loop of `set_lambda_receiver` over the captures, from offset 0: the types and the symbols of
-- the elements of the lambda's object
unfoldable pub element_types : List Capture → List AnyType
element_types [] = []
element_types (c ∷ cs) = element_types cs ++ c.refered_symbol.ty ∷ []

unfoldable pub element_symbols : List Capture → List VarSymbol
element_symbols [] = []
element_symbols (c ∷ cs) = element_symbols cs ++ c.refered_symbol ∷ []

-- `set_lambda_receiver` of a lambda's definition
unfoldable pub set_lambda_receiver : VarSymbol → FuncScope → FuncScope
unfolding force_push_front_param
set_lambda_receiver receiver f = force_push_front_param receiver f
