-- ===== src/Scope/Members.antt =====
-- src/dachs/semantics/scope.hpp, scope.cpp and type.cpp: constructors and instance variables of
-- classes, and which types can be constructed by default; tmp_member_checker.hpp: the members that
-- the compiler itself gives to values.
pub mod Laws
use dachs.Base.{
  ℕ, zero, suc, String, str_eq, Bool, true, false, not, if◌then◌else◌, Option, none, some, List, [],
  ◌∷◌, length, ◌==◌, ◌>>=◌, ◌>>◌, require, is_empty, get_elem?, ltb, ◌-◌,
}
use dachs.Types.{
  AnyType, empty, builtin_type, class_type, tuple_type, func_type, generic_func_type, array_type,
  pointer_type, qualified_type, template_type, Types, to_list, VarSymbol, ClassScope, FuncScope,
  Store, lock,
}
use dachs.Types.Template.{is_template}
use dachs.Overload.{resolve_func as overload}

-- `class_scope::resolve_ctor`, with the functions of the global scope
unfoldable pub resolve_ctor : Store → ℕ → List FuncScope → List AnyType → Option (List FuncScope)
resolve_ctor S fuel functions args = overload S fuel functions "dachs.init" args

-- The loop of `get_instance_var_offset_of`, from an offset. There are fewer than `2 ^ 32`
-- instance variables.
unfoldable pub offset_from : ℕ → String → List VarSymbol → Option ℕ
offset_from offset name [] = none
offset_from offset name (v ∷ vs) =
    if str_eq v.name name then some offset else offset_from (suc offset) name vs

-- `class_scope::get_instance_var_offset_of`
unfoldable pub get_instance_var_offset_of : String → ClassScope → Option ℕ
unfolding offset_from
get_instance_var_offset_of name c = offset_from 0 name c.instance_var_symbols

-- `func_scope::get_receiver_class_scope`
unfoldable pub get_receiver_class_scope : Store → List VarSymbol → Option ClassScope
get_receiver_class_scope S [] = none
get_receiver_class_scope S (p ∷ ps) = elim p.ty [ class_type n ref qs ↦ lock S ref | _ ↦ none ]

-- The loop of `class_type::is_default_constructible`, `rec` for the calls on types.
unfoldable pub vars_constructible :
    Store → ℕ → (AnyType → Option Bool) → List VarSymbol → List AnyType → Option Bool
vars_constructible S fuel rec [] ps = some true
vars_constructible S fuel rec (s ∷ ss) ps = do
  template ← is_template S fuel s.ty
  elim template [
    | true ↦ elim ps [
      | [] ↦ some false
      | q ∷ qs ↦ (do
        done ← rec q
        elim done [ true ↦ vars_constructible S fuel rec ss qs | false ↦ some false ])
    ]
    | false ↦ (do
      done ← rec s.ty
      elim done [ true ↦ vars_constructible S fuel rec ss ps | false ↦ some false ])
  ]

-- `class_type::is_default_constructible`
unfoldable pub class_constructible :
    Store → ℕ → List FuncScope → (AnyType → Option Bool) → String → ℕ → Types → Option Bool
unfolding resolve_ctor vars_constructible
class_constructible S fuel functions rec n ref ps = do
  ctors ← resolve_ctor S fuel functions (class_type n ref ps ∷ [])
  scope ← lock S ref
  elim (length ctors == 1) [
    | true ↦ vars_constructible S fuel rec scope.instance_var_symbols (to_list ps)
    | false ↦ some false
  ]

abbrev pub constructible_step :
    Store → ℕ → List FuncScope → (AnyType → Option Bool) → AnyType → Option Bool
constructible_step S fuel functions rec empty = some false
constructible_step S fuel functions rec (builtin_type n) = some (not (str_eq n "symbol"))
constructible_step S fuel functions rec (class_type n ref ps) =
    class_constructible S fuel functions rec n ref ps
constructible_step S fuel functions rec (tuple_type ts) = some true
constructible_step S fuel functions rec (func_type ps r b) = some false
constructible_step S fuel functions rec (generic_func_type a) = some false
constructible_step S fuel functions rec (array_type t n) = some true
constructible_step S fuel functions rec (pointer_type t) = some false
constructible_step S fuel functions rec (qualified_type q t) = rec t
constructible_step S fuel functions rec (template_type a) = some false

-- `is_default_constructible` of each kind of type. Fuel as for `is_template`.
unfoldable pub is_default_constructible : Store → ℕ → List FuncScope → AnyType → Option Bool
unfolding class_constructible
is_default_constructible S zero functions t = none
is_default_constructible S (suc fuel) functions t =
    constructible_step S fuel functions (is_default_constructible S fuel functions) t

-- The type of a member; `oops` stands for the error, that the index is out of bounds.
pub data Member : Type 0 where
  member : AnyType → Member
  oops : Member

abbrev pub element : ℕ → List AnyType → Member
element i ts = elim (get_elem? ts i) [ none ↦ oops | some t ↦ member t ]

-- `member_variable_checker` on a tuple
unfoldable pub tuple_member : String → List AnyType → Member
tuple_member name ts =
    if str_eq name "size"
    then member (builtin_type "uint")
    else if str_eq name "first"
    then (if is_empty ts then oops else element 0 ts)
    else if str_eq name "second"
    then (if ltb (length ts) 2 then oops else element 1 ts)
    else if str_eq name "last"
    then (if is_empty ts then oops else element (length ts - 1) ts)
    else member empty

-- The assertion is that the array has a size.
abbrev pub array_member : String → Option ℕ → Option Member
array_member name size =
    if str_eq name "size"
    then elim size [ none ↦ none | some n ↦ some (member (builtin_type "uint")) ]
    else some (member empty)

-- `check_member_var`
unfoldable pub check_member_var : String → AnyType → Option Member
unfolding tuple_member
check_member_var name t =
    if str_eq name "__type" then some (member (pointer_type (builtin_type "char"))) else elim t [
      | tuple_type ts ↦ some (tuple_member name (to_list ts))
      | array_type u size ↦ array_member name size
      | _ ↦ some (member empty)
    ]
