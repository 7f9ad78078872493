-- ===== src/Scope/Functions.antt =====
-- src/dachs/semantics/scope.cpp: functions and classes as overloads of one another, the
-- functions of the global scope, and its casts and class templates.
pub mod Laws
use dachs.Base.{
  ℕ, suc, String, str_eq, starts_with, Bool, true, false, if◌then◌else◌, not, ◌&&◌, ◌||◌, Option,
  none, some, List, [], ◌∷◌, ◌++◌, ◌>>=◌, all_zipped, get_elem?, length, ◌==◌, any_of,
}
use dachs.Types.{AnyType, VarSymbol, ClassScope, FuncScope, Store, lock, is_template_type}
use dachs.Types.Equality.{type_eq, var_types}
use dachs.Types.Template.{is_template}
use dachs.Types.Instance.{is_instantiated_from}
use dachs.Scope.{GlobalScope, find_class}

-- A round of the loop of `func_scope::operator==`
abbrev pub same_param : Store → ℕ → AnyType → AnyType → Option Bool
same_param S fuel l r =
    if is_template_type l && is_template_type r
    then some true
    else if is_template_type l || is_template_type r
    then some false
    else type_eq S fuel l r

-- `func_scope::operator==`
unfoldable pub func_eq : Store → ℕ → FuncScope → FuncScope → Option Bool
func_eq S fuel l r =
    if str_eq l.name r.name && (length l.params == length r.params)
    then all_zipped (same_param S fuel) (var_types l.params) (var_types r.params)
    else some false

-- `class_scope::operator==`
unfoldable pub class_eq : Store → ℕ → ClassScope → ClassScope → Option Bool
class_eq S fuel l r =
    if str_eq l.name r.name && (length l.instance_var_symbols == length r.instance_var_symbols)
    then all_zipped (type_eq S fuel) (var_types l.instance_var_symbols)
        (var_types r.instance_var_symbols)
    else some false

abbrev pub is_converter : FuncScope → Bool
is_converter f = str_eq f.name "dachs.conv"

abbrev pub is_ctor : FuncScope → Bool
is_ctor f = str_eq f.name "dachs.init"

abbrev pub is_copier : FuncScope → Bool
is_copier f = str_eq f.name "dachs.copy"

abbrev pub is_main_func : FuncScope → Bool
is_main_func f = str_eq f.name "main" && not f.is_member_func

abbrev pub is_anonymous : FuncScope → Bool
is_anonymous f = starts_with f.name "lambda."

-- `func_scope::is_template`
abbrev pub func_is_template : Store → ℕ → FuncScope → Option Bool
func_is_template S fuel f = any_of (is_template S fuel) (var_types f.params)

-- `global_scope::define_function`
unfoldable pub define_function : FuncScope → GlobalScope → GlobalScope
define_function f g =
    if is_converter f
    then record g { cast_funcs = g.cast_funcs ++ f ∷ [] }
    else record g { functions = g.functions ++ f ∷ [] }

-- The first parameter of a converter, and its result.
abbrev pub cast_from : FuncScope → Option AnyType
cast_from f = elim f.params [ [] ↦ none | p ∷ ps ↦ some p.ty ]

-- How a cast function fits: it is passed over (`continue`, or neither test passes), it is
-- returned, or it becomes the result so far.
pub data Fit : Type 0 where
  passed exact instantiated : Fit

-- The two tests of the round on the parameter's type
unfoldable pub param_fit : Store → ℕ → AnyType → AnyType → Option Fit
param_fit S fuel from t = do
  same ← type_eq S fuel from t
  elim same [
    | true ↦ some exact
    | false ↦ (do
      instance_ ← is_instantiated_from S fuel from t
      some (if instance_ then instantiated else passed))
  ]

-- A round of the loop of `resolve_cast_func`
unfoldable pub cast_fit : Store → ℕ → AnyType → AnyType → FuncScope → Option Fit
unfolding param_fit
cast_fit S fuel from to c = do
  ret ← c.ret_type
  same_ret ← type_eq S fuel to ret
  elim same_ret [ false ↦ some passed | true ↦ (do t ← cast_from c; param_fit S fuel from t) ]

-- The loop, with its `result` so far.
unfoldable pub cast_loop :
    Store → ℕ → AnyType → AnyType → List FuncScope → Option FuncScope → Option (Option FuncScope)
cast_loop S fuel from to [] result = some result
cast_loop S fuel from to (c ∷ cs) result = do
  fit ← cast_fit S fuel from to c
  elim fit [
    | exact ↦ some (some c)
    | instantiated ↦ cast_loop S fuel from to cs (some c)
    | passed ↦ cast_loop S fuel from to cs result
  ]

-- `global_scope::resolve_cast_func`
unfoldable pub resolve_cast_func :
    Store → ℕ → GlobalScope → AnyType → AnyType → Option (Option FuncScope)
unfolding cast_loop cast_fit
resolve_cast_func S fuel g from to = cast_loop S fuel from to g.cast_funcs none

-- The block of `resolve_class_template` that pairs the template variables, by their index, with
-- the types that are specified. The inner `none` is the early return.
unfoldable pub specify :
    Store → ℕ → ℕ → List VarSymbol → List AnyType → Option (Option (List (ℕ × AnyType)))
specify S fuel idx [] [] = some (some [])
specify S fuel idx [] (t ∷ ts) = some none
specify S fuel idx (s ∷ ss) ts = do
  template ← is_template S fuel s.ty
  elim template [
    | false ↦ specify S fuel (suc idx) ss ts
    | true ↦ elim ts [
      | [] ↦ some none
      | u ∷ us ↦ (do
        rest ← specify S fuel (suc idx) ss us
        some (elim rest [ none ↦ none | some ps ↦ some ((idx, u) ∷ ps) ]))
    ]
  ]

-- `all_of` over the specified parameters
unfoldable pub has_specified : Store → ℕ → List VarSymbol → List (ℕ × AnyType) → Option Bool
has_specified S fuel vars [] = some true
has_specified S fuel vars ((idx, t) ∷ ps) = do
  v ← get_elem? vars idx
  same ← type_eq S fuel v.ty t
  elim same [ true ↦ has_specified S fuel vars ps | false ↦ some false ]

-- The loop over the instantiated definitions
unfoldable pub find_instantiated : Store → ℕ → List (ℕ × AnyType) → List ℕ → Option (Option ℕ)
unfolding has_specified
find_instantiated S fuel ps [] = some none
find_instantiated S fuel ps (ref ∷ refs) = do
  c ← lock S ref
  found ← has_specified S fuel c.instance_var_symbols ps
  elim found [ true ↦ some (some ref) | false ↦ find_instantiated S fuel ps refs ]

-- `global_scope::resolve_class_template`
unfoldable pub resolve_class_template :
    Store → ℕ → GlobalScope → String → List AnyType → Option (Option ℕ)
unfolding find_class specify find_instantiated
resolve_class_template S fuel g name specified = do
  ref? ← find_class S name g.classes
  elim ref? [
    | none ↦ some none
    | some ref ↦ (do
      c ← lock S ref
      template ← any_of (is_template S fuel) (var_types c.instance_var_symbols)
      elim template [
        | false ↦ some none
        | true ↦ (do
          params ← specify S fuel 0 c.instance_var_symbols specified
          elim params [ none ↦ some none | some ps ↦ find_instantiated S fuel ps c.instantiated ])
      ])
  ]
