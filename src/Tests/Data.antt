-- ===== src/Tests/Data.antt =====
-- The classes, functions and scopes of the tests.
use dachs.Base.{ℕ, String, true, false, Option, none, some, List, [], ◌∷◌, zero, suc}
use dachs.Types.{
  AnyType, builtin_type, class_type, tuple_type, pointer_type, template_type, func_type, array_type,
  qualified_type, maybe, nil, cons, the_type, VarSymbol, ClassScope, FuncScope, Store,
}
use dachs.Scope.{GlobalScope, LocalScope, Scope, global_scope, local_scope, func_scope}
use dachs.Scope.TypeFromAst.{Translator}

abbrev pub int : AnyType
int = builtin_type "int"

abbrev pub uint : AnyType
uint = builtin_type "uint"

abbrev pub float : AnyType
float = builtin_type "float"

abbrev pub var : ℕ → String → AnyType → VarSymbol
var id name ty = record {
  id = id;
  name = name;
  ty = ty;
  ast_node = some id;
  is_builtin = false;
  immutable = true;
  is_global = false;
  is_public = true;
}

-- class Point: x : int
abbrev pub point_class : ClassScope
point_class = record {
  name = "Point";
  instance_var_symbols = var 10 "x" int ∷ [];
  instantiated = [];
}

-- class Box: value
abbrev pub box_class : ClassScope
box_class = record {
  name = "Box";
  instance_var_symbols =
      var 11 "value" (template_type 1) ∷ var 12 "point" (class_type "Point" 0 nil) ∷ [];
  instantiated = [];
}

-- class Chain: next : pointer(Chain)
abbrev pub chain_class : ClassScope
chain_class = record {
  name = "Chain";
  instance_var_symbols = var 13 "next" (pointer_type (class_type "Chain" 2 nil)) ∷ [];
  instantiated = [];
}

abbrev pub store : Store
store = point_class ∷ box_class ∷ []

abbrev pub cyclic_store : Store
cyclic_store = point_class ∷ box_class ∷ chain_class ∷ []

abbrev pub point : AnyType
point = class_type "Point" 0 nil

abbrev pub box : AnyType
box = class_type "Box" 1 nil

abbrev pub int_box : AnyType
int_box = class_type "Box" 1 (cons int nil)

abbrev pub func : ℕ → String → List VarSymbol → Option AnyType → FuncScope
func id name params ret = record {
  id = id;
  name = name;
  is_builtin = false;
  params = params;
  ret_type = ret;
  is_member_func = false;
  is_const_ = none;
}

-- func area(x : int, y), func area(x, y), func area(x : int, y : float)
abbrev pub area_int : FuncScope
area_int = func 1 "area" (var 20 "x" int ∷ var 21 "y" (template_type 2) ∷ []) none

abbrev pub area_any : FuncScope
area_any = func 2 "area" (var 22 "x" (template_type 3) ∷ var 23 "y" (template_type 4) ∷ []) none

abbrev pub area_exact : FuncScope
area_exact = func 3 "area" (var 24 "x" int ∷ var 25 "y" float ∷ []) none

abbrev pub areas : List FuncScope
areas = area_int ∷ area_any ∷ area_exact ∷ []

-- cast(b : Box) : int, cast(b : Box(int)) : int
abbrev pub cast_box : FuncScope
cast_box = func 4 "dachs.conv" (var 26 "b" box ∷ []) (some int)

abbrev pub cast_int_box : FuncScope
cast_int_box = func 5 "dachs.conv" (var 27 "b" int_box ∷ []) (some int)

abbrev pub globals : GlobalScope
globals = record {
  functions = areas;
  const_symbols = var 30 "pi" float ∷ [];
  classes = 0 ∷ 1 ∷ [];
  cast_funcs = cast_box ∷ cast_int_box ∷ [];
}

abbrev pub outer_locals : LocalScope
outer_locals = record { local_vars = var 31 "total" int ∷ []; unnamed_funcs = [] }

abbrev pub no_locals : LocalScope
no_locals = record { local_vars = []; unnamed_funcs = [] }

-- A lambda with the parameter `x`, in a block that declares `total`.
abbrev pub lambda : FuncScope
lambda = func 6 "lambda.1" (var 32 "x" int ∷ []) none

abbrev pub block : Scope
block = local_scope outer_locals (global_scope globals)

abbrev pub body : Scope
body = local_scope no_locals (func_scope lambda block)

abbrev pub translator : Translator
translator = record {
  store = store;
  current_scope = body;
  analyzer = none;
  allow_omit_return = false;
}

-- func(Point, [int]) : (Box(int), float?)
abbrev pub written : AnyType
written =
    func_type (cons point (cons (array_type int none) nil))
      (the_type (tuple_type (cons int_box (cons (qualified_type maybe float) nil)))) false

abbrev pub repeat {ℓ} : {A : Type ℓ} → ℕ → A → List A
repeat zero x = []
repeat (suc n) x = x ∷ repeat n x

-- The template `Box` with its instance for `int`, whose index is 2.
abbrev pub instance_store : Store
instance_store =
    point_class
    ∷ (record box_class { instantiated = 2 ∷ [] })
    ∷ (record {
      name = "Box";
      instance_var_symbols = var 14 "value" int ∷ var 15 "point" (class_type "Point" 0 nil) ∷ [];
      instantiated = [];
    })
    ∷ []
