-- ===== src/Forward/Classes.antt =====
-- src/dachs/semantics/forward_analyzer_impl.hpp: the receivers and the constructors that the
-- visit of a program adds to the classes before it visits them.
pub mod Laws
use Prim.Native.String.{◌++◌ as append}
use dachs.Base.{
  ℕ, String, str_eq, Bool, true, false, if◌then◌else◌, Option, none, some, List, [], ◌∷◌, ◌++◌, map,
  any_b, is_empty,
}

-- `node::parameter`, with the name of its type
pub record Parameter : Type 0 where
  pub name : String
  pub param_type : Option String
  pub is_receiver : Bool

-- `node::function_definition` of a member function
pub record MemberFunction : Type 0 where
  pub name : String
  pub params : List Parameter

-- `node::class_definition`, with the names of the variables
pub record ClassDefinition : Type 0 where
  pub name : String
  pub instance_vars : List String
  pub member_funcs : List MemberFunction

abbrev pub generate_receiver_node : String → Parameter
generate_receiver_node class_name = record {
  name = "self";
  param_type = some class_name;
  is_receiver = true;
}

abbrev pub is_ctor : MemberFunction → Bool
is_ctor m = str_eq m.name "dachs.init"

abbrev pub add_ctor : List Parameter → ClassDefinition → ClassDefinition
add_ctor params def = record def {
  member_funcs = def.member_funcs ++ record { name = "dachs.init"; params = params } ∷ [];
}

unfoldable pub grow_default_ctor_ast : ClassDefinition → ClassDefinition
grow_default_ctor_ast def = add_ctor (generate_receiver_node def.name ∷ []) def

-- The parameter that initializes a variable
abbrev pub init_param : String → Parameter
init_param name = record { name = append "@" name; param_type = none; is_receiver = false }

unfoldable pub grow_memberwise_ctor_ast : ClassDefinition → ClassDefinition
grow_memberwise_ctor_ast def =
    if is_empty def.instance_vars
    then def
    else add_ctor (generate_receiver_node def.name ∷ map init_param def.instance_vars) def

abbrev pub add_receiver : String → MemberFunction → MemberFunction
add_receiver class_name m = record m { params = generate_receiver_node class_name ∷ m.params }

-- The body of the loop over the classes, after the class is defined
unfoldable pub prepare_class : ClassDefinition → ClassDefinition
unfolding grow_default_ctor_ast grow_memberwise_ctor_ast
prepare_class c =
    let received = record c { member_funcs = map (add_receiver c.name) c.member_funcs } in
    if any_b is_ctor received.member_funcs
    then received
    else grow_memberwise_ctor_ast (grow_default_ctor_ast received)

-- The functions of the program after the member functions of all classes are moved to it
unfoldable pub move_member_funcs : List ClassDefinition → List MemberFunction → List MemberFunction
move_member_funcs [] functions = functions
move_member_funcs (c ∷ cs) functions = move_member_funcs cs (functions ++ c.member_funcs)

abbrev pub clear_member_funcs : ClassDefinition → ClassDefinition
clear_member_funcs c = record c { member_funcs = [] }
