-- ===== src/Forward/Classes/Laws.antt =====
-- Classes after src/dachs/semantics/forward_analyzer_impl.hpp has prepared them.
use dachs.Base.{
  some, none, String, ◌≡◌, refl, ap, ◌∙◌, ◌⊎◌, inl, inr, true, false, ◌||◌, if◌then◌else◌, List, [],
  ◌∷◌, ◌++◌, map, any_b, is_empty, filterb, All, Bool-cases,
}
use Prim.Native.String.{◌++◌ as append}
use mathlib.Core.List.{append_assoc}
use dachs.Forward.Classes.{
  Parameter, MemberFunction, ClassDefinition, is_ctor, grow_default_ctor_ast,
  grow_memberwise_ctor_ast, add_receiver, prepare_class,
}

-- The receiver of a class, and the parameter that initializes a variable
abbrev pub self_of : String → Parameter
self_of class_name = record { name = "self"; param_type = some class_name; is_receiver = true }

abbrev pub initializes : String → Parameter
initializes var = record { name = append "@" var; param_type = none; is_receiver = false }

-- The first parameter of the function is a receiver of the class.
abbrev pub HasReceiver : String → MemberFunction → Type 0
HasReceiver class_name m = (rest : List Parameter) × (m.params ≡ self_of class_name ∷ rest)

-- The parameters of the constructors, in the order of their definitions
abbrev pub ctor_params : List MemberFunction → List (List Parameter)
ctor_params ms = map (λ m. m.params) (filterb is_ctor ms)

-- The parameters of the constructors of a class for which the program defines none
abbrev pub implicit_ctors : ClassDefinition → List (List Parameter)
implicit_ctors c =
    let self = self_of c.name in
    if is_empty c.instance_vars
    then (self ∷ []) ∷ []
    else (self ∷ []) ∷ (self ∷ map initializes c.instance_vars) ∷ []

pub record IsPrepared (c prepared : ClassDefinition) : Type 0 where
  pub receivers : All (HasReceiver c.name) prepared.member_funcs
  pub ctors :
      ((any_b is_ctor c.member_funcs ≡ true)
        × (ctor_params prepared.member_funcs
            ≡ map (λ ps. self_of c.name ∷ ps) (ctor_params c.member_funcs)))
      ⊎ ((any_b is_ctor c.member_funcs ≡ false)
          × (ctor_params prepared.member_funcs ≡ implicit_ctors c))

module _ (class_name : String) where
  received-HasReceiver :
      (ms : List MemberFunction) → All (HasReceiver class_name) (map (add_receiver class_name) ms)
  received-HasReceiver [] = tt
  received-HasReceiver (m ∷ ms) = ((m.params, refl), received-HasReceiver ms)

  received-is_ctor :
      (ms : List MemberFunction)
      → any_b is_ctor (map (add_receiver class_name) ms) ≡ any_b is_ctor ms
  received-is_ctor [] = refl
  received-is_ctor (m ∷ ms) = ap (λ b. is_ctor m || b) (received-is_ctor ms)

  received-ctors :
      (ms : List MemberFunction)
      → ctor_params (map (add_receiver class_name) ms)
        ≡ map (λ ps. self_of class_name ∷ ps) (ctor_params ms)
  received-ctors [] = refl
  received-ctors (m ∷ ms) = elim (Bool-cases (is_ctor m)) [
    | inl y ↦ rw (y, received-ctors ms) refl
    | inr n ↦ rw (n, received-ctors ms) refl
  ]

All-append :
    (P : MemberFunction → Type 0) (xs ys : List MemberFunction)
    → All P xs
    → All P ys
    → All P (xs ++ ys)
All-append P [] ys h k = k
All-append P (x ∷ xs) ys h k = (h.0, All-append P xs ys h.1 k)

append-ctors :
    (ms ns : List MemberFunction)
    → any_b is_ctor ms ≡ false
    → ctor_params (ms ++ ns) ≡ ctor_params ns
append-ctors [] ns e = refl
append-ctors (m ∷ ms) ns e = elim (Bool-cases (is_ctor m)) [
  | inl y ↦ cc (rw y at e)
  | inr n ↦ rw n (append-ctors ms ns (rw n at e))
]

-- A constructor with the receiver and further parameters
abbrev ctor : String → List Parameter → MemberFunction
ctor class_name rest = record { name = "dachs.init"; params = self_of class_name ∷ rest }

-- The constructors that a class without variables, or one with them, is given
abbrev new_ctors : ClassDefinition → List MemberFunction
new_ctors c =
    if is_empty c.instance_vars
    then ctor c.name [] ∷ []
    else ctor c.name [] ∷ ctor c.name (map initializes c.instance_vars) ∷ []

grow_both :
    (c : ClassDefinition)
    → (grow_memberwise_ctor_ast (grow_default_ctor_ast c)).member_funcs
      ≡ c.member_funcs ++ new_ctors c
unfolding grow_memberwise_ctor_ast grow_default_ctor_ast
grow_both c = elim (Bool-cases (is_empty c.instance_vars)) [
  | inl y ↦ rw y refl
  | inr n ↦ rw n (append_assoc c.member_funcs (ctor c.name [] ∷ []) _)
]

new_ctors-HasReceiver : (c : ClassDefinition) → All (HasReceiver c.name) (new_ctors c)
new_ctors-HasReceiver c = elim (Bool-cases (is_empty c.instance_vars)) [
  | inl y ↦ rw y (([], refl), tt)
  | inr n ↦ rw n (([], refl), ((map initializes c.instance_vars, refl), tt))
]

ctor_params-new_ctors : (c : ClassDefinition) → ctor_params (new_ctors c) ≡ implicit_ctors c
ctor_params-new_ctors c = elim (Bool-cases (is_empty c.instance_vars)) [
  | inl y ↦ rw y refl
  | inr n ↦ rw n refl
]

prepare-cases :
    (c : ClassDefinition)
    → (prepare_class c).member_funcs ≡ (
        if any_b is_ctor c.member_funcs
        then map (add_receiver c.name) c.member_funcs
        else map (add_receiver c.name) c.member_funcs ++ new_ctors c)
unfolding prepare_class
prepare-cases c = elim (Bool-cases (any_b is_ctor c.member_funcs)) [
  | inl y ↦ rw (received-is_ctor c.name c.member_funcs, y) refl
  | inr n ↦
      rw (received-is_ctor c.name c.member_funcs, n)
        (grow_both (record c { member_funcs = map (add_receiver c.name) c.member_funcs }))
]

-- After a class is prepared, every member function begins with a receiver, named `self` and of
-- the class; the constructors are those that the program defines, with the receiver added, or,
-- if it defines none, one with the receiver only and, if there are variables, one that also
-- has a parameter `@x` without a type for each variable `x`, in their order.
pub prepare_class-IsPrepared : (c : ClassDefinition) → IsPrepared c (prepare_class c)
prepare_class-IsPrepared c =
    let cases = prepare-cases c in
    elim (Bool-cases (any_b is_ctor c.member_funcs)) [
      | inl y ↦
          let members = rw y at cases in
          record {
            receivers = rw members (received-HasReceiver c.name c.member_funcs);
            ctors = inl (y, rw members (received-ctors c.name c.member_funcs));
          }
      | inr n ↦
          let members = rw n at cases in
          record {
            receivers = rw members (
                All-append (HasReceiver c.name) (map (add_receiver c.name) c.member_funcs)
                  (new_ctors c) (received-HasReceiver c.name c.member_funcs)
                  (new_ctors-HasReceiver c));
            ctors = inr (
              n,
              rw members (
                  append-ctors (map (add_receiver c.name) c.member_funcs) (new_ctors c)
                    (received-is_ctor c.name c.member_funcs ∙ n)
                  ∙ ctor_params-new_ctors c),
            );
          }
    ]
