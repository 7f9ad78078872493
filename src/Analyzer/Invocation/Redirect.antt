-- ===== src/Analyzer/Invocation/Redirect.antt =====
-- The calls of instance variables in src/dachs/semantics/analyzer.cpp.
use dachs.Base.{
  ℕ, String, ◌≡◌, refl, ap, sym, ◌∙◌, ◌⊎◌, inl, inr, true, Option, none, some, List, [], ◌∷◌,
  Bool-cases,
}
use dachs.Base.Defined.{bind-some, some_inj}
use dachs.Types.{AnyType, class_type, generic_func_type, Types, VarSymbol, ClassScope, Store, lock}
use dachs.Scope.{resolve_instance_var}
use dachs.Analyzer.Invocation.{
  CallArgument, Callee, var_ref, instance_var_access, other_callee, access_of, access_receiver,
  is_generic_func_type, access_first, FuncInvocation, visit_instance_var_invocation,
}

-- A call `a.name(...)` of an instance variable of the class of `a`
pub record CallsInstanceVar (S : Store) (node called : FuncInvocation) : Type 0 where
  pub name : String
  pub type_of_name : AnyType
  pub receiver : CallArgument
  pub rest : List CallArgument
  pub class_name : String
  pub ref : ℕ
  pub params : Types
  pub clazz : ClassScope
  pub v : VarSymbol
  pub func_ref : Option ℕ
  pub is_ufcs_call : node.is_ufcs ≡ true
  pub of_name : node.child ≡ var_ref name type_of_name
  pub on_receiver : node.args ≡ receiver ∷ rest
  pub of_class : receiver.ty ≡ class_type class_name ref params
  pub locked : lock S ref ≡ some clazz
  pub found : resolve_instance_var name clazz ≡ some v
  pub generic : v.ty ≡ generic_func_type func_ref
  pub accesses : called.child ≡ instance_var_access receiver name v.ty
  pub on_rest : called.args ≡ rest

abbrev pub IsRedirect : Store → FuncInvocation → FuncInvocation → Type 0
IsRedirect S node called = (called ≡ node) ⊎ CallsInstanceVar S node called

is_generic_func_type-true :
    (t : AnyType) → is_generic_func_type t ≡ true → (r : Option ℕ) × (t ≡ generic_func_type r)
is_generic_func_type-true (generic_func_type r) e = (r, refl)
is_generic_func_type-true t e = cc

access_of-cases :
    (name : String) (node : FuncInvocation) (a : CallArgument) (args : List CallArgument)
    (o : Option VarSymbol)
    → (access_of name node a args o ≡ node)
      ⊎ ((v : VarSymbol) × (o ≡ some v)
          × ((r : Option ℕ) × (v.ty ≡ generic_func_type r))
          × (access_of name node a args o
              ≡ record node { child = instance_var_access a name v.ty; args = args }))
access_of-cases name node a args none = inl refl
access_of-cases name node a args (some v) = elim (Bool-cases (is_generic_func_type v.ty)) [
  | inr n ↦ inl (rw (n, access_of))
  | inl y ↦ inr (v, refl, is_generic_func_type-true v.ty y, rw (y, access_of))
]

pub visit_instance_var_invocation-IsRedirect :
    (S : Store) (node : FuncInvocation) {called : FuncInvocation}
    → node.is_ufcs ≡ true
    → visit_instance_var_invocation S node ≡ some called
    → IsRedirect S node called
unfolding visit_instance_var_invocation
visit_instance_var_invocation-IsRedirect S node {called} u e = go node.child node.args refl refl e
  where
    receive :
        {name : String} {t : AnyType} {receiver : CallArgument} {rest : List CallArgument}
        → node.child ≡ var_ref name t
        → node.args ≡ receiver ∷ rest
        → (t' : AnyType) → receiver.ty ≡ t'
        → access_receiver S t' name node receiver rest ≡ some called
        → IsRedirect S node called
    receive {name} {t} {receiver} {rest} ec ea (class_type n ref ps) et e1 =
        let (c, el, e2) = bind-some (lock S ref) _ e1 in
        elim (access_of-cases name node receiver rest (resolve_instance_var name c)) [
          | inl same ↦ inl (sym (some_inj e2) ∙ same)
          | inr (v, found, (r, generic), same) ↦
              let accessed = sym (some_inj e2) ∙ same in
              inr (record {
                name = name;
                type_of_name = t;
                receiver = receiver;
                rest = rest;
                class_name = n;
                ref = ref;
                params = ps;
                clazz = c;
                v = v;
                func_ref = r;
                is_ufcs_call = u;
                of_name = ec;
                on_receiver = ea;
                of_class = et;
                locked = el;
                found = found;
                generic = generic;
                accesses = ap (λ w. w.child) accessed;
                on_rest = ap (λ w. w.args) accessed;
              })
        ]
    receive ec ea t' et e1 = inl (sym (some_inj e1))

    go :
        (callee : Callee) (args : List CallArgument)
        → node.child ≡ callee
        → node.args ≡ args
        → access_first S callee node args ≡ some called
        → IsRedirect S node called
    go callee [] ec ea e1 = cc
    go (instance_var_access a name t) (receiver ∷ rest) ec ea e1 = inl (sym (some_inj e1))
    go (other_callee t) (receiver ∷ rest) ec ea e1 = inl (sym (some_inj e1))
    go (var_ref name t) (receiver ∷ rest) ec ea e1 = receive ec ea receiver.ty refl e1
