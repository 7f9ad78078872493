-- ===== src/Analyzer/Defaults/Laws.antt =====
-- The value that an initialization without values gets in src/dachs/semantics/analyzer.cpp.
use mathlib.Core.Path.{subst}
use dachs.Base.{
  ℕ, ◌≡◌, refl, ap, sym, ◌∙◌, ◌⊎◌, inl, inr, Bool, true, false, Option, none, some, List, [], ◌∷◌,
  Bool-cases, Option-cases, is_empty, not, require,
}
use dachs.Base.Defined.{bind-some, some_inj}
use dachs.Types.{AnyType, is_known, class_type, Types, to_list, VarSymbol, FuncScope, Store}
use dachs.Types.Template.{is_template}
use dachs.Scope.{Scope}
use dachs.Scope.Functions.{func_is_template}
use dachs.Scope.Members.{resolve_ctor, is_default_constructible}
use dachs.Analyzer.Calls.{Definitions, instance_of}
use dachs.Analyzer.Copies.{resolve_deep_copy}
use dachs.Analyzer.Defaults.{
  ObjectConstruct, DefaultDecl, DefaultState, DefaultRound, goes_on, returns_early, construct_with,
  generate_default_construct_ast, set_construct, construct_class, construct_default, default_typed,
  default_known, default_one, visit_default_initialize,
}

module _ (S : Store) (fuel depth : ℕ) (functions : List FuncScope) (current_scope : Scope)
    (defs : Definitions) (instantiate_param_types : AnyType → Option (Option AnyType)) where
  -- The node constructs the type of the declaration's variable, as it is instantiated, which is
  -- default constructible.
  pub record Constructs (c : ObjectConstruct) (decl : DefaultDecl) : Type 0 where
    pub v : VarSymbol
    pub of_symbol : decl.symbol ≡ some v
    pub instantiated : instantiate_param_types v.ty ≡ some (some c.type_of_construct)
    pub constructible : is_default_constructible S fuel functions c.type_of_construct ≡ some true

  abbrev pub AnyConstructs : ObjectConstruct → List DefaultDecl → Type 0
  AnyConstructs c [] = ⊥
  AnyConstructs c (decl ∷ decls) = Constructs c decl ⊎ AnyConstructs c decls

  -- The values are those before, or one of which the declaration has the property
  abbrev pub HasOne : (ObjectConstruct → Type 0) → DefaultState → DefaultState → Type 0
  HasOne P st st' =
      (st'.maybe_rhs_exprs ≡ st.maybe_rhs_exprs)
      ⊎ ((c : ObjectConstruct) × (st'.maybe_rhs_exprs ≡ some (c ∷ [])) × P c)

  abbrev state_of : DefaultRound → DefaultState
  state_of (goes_on st) = st
  state_of (returns_early st) = st

  construct_with-type :
      (t : AnyType) (ref : ℕ) (ctors : List FuncScope) {c : ObjectConstruct}
      → construct_with S fuel depth functions current_scope defs instantiate_param_types t ref ctors
        ≡ some (some c)
      → c.type_of_construct ≡ t
  construct_with-type t ref (ctor ∷ []) e =
      let (template, et, e1) = bind-some (func_is_template S fuel ctor) _ e in
      let (g, eg, e2) =
        bind-some (instance_of S fuel current_scope defs template defs.instantiate ctor (t ∷ [])) _
          e1 in
      let (still, es, e3) = bind-some (func_is_template S fuel g) _ e2 in
      let (u, eu, e4) = bind-some (require (not still)) _ e3 in
      ap (λ w. w.type_of_construct) (sym (some_inj (some_inj e4)))
  construct_with-type t ref [] e = cc
  construct_with-type t ref (f ∷ g ∷ fs) e = cc

  generate-type :
      (t : AnyType) (ref : ℕ) (params : Types) {c : ObjectConstruct}
      → generate_default_construct_ast S fuel depth functions current_scope defs
          instantiate_param_types t ref params
        ≡ some (some c)
      → c.type_of_construct ≡ t
  unfolding generate_default_construct_ast
  generate-type t ref params e =
      let (template, et, e1) = bind-some (is_template S fuel t) _ e in
      let (u, eu, e2) = bind-some (require (not template)) _ e1 in
      let (u', eu', e3) = bind-some (require (is_empty (to_list params))) _ e2 in
      let (ctors, ec, e4) = bind-some (resolve_ctor S fuel functions (t ∷ [])) _ e3 in
      construct_with-type t ref ctors e4

  set_construct-HasOne :
      (decl : DefaultDecl) (t : AnyType) (made : Option ObjectConstruct) (st : DefaultState)
      {st' : DefaultState}
      → set_construct S fuel depth functions current_scope defs instantiate_param_types decl t made
          st
        ≡ some st'
      → HasOne (λ c. made ≡ some c) st st'
  set_construct-HasOne decl t none st e = inl (ap (λ w. w.maybe_rhs_exprs) (sym (some_inj e)))
  set_construct-HasOne decl t (some c) st e =
      let ((success, copiers), ec, e1) =
        bind-some (resolve_deep_copy S fuel current_scope defs depth t st.copiers) _ e in
      inr (c, ap (λ w. w.maybe_rhs_exprs) (sym (some_inj e1)), refl)

  HasOne-map :
      (P Q : ObjectConstruct → Type 0) (st st' : DefaultState)
      → ((c : ObjectConstruct) → P c → Q c)
      → HasOne P st st'
      → HasOne Q st st'
  HasOne-map P Q st st' f (inl h) = inl h
  HasOne-map P Q st st' f (inr (c, e, p)) = inr (c, e, f c p)

  HasOne-trans :
      (P Q : ObjectConstruct → Type 0) (st st1 st' : DefaultState)
      → HasOne P st st1
      → HasOne Q st1 st'
      → HasOne (λ c. P c ⊎ Q c) st st'
  HasOne-trans P Q st st1 st' h (inr (c, e, q)) = inr (c, e, inr q)
  HasOne-trans P Q st st1 st' (inl e) (inl f) = inl (f ∙ e)
  HasOne-trans P Q st st1 st' (inr (c, e, p)) (inl f) = inr (c, f ∙ e, inl p)

  class-HasOne :
      (decl : DefaultDecl) (t : AnyType) (st : DefaultState) {st' : DefaultState}
      → construct_class S fuel depth functions current_scope defs instantiate_param_types decl t st
        ≡ some st'
      → HasOne (λ c. c.type_of_construct ≡ t) st st'
  class-HasOne decl (class_type n ref params) st {st'} e =
      let (made, em, e1) =
        bind-some
          (generate_default_construct_ast S fuel depth functions current_scope defs
            instantiate_param_types (class_type n ref params) ref params)
          _ e in
      HasOne-map (λ c. made ≡ some c) (λ c. c.type_of_construct ≡ class_type n ref params) st st'
        (λ c same. generate-type (class_type n ref params) ref params (em ∙ ap some same))
        (set_construct-HasOne decl (class_type n ref params) made st e1)
  class-HasOne decl t st e = inl (ap (λ w. w.maybe_rhs_exprs) (sym (some_inj e)))

  default-HasOne :
      (decl : DefaultDecl) (v : VarSymbol) (t : AnyType) (st : DefaultState) {st' : DefaultState}
      → decl.symbol ≡ some v
      → instantiate_param_types v.ty ≡ some (some t)
      → construct_default S fuel depth functions current_scope defs instantiate_param_types decl t
          st
        ≡ some st'
      → HasOne (λ c. Constructs c decl) st st'
  unfolding construct_default
  default-HasOne decl v t st {st'} ev ei e =
      let (b, eb, e1) = bind-some (is_default_constructible S fuel functions t) _ e in
      elim (Bool-cases b) [
        | inr n ↦ inl (ap (λ w. w.maybe_rhs_exprs) (sym (some_inj (rw n at e1))))
        | inl y ↦
            HasOne-map (λ c. c.type_of_construct ≡ t) (λ c. Constructs c decl) st st'
              (λ c same. record {
                v = v;
                of_symbol = ev;
                instantiated = ei ∙ ap (λ x. some (some x)) (sym same);
                constructible =
                    ap (is_default_constructible S fuel functions) same ∙ eb ∙ ap some y;
              })
              (class-HasOne decl t st (rw y at e1))
      ]

  typed-HasOne :
      (decl : DefaultDecl) (v : VarSymbol) (o : Option AnyType) (st : DefaultState)
      {r : DefaultRound}
      → decl.symbol ≡ some v
      → instantiate_param_types v.ty ≡ some o
      → default_typed S fuel depth functions current_scope defs instantiate_param_types decl v.ty o
          st
        ≡ some r
      → HasOne (λ c. Constructs c decl) st (state_of r)
  typed-HasOne decl v none st ev ei e =
      inl (ap (λ w. (state_of w).maybe_rhs_exprs) (sym (some_inj e)))
  typed-HasOne decl v (some t) st {r} ev ei e =
      let (st', es, e1) =
        bind-some
          (construct_default S fuel depth functions current_scope defs instantiate_param_types decl
            t st)
          _ e in
      subst (λ w. HasOne (λ c. Constructs c decl) st (state_of w)) (some_inj e1)
        (default-HasOne decl v t st ev ei es)

  known-HasOne :
      (decl : DefaultDecl) (v : VarSymbol) (b : Bool) (st : DefaultState) {r : DefaultRound}
      → decl.symbol ≡ some v
      → default_known S fuel depth functions current_scope defs instantiate_param_types decl b v.ty
          st
        ≡ some r
      → HasOne (λ c. Constructs c decl) st (state_of r)
  known-HasOne decl v false st ev e =
      inl (ap (λ w. (state_of w).maybe_rhs_exprs) (sym (some_inj e)))
  known-HasOne decl v true st ev e =
      let (o, eo, e1) = bind-some (instantiate_param_types v.ty) _ e in
      typed-HasOne decl v o st ev eo e1

  one-HasOne :
      (decl : DefaultDecl) (st : DefaultState) {r : DefaultRound}
      → default_one S fuel depth functions current_scope defs instantiate_param_types decl st
        ≡ some r
      → HasOne (λ c. Constructs c decl) st (state_of r)
  unfolding default_one
  one-HasOne decl st {r} e = elim (Option-cases decl.symbol) [
    | inl n ↦
        inl (ap (λ w. (state_of w).maybe_rhs_exprs) (sym (some_inj (rw (n, default_one) at e))))
    | inr (v, ev) ↦ known-HasOne decl v (is_known v.ty) st ev (rw (ev, default_one) at e)
  ]

  -- An initialization without values, of however many variables, keeps the list of values that
  -- it has, which is none before the visit, or gets a list of exactly one value, which is the
  -- default construction of the type of one of the variables, after the class templates in
  -- that type are instantiated; the type is default constructible.
  pub visit_default_initialize-HasOne :
      (decls : List DefaultDecl) (st : DefaultState) {st' : DefaultState}
      → visit_default_initialize S fuel depth functions current_scope defs instantiate_param_types
          decls st
        ≡ some st'
      → HasOne (λ c. AnyConstructs c decls) st st'
  unfolding visit_default_initialize
  visit_default_initialize-HasOne [] st e = inl (ap (λ w. w.maybe_rhs_exprs) (sym (some_inj e)))
  visit_default_initialize-HasOne (decl ∷ decls) st {st'} e =
      let (r, er, e1) =
        bind-some
          (default_one S fuel depth functions current_scope defs instantiate_param_types decl st) _
          e in
      after r (one-HasOne decl st er) e1 (λ st1 e2. visit_default_initialize-HasOne decls st1 e2)
    where
      after :
          (r : DefaultRound)
          → HasOne (λ c. Constructs c decl) st (state_of r)
          → elim r [
            | returns_early st1 ↦ some st1
            | goes_on st1 ↦
                visit_default_initialize S fuel depth functions current_scope defs
                  instantiate_param_types decls st1
          ]
            ≡ some st'
          → ((st1 : DefaultState)
              → visit_default_initialize S fuel depth functions current_scope defs
                  instantiate_param_types decls st1
                ≡ some st'
              → HasOne (λ c. AnyConstructs c decls) st1 st')
          → HasOne (λ c. AnyConstructs c (decl ∷ decls)) st st'
      after (returns_early st1) h e1 ih =
          subst (HasOne (λ c. AnyConstructs c (decl ∷ decls)) st) (some_inj e1) (
            HasOne-map (λ c. Constructs c decl) (λ c. AnyConstructs c (decl ∷ decls)) st st1
              (λ c p. inl p) h)
      after (goes_on st1) h e1 ih =
          HasOne-trans (λ c. Constructs c decl) (λ c. AnyConstructs c decls) st st1 st' h
            (ih st1 e1)
