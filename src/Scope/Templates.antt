-- ===== src/Scope/Templates.antt =====
-- Which instance of a class template `resolve_class_template` of src/dachs/semantics/scope.cpp
-- finds.
use dachs.Base.{
  ℕ, zero, suc, ◌+◌, arith, refl, ap, ◌∙◌, ◌⊎◌, String, ◌≡◌, inl, inr, true, false, Option, none,
  sym, some, List, [], ◌∷◌, All, any_of, get_elem?, Bool-cases, Option-cases,
}
use mathlib.Core.Path.{subst}
use dachs.Base.Defined.{bind-some, some_inj}
use dachs.Types.{AnyType, VarSymbol, ClassScope, Store, lock}
use dachs.Types.Equality.{type_eq, var_types}
use dachs.Types.Template.{is_template}
use dachs.Scope.{GlobalScope, find_class}
use dachs.Scope.Functions.{specify, has_specified, find_instantiated, resolve_class_template}

-- The instance variable at the index has the type.
pub record HasType (S : Store) (fuel : ℕ) (vars : List VarSymbol) (param : ℕ × AnyType)
    : Type 0 where
  pub variable : VarSymbol
  pub at_index : get_elem? vars param.0 ≡ some variable
  pub same_type : type_eq S fuel variable.ty param.1 ≡ some true

abbrev tail : List VarSymbol → List VarSymbol
tail [] = []
tail (v ∷ vs) = vs

-- The variables of a template and those of its instance, side by side: where the former is a
-- template, the latter has the next of the types that are specified, of which none is left.
abbrev pub Fits : Store → ℕ → List VarSymbol → List VarSymbol → List AnyType → Type 0
Fits S fuel [] vs ts = ts ≡ []
Fits S fuel (s ∷ ss) vs ts =
    ((is_template S fuel s.ty ≡ some false) × Fits S fuel ss (tail vs) ts)
    ⊎ ((is_template S fuel s.ty ≡ some true)
        × ((v : VarSymbol) × (u : AnyType) × (us : List AnyType) × (ts ≡ u ∷ us)
            × (get_elem? vs 0 ≡ some v)
            × (type_eq S fuel v.ty u ≡ some true)
            × Fits S fuel ss (tail vs) us))

-- The class of that name is a template, and the result is one of its instances, in which the
-- template variables in order have the types that are specified.
pub record IsFound (S : Store) (fuel : ℕ) (g : GlobalScope) (name : String)
    (specified : List AnyType) (result : ℕ) : Type 0 where
  pub ref : ℕ
  pub resolved : find_class S name g.classes ≡ some (some ref)
  pub scope : ClassScope
  pub alive : lock S ref ≡ some scope
  pub is_a_template : any_of (is_template S fuel) (var_types scope.instance_var_symbols) ≡ some true
  pub place : ℕ
  pub instantiated : get_elem? scope.instantiated place ≡ some result
  pub instance_scope : ClassScope
  pub instance_alive : lock S result ≡ some instance_scope
  pub same_types :
      Fits S fuel scope.instance_var_symbols instance_scope.instance_var_symbols specified

-- An instance among those of a list, with the types at the indices
abbrev IsInstance : Store → ℕ → List (ℕ × AnyType) → List ℕ → ℕ → Type 0
IsInstance S fuel params refs result =
    (place : ℕ) × (scope : ClassScope) × (get_elem? refs place ≡ some result)
    × (lock S result ≡ some scope)
    × All (HasType S fuel scope.instance_var_symbols) params

get_elem?-tail : (vs : List VarSymbol) (i : ℕ) → get_elem? vs (suc i) ≡ get_elem? (tail vs) i
get_elem?-tail [] i = refl
get_elem?-tail (v ∷ vs) i = refl

pair-some :
    (idx : ℕ) (u : AnyType) (rest : Option (List (ℕ × AnyType))) {ps : List (ℕ × AnyType)}
    → ◌≡◌ {A = Option (List (ℕ × AnyType))}
        (elim rest [ none ↦ none | some qs ↦ some ((idx, u) ∷ qs) ])
        (some ps)
    → (qs : List (ℕ × AnyType)) × (rest ≡ some qs) × (ps ≡ (idx, u) ∷ qs)
pair-some idx u none e = cc
pair-some idx u (some qs) e = (qs, refl, sym (some_inj e))

module _ (S : Store) (fuel : ℕ) where
  has_specified-HasType :
      (vars : List VarSymbol) (ps : List (ℕ × AnyType))
      → has_specified S fuel vars ps ≡ some true
      → All (HasType S fuel vars) ps
  unfolding has_specified
  has_specified-HasType vars [] e = tt
  has_specified-HasType vars ((idx, t) ∷ ps) e =
      let (v, ev, e1) = bind-some (get_elem? vars idx) _ e in
      let (b, eb, e2) = bind-some (type_eq S fuel v.ty t) _ e1 in
      elim (Bool-cases b) [
        | inl y ↦ (
          record { variable = v; at_index = ev; same_type = rw y at eb },
          has_specified-HasType vars ps (rw y at e2),
        )
        | inr n ↦ cc (rw n at e2)
      ]

  find_instantiated-IsInstance :
      (ps : List (ℕ × AnyType)) (refs : List ℕ) (ref : ℕ)
      → find_instantiated S fuel ps refs ≡ some (some ref)
      → IsInstance S fuel ps refs ref
  unfolding find_instantiated
  find_instantiated-IsInstance ps [] ref e = cc
  find_instantiated-IsInstance ps (k ∷ refs) ref e =
      let (c, ec, e1) = bind-some (lock S k) _ e in
      let (b, eb, e2) = bind-some (has_specified S fuel c.instance_var_symbols ps) _ e1 in
      elim (Bool-cases b) [
        | inl y ↦
            subst (IsInstance S fuel ps (k ∷ refs)) (some_inj (some_inj (rw y at e2)))
              (zero, c, refl, ec, has_specified-HasType c.instance_var_symbols ps (rw y at eb))
        | inr n ↦
            let (place, c', at, alive, types) =
              find_instantiated-IsInstance ps refs ref (rw n at e2) in
            (suc place, c', at, alive, types)
      ]

  later :
      (idx : ℕ) (vs vars : List VarSymbol)
      → ((i : ℕ) → get_elem? vars (idx + i) ≡ get_elem? vs i)
      → (i : ℕ) → get_elem? vars (suc idx + i) ≡ get_elem? (tail vs) i
  later idx vs vars at i = ap (get_elem? vars) (omega arith) ∙ at (suc i) ∙ get_elem?-tail vs i

  -- The indices count from that of the first variable in the whole list `vars` on.
  specify-Fits :
      (idx : ℕ) (ss vs vars : List VarSymbol) (ts : List AnyType) {ps : List (ℕ × AnyType)}
      → specify S fuel idx ss ts ≡ some (some ps)
      → ((i : ℕ) → get_elem? vars (idx + i) ≡ get_elem? vs i)
      → All (HasType S fuel vars) ps
      → Fits S fuel ss vs ts
  unfolding specify
  specify-Fits idx [] vs vars [] e at h = refl
  specify-Fits idx [] vs vars (t ∷ ts) e at h = cc
  specify-Fits idx (s ∷ ss) vs vars [] {ps} e at h =
      let (template, et, e1) = bind-some (is_template S fuel s.ty) _ e in
      elim (Bool-cases template) [
        | inl y ↦ cc (rw y at e1)
        | inr n ↦ inl (
          et ∙ ap some n,
          specify-Fits (suc idx) ss (tail vs) vars [] (rw n at e1) (later idx vs vars at) h,
        )
      ]
  specify-Fits idx (s ∷ ss) vs vars (u ∷ us) {ps} e at h =
      let (template, et, e1) = bind-some (is_template S fuel s.ty) _ e in
      elim (Bool-cases template) [
        | inr n ↦ inl (
          et ∙ ap some n,
          specify-Fits (suc idx) ss (tail vs) vars (u ∷ us) (rw n at e1) (later idx vs vars at) h,
        )
        | inl y ↦
            let (rest, er, e2) = bind-some (specify S fuel (suc idx) ss us) _ (rw y at e1) in
            let (qs, eq, same) = pair-some idx u rest (some_inj e2) in
            let (t, types) = subst (All (HasType S fuel vars)) same h in
            inr (
              et ∙ ap some y,
              (
                t.variable,
                u,
                us,
                refl,
                sym (at 0) ∙ ap (get_elem? vars) (omega arith) ∙ t.at_index,
                t.same_type,
                specify-Fits (suc idx) ss (tail vs) vars us (er ∙ ap some eq) (later idx vs vars at)
                    types,
              ),
            )
      ]

-- If an instance of a class template is found, then the class of that name is a template and
-- the result is one of its instances; where a variable of the template has a type that is a
-- template, the variable of the instance at that place has the next of the specified types, of
-- which none is left.
pub resolve_class_template-IsFound :
    (S : Store) (fuel : ℕ) (g : GlobalScope) (name : String) (specified : List AnyType) (result : ℕ)
    → resolve_class_template S fuel g name specified ≡ some (some result)
    → IsFound S fuel g name specified result
unfolding resolve_class_template
resolve_class_template-IsFound S fuel g name specified result e =
    let (ref?, er, e1) = bind-some (find_class S name g.classes) _ e in
    elim (Option-cases ref?) [
      | inl missing ↦ cc (rw missing at e1)
      | inr (ref, is_ref) ↦
          let (c, ec, e2) = bind-some (lock S ref) _ (rw is_ref at e1) in
          let (b, eb, e3) =
            bind-some (any_of (is_template S fuel) (var_types c.instance_var_symbols)) _ e2 in
          elim (Bool-cases b) [
            | inl t ↦
                let (params, ep, e4) =
                  bind-some (specify S fuel 0 c.instance_var_symbols specified) _ (rw t at e3) in
                elim (Option-cases params) [
                  | inl none_ ↦ cc (rw none_ at e4)
                  | inr (ps, some_) ↦
                      let (place, scope', at, alive', types) =
                        find_instantiated-IsInstance S fuel ps c.instantiated result
                          (rw some_ at e4) in
                      record {
                        ref = ref;
                        resolved = rw is_ref at er;
                        scope = c;
                        alive = ec;
                        is_a_template = rw t at eb;
                        place = place;
                        instantiated = at;
                        instance_scope = scope';
                        instance_alive = alive';
                        same_types =
                            specify-Fits S fuel 0 c.instance_var_symbols scope'.instance_var_symbols
                              scope'.instance_var_symbols specified (rw some_ at ep)
                              (λ i. ap (get_elem? scope'.instance_var_symbols) (omega arith)) types;
                      }
                ]
            | inr f ↦ cc (rw f at e3)
          ]
    ]
