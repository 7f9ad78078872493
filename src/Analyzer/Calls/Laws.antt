-- ===== src/Analyzer/Calls/Laws.antt =====
-- What `resolve_func_call` of src/dachs/semantics/analyzer.cpp finds.
use dachs.Base.{
  ℕ, String, eq_iff, ◌≡◌, refl, ap, sym, ◌∙◌, ◌⊎◌, inl, inr, Bool, true, false, Option, none, some,
  List, [], ◌∷◌, Bool-cases, Option-cases,
}
use mathlib.Core.Path.{subst}
use dachs.Base.Defined.{bind-some, some_inj, HasValue}
use dachs.Types.{AnyType, VarSymbol, ClassScope, FuncScope, Store}
use dachs.Scope.{Scope, get_enclosing_func, resolve_func}
use dachs.Scope.Functions.{func_is_template}
use dachs.Scope.Members.{get_receiver_class_scope}
use dachs.Analyzer.Calls.{
  resolved, Definitions, class_of_first, has_name, check_member_func_visibility,
  is_accessible_instance_var, check_accessible, check_return_type, resolve_user_func, instance_of,
  resolve_candidate, resolve_only, resolve_func_call,
}

-- The scope is inside a function of which the first parameter is of a class of the name.
pub record IsInside (S : Store) (current_scope : Scope) (name : String) : Type 0 where
  pub f : FuncScope
  pub enclosing : get_enclosing_func current_scope ≡ some f
  pub c : ClassScope
  pub receiver_class : get_receiver_class_scope S f.params ≡ some c
  pub same_name : c.name ≡ name

has_name-true :
    (name : String) (o : Option ClassScope)
    → has_name name o ≡ true
    → (c : ClassScope) × (o ≡ some c) × (c.name ≡ name)
has_name-true name none e = cc
has_name-true name (some c) e = (c, refl, (eq_iff c.name name).0 e)

-- An instance variable that is found accessible is public, or the scope is inside a function
-- of which the first parameter's class has the name of the variable's class.
pub is_accessible_instance_var-IsInside :
    (S : Store) (current_scope : Scope) (clazz : ClassScope) (v : VarSymbol)
    → is_accessible_instance_var S current_scope clazz v ≡ some true
    → (v.is_public ≡ true) ⊎ IsInside S current_scope clazz.name
unfolding is_accessible_instance_var
is_accessible_instance_var-IsInside S current_scope clazz v e = elim (Bool-cases v.is_public) [
  | inl y ↦ inl y
  | inr n ↦
      let (f, ef, e1) = bind-some (get_enclosing_func current_scope) _ (rw n at e) in
      let (c, ec, same) = has_name-true clazz.name _ (some_inj e1) in
      inr (record { f = f; enclosing = ef; c = c; receiver_class = ec; same_name = same })
]

resolved_inj : {f g : FuncScope} → resolved f ≡ resolved g → f ≡ g
resolved_inj e = cc

module _ (S : Store) (fuel : ℕ) (current_scope : Scope) (defs : Definitions) where
  -- The function may be called in the scope.
  pub record IsVisible (g : FuncScope) : Type 0 where
    pub class_name : String
    pub member_of : class_of_first g.params ≡ some class_name
    pub inside : IsInside S current_scope class_name

  pub record IsCallable (g : FuncScope) : Type 0 where
    pub has_return_type : HasValue g.ret_type
    pub accessible : (defs.is_public g ≡ true) ⊎ IsVisible g

  -- A private member function that passes `check_member_func_visibility` is visible.
  pub IsVisible-lem :
      (f : FuncScope) → check_member_func_visibility S current_scope f ≡ some true → IsVisible f
  unfolding check_member_func_visibility
  IsVisible-lem f e =
      let (name, en, e1) = bind-some (class_of_first f.params) _ e in
      let (h, eh, e2) = bind-some (get_enclosing_func current_scope) _ e1 in
      let (c, ec, same) = has_name-true name _ (some_inj e2) in
      record {
        class_name = name;
        member_of = en;
        inside = record { f = h; enclosing = eh; c = c; receiver_class = ec; same_name = same };
      }

  accessible-lem :
      (f g : FuncScope)
      → check_accessible S fuel current_scope defs f ≡ some (resolved g)
      → (f ≡ g) × ((defs.is_public f ≡ true) ⊎ IsVisible f)
  unfolding check_accessible check_member_func_visibility
  accessible-lem f g e = elim (Bool-cases (defs.is_public f)) [
    | inl y ↦ (cc (rw (y, check_accessible) at e), inl y)
    | inr n ↦
        let (visible, ev, e1) =
          bind-some (check_member_func_visibility S current_scope f) _
            (rw (n, check_accessible) at e) in
        elim (Bool-cases visible) [
          | inl y ↦ (cc (rw y at e1), inr (IsVisible-lem f (ev ∙ ap some y)))
          | inr m ↦ cc (rw m at e1)
        ]
  ]

  return_type-IsCallable :
      (f g : FuncScope) (success : Bool)
      → check_return_type S fuel current_scope defs f success ≡ some (resolved g)
      → IsCallable g
  unfolding check_return_type
  return_type-IsCallable f g false e = cc
  return_type-IsCallable f g true e = elim (Option-cases f.ret_type) [
    | inl n ↦ cc (rw (n, check_return_type) at e)
    | inr (ret, er) ↦
        let (same, ok) = accessible-lem f g (rw (er, check_return_type) at e) in
        subst IsCallable same (record { has_return_type = (ret, er); accessible = ok })
  ]

  pub user_func-IsCallable :
      (f g : FuncScope)
      → resolve_user_func S fuel current_scope defs f ≡ some (resolved g)
      → IsCallable g
  unfolding resolve_user_func
  user_func-IsCallable f g e = elim (Bool-cases (defs.has_return_type f)) [
    | inl y ↦ return_type-IsCallable f g true (rw (y, resolve_user_func) at e)
    | inr n ↦
        let (r, ea, e1) = bind-some (defs.analyze f) _ (rw (n, resolve_user_func) at e) in
        return_type-IsCallable r.1 g r.0 e1
  ]

  -- The function `g` is what the resolution makes of the candidate `f`.
  abbrev pub IsResolution : FuncScope → List AnyType → FuncScope → Type 0
  IsResolution f args g =
      ((f.is_builtin ≡ true) × ((g ≡ f) ⊎ (defs.instantiate_builtin f args ≡ some g)))
      ⊎ ((f.is_builtin ≡ false) × IsCallable g)

  builtin_instance :
      (f g : FuncScope) (args : List AnyType) (template : Bool)
      → instance_of S fuel current_scope defs template defs.instantiate_builtin f args ≡ some g
      → (g ≡ f) ⊎ (defs.instantiate_builtin f args ≡ some g)
  builtin_instance f g args true e = inr e
  builtin_instance f g args false e = inl (sym (some_inj e))

  candidate-IsResolution :
      (f g : FuncScope) (args : List AnyType)
      → resolve_candidate S fuel current_scope defs f args ≡ some (resolved g)
      → IsResolution f args g
  unfolding resolve_candidate
  candidate-IsResolution f g args e =
      let (template, et, e1) = bind-some (func_is_template S fuel f) _ e in
      elim (Bool-cases f.is_builtin) [
        | inl y ↦
            let (ret, er, e2) = bind-some f.ret_type _ (rw y at e1) in
            let (h, eh, e3) =
              bind-some
                (instance_of S fuel current_scope defs template defs.instantiate_builtin f args) _
                e2 in
            inl (y, builtin_instance f g args template (eh ∙ ap some (resolved_inj (some_inj e3))))
        | inr n ↦
            let (h, eh, e3) =
              bind-some (instance_of S fuel current_scope defs template defs.instantiate f args) _
                (rw n at e1) in
            inr (n, user_func-IsCallable h g e3)
      ]

  only-IsResolution :
      (fs : List FuncScope) (args : List AnyType) (g : FuncScope)
      → resolve_only S fuel current_scope defs fs args ≡ some (resolved g)
      → (f : FuncScope) × (fs ≡ f ∷ []) × IsResolution f args g
  unfolding resolve_only
  only-IsResolution [] args g e = cc
  only-IsResolution (f ∷ []) args g e = (f, refl, candidate-IsResolution f g args e)
  only-IsResolution (f ∷ h ∷ fs) args g e = cc

  -- If a call is resolved, then the overload set has one function: a builtin one, which or an
  -- instance of which is the callee, or one of which the callee that results has a return type
  -- and is public or is called inside a function of its first parameter's class.
  pub resolve_func_call-IsResolution :
      (name : String) (args : List AnyType) (g : FuncScope)
      → resolve_func_call S fuel current_scope defs name args ≡ some (resolved g)
      → (f : FuncScope) × (resolve_func S fuel name args current_scope ≡ some (f ∷ []))
        × IsResolution f args g
  unfolding resolve_func_call
  resolve_func_call-IsResolution name args g e =
      let (candidates, ec, e1) = bind-some (resolve_func S fuel name args current_scope) _ e in
      let (f, only, r) = only-IsResolution candidates args g e1 in (f, ec ∙ ap some only, r)
