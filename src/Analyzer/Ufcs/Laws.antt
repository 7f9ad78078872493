-- ===== src/Analyzer/Ufcs/Laws.antt =====
-- What an access `a.b` that src/dachs/semantics/analyzer.cpp lets pass is.
use dachs.Base.{
  ℕ, String, ◌≡◌, refl, ◌>>=◌, ap, sym, ◌∙◌, ◌⊎◌, inl, inr, Bool, true, false, Option, none, some,
  [], ◌∷◌, Bool-cases, Option-cases,
}
use mathlib.Core.Path.{subst}
use dachs.Base.Defined.{bind-some, some_inj, some-none}
use dachs.Types.{
  AnyType, is_known, class_type, Types, VarSymbol, ClassScope, FuncScope, Store, lock,
}
use dachs.Scope.{Scope, resolve_func, resolve_instance_var}
use dachs.Scope.Members.{Member, check_member_var, member, oops}
use dachs.ConstFunc.{Tree, is_const_violated_invocation}
use dachs.ConstFunc.Violation.{IsViolation, is_const_violated_invocation-IsViolation}
use dachs.Analyzer.Calls.{
  Definitions, Resolved, resolved, oops, is_accessible_instance_var, resolve_func_call,
}
use dachs.Analyzer.Calls.Laws.{
  IsInside, IsResolution, is_accessible_instance_var-IsInside, resolve_func_call-IsResolution,
}
use dachs.Analyzer.Ufcs.{
  UfcsInvocation, Access, accessible, no_access, access_instance_var, call_member, unless_assigned,
  access_other, after_access, visit_ufcs, ufcs_calls, ufcs_fails, not_callable, bad_member,
  accesses,
}

module _ (S : Store) (fuel : ℕ) (current_scope : Scope) (defs : Definitions) where
  -- The variable is one of the class of the type, and may be accessed in the scope.
  pub record IsInstanceVar (name : String) (t : AnyType) (v : VarSymbol) : Type 0 where
    pub class_name : String
    pub ref : ℕ
    pub params : Types
    pub clazz : ClassScope
    pub of_class : t ≡ class_type class_name ref params
    pub locked : lock S ref ≡ some clazz
    pub found : resolve_instance_var name clazz ≡ some v
    pub may_access : (v.is_public ≡ true) ⊎ IsInside S current_scope clazz.name

  -- The function is what `name(a)` calls, and it does not modify an immutable `a`.
  pub record IsUfcsCall (name : String) (t : AnyType) (child : Tree) (f : FuncScope) : Type 0 where
    pub candidate : FuncScope
    pub only : resolve_func S fuel name (t ∷ []) current_scope ≡ some (candidate ∷ [])
    pub resolution : IsResolution S fuel current_scope defs candidate (t ∷ []) f
    pub keeps_const : IsViolation f f.is_const_ child none

  -- What an access is that passes: of an instance variable, of a member that the compiler
  -- knows, or a call.
  abbrev pub IsMemberAccess : Bool → String → AnyType → Tree → UfcsInvocation → Type 0
  IsMemberAccess is_assign name t child u =
      ((v : VarSymbol) × (u.type_of_expr ≡ v.ty) × IsInstanceVar name t v)
      ⊎ ((check_member_var name t ≡ some (member u.type_of_expr))
          × (is_known u.type_of_expr ≡ true))
      ⊎ ((f : FuncScope) × (is_assign ≡ false)
          × (u.callee_scope ≡ some f)
          × (f.ret_type ≡ some u.type_of_expr)
          × IsUfcsCall name t child f)

  accessible_inj : {v w : VarSymbol} → accessible v ≡ accessible w → v ≡ w
  accessible_inj e = cc

  access-IsInstanceVar :
      (name : String) (t : AnyType) {v : VarSymbol}
      → access_instance_var S fuel current_scope defs name t ≡ some (accessible v)
      → IsInstanceVar name t v
  unfolding access_instance_var
  access-IsInstanceVar name (class_type n ref qs) {v} e =
      let (c, ec, e1) = bind-some (lock S ref) _ e in
      elim (Option-cases (resolve_instance_var name c)) [
        | inl missing ↦ cc (rw missing at e1)
        | inr (w, ew) ↦
            let (ok, eo, e2) =
              bind-some (is_accessible_instance_var S current_scope c w) _ (rw ew at e1) in
            elim (Bool-cases ok) [
              | inr m ↦ cc (rw m at e2)
              | inl y ↦
                  let same = accessible_inj (some_inj (rw y at e2)) in
                  record {
                    class_name = n;
                    ref = ref;
                    params = qs;
                    clazz = c;
                    of_class = refl;
                    locked = ec;
                    found = ew ∙ ap some same;
                    may_access =
                        subst (λ x. (x.is_public ≡ true) ⊎ IsInside S current_scope c.name) same
                          (is_accessible_instance_var-IsInside S current_scope c w
                            (eo ∙ ap some y));
                  }
            ]
      ]
  access-IsInstanceVar name t e = cc

  calls-keeps_const :
      (f : FuncScope) (t : AnyType) (child : Tree) (r : Option VarSymbol)
      → (ufcs_calls f t r).error ≡ none
      → is_const_violated_invocation f f.is_const_ child ≡ r
      → ((ufcs_calls f t r).callee_scope ≡ some f)
        × ((ufcs_calls f t r).type_of_expr ≡ t)
        × IsViolation f f.is_const_ child none
  calls-keeps_const f t child none ok e =
      (refl, refl, is_const_violated_invocation-IsViolation f f.is_const_ child none e)
  calls-keeps_const f t child (some v) ok e = absurd (some-none ok)

  call_member-IsUfcsCall :
      (name : String) (t : AnyType) (child : Tree) (rejected : Bool) {u : UfcsInvocation}
      → call_member S fuel current_scope defs name t child rejected ≡ some u
      → u.error ≡ none
      → (f : FuncScope) × (u.callee_scope ≡ some f)
        × (f.ret_type ≡ some u.type_of_expr)
        × IsUfcsCall name t child f
  unfolding call_member
  call_member-IsUfcsCall name t child rejected {u} e ok =
      let (r, er, e1) = bind-some (resolve_func_call S fuel current_scope defs name (t ∷ [])) _ e in
      after r er e1
    where
      after :
          (r : Resolved)
          → resolve_func_call S fuel current_scope defs name (t ∷ []) ≡ some r
          → elim r [
            | oops x ↦ some (ufcs_fails (not_callable x rejected))
            | resolved f ↦ f.ret_type >>= λ ret.
                some (ufcs_calls f ret (is_const_violated_invocation f f.is_const_ child))
          ]
            ≡ some u
          → (f : FuncScope) × (u.callee_scope ≡ some f)
            × (f.ret_type ≡ some u.type_of_expr)
            × IsUfcsCall name t child f
      after (oops x) er e1 = absurd (some-none (ap (λ w. w.error) (some_inj e1) ∙ ok))
      after (resolved f) er e1 =
          let (ret, et, e2) = bind-some f.ret_type _ e1 in
          let same = some_inj e2 in
          let (callee, ty, keeps) =
            calls-keeps_const f ret child _ (ap (λ w. w.error) same ∙ ok) refl in
          let (c, only, res) =
            resolve_func_call-IsResolution S fuel current_scope defs name (t ∷ []) f er in
          (
            f,
            ap (λ w. w.callee_scope) (sym same) ∙ callee,
            et ∙ ap some (sym ty ∙ ap (λ w. w.type_of_expr) same),
            record { candidate = c; only = only; resolution = res; keeps_const = keeps },
          )

  access_other-IsMemberAccess :
      (is_assign : Bool) (name : String) (t : AnyType) (child : Tree) (rejected : Bool)
      {u : UfcsInvocation}
      → access_other S fuel current_scope defs is_assign name t child rejected ≡ some u
      → u.error ≡ none
      → IsMemberAccess is_assign name t child u
  unfolding access_other
  access_other-IsMemberAccess is_assign name t child rejected {u} e ok =
      let (m, em, e1) = bind-some (check_member_var name t) _ e in after m em e1
    where
      unassigned :
          (b : Bool)
          → unless_assigned S fuel current_scope defs b name t child rejected ≡ some u
          → IsMemberAccess b name t child u
      unassigned true e1 = absurd (some-none (ap (λ w. w.error) (some_inj e1) ∙ ok))
      unassigned false e1 =
          let (f, callee, ty, call) = call_member-IsUfcsCall name t child rejected e1 ok in
          inr (inr (f, refl, callee, ty, call))

      after :
          (m : Member)
          → check_member_var name t ≡ some m
          → elim m [
            | oops ↦ some (ufcs_fails (bad_member t))
            | member x ↦ elim (is_known x) [
              | true ↦ some (accesses x)
              | false ↦ unless_assigned S fuel current_scope defs is_assign name t child rejected
            ]
          ]
            ≡ some u
          → IsMemberAccess is_assign name t child u
      after oops em e1 = absurd (some-none (ap (λ w. w.error) (some_inj e1) ∙ ok))
      after (member x) em e1 = elim (Bool-cases (is_known x)) [
        | inl y ↦
            let same = ap (λ w. w.type_of_expr) (some_inj (rw y at e1)) in
            inr (inl (em ∙ ap (λ z. some (member z)) same, ap is_known (sym same) ∙ y))
        | inr n ↦ unassigned is_assign (rw n at e1)
      ]

  -- If the visit of an access `a.b` with an `a` of a known type reports no error, then its
  -- type is that of an instance variable that is public or accessed inside a function of the
  -- class, or of a member that the compiler knows, or nothing is assigned and `b(a)` is
  -- resolved to a callee with that return type, which is no member function, or is const, or
  -- every variable of `a` outside of an index is mutable.
  pub visit_ufcs-IsMemberAccess :
      (is_assign : Bool) (name : String) (t : AnyType) (child : Tree) {u : UfcsInvocation}
      → is_known t ≡ true
      → visit_ufcs S fuel current_scope defs is_assign name t child ≡ some u
      → u.error ≡ none
      → IsMemberAccess is_assign name t child u
  unfolding visit_ufcs
  visit_ufcs-IsMemberAccess is_assign name t child {u} known e ok =
      let (a, ea, e1) =
        bind-some (access_instance_var S fuel current_scope defs name t) _
          (rw (known, visit_ufcs) at e) in
      after a ea e1
    where
      after :
          (a : Access)
          → access_instance_var S fuel current_scope defs name t ≡ some a
          → after_access S fuel current_scope defs is_assign name t child a ≡ some u
          → IsMemberAccess is_assign name t child u
      after (accessible v) ea e1 =
          inl (v, ap (λ w. w.type_of_expr) (sym (some_inj e1)), access-IsInstanceVar name t ea)
      after (no_access rejected) ea e1 =
          access_other-IsMemberAccess is_assign name t child rejected e1 ok
