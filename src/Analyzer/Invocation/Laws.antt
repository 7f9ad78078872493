-- ===== src/Analyzer/Invocation/Laws.antt =====
-- What a call of a value that src/dachs/semantics/analyzer.cpp lets pass is.
use dachs.Base.{
  ℕ, ◌>>=◌, ◌≡◌, refl, ap, sym, ◌∙◌, ◌⊎◌, inl, inr, Bool, true, false, not, ◌&&◌, ◌||◌, Option,
  none, some, List, [], ◌∷◌, Bool-cases, nil_of_append, all_b,
}
use dachs.Base.Defined.{bind-some, some_inj}
use dachs.Types.{
  AnyType, is_known, empty, builtin_type, class_type, tuple_type, func_type, generic_func_type,
  array_type, pointer_type, qualified_type, template_type, to_list, to_option, VarSymbol, FuncScope,
  Store,
}
use dachs.Scope.{Scope, resolve_func}
use dachs.Scope.Functions.{func_is_template, is_main_func}
use dachs.ConstFunc.{is_const_func}
use dachs.ConstFunc.Violation.{IsViolation, is_const_violated_invocation-IsViolation}
use dachs.Analyzer.Calls.{Definitions, Resolved, resolved, oops, resolve_func_call}
use dachs.Analyzer.Calls.Laws.{IsResolution, resolve_func_call-IsResolution}
use dachs.Analyzer.Invocation.{
  CallArgument, type_of_callee, FuncInvocation, arg_types, violation, const_errors, main_errors,
  refer_instance, call_resolved, call_generic, call_value, visit_known, visit_func_invocation,
  visit_instance_var_invocation,
}
use dachs.Analyzer.Invocation.Redirect.{IsRedirect, visit_instance_var_invocation-IsRedirect}
use dachs.Analyzer.Invocation.Values.{CallsType, func_type-SameTypes}

-- The callee modifies no immutable first argument.
abbrev pub KeepsConst : FuncScope → List CallArgument → Type 0
KeepsConst g [] = (g.is_member_func ≡ false) ⊎ (is_const_func g.is_const_ ≡ true)
KeepsConst g (a ∷ args) = IsViolation g g.is_const_ a.expr none

const_errors-none : (g : FuncScope) (o : Option VarSymbol) → const_errors g o ≡ [] → o ≡ none
const_errors-none g none e = refl
const_errors-none g (some v) e = cc

main_errors-none : (f : FuncScope) → main_errors f ≡ [] → is_main_func f ≡ false
main_errors-none f e = elim (Bool-cases (is_main_func f)) [ inl y ↦ cc (rw y at e) | inr n ↦ n ]

may_call : (m c : Bool) → not m || c ≡ true → (m ≡ false) ⊎ (c ≡ true)
may_call false c e = inl refl
may_call true c e = inr e

violation-KeepsConst :
    (g : FuncScope) (args : List CallArgument) → violation g args ≡ some none → KeepsConst g args
unfolding violation
violation-KeepsConst g [] e =
    elim (Bool-cases (not g.is_member_func || is_const_func g.is_const_)) [
      | inl y ↦ may_call g.is_member_func (is_const_func g.is_const_) y
      | inr n ↦ cc (rw n at e)
    ]
violation-KeepsConst g (a ∷ args) e =
    is_const_violated_invocation-IsViolation g g.is_const_ a.expr none (some_inj e)

refer_instance-keeps :
    (b : Bool) (g : FuncScope) (node : FuncInvocation)
    → ((refer_instance b g node).type_of_expr ≡ node.type_of_expr)
      × ((refer_instance b g node).callee_scope ≡ node.callee_scope)
refer_instance-keeps false g node = (refl, refl)
refer_instance-keeps true g node = (refl, refl)

module _ (S : Store) (fuel : ℕ) (current_scope : Scope) (defs : Definitions) where
  module _ (func_of : ℕ → Option FuncScope) where
    -- A call of a function that is not `main`, by its name
    pub record CallsFunction (node after : FuncInvocation) : Type 0 where
      pub ref : ℕ
      pub of_generic : type_of_callee node.child ≡ generic_func_type (some ref)
      pub referred : FuncScope
      pub refers : func_of ref ≡ some referred
      pub not_main : is_main_func referred ≡ false
      pub candidate : FuncScope
      pub only :
          resolve_func S fuel referred.name (arg_types node.args) current_scope
          ≡ some (candidate ∷ [])
      pub callee : FuncScope
      pub resolution : IsResolution S fuel current_scope defs candidate (arg_types node.args) callee
      pub calls : after.callee_scope ≡ some callee
      pub gives : callee.ret_type ≡ some after.type_of_expr
      pub keeps_const : KeepsConst callee node.args

    abbrev pub IsCall : FuncInvocation → FuncInvocation → Type 0
    IsCall node after =
        CallsType S fuel current_scope defs (type_of_callee node.child) node.args after.type_of_expr
        ⊎ CallsFunction node after

    resolved-CallsFunction :
        (node : FuncInvocation) (ref : ℕ) (f : FuncScope) {after : FuncInvocation}
        → type_of_callee node.child ≡ generic_func_type (some ref)
        → func_of ref ≡ some f
        → (r : Resolved)
        → resolve_func_call S fuel current_scope defs f.name (arg_types node.args) ≡ some r
        → call_resolved S fuel current_scope defs func_of node f r ≡ some (after, [])
        → CallsFunction node after
    unfolding call_resolved
    resolved-CallsFunction node ref f of_ref ef (oops x) er e = cc
    resolved-CallsFunction node ref f {after} of_ref ef (resolved g) er e =
        let (t, et, e1) = bind-some g.ret_type _ e in
        let (template, em, e2) = bind-some (func_is_template S fuel f) _ e1 in
        let (o, eo, e3) = bind-some (violation g node.args) _ e2 in
        let called = record node { type_of_expr = t; callee_scope = some g } in
        let same = some_inj e3 in
        let (no_violation, no_main) =
          nil_of_append (const_errors g o) (main_errors f) (ap (λ w. w.1) same) in
        let (keeps_type, keeps_callee) = refer_instance-keeps template g called in
        let (c, only, resolution) =
          resolve_func_call-IsResolution S fuel current_scope defs f.name (arg_types node.args) g
            er in
        record {
          ref = ref;
          of_generic = of_ref;
          referred = f;
          refers = ef;
          not_main = main_errors-none f no_main;
          candidate = c;
          only = only;
          callee = g;
          resolution = resolution;
          calls = sym (ap (λ w. w.0.callee_scope) same) ∙ keeps_callee;
          gives = et ∙ ap some (sym keeps_type ∙ ap (λ w. w.0.type_of_expr) same);
          keeps_const =
              violation-KeepsConst g node.args (eo ∙ ap some (const_errors-none g o no_violation));
        }

    generic-CallsFunction :
        (node : FuncInvocation) (o : Option ℕ) {after : FuncInvocation}
        → type_of_callee node.child ≡ generic_func_type o
        → call_generic S fuel current_scope defs func_of node o ≡ some (after, [])
        → CallsFunction node after
    unfolding call_generic
    generic-CallsFunction node none of_ref e = cc
    generic-CallsFunction node (some ref) of_ref e =
        let (f, ef, e1) = bind-some (func_of ref) _ e in
        let (r, er, e2) =
          bind-some (resolve_func_call S fuel current_scope defs f.name (arg_types node.args)) _
            e1 in
        resolved-CallsFunction node ref f of_ref ef r er e2

    value-IsCall :
        (node : FuncInvocation) (t : AnyType) {after : FuncInvocation}
        → type_of_callee node.child ≡ t
        → call_value S fuel current_scope defs func_of node t ≡ some (after, [])
        → IsCall node after
    unfolding call_value
    value-IsCall node (func_type ps ret omitted) et e =
        let (takes, gives) =
          func_type-SameTypes S fuel current_scope defs node (to_list ps) (to_option ret) e in
        inl (record {
          params = ps;
          ret = ret;
          omitted = omitted;
          of_func = et;
          takes = takes;
          gives = gives;
        })
    value-IsCall node (generic_func_type o) et e = inr (generic-CallsFunction node o et e)
    value-IsCall node empty et e = cc
    value-IsCall node (builtin_type n) et e = cc
    value-IsCall node (class_type n ref ps) et e = cc
    value-IsCall node (tuple_type ts) et e = cc
    value-IsCall node (array_type u n) et e = cc
    value-IsCall node (pointer_type u) et e = cc
    value-IsCall node (qualified_type q u) et e = cc
    value-IsCall node (template_type n) et e = cc

    -- Whether the types of the callee and of the arguments are known
    abbrev pub has_types : FuncInvocation → Bool
    has_types node = is_known (type_of_callee node.child) && all_b is_known (arg_types node.args)

    known-IsCall :
        (node : FuncInvocation) {after : FuncInvocation}
        → visit_known S fuel current_scope defs func_of node ≡ some (after, [])
        → (has_types node ≡ false) ⊎ IsCall node after
    unfolding visit_known
    known-IsCall node e = elim (Bool-cases (has_types node)) [
      | inl y ↦ inr (value-IsCall node (type_of_callee node.child) refl (rw (y, visit_known) at e))
      | inr n ↦ inl n
    ]

    -- What a call is that passes, after the access to an instance variable may have taken the
    -- place of the callee
    pub record IsPassedCall (node after : FuncInvocation) : Type 0 where
      pub called : FuncInvocation
      pub redirected : IsRedirect S node called
      pub passes : (has_types called ≡ false) ⊎ IsCall called after

    -- If the visit of a call reports no error, then the call is as it is written, or it is
    -- written `a.f(...)`, the class of `a` has an instance variable `f` of a generic function
    -- type, and the call is one of that variable on the other arguments; and a type of the
    -- callee or of an argument is unknown, or the callee is of a function type that is written
    -- out, whose parameters have the types of the arguments one by one, and the type of the
    -- call is its return type, or the callee refers to a function that is not `main`, of whose
    -- name the overload set for the arguments has one function, the callee results from that,
    -- the type of the call is its return type, and it is no member function, or const, or
    -- called on an expression of which the variables outside of an index are mutable.
    pub visit_func_invocation-IsPassedCall :
        (node : FuncInvocation) {after : FuncInvocation}
        → visit_func_invocation S fuel current_scope defs func_of node ≡ some (after, [])
        → IsPassedCall node after
    unfolding visit_func_invocation
    visit_func_invocation-IsPassedCall node {after} e = go node.is_ufcs refl e
      where
        go :
            (b : Bool)
            → node.is_ufcs ≡ b
            → elim b [
              | true ↦ visit_instance_var_invocation S node >>= λ node'.
                  visit_known S fuel current_scope defs func_of node'
              | false ↦ visit_known S fuel current_scope defs func_of node
            ]
              ≡ some (after, [])
            → IsPassedCall node after
        go false eb e1 = record {
          called = node;
          redirected = inl refl;
          passes = known-IsCall node e1;
        }
        go true eb e1 =
            let (called, ec, e2) = bind-some (visit_instance_var_invocation S node) _ e1 in
            record {
              called = called;
              redirected = visit_instance_var_invocation-IsRedirect S node eb ec;
              passes = known-IsCall called e2;
            }
