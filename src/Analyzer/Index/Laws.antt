-- ===== src/Analyzer/Index/Laws.antt =====
-- Index accesses that `index_access_analyzer` of src/dachs/semantics/analyzer.cpp lets pass.
use dachs.Base.{
  ℕ, ◌≤◌, String, ◌≡◌, refl, ap, sym, ◌∙◌, inl, inr, Option, none, some, List, length, leb,
  get_elem?, get_elem?-some, Bool-cases, arith,
}
use dachs.Base.Defined.{bind-some, some_inj}
use dachs.Types.{AnyType, VarSymbol, FuncScope, Store}
use dachs.Scope.{Scope}
use dachs.Ast.{
  pos, negsuc, char_value, double_value, bool_value, int_value, uint_value, AnyExpr,
  primary_literal, other_expr,
}
use dachs.ConstFunc.{is_const_violated_invocation}
use dachs.ConstFunc.Violation.{IsViolation, is_const_violated_invocation-IsViolation}
use dachs.Analyzer.Calls.{Resolved, resolved, oops, Definitions, resolve_func_call}
use dachs.Analyzer.Index.{
  IndexAccess, out_of_bounds, Analyzed, set_type, tuple_element, index_tuple, set_return_type,
  after_call, apply_call, analyze_index_operator,
}

-- The expression is a literal with the value `n`, from zero.
abbrev pub IsIndex : AnyExpr → ℕ → Type 0
IsIndex (primary_literal at (int_value (pos m))) n = m ≡ n
IsIndex (primary_literal at (uint_value m)) n = m ≡ n
IsIndex e n = ⊥

-- The node has the type of the element, or an error if there is no such element.
abbrev IsTupleAccess : List AnyType → AnyExpr → IndexAccess → Analyzed → Type 0
IsTupleAccess ts e access (after, none) =
    (n : ℕ) × (t : AnyType) × IsIndex e n
    × (get_elem? ts n ≡ some t)
    × (after ≡ record access { type_of_access = t })
IsTupleAccess ts e access (after, some err) =
    (after ≡ access) × ((n : ℕ) → IsIndex e n → length ts ≤ n)

tuple_element-lem :
    (ts : List AnyType) (m : ℕ) (e : AnyExpr) (access : IndexAccess)
    → IsIndex e m
    → ((n : ℕ) → IsIndex e n → m ≡ n)
    → (r : Analyzed) × (tuple_element ts m access (leb (length ts) m) ≡ some r)
      × IsTupleAccess ts e access r
tuple_element-lem ts m e access is only = elim (Bool-cases (leb (length ts) m)) [
  | inl y ↦ (
    (access, some (out_of_bounds (pos m))),
    rw y refl,
    (refl, λ n h. let same = only n h in ground arith),
  )
  | inr l ↦
      let (t, et) = get_elem?-some ts m (ground arith) in
      (set_type access t, rw (l, et) refl, (m, t, is, et, refl))
]

-- An index access to a tuple has a result for every index expression: the type of the element
-- that an integer literal names, or an error, and then no literal within the tuple's length is
-- given.
index_tuple-IsTupleAccess :
    (ts : List AnyType) (e : AnyExpr) (access : IndexAccess)
    → (r : Analyzed) × (index_tuple ts e access ≡ some r) × IsTupleAccess ts e access r
unfolding index_tuple
index_tuple-IsTupleAccess ts (primary_literal at (int_value (negsuc n))) access =
    (_, refl, (refl, λ m h. absurd h))
index_tuple-IsTupleAccess ts (primary_literal at (int_value (pos n))) access =
    tuple_element-lem ts n (primary_literal at (int_value (pos n))) access refl (λ m h. h)
index_tuple-IsTupleAccess ts (primary_literal at (uint_value n)) access =
    tuple_element-lem ts n (primary_literal at (uint_value n)) access refl (λ m h. h)
index_tuple-IsTupleAccess ts (primary_literal at (char_value n)) access =
    (_, refl, (refl, λ m h. absurd h))
index_tuple-IsTupleAccess ts (primary_literal at (double_value n)) access =
    (_, refl, (refl, λ m h. absurd h))
index_tuple-IsTupleAccess ts (primary_literal at (bool_value n)) access =
    (_, refl, (refl, λ m h. absurd h))
index_tuple-IsTupleAccess ts (other_expr at) access = (_, refl, (refl, λ m h. absurd h))

-- The node after a call that passes: the callee and its return type are set, and the callee
-- does not change an immutable object.
pub record IsCalled (S : Store) (fuel : ℕ) (current_scope : Scope) (defs : Definitions)
    (op : String) (arg_types : List AnyType) (access after : IndexAccess) : Type 0 where
  pub f : FuncScope
  pub resolution : resolve_func_call S fuel current_scope defs op arg_types ≡ some (resolved f)
  pub ret : AnyType
  pub has_return_type : f.ret_type ≡ some ret
  pub node : record access { type_of_access = ret; callee_scope = some f } ≡ after
  pub harmless : IsViolation f f.is_const_ access.child none

after_call-passes :
    (f : FuncScope) (access : IndexAccess) (o : Option VarSymbol) {after : IndexAccess}
    → after_call f access o ≡ (after, none)
    → (o ≡ none) × (set_return_type f.ret_type access ≡ (after, none))
after_call-passes f access (some v) e = cc
after_call-passes f access none e = (refl, e)

apply_call-IsCalled :
    (S : Store) (fuel : ℕ) (current_scope : Scope) (defs : Definitions) (op : String)
    (arg_types : List AnyType) (access : IndexAccess) (r : Resolved) {after : IndexAccess}
    → resolve_func_call S fuel current_scope defs op arg_types ≡ some r
    → apply_call S fuel current_scope defs access r ≡ some (after, none)
    → IsCalled S fuel current_scope defs op arg_types access after
unfolding apply_call
apply_call-IsCalled S fuel current_scope defs op arg_types access (oops err) er e = cc
apply_call-IsCalled S fuel current_scope defs op arg_types access (resolved f) er e =
    let (t, et, e1) = bind-some f.ret_type _ e in
    let (harmless, set) =
      after_call-passes f (record access { type_of_access = t; callee_scope = some f })
        (is_const_violated_invocation f f.is_const_ access.child) (some_inj e1) in
    record {
      f = f;
      resolution = er;
      ret = t;
      has_return_type = et;
      node =
          ap (λ p. p.0)
            (sym (
                ap
                  (λ o.
                    set_return_type o (record access { type_of_access = t; callee_scope = some f }))
                  et)
              ∙ set);
      harmless = is_const_violated_invocation-IsViolation f f.is_const_ access.child none harmless;
    }

-- If an index access by an operator function passes, then the call of the operator is
-- resolved, the node has the callee and its return type, and the callee is no member function,
-- is const, or is called on an object with no immutable variable outside of an index.
pub analyze_index_operator-IsCalled :
    (S : Store) (fuel : ℕ) (current_scope : Scope) (defs : Definitions) (op : String)
    (arg_types : List AnyType) (access : IndexAccess) {after : IndexAccess}
    → analyze_index_operator S fuel current_scope defs op arg_types access ≡ some (after, none)
    → IsCalled S fuel current_scope defs op arg_types access after
unfolding analyze_index_operator
analyze_index_operator-IsCalled S fuel current_scope defs op arg_types access {after} e =
    let (r, er, e1) = bind-some (resolve_func_call S fuel current_scope defs op arg_types) _ e in
    apply_call-IsCalled S fuel current_scope defs op arg_types access r er e1
