-- ===== src/Analyzer/Invocation/Values.antt =====
-- The calls of values in src/dachs/semantics/analyzer.cpp whose function type is written out.
use dachs.Base.{
  ℕ, suc, ◌≡◌, refl, ap, ◌∙◌, inl, inr, Bool, true, Option, none, some, List, [], ◌∷◌, Bool-cases,
  Option-cases, length, ◌==◌, ==_iff, arith,
}
use dachs.Base.Defined.{bind-some, some_inj}
use dachs.Types.{AnyType, func_type, MaybeType, Types, to_list, to_option, Store}
use dachs.Types.Equality.{type_eq}
use dachs.Scope.{Scope}
use dachs.Analyzer.Calls.{Definitions}
use dachs.Analyzer.Invocation.{CallArgument, FuncInvocation, arg_types, check_args, call_func_type}

length-types : (args : List CallArgument) → length (arg_types args) ≡ length args
length-types [] = refl
length-types (a ∷ args) = ap suc (length-types args)

module _ (S : Store) (fuel : ℕ) (current_scope : Scope) (defs : Definitions) where
  -- As many types, which are equal one by one
  abbrev pub SameTypes : List AnyType → List AnyType → Type 0
  SameTypes [] [] = Unit
  SameTypes (a ∷ args) (p ∷ ps) = (type_eq S fuel a p ≡ some true) × SameTypes args ps
  SameTypes _ _ = ⊥

  args-SameTypes :
      (i : ℕ) (args ps : List AnyType)
      → length args ≡ length ps
      → check_args S fuel current_scope defs i args ps ≡ some none
      → SameTypes args ps
  unfolding check_args
  args-SameTypes i [] [] same e = tt
  args-SameTypes i [] (p ∷ ps) same e = cc
  args-SameTypes i (a ∷ args) [] same e = cc
  args-SameTypes i (a ∷ args) (p ∷ ps) same e =
      let (b, eb, e1) = bind-some (type_eq S fuel a p) _ e in
      elim (Bool-cases b) [
        | inr n ↦ cc (rw n at e1)
        | inl y ↦ (
          eb ∙ ap some y,
          args-SameTypes (suc i) args ps (omega (arith, same)) (rw (y, check_args) at e1),
        )
      ]

  -- A call of a value whose function type is written out
  pub record CallsType (t : AnyType) (args : List CallArgument) (u : AnyType) : Type 0 where
    pub params : Types
    pub ret : MaybeType
    pub omitted : Bool
    pub of_func : t ≡ func_type params ret omitted
    pub takes : SameTypes (arg_types args) (to_list params)
    pub gives : to_option ret ≡ some u

  pub func_type-SameTypes :
      (node : FuncInvocation) (ps : List AnyType) (ret : Option AnyType) {after : FuncInvocation}
      → call_func_type S fuel current_scope defs node ps ret ≡ some (after, [])
      → SameTypes (arg_types node.args) ps × (ret ≡ some after.type_of_expr)
  unfolding call_func_type
  func_type-SameTypes node ps ret {after} e = elim (Bool-cases (length node.args == length ps)) [
    | inr n ↦ cc (rw (n, call_func_type) at e)
    | inl y ↦
        let (r, er, e1) =
          bind-some (check_args S fuel current_scope defs 0 (arg_types node.args) ps) _
            (rw (y, call_func_type) at e) in
        elim (Option-cases r) [
          | inr (x, ex) ↦ cc (rw ex at e1)
          | inl n ↦
              let (t, et, e2) = bind-some ret _ (rw n at e1) in
              (
                args-SameTypes 0 (arg_types node.args) ps
                    (length-types node.args ∙ (==_iff _ _).0 y) (er ∙ ap some n),
                et ∙ ap some (ap (λ w. w.0.type_of_expr) (some_inj e2)),
              )
        ]
  ]
