-- ===== src/Scope/Casts.antt =====
-- Which cast function `resolve_cast_func` chooses.
use dachs.Base.{
  ℕ, ◌≡◌, refl, sym, ◌∙◌, ap, ◌⊎◌, inl, inr, ◌≢◌, Bool, true, false, Option, none, some, List, [],
  ◌∷◌, ◌++◌, arith, ◌>>=◌, All,
}
use mathlib.Core.Path.{subst}
use dachs.Base.Defined.{bind-some, some_inj}
use dachs.Types.{AnyType, FuncScope, Store}
use dachs.Types.Equality.{type_eq}
use dachs.Types.Instance.{is_instantiated_from}
use dachs.Scope.{GlobalScope}
use dachs.Scope.Functions.{
  cast_from, Fit, passed, param_fit, exact, instantiated, cast_fit, cast_loop, resolve_cast_func,
}

-- An exact fit is returned, whatever stands before it.
abbrev IsInexact : Fit → Type 0
IsInexact exact = ⊥
IsInexact _ = Unit

module _ (S : Store) (fuel : ℕ) (from to : AnyType) where
  abbrev pub FitsAs : FuncScope → Fit → Type 0
  FitsAs c k = cast_fit S fuel from to c ≡ some k

  abbrev pub IsOther : FuncScope → Type 0
  IsOther c = (k : Fit) × FitsAs c k × (k ≢ exact)

  cast_loop-exact :
      (before after : List FuncScope) (c : FuncScope) (r : Option FuncScope)
      → All IsOther before
      → FitsAs c exact
      → cast_loop S fuel from to (before ++ c ∷ after) r ≡ some (some c)
  unfolding cast_loop
  cast_loop-exact [] after c r h x = simp x
  cast_loop-exact (b ∷ before) after c r ((passed, e, n), h) x =
      simp e (cast_loop-exact before after c r h x)
  cast_loop-exact (b ∷ before) after c r ((instantiated, e, n), h) x =
      simp e (cast_loop-exact before after c (some b) h x)
  cast_loop-exact (b ∷ before) after c r ((exact, e, n), h) x = absurd (n refl)

  cast_loop-Fits :
      (cs : List FuncScope) (r : Option FuncScope) (c : FuncScope)
      → cast_loop S fuel from to cs r ≡ some (some c)
      → (r ≡ some c) ⊎ (FitsAs c exact ⊎ FitsAs c instantiated)
  unfolding cast_loop
  cast_loop-Fits [] r c e = inl (some_inj e)
  cast_loop-Fits (d ∷ cs) r c e =
      let (k, ek, rest) = bind-some (cast_fit S fuel from to d) _ e in
      step k ek rest (cast_loop-Fits cs r c) (cast_loop-Fits cs (some d) c)
    where
      step :
          (k : Fit)
          → FitsAs d k
          → elim k [
            | exact ↦ some (some d)
            | instantiated ↦ cast_loop S fuel from to cs (some d)
            | passed ↦ cast_loop S fuel from to cs r
          ]
            ≡ some (some c)
          → (cast_loop S fuel from to cs r ≡ some (some c)
              → (r ≡ some c) ⊎ (FitsAs c exact ⊎ FitsAs c instantiated))
          → (cast_loop S fuel from to cs (some d) ≡ some (some c)
              → (some d ≡ some c) ⊎ (FitsAs c exact ⊎ FitsAs c instantiated))
          → (r ≡ some c) ⊎ (FitsAs c exact ⊎ FitsAs c instantiated)
      step passed ek e ih ih' = ih e
      step exact ek e ih ih' = inr (inl (subst (λ x. FitsAs x exact) (some_inj (some_inj e)) ek))
      step instantiated ek e ih ih' = elim (ih' e) [
        | inl same ↦ inr (inr (subst (λ x. FitsAs x instantiated) (some_inj same) ek))
        | inr fits ↦ inr fits
      ]

  param_fit_lem :
      (t : AnyType) (k : Fit)
      → param_fit S fuel from t ≡ some k
      → k ≢ passed
      → (type_eq S fuel from t ≡ some true) ⊎ (is_instantiated_from S fuel from t ≡ some true)
  unfolding param_fit
  param_fit_lem t k e n = ground arith

  -- What a function that fits has: the result and the parameter that the cast asks for.
  pub record Casts (c : FuncScope) : Type 0 where
    pub result : AnyType
    pub param : AnyType
    pub has_result : c.ret_type ≡ some result
    pub has_param : cast_from c ≡ some param
    pub same_result : type_eq S fuel to result ≡ some true
    pub fits_param :
        (type_eq S fuel from param ≡ some true)
        ⊎ (is_instantiated_from S fuel from param ≡ some true)

  FitsAs-Casts : (c : FuncScope) (k : Fit) → FitsAs c k → k ≢ passed → Casts c
  unfolding cast_fit
  FitsAs-Casts c k e n =
      let (ret, er, e1) = bind-some c.ret_type _ e in
      let (b, eb, e2) = bind-some (type_eq S fuel to ret) _ e1 in stage ret er b eb e2
    where
      stage :
          (ret : AnyType)
          → c.ret_type ≡ some ret
          → (b : Bool) → type_eq S fuel to ret ≡ some b
          → elim b [ false ↦ some passed | true ↦ cast_from c >>= λ t. param_fit S fuel from t ]
            ≡ some k
          → Casts c
      stage ret er false eb e = absurd (n (sym (some_inj e)))
      stage ret er true eb e =
          let (t, et, e') = bind-some (cast_from c) _ e in
          record {
            result = ret;
            param = t;
            has_result = er;
            has_param = et;
            same_result = eb;
            fits_param = param_fit_lem t k e' n;
          }

module _ (S : Store) (fuel : ℕ) (g : GlobalScope) (from to : AnyType) where
  -- If a cast function fits two types exactly, and those defined before it fit otherwise or
  -- not at all, then it is the one that is found.
  resolve_cast_func-exact :
      (before after : List FuncScope) (c : FuncScope)
      → g.cast_funcs ≡ before ++ c ∷ after
      → All (IsOther S fuel from to) before
      → FitsAs S fuel from to c exact
      → resolve_cast_func S fuel g from to ≡ some (some c)
  unfolding resolve_cast_func
  resolve_cast_func-exact before after c e h x =
      ap (λ cs. cast_loop S fuel from to cs none) e
      ∙ cast_loop-exact S fuel from to before after c none h x

  -- A cast function that is found has a return type that equals the type asked for, and a
  -- first parameter that equals the type that is cast or is a template of it.
  pub resolve_cast_func-Casts :
      (c : FuncScope) → resolve_cast_func S fuel g from to ≡ some (some c) → Casts S fuel from to c
  unfolding resolve_cast_func
  resolve_cast_func-Casts c e = elim (cast_loop-Fits S fuel from to g.cast_funcs none c e) [
    | inl none_ ↦ cc
    | inr (inl x) ↦ FitsAs-Casts S fuel from to c exact x (λ h. cc)
    | inr (inr x) ↦ FitsAs-Casts S fuel from to c instantiated x (λ h. cc)
  ]
