-- ===== src/Analyzer/Instances/Found.antt =====
-- Instances of class templates that src/dachs/semantics/analyzer.cpp finds.
use dachs.Base.{
  ℕ, ◌≡◌, ap, sym, ◌∙◌, inl, inr, true, Option, none, some, List, [], ◌∷◌, Bool-cases, All,
}
use dachs.Base.Defined.{bind-some, some_inj}
use dachs.Types.{AnyType, VarSymbol, ClassScope, Store, lock}
use dachs.Types.Equality.{type_eq}
use dachs.Analyzer.Instances.{InstantiationMap, find, equals_to_def, find_equal}

module _ (S : Store) (fuel : ℕ) where
  equals_to_def-All :
      (map : InstantiationMap) (decls : List VarSymbol)
      → equals_to_def S fuel map decls ≡ some true
      → All
          (λ v. (t : AnyType) × (find v.name map ≡ some t) × (type_eq S fuel t v.ty ≡ some true))
          decls
  unfolding equals_to_def
  equals_to_def-All map [] e = tt
  equals_to_def-All map (v ∷ vs) e =
      let (t, et, e1) = bind-some (find v.name map) _ e in
      let (same, es, e2) = bind-some (type_eq S fuel t v.ty) _ e1 in
      elim (Bool-cases same) [
        | inl y ↦ ((t, et, es ∙ ap some y), equals_to_def-All map vs (rw y at e2))
        | inr n ↦ cc (rw n at e2)
      ]

  -- The instance is alive, and each of its variables has the type that the map has for its name.
  pub record IsInstance (map : InstantiationMap) (i : ℕ) : Type 0 where
    pub c : ClassScope
    pub alive : lock S i ≡ some c
    pub types :
        All
          (λ v. (t : AnyType) × (find v.name map ≡ some t) × (type_eq S fuel t v.ty ≡ some true))
          c.instance_var_symbols

  find_equal-IsInstance :
      (map : InstantiationMap) (is : List ℕ) (i : ℕ)
      → find_equal S fuel map is ≡ some (some i)
      → IsInstance map i
  unfolding find_equal
  find_equal-IsInstance map [] i e = cc
  find_equal-IsInstance map (j ∷ js) i e =
      let (c, ec, e1) = bind-some (lock S j) _ e in
      let (same, es, e2) = bind-some (equals_to_def S fuel map c.instance_var_symbols) _ e1 in
      elim (Bool-cases same) [
        | inl y ↦
            let here = some_inj (some_inj (rw y at e2)) in
            record {
              c = c;
              alive = ap (λ k. lock S k) (sym here) ∙ ec;
              types = equals_to_def-All map c.instance_var_symbols (es ∙ ap some y);
            }
        | inr n ↦ find_equal-IsInstance map js i (rw n at e2)
      ]

  abbrev pub IsFound : InstantiationMap → Option ℕ → Type 0
  IsFound map none = Unit
  IsFound map (some i) = IsInstance map i

  pub find_equal-IsFound :
      (map : InstantiationMap) (is : List ℕ) (found : Option ℕ)
      → find_equal S fuel map is ≡ some found
      → IsFound map found
  find_equal-IsFound map is none e = tt
  find_equal-IsFound map is (some i) e = find_equal-IsInstance map is i e
