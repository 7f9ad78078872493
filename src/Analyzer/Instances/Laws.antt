-- ===== src/Analyzer/Instances/Laws.antt =====
-- The types of an instance of a class template in src/dachs/semantics/analyzer.cpp.
use dachs.Base.{
  ℕ, String, str_eq, eq_iff, eq_refl, ◌≡◌, refl, ap, sym, ◌∙◌, inl, inr, Bool, true, false, Option,
  none, some, List, [], ◌∷◌, length, is_empty, require, if◌then◌else◌, Bool-cases, All, ◌==◌,
}
use mathlib.Core.Path.{subst}
use dachs.Base.Defined.{bind-some, some_inj}
use dachs.Types.{AnyType, is_template_type, VarSymbol, ClassScope, Store}
use dachs.Types.Equality.{var_types, fill_params}
use dachs.Types.Template.{is_template}
use dachs.Analyzer.Instances.Found.{IsFound, find_equal-IsFound}
use dachs.Analyzer.Instances.{
  InstantiationMap, put, find, already_instantiated, substitute_vars, next_specified, put_specified,
  num_templates, generate_instantiation_map, instantiation, specify_instantiation,
}

find-put :
    (name : String) (t : AnyType) (map : InstantiationMap) → find name (put name t map) ≡ some t
unfolding find put
find-put name t [] = rw (eq_refl name) refl
find-put name t ((key, u) ∷ map) = elim (Bool-cases (str_eq key name)) [
  | inl y ↦ rw (y, find, eq_refl name) refl
  | inr n ↦ rw (n, find, n) (find-put name t map)
]

find-put_other :
    (name other : String) (t : AnyType) (map : InstantiationMap)
    → str_eq other name ≡ false
    → find name (put other t map) ≡ find name map
unfolding find put
find-put_other name other t [] o = rw o refl
find-put_other name other t ((key, u) ∷ map) o = elim (Bool-cases (str_eq key other)) [
  | inl y ↦
      let key_other = ap (λ k. str_eq k name) ((eq_iff key other).0 y) ∙ o in
      rw (y, find, o, key_other) refl
  | inr n ↦ elim (Bool-cases (str_eq key name)) [
    | inl y ↦ rw (n, find, y) refl
    | inr m ↦ rw (n, find, m) (find-put_other name other t map o)
  ]
]

-- The names of the variables are distinct.
abbrev pub IsDistinctNames : List VarSymbol → Type 0
IsDistinctNames [] = Unit
IsDistinctNames (s ∷ ss) = All (λ r. str_eq r.name s.name ≡ false) ss × IsDistinctNames ss

-- Only a template type itself is a template among the types of the variables.
abbrev pub IsPlain : Store → ℕ → VarSymbol → Type 0
IsPlain S fuel s = is_template S fuel s.ty ≡ some (is_template_type s.ty)

require-fill :
    {A : Type 0} (b : Bool) {u : Unit {0}}
    → require b ≡ some u
    → ◌≡◌ {A = Option (List A)} (if b then some [] else none) (some [])
require-fill true e = refl
require-fill false e = cc

-- A loop that keeps what is found under a name
abbrev KeepsName : String → (List AnyType → InstantiationMap → Option InstantiationMap) → Type 0
KeepsName name rest =
    (ps : List AnyType) (map map' : InstantiationMap)
    → rest ps map ≡ some map'
    → find name map' ≡ find name map

next_specified-KeepsName :
    (rest : List AnyType → InstantiationMap → Option InstantiationMap) (template : Bool)
    (name other : String)
    → str_eq other name ≡ false
    → KeepsName name rest
    → KeepsName name (next_specified rest template other)
next_specified-KeepsName rest true name other o h [] map map' e = cc
next_specified-KeepsName rest true name other o h (p ∷ ps) map map' e =
    h ps (put other p map) map' e ∙ find-put_other name other p map o
next_specified-KeepsName rest false name other o h ps map map' e = h ps map map' e

instantiation_inj :
    {m n : InstantiationMap} {f g : Option ℕ}
    → instantiation m f ≡ instantiation n g
    → (m ≡ n) × (f ≡ g)
instantiation_inj e = (cc, cc)

module _ (S : Store) (fuel : ℕ) where
  put_specified-KeepsName :
      (ss : List VarSymbol) (name : String)
      → All (λ r. str_eq r.name name ≡ false) ss
      → KeepsName name (put_specified S fuel ss)
  unfolding put_specified
  put_specified-KeepsName [] name h ps map map' e =
      let (u, eu, e1) = bind-some (require (is_empty ps)) _ e in ap (find name) (sym (some_inj e1))
  put_specified-KeepsName (s ∷ ss) name h ps map map' e =
      let (template, et, e1) = bind-some (is_template S fuel s.ty) _ e in
      next_specified-KeepsName (put_specified S fuel ss) template name s.name h.0
        (put_specified-KeepsName ss name h.1) ps map map' e1

  -- The substitution in the variables gives the types with the parameters filled in.
  abbrev pub IsFilled : List VarSymbol → List AnyType → InstantiationMap → Type 0
  IsFilled ss ps map =
      (filled : List VarSymbol) × (substitute_vars S fuel map ss ≡ some filled)
      × (fill_params ss ps ≡ some (var_types filled))

  template-IsFilled :
      (s : VarSymbol) (ss : List VarSymbol) (ps : List AnyType) (map map' : InstantiationMap)
      → IsPlain S fuel s
      → is_template_type s.ty ≡ true
      → All (λ r. str_eq r.name s.name ≡ false) ss
      → next_specified (put_specified S fuel ss) true s.name ps map ≡ some map'
      → ((qs : List AnyType) (map₁ : InstantiationMap)
          → put_specified S fuel ss qs map₁ ≡ some map'
          → IsFilled ss qs map')
      → IsFilled (s ∷ ss) ps map'
  unfolding substitute_vars fill_params
  template-IsFilled s ss [] map map' plain y h e ih = cc
  template-IsFilled s ss (p ∷ ps) map map' plain y h e ih =
      let value =
        put_specified-KeepsName ss s.name h ps (put s.name p map) map' e ∙ find-put s.name p map in
      let (filled, es, ef) = ih ps (put s.name p map) e in
      (record s { ty = p } ∷ filled, rw (plain, y, value, es) refl, rw (y, fill_params, ef) refl)

  first-IsFilled :
      (s : VarSymbol) (ss : List VarSymbol) (ps : List AnyType) (map map' : InstantiationMap)
      → IsPlain S fuel s
      → All (λ r. str_eq r.name s.name ≡ false) ss
      → next_specified (put_specified S fuel ss) (is_template_type s.ty) s.name ps map ≡ some map'
      → ((qs : List AnyType) (map₁ : InstantiationMap)
          → put_specified S fuel ss qs map₁ ≡ some map'
          → IsFilled ss qs map')
      → IsFilled (s ∷ ss) ps map'
  unfolding substitute_vars fill_params
  first-IsFilled s ss ps map map' plain h e ih = elim (Bool-cases (is_template_type s.ty)) [
    | inl y ↦ template-IsFilled s ss ps map map' plain y h (rw y at e) ih
    | inr n ↦
        let (filled, es, ef) = ih ps map (rw n at e) in
        (s ∷ filled, rw (plain, n, es) refl, rw (n, fill_params, ef) refl)
  ]

  -- Filled.
  pub put_specified-IsFilled :
      (ss : List VarSymbol) (ps : List AnyType) (map map' : InstantiationMap)
      → All (IsPlain S fuel) ss
      → IsDistinctNames ss
      → put_specified S fuel ss ps map ≡ some map'
      → IsFilled ss ps map'
  unfolding put_specified substitute_vars fill_params
  put_specified-IsFilled [] ps map map' plain d e =
      let (u, eu, e1) = bind-some (require (is_empty ps)) _ e in
      ([], refl, require-fill (is_empty ps) eu)
  put_specified-IsFilled (s ∷ ss) ps map map' plain d e =
      let (template, et, e1) = bind-some (is_template S fuel s.ty) _ e in
      let same = some_inj (sym plain.0 ∙ et) in
      first-IsFilled s ss ps map map' plain.0 d.0
        (ap (λ b. next_specified (put_specified S fuel ss) b s.name ps map) same ∙ e1)
        (λ qs map₁ e2. put_specified-IsFilled ss qs map₁ map' plain.1 d.1 e2)

  -- If the names of the variables of a class are distinct, and none has a type that is a
  -- template but no template type itself, and types are specified in the right number, then
  -- the map that results substitutes for the variables the types that `instance_var_types_of`
  -- gives for these parameters; an instance that is found is alive and its variables have the
  -- types of the map.
  pub specify_instantiation-IsFilled :
      (scope : ClassScope) (specified : List AnyType) {map : InstantiationMap} {found : Option ℕ}
      → All (IsPlain S fuel) scope.instance_var_symbols
      → IsDistinctNames scope.instance_var_symbols
      → specify_instantiation S fuel scope specified ≡ some (instantiation map found)
      → IsFilled scope.instance_var_symbols specified map × IsFound S fuel map found
  unfolding specify_instantiation already_instantiated
  specify_instantiation-IsFilled scope specified {map} {found} plain distinct e =
      let (n, en, e1) = bind-some (num_templates S fuel scope.instance_var_symbols) _ e in
      elim (Bool-cases (length specified == n)) [
        | inr m ↦ cc (rw m at e1)
        | inl y ↦
            let (generated, eg, e2) = bind-some (generate_instantiation_map scope) _ (rw y at e1) in
            let (map₁, em, e3) =
              bind-some (put_specified S fuel scope.instance_var_symbols specified generated) _
                e2 in
            let (found₁, ef, e4) = bind-some (already_instantiated S fuel scope map₁) _ e3 in
            let (same_map, same_found) = instantiation_inj (some_inj e4) in
            (
              subst (IsFilled scope.instance_var_symbols specified) same_map (
                  put_specified-IsFilled scope.instance_var_symbols specified generated map₁ plain
                    distinct em),
              subst (λ m. IsFound S fuel m found) same_map
                  (find_equal-IsFound S fuel map₁ scope.instantiated found
                    (ef ∙ ap some same_found)),
            )
      ]
