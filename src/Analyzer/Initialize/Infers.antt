-- ===== src/Analyzer/Initialize/Infers.antt =====
-- Instance variables whose types are inferred by initializations of
-- src/dachs/semantics/analyzer.cpp.
use dachs.Base.{
  ℕ, String, is_empty, set, ◌≡◌, refl, ap, sym, ◌⊎◌, inl, inr, true, false, Option, none, some,
  List, [], ◌∷◌, Bool-cases, str_eq, require,
}
use dachs.Base.Defined.{bind-some, some_inj}
use dachs.Types.{AnyType, is_template_type, VarSymbol, ClassScope, lock, Types, to_list, Store}
use dachs.Scope.{find_var, resolve_instance_var}
use dachs.Analyzer.Initialize.{retype, infer_instance_var}

-- The instance variable of the receiver's class has the type of the value afterwards if its own
-- type is a template; otherwise the classes stay.
pub record InfersVar (receiver : Option (ℕ × Types)) (S : Store) (name : String) (t : AnyType)
    (S' : Store) : Type 0 where
  pub ref : ℕ
  pub params : Types
  pub is_receiver : receiver ≡ some (ref, params)
  pub clazz : ClassScope
  pub alive : lock S ref ≡ some clazz
  pub v : VarSymbol
  pub found : resolve_instance_var name clazz ≡ some v
  pub inferred :
      ((is_template_type v.ty ≡ false) × (S' ≡ S))
      ⊎ ((is_template_type v.ty ≡ true)
          × ((clazz' : ClassScope) × (S' ≡ set S ref clazz')
              × (clazz'.name ≡ clazz.name)
              × (resolve_instance_var name clazz' ≡ some (record v { ty = t }))))

abbrev pub Infers : Option (ℕ × Types) → Store → Option String → AnyType → Store → Type 0
Infers receiver S none t S' = S' ≡ S
Infers receiver S (some name) t S' = InfersVar receiver S name t S'

find_var-retype :
    (name : String) (t : AnyType) (vs : List VarSymbol) {v : VarSymbol}
    → find_var name vs ≡ some v
    → find_var name (retype name t vs) ≡ some (record v { ty = t })
find_var-retype name t [] e = cc
find_var-retype name t (w ∷ vs) e = elim (Bool-cases (str_eq w.name name)) [
  | inl y ↦ rw (y, y) (ap (λ (x : VarSymbol). some (record x { ty = t })) (some_inj (rw y at e)))
  | inr n ↦ rw (n, n) (find_var-retype name t vs (rw n at e))
]

pub infer-Infers :
    (receiver : Option (ℕ × Types)) (S : Store) (name : Option String) (t : AnyType) {S' : Store}
    → infer_instance_var S receiver name t ≡ some S'
    → Infers receiver S name t S'
unfolding infer_instance_var
infer-Infers receiver S none t e = sym (some_inj e)
infer-Infers none S (some name) t e = cc
infer-Infers (some (ref, params)) S (some name) t e =
    let (c, ec, e1) = bind-some (lock S ref) _ e in
    let (v, ev, e2) = bind-some (resolve_instance_var name c) _ e1 in
    record {
      ref = ref;
      params = params;
      is_receiver = refl;
      clazz = c;
      alive = ec;
      v = v;
      found = ev;
      inferred = elim (Bool-cases (is_template_type v.ty)) [
        | inr n ↦ inl (n, sym (some_inj (rw n at e2)))
        | inl y ↦
            let (u, eu, e3) = bind-some (require (is_empty (to_list params))) _ (rw y at e2) in
            inr (
              y,
              (
                record c { instance_var_symbols = retype name t c.instance_var_symbols },
                sym (some_inj e3),
                refl,
                find_var-retype name t c.instance_var_symbols ev,
              ),
            )
      ];
    }
