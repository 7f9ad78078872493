-- ===== src/Scope/Members/Laws.antt =====
-- Laws of the members of classes, for src/dachs/semantics/scope.hpp.
use dachs.Base.{
  ℕ, suc, String, str_eq, ◌≡◌, refl, inl, inr, List, [], ◌∷◌, get_elem?, Bool-cases, ◌>>=◌, ◌∙◌,
}
use dachs.Types.{VarSymbol, ClassScope}
use dachs.Scope.{find_var, resolve_instance_var}
use dachs.Scope.Members.{offset_from, get_instance_var_offset_of}

offset_from-suc :
    (k : ℕ) (name : String) (vs ws : List VarSymbol) (w : VarSymbol)
    → (offset_from (suc k) name vs >>= get_elem? (w ∷ ws))
      ≡ (offset_from k name vs >>= get_elem? ws)
unfolding offset_from
offset_from-suc k name [] ws w = refl
offset_from-suc k name (v ∷ vs) ws w = elim (Bool-cases (str_eq v.name name)) [
  | inl e ↦ rw (e, offset_from) refl
  | inr e ↦ rw (e, offset_from) (offset_from-suc (suc k) name vs ws w)
]

offset_from-find_var :
    (name : String) (vs : List VarSymbol)
    → (offset_from 0 name vs >>= get_elem? vs) ≡ find_var name vs
unfolding offset_from
offset_from-find_var name [] = refl
offset_from-find_var name (v ∷ vs) = elim (Bool-cases (str_eq v.name name)) [
  | inl e ↦ rw (e, offset_from, find_var) refl
  | inr e ↦
      rw (e, offset_from, find_var) (offset_from-suc 0 name vs vs v ∙ offset_from-find_var name vs)
]

-- The instance variable at the offset of a name is the one that the name resolves to; a name
-- has no offset if it does not resolve.
pub get_instance_var_offset_of_lem :
    (name : String) (c : ClassScope)
    → (get_instance_var_offset_of name c >>= get_elem? c.instance_var_symbols)
      ≡ resolve_instance_var name c
unfolding get_instance_var_offset_of
get_instance_var_offset_of_lem name c = offset_from-find_var name c.instance_var_symbols
