-- ===== src/Scope/Define/Laws.antt =====
-- The containers of symbols hold each name once, and a definition adds exactly one name.
use dachs.Base.{
  String, str_eq, eq_iff, ◌≡◌, refl, ◌⊎◌, inl, inr, true, false, if◌then◌else◌, none, some, List,
  [], ◌∷◌, ◌++◌, arith, Bool-cases, any_b,
}
use dachs.Types.{VarSymbol}
use dachs.Scope.{Scope, local_scope, LocalScope, find_var, or_outer, resolve_var}
use dachs.Scope.Define.{is_builtin_name, define_symbol, define_local}

-- Each name stands once, and none has the prefix of built-in names.
abbrev pub IsContainer : List VarSymbol → Type 0
IsContainer [] = Unit
IsContainer (v ∷ vs) =
    (is_builtin_name v.name ≡ false) × (find_var v.name vs ≡ none) × IsContainer vs

find_var-any :
    (name : String) (vs : List VarSymbol)
    → any_b (λ s. str_eq name s.name) vs ≡ false
    → find_var name vs ≡ none
find_var-any name [] e = refl
find_var-any name (v ∷ vs) e =
    ground (arith, eq_iff name v.name, eq_iff v.name name, find_var-any name vs)

find_var-snoc :
    (name : String) (vs : List VarSymbol) (v : VarSymbol)
    → find_var name (vs ++ v ∷ [])
      ≡ or_outer (find_var name vs) (if str_eq v.name name then some v else none)
find_var-snoc name [] v = refl
find_var-snoc name (x ∷ vs) v = ground (arith, find_var-snoc name vs v)

snoc-IsContainer :
    (vs : List VarSymbol) (v : VarSymbol)
    → is_builtin_name v.name ≡ false
    → find_var v.name vs ≡ none
    → IsContainer vs
    → IsContainer (vs ++ v ∷ [])
snoc-IsContainer [] v b n h = (b, refl, tt)
snoc-IsContainer (x ∷ vs) v b n h = (
  h.0,
  ground (arith, find_var-snoc x.name vs v, eq_iff x.name v.name, eq_iff v.name x.name),
  snoc-IsContainer vs v b (ground arith) h.2,
)

define_symbol-cases :
    (vs : List VarSymbol) (v : VarSymbol)
    → (define_symbol vs v ≡ (vs, false))
      ⊎ ((is_builtin_name v.name ≡ false)
          × (find_var v.name vs ≡ none)
          × (define_symbol vs v ≡ (vs ++ v ∷ [], true)))
unfolding define_symbol
define_symbol-cases vs v = elim (Bool-cases (is_builtin_name v.name)) [
  | inl b ↦ inl (rw b)
  | inr b ↦ elim (Bool-cases (any_b (λ s. str_eq v.name s.name) vs)) [
    | inl d ↦ inl (rw (b, d))
    | inr d ↦ inr (b, find_var-any v.name vs d, rw (b, d))
  ]
]

-- If the names in a container are distinct and none is a built-in one, `define_symbol` leaves
-- it so.
pub define_symbol-IsContainer :
    (vs : List VarSymbol) (v : VarSymbol) → IsContainer vs → IsContainer (define_symbol vs v).0
unfolding define_symbol
define_symbol-IsContainer vs v h = elim (define_symbol-cases vs v) [
  | inl e ↦ rw e h
  | inr (b, n, e) ↦ rw e (snoc-IsContainer vs v b n h)
]

-- After a variable is defined in a block, its name means it there, and any other name means
-- what it meant before.
pub resolve_var-define_local :
    (v : VarSymbol) (l : LocalScope) (outer : Scope) (name : String)
    → (define_local v l outer).done ≡ true
    → resolve_var name (define_local v l outer).scope
      ≡ (if str_eq v.name name then some v else resolve_var name (local_scope l outer))
unfolding define_local resolve_var
resolve_var-define_local v l outer name done = elim (define_symbol-cases l.local_vars v) [
  | inl e ↦ cc (rw e at done)
  | inr (b, n, e) ↦ rw (e, find_var-snoc name l.local_vars v) (outer_lem n)
]
  where
    outer_lem :
        find_var v.name l.local_vars ≡ none
        → or_outer
            (or_outer (find_var name l.local_vars) (if str_eq v.name name then some v else none))
            (resolve_var name outer)
          ≡ (if str_eq v.name name
              then some v
              else or_outer (find_var name l.local_vars) (resolve_var name outer))
    outer_lem n = ground (arith, eq_iff v.name name)
