-- ===== src/Analyzer/Returns/Gather.antt =====
-- What `return_types_gatherer` of src/dachs/semantics/analyzer.cpp has gathered after the walk.
use dachs.Base.{
  ◌≡◌, refl, sym, ap, ◌∙◌, inl, inr, true, false, List, [], ◌∷◌, map, ◌++◌, All, Bool-cases,
}
use mathlib.Core.List.{append-nil, append_assoc}
use dachs.Types.{AnyType, is_known}
use dachs.Ast.{Location}
use dachs.Analyzer.Returns.{Return, Gathered, gather, gather_all}

abbrev pub types_of : List Return → List AnyType
types_of rs = map (λ r. r.ret_type) rs

gather-known :
    (r : Return) (g : Gathered)
    → is_known r.ret_type ≡ true
    → gather r g ≡ record g { result_types = g.result_types ++ r.ret_type ∷ [] }
gather-known r g y = rw y refl

gather-unknown :
    (r : Return) (g : Gathered)
    → is_known r.ret_type ≡ false
    → gather r g ≡ record g { failed_return_stmts = g.failed_return_stmts ++ r.location ∷ [] }
gather-unknown r g n = rw n refl

append-one : (ls : List Location) (l : Location) → ls ++ l ∷ [] ≡ [] → ⊥
append-one [] l e = cc
append-one (k ∷ ls) l e = cc

-- What the walk has gathered if no return statement failed
pub gather_all-known :
    (rs : List Return) (g : Gathered)
    → (gather_all rs g).failed_return_stmts ≡ []
    → All (λ r. is_known r.ret_type ≡ true) rs
      × ((gather_all rs g).result_types ≡ g.result_types ++ types_of rs)
      × (g.failed_return_stmts ≡ [])
unfolding gather_all
gather_all-known [] g e = (tt, sym (append-nil g.result_types), e)
gather_all-known (r ∷ rs) g e = elim (Bool-cases (is_known r.ret_type)) [
  | inl y ↦
      let opened = gather-known r g y in
      let (known, types, before) = gather_all-known rs (gather r g) e in
      (
        (y, known),
        types
            ∙ ap (λ h. h.result_types ++ types_of rs) opened
            ∙ append_assoc g.result_types (r.ret_type ∷ []) (types_of rs),
        sym (ap (λ h. h.failed_return_stmts) opened) ∙ before,
      )
  | inr n ↦
      let (known, types, before) = gather_all-known rs (gather r g) e in
      absurd (
        append-one g.failed_return_stmts r.location
          (sym (ap (λ h. h.failed_return_stmts) (gather-unknown r g n)) ∙ before))
]

pub known-gather_all :
    (rs : List Return) (g : Gathered)
    → All (λ r. is_known r.ret_type ≡ true) rs
    → ((gather_all rs g).result_types ≡ g.result_types ++ types_of rs)
      × ((gather_all rs g).failed_return_stmts ≡ g.failed_return_stmts)
unfolding gather_all
known-gather_all [] g k = (sym (append-nil g.result_types), refl)
known-gather_all (r ∷ rs) g k =
    let opened = gather-known r g k.0 in
    let (types, failures) = known-gather_all rs (gather r g) k.1 in
    (
      types
          ∙ ap (λ h. h.result_types ++ types_of rs) opened
          ∙ append_assoc g.result_types (r.ret_type ∷ []) (types_of rs),
      failures ∙ ap (λ h. h.failed_return_stmts) opened,
    )
