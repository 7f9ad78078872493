-- ===== src/Tests/Types.antt =====
-- Comparisons of types by src/dachs/semantics/type.cpp, and hypotheses on stores that hold.
use dachs.Base.{zero, suc, ◌≡◌, refl, ◌*◌, ◌+◌, true, false, some, [], ◌∷◌, inr, arith, All, length}
use mathlib.Core.Path.{subst}
use dachs.Base.Defined.{HasValue, some_inj}
use dachs.Types.Equality.{type_eq, var_types}
use dachs.Types.Equality.Total.{type_eq-ranked}
use dachs.Types.Equality.Reflexive.{IsReflexive}
use dachs.Types.Equality.{instance_var_types_of}
use dachs.Types.Finite.{IsRanked, Sized}
use dachs.Types.Template.{is_template, is_class_template}
use dachs.Types.Fuzzy.{fuzzy_match}
use dachs.Tests.Data.{int, point, box, int_box, store}

boxes_differ : type_eq store 5 int_box box ≡ some false
unfolding type_eq
boxes_differ = refl

boxes_match : fuzzy_match store 5 int_box box ≡ some true
unfolding fuzzy_match
boxes_match = refl

box_is_template : is_class_template store 5 box ≡ some true
unfolding is_class_template is_template
box_is_template = refl

store-IsRanked : IsRanked store 1
store-IsRanked zero c e =
    subst (λ d. All (Sized 0 1) (var_types d.instance_var_symbols)) (some_inj e) (tt, tt)
store-IsRanked (suc zero) c e =
    subst (λ d. All (Sized 1 1) (var_types d.instance_var_symbols)) (some_inj e)
      (tt, ((omega arith, tt), tt))
store-IsRanked (suc (suc k)) c e = cc

type_eq-ranked_example : HasValue (type_eq store (length store * 1 + 2) int_box box)
type_eq-ranked_example =
    type_eq-ranked store 1 2 int_box box store-IsRanked (omega arith, (tt, tt)) (omega arith, tt)

int_box-IsReflexive : IsReflexive store 5 int_box
unfolding instance_var_types_of
int_box-IsReflexive = record {
  types = int ∷ point ∷ [];
  found = refl;
  each = (inr tt, (inr (record { types = int ∷ []; found = refl; each = (inr tt, tt) }), tt));
}
