-- ===== src/Tests/Overloads.antt =====
-- Calls that `resolve_func` of src/dachs/semantics/scope.cpp resolves, and scores.
use dachs.Base.{ℕ, zero, suc, ◌≡◌, refl, none, some, ◌>>=◌, List, [], ◌∷◌, arith, All, filterb}
use dachs.Types.{FuncScope}
use dachs.Overload.{
  Score, template_depth, parameter_score, function_score, overload_set, emplace_all, Candidate,
}
use dachs.Overload.Narrow.{is_best}
use dachs.Overload.Best.{viable, overload_set_lem}
use dachs.Overload.Match.{EachScore, pow3, function_score-overflow}
use dachs.Overload.Exact.{Scores, overload_set-exact}
use dachs.Types.Equality.{type_eq}
use dachs.Types.Template.{is_template}
use dachs.Types.Instance.{is_instantiated_from}
use dachs.Tests.Data.{
  int, float, box, int_box, store, areas, area_int, area_any, area_exact, func, var, repeat,
}

resolved : overload_set store 5 areas "area" (int ∷ float ∷ []) ≡ some (area_exact ∷ [])
unfolding overload_set function_score parameter_score is_instantiated_from type_eq
resolved = refl

resolved_any : overload_set store 5 areas "area" (float ∷ float ∷ []) ≡ some (area_any ∷ [])
unfolding overload_set function_score parameter_score is_instantiated_from type_eq
resolved_any = refl

abbrev perfect_score : Score
perfect_score = record { score = 3; num_perfect_match = 1; total_template_depth = 0 }

abbrev instance_score : Score
instance_score = record { score = 2; num_perfect_match = 0; total_template_depth = 1 }

abbrev viable_areas : List Candidate
viable_areas =
    (record { score = 3; num_perfect_match = 1; total_template_depth = 0 }, area_int)
    ∷ (record { score = 1; num_perfect_match = 0; total_template_depth = 0 }, area_any)
    ∷ (record { score = 9; num_perfect_match = 2; total_template_depth = 0 }, area_exact)
    ∷ []

overload_set_lem_example : overload_set store 5 areas "area" (int ∷ float ∷ []) ≡ (
    viable store 5 "area" (int ∷ float ∷ []) areas >>= λ cs.
    some (emplace_all (filterb (is_best cs) cs) []))
overload_set_lem_example = overload_set_lem store 5 areas "area" (int ∷ float ∷ [])

overload_set-exact_example :
    All (Scores store 5 "area" (int ∷ float ∷ []) (pow3 2)) (area_exact ∷ [])
unfolding overload_set function_score parameter_score is_instantiated_from type_eq
overload_set-exact_example =
    overload_set-exact store 5 "area" (int ∷ float ∷ []) (area_int ∷ area_any ∷ []) [] area_exact
      (omega arith) refl ((perfect_score, refl, refl), ((perfect_score, refl, refl), tt)) refl

-- A function of 64 parameters of the type `Box`, and 64 arguments of the type `Box(int)`.
abbrev wide : FuncScope
wide = func 7 "wide" (repeat 64 (var 40 "b" box)) none

boxes :
    (n : ℕ) → EachScore store 5 (λ s. s.score ≡ 2) (repeat n int_box) (repeat n (var 40 "b" box))
unfolding parameter_score is_instantiated_from is_template template_depth
boxes zero = tt
boxes (suc n) = ((instance_score, refl, refl), boxes n)

function_score-overflow_example :
    (t : Score) × (function_score store 5 wide (repeat 64 int_box) ≡ some t) × (t.score ≡ 0)
function_score-overflow_example =
    function_score-overflow store 5 wide 0 (repeat 64 int_box) refl (boxes 64)
