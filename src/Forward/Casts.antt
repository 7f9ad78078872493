-- ===== src/Forward/Casts.antt =====
-- What it means that the check of casts of src/dachs/semantics/forward_analyzer_impl.hpp passes.
use dachs.Base.{
  ℕ, ◌≡◌, refl, inl, inr, true, false, some, List, [], ◌∷◌, ◌||◌, All, arith, Bool-cases, ◌==◌,
}
use dachs.Base.Defined.{bind-some}
use dachs.Types.{AnyType, VarSymbol, FuncScope, Store, is_template_type}
use dachs.Types.Predicates.{is_aggregate}
use dachs.Forward.{
  cast_errors, cast_param_errors, count_cast_errors, same_cast, check_cast_funcs_duplication,
}
use dachs.Forward.Distinct.{IsDistinct, count_pairs-zero}

-- A cast function has a result and one parameter of a type that is no template, and a class or
-- another aggregate on one side.
pub record IsCast (f : FuncScope) : Type 0 where
  pub result : AnyType
  pub has_result : f.ret_type ≡ some result
  pub param : VarSymbol
  pub one_param : f.params ≡ param ∷ []
  pub known_type : is_template_type param.ty ≡ false
  pub aggregate : (is_aggregate param.ty || is_aggregate result) ≡ true

param_errors-zero :
    (ps : List VarSymbol) (ret : AnyType)
    → cast_param_errors ps ret ≡ 0
    → (p : VarSymbol) × (ps ≡ p ∷ [])
      × (is_template_type p.ty ≡ false)
      × ((is_aggregate p.ty || is_aggregate ret) ≡ true)
param_errors-zero [] ret e = absurd (omega arith)
param_errors-zero (p ∷ q ∷ ps) ret e = absurd (omega arith)
param_errors-zero (p ∷ []) ret e = (p, refl, ground arith, ground arith)

cast_errors-IsCast : (f : FuncScope) → cast_errors f ≡ some 0 → IsCast f
unfolding cast_errors
cast_errors-IsCast f e =
    let (ret, er, e1) = bind-some f.ret_type _ e in
    let (p, one, known, agg) = param_errors-zero f.params ret (ground arith) in
    record {
      result = ret;
      has_result = er;
      param = p;
      one_param = one;
      known_type = known;
      aggregate = agg;
    }

count_cast_errors-IsCast : (fs : List FuncScope) → count_cast_errors fs ≡ some 0 → All IsCast fs
unfolding count_cast_errors
count_cast_errors-IsCast [] e = tt
count_cast_errors-IsCast (f ∷ fs) e =
    let (m, em, e1) = bind-some (cast_errors f) _ e in
    let (n, en, e2) = bind-some (count_cast_errors fs) _ e1 in
    (cast_errors-IsCast f (ground arith), count_cast_errors-IsCast fs (ground arith))

-- If the check of cast functions reports no error, then each has a result and one parameter of
-- a type that is no template, one of the two types is an aggregate, and no two of the
-- functions cast between equal types.
check_cast_funcs_duplication-IsCast :
    (S : Store) (fuel : ℕ) (fs : List FuncScope)
    → check_cast_funcs_duplication S fuel fs ≡ some 0
    → All IsCast fs × IsDistinct (same_cast S fuel) fs
unfolding check_cast_funcs_duplication
check_cast_funcs_duplication-IsCast S fuel fs e =
    let (failed, ef, e1) = bind-some (count_cast_errors fs) _ e in
    elim (Bool-cases (failed == 0)) [
      | inl z ↦ (
        count_cast_errors-IsCast fs (ground arith),
        (count_pairs-zero (same_cast S fuel) fs).0 (rw z at e1),
      )
      | inr z ↦ absurd (ground arith)
    ]
