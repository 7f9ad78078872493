-- ===== src/Overload.antt =====
-- src/dachs/semantics/scope.cpp, namespace `detail`: how well a function fits the arguments of a
-- call, and the set of the functions that fit best. `size_t` has 64 bits, `unsigned int` 32.
pub mod Narrow
pub mod Best
pub mod Match
pub mod Exact
use dachs.Base.{
  ℕ, zero, suc, ◌+◌, ◌*◌, ◌%◌, ◌^◌, String, str_eq, Bool, true, false, if◌then◌else◌, ◌||◌, not,
  Option, none, some, List, [], ◌∷◌, ◌++◌, map, ◌>>=◌, ◌>>◌, require, ltb, ◌==◌, length, leb,
  filterb, any_b,
}
use dachs.Types.{
  AnyType, empty, class_type, tuple_type, array_type, pointer_type, Types, nil, cons,
  is_template_type, VarSymbol, FuncScope, Store,
}
use dachs.Types.Equality.{type_eq}
use dachs.Types.Instance.{is_instantiated_from}

abbrev pub u32_mod : ℕ
u32_mod = 2 ^ 32

abbrev pub u64_mod : ℕ
u64_mod = 2 ^ 64

-- `template_depth_calculator`. Its overload for a template, which returns 0, is not `const`, and
-- the calls on parts are made on a constant object: they take the generic one, which returns 1.
unfoldable mutual
  pub template_depth : AnyType → ℕ
  template_depth (class_type n ref ps) = deepest 1 ps
  template_depth (array_type t n) = (1 + template_depth t) % u32_mod
  template_depth (pointer_type t) = (1 + template_depth t) % u32_mod
  template_depth (tuple_type ts) = deepest 1 ts
  template_depth t = 1

  -- The loop over the parts, from a depth.
  pub deepest : ℕ → Types → ℕ
  deepest depth nil = depth
  deepest depth (cons t ts) =
      let d = (template_depth t + 1) % u32_mod in deepest (if ltb depth d then d else depth) ts

-- The tuple of the matching score, the perfect matches and the total template depth.
pub record Score : Type 0 where
  pub score : ℕ
  pub num_perfect_match : ℕ
  pub total_template_depth : ℕ

abbrev pub is_set : AnyType → Bool
is_set empty = false
is_set t = true

-- `get_parameter_score`
unfoldable pub parameter_score : Store → ℕ → AnyType → AnyType → Option Score
parameter_score S fuel arg_type param_type = do
  require (is_set arg_type)
  require (is_set param_type)
  elim (is_template_type param_type) [
    | true ↦ some (record { score = 1; num_perfect_match = 0; total_template_depth = 0 })
    | false ↦ (do
      instantiated ← is_instantiated_from S fuel arg_type param_type
      elim instantiated [
        | true ↦ some (record {
          score = 2;
          num_perfect_match = 0;
          total_template_depth = template_depth param_type;
        })
        | false ↦ (do
          same ← type_eq S fuel param_type arg_type
          some (
              if same
              then record { score = 3; num_perfect_match = 1; total_template_depth = 0 }
              else record { score = 0; num_perfect_match = 0; total_template_depth = 0 }))
      ])
  ]

-- The three assignments in the loop of `get_overloaded_function_score`.
abbrev pub combine : Score → Score → Score
combine total s = record {
  score = (total.score * s.score) % u64_mod;
  num_perfect_match = (total.num_perfect_match + s.num_perfect_match) % u64_mod;
  total_template_depth = (total.total_template_depth + s.total_template_depth) % u64_mod;
}

abbrev pub initial_score : Score
initial_score = record { score = 1; num_perfect_match = 0; total_template_depth = 0 }

unfoldable pub score_loop : Store → ℕ → List AnyType → List VarSymbol → Score → Option Score
score_loop S fuel [] [] total = some total
score_loop S fuel (a ∷ args) (p ∷ params) total = do
  s ← parameter_score S fuel a p.ty
  score_loop S fuel args params (combine total s)
score_loop S fuel _ _ total = none

-- `get_overloaded_function_score`
unfoldable pub function_score : Store → ℕ → FuncScope → List AnyType → Option Score
unfolding score_loop
function_score S fuel func arg_types =
    if length arg_types == 0
    then some initial_score
    else score_loop S fuel arg_types func.params initial_score

-- A function with its scores.
abbrev pub Candidate : Type 0
Candidate = Score × FuncScope

abbrev pub is_other : String → List AnyType → FuncScope → Bool
is_other name arg_types f = not (str_eq f.name name) || not (length arg_types == length f.params)

-- The body of the loop of `generate_first_overload_set` once the score is known.
abbrev pub keep_if_max : Score → FuncScope → List Candidate × ℕ → List Candidate × ℕ
keep_if_max s f (scores, max_score) =
    if s.score == 0
    then (scores, max_score)
    else if leb max_score s.score
    then (scores ++ (s, f) ∷ [], s.score)
    else (scores, max_score)

unfoldable pub first_loop :
    Store
    → ℕ
    → String
    → List AnyType
    → List FuncScope
    → List Candidate × ℕ
    → Option (List Candidate × ℕ)
first_loop S fuel name arg_types [] state = some state
first_loop S fuel name arg_types (f ∷ fs) state = do
  state' ←
      (if is_other name arg_types f
        then some state
        else (do s ← function_score S fuel f arg_types; some (keep_if_max s f state)))
  first_loop S fuel name arg_types fs state'

-- `generate_first_overload_set`
unfoldable pub first_overload_set :
    Store → ℕ → List FuncScope → String → List AnyType → Option (List Candidate)
unfolding first_loop
first_overload_set S fuel candidates name arg_types = do
  (scores, max_score) ← first_loop S fuel name arg_types candidates ([], 0)
  some (filterb (λ c. not (ltb c.0.score max_score)) scores)

-- The largest key, as `max_element` finds it, from a first one.
abbrev pub max_key : (Candidate → ℕ) → ℕ → List Candidate → ℕ
max_key key m [] = m
max_key key m (c ∷ cs) = max_key key (if ltb m (key c) then key c else m) cs

-- `narrow_down_score_by`, which reads past the end of an empty vector.
unfoldable pub narrow_down_score_by : (Candidate → ℕ) → List Candidate → Option (List Candidate)
narrow_down_score_by key [] = none
narrow_down_score_by key (c ∷ cs) =
    let max = max_key key (key c) cs in some (filterb (λ d. not (ltb (key d) max)) (c ∷ cs))

abbrev pub narrow_if_many : (Candidate → ℕ) → List Candidate → Option (List Candidate)
narrow_if_many key cs = if ltb 1 (length cs) then narrow_down_score_by key cs else some cs

-- `unordered_set::emplace`: the elements are pointers.
abbrev pub emplace : FuncScope → List FuncScope → List FuncScope
emplace f fs = if any_b (λ g. g.id == f.id) fs then fs else fs ++ f ∷ []

abbrev pub emplace_all : List Candidate → List FuncScope → List FuncScope
emplace_all [] result = result
emplace_all (c ∷ cs) result = emplace_all cs (emplace c.1 result)

-- `generate_overload_set`
unfoldable pub overload_set :
    Store → ℕ → List FuncScope → String → List AnyType → Option (List FuncScope)
unfolding first_overload_set narrow_down_score_by
overload_set S fuel candidates name arg_types = do
  first ← first_overload_set S fuel candidates name arg_types
  perfect ← narrow_if_many (λ c. c.0.num_perfect_match) first
  deep ← narrow_if_many (λ c. c.0.total_template_depth) perfect
  some (emplace_all deep [])

-- `global_scope::resolve_func`, on the functions of the global scope.
unfoldable pub resolve_func :
    Store → ℕ → List FuncScope → String → List AnyType → Option (List FuncScope)
unfolding overload_set
resolve_func S fuel functions name args = overload_set S fuel functions name args
