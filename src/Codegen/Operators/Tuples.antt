-- ===== src/Codegen/Operators/Tuples.antt =====
-- What the code that compares tuples computes.
use dachs.Base.{
  ℕ, suc, String, str_eq, ◌≡◌, refl, ap, sym, ◌∙◌, ◌⊎◌, inl, inr, Bool, true, false, not, ◌&&◌,
  ◌||◌, none, some, List, [], ◌∷◌, all_b, any_b, ◌>>=◌, if◌then◌else◌, Option-cases, arith,
}
use dachs.Base.Defined.{bind-some, some_inj}
use dachs.Types.{tuple_type, Types, nil, cons}
use dachs.Analyzer.Operators.{comparisons}
use dachs.Codegen.Operators.{
  Instruction, Builder, and_, or_, emit, emit_folded, emit_rest, emit_unary, select, negated,
}

-- What LLVM documents of `and`, `or` and `xor` with true (`CreateNot`) on bits
pub record IsLogic (builder : Builder) (truth : builder.Value → Bool) : Type 0 where
  pub of_and : (a b : builder.Value) → truth (builder.binary and_ a b) ≡ truth a && truth b
  pub of_or : (a b : builder.Value) → truth (builder.binary or_ a b) ≡ truth a || truth b
  pub of_not : (a : builder.Value) → truth (builder.not_ a) ≡ not (truth a)

module _ (builder : Builder) (truth : builder.Value → Bool) (logic : IsLogic builder truth) where
  open builder use {Value, element}

  -- The values are those of the comparisons of the elements, from an index on.
  abbrev pub Compared : String → Types → ℕ → Value → Value → List Value → Type 0
  Compared op nil i lhs rhs [] = Unit {0}
  Compared op nil i lhs rhs (v ∷ vs) = ⊥
  Compared op (cons t ts) i lhs rhs [] = ⊥
  Compared op (cons t ts) i lhs rhs (v ∷ vs) =
      (emit builder op t (element i lhs) (element i rhs) ≡ some (some v))
      × Compared op ts (suc i) lhs rhs vs

  -- A fold over the values, from the left
  fold_truth : (Bool → Bool → Bool) → Bool → List Value → Bool
  fold_truth f b [] = b
  fold_truth f b (v ∷ vs) = fold_truth f (f b (truth v)) vs

  fold-all : (b : Bool) (vs : List Value) → fold_truth (◌&&◌) b vs ≡ b && all_b truth vs
  unfolding fold_truth
  fold-all b [] = ground arith
  fold-all b (v ∷ vs) = fold-all (b && truth v) vs ∙ ground arith

  fold-any : (b : Bool) (vs : List Value) → fold_truth (◌||◌) b vs ≡ b || any_b truth vs
  unfolding fold_truth
  fold-any b [] = ground arith
  fold-any b (v ∷ vs) = fold-any (b || truth v) vs ∙ ground arith

  -- What a connective of the language and its instruction compute
  record Connects (connective : String) (f : Bool → Bool → Bool) : Type 0 where
    instruction : Instruction
    selected : select connective "bool" ≡ some instruction
    computes : (a b : Value) → truth (builder.binary instruction a b) ≡ f (truth a) (truth b)

  and-Connects : Connects "&&" (◌&&◌)
  unfolding select
  and-Connects = record { instruction = and_; selected = refl; computes = logic.of_and }

  module _ (connective : String) (f : Bool → Bool → Bool) (c : Connects connective f)
      (op : String) where
    rest-fold :
        (ts : Types) (i : ℕ) (lhs rhs a v : Value)
        → emit_rest builder op connective ts i lhs rhs (some a) ≡ some (some v)
        → (vs : List Value) × Compared op ts i lhs rhs vs × (truth v ≡ fold_truth f (truth a) vs)
    unfolding emit_rest fold_truth
    rest-fold nil i lhs rhs a v e = ([], tt, ap truth (sym (some_inj (some_inj e))))
    rest-fold (cons t ts) i lhs rhs a v e =
        let (next, en, e1) = bind-some (emit builder op t (element i lhs) (element i rhs)) _ e in
        elim (Option-cases next) [
          | inl n ↦ cc (rw n at e1)
          | inr (b, eb) ↦
              let (vs, compared, same) =
                rest-fold ts (suc i) lhs rhs (builder.binary c.instruction a b) v
                  (rw (eb, c.selected) at e1) in
              (b ∷ vs, (en ∙ ap some eb, compared), same ∙ rw (c.computes a b) refl)
        ]

    rest-none :
        (ts : Types) (i : ℕ) (lhs rhs v : Value)
        → ¬ (emit_rest builder op connective ts i lhs rhs none ≡ some (some v))
    unfolding emit_rest
    rest-none nil i lhs rhs v e = cc
    rest-none (cons t ts) i lhs rhs v e =
        let (next, en, e1) = bind-some (emit builder op t (element i lhs) (element i rhs)) _ e in cc

    folded :
        (ts : Types) (lhs rhs v : Value)
        → emit_folded builder op connective ts lhs rhs ≡ some (some v)
        → (first : Value) × (vs : List Value) × Compared op ts 0 lhs rhs (first ∷ vs)
          × (truth v ≡ fold_truth f (truth first) vs)
    unfolding emit_folded emit_rest
    folded nil lhs rhs v e = cc
    folded (cons t ts) lhs rhs v e =
        let (first, ef, e1) = bind-some (emit builder op t (element 0 lhs) (element 0 rhs)) _ e in
        elim (Option-cases first) [
          | inl n ↦ absurd (rest-none ts 1 lhs rhs v (rw n at e1))
          | inr (a, ea) ↦
              let (vs, compared, same) = rest-fold ts 1 lhs rhs a v (rw ea at e1) in
              (a, vs, (ef ∙ ap some ea, compared), same)
        ]

  or-Connects : Connects "||" (◌||◌)
  unfolding select
  or-Connects = record { instruction = or_; selected = refl; computes = logic.of_or }

  folded-all :
      (op : String) (ts : Types) (lhs rhs v : Value)
      → emit_folded builder op "&&" ts lhs rhs ≡ some (some v)
      → (vs : List Value) × Compared op ts 0 lhs rhs vs × (truth v ≡ all_b truth vs)
  folded-all op ts lhs rhs v e =
      let (a, vs, compared, same) = folded "&&" (◌&&◌) and-Connects op ts lhs rhs v e in
      (a ∷ vs, compared, same ∙ fold-all (truth a) vs)

  folded-any :
      (op : String) (ts : Types) (lhs rhs v : Value)
      → emit_folded builder op "||" ts lhs rhs ≡ some (some v)
      → (vs : List Value) × Compared op ts 0 lhs rhs vs × (truth v ≡ any_b truth vs)
  folded-any op ts lhs rhs v e =
      let (a, vs, compared, same) = folded "||" (◌||◌) or-Connects op ts lhs rhs v e in
      (a ∷ vs, compared, same ∙ fold-any (truth a) vs)

  abbrev pub inverse_of : String → String
  inverse_of op = if str_eq op ">=" then "<" else ">"

  -- What the value of a comparison of tuples is, by the operator
  abbrev pub IsComparison : String → Types → Value → Value → Value → Type 0
  IsComparison op ts lhs rhs v =
      (((str_eq op "==" || str_eq op "!=") ≡ true)
        × ((vs : List Value) × Compared op ts 0 lhs rhs vs × (truth v ≡ all_b truth vs)))
      ⊎ (((str_eq op "<" || str_eq op ">") ≡ true)
          × ((vs : List Value) × Compared op ts 0 lhs rhs vs × (truth v ≡ any_b truth vs)))
      ⊎ (((str_eq op ">=" || str_eq op "<=") ≡ true)
          × ((vs : List Value) × Compared (inverse_of op) ts 0 lhs rhs vs
              × (truth v ≡ not (any_b truth vs))))

  -- If a comparison of tuples has a value, on a builder of which and, or and not compute
  -- these, then the value is true for == and != if the comparisons of all elements are, for <
  -- and > if one of them is, and for >= and <= if none of the comparisons of the elements by <
  -- or > is.
  pub emit-IsComparison :
      (op : String) (ts : Types) (lhs rhs v : Value)
      → emit builder op (tuple_type ts) lhs rhs ≡ some (some v)
      → IsComparison op ts lhs rhs v
  unfolding emit emit_unary
  emit-IsComparison op ts lhs rhs v e = step _ _ _ refl refl refl e
    where
      step :
          (relational equality less : Bool)
          → any_b (str_eq op) comparisons ≡ relational
          → (str_eq op "==" || str_eq op "!=") ≡ equality
          → (str_eq op "<" || str_eq op ">") ≡ less
          → elim relational [
            | false ↦ some none
            | true ↦ elim equality [
              | true ↦ emit_folded builder op "&&" ts lhs rhs
              | false ↦ elim less [
                | true ↦ emit_folded builder op "||" ts lhs rhs
                | false ↦ emit_folded builder (inverse_of op) "||" ts lhs rhs >>= λ inverse.
                    some (negated builder inverse)
              ]
            ]
          ]
            ≡ some (some v)
          → IsComparison op ts lhs rhs v
      step false equality less r q l e = cc
      step true true less r q l e = inl (q, folded-all op ts lhs rhs v e)
      step true false true r q l e = inr (inl (l, folded-any op ts lhs rhs v e))
      step true false false r q l e =
          let (o, eo, e1) = bind-some (emit_folded builder (inverse_of op) "||" ts lhs rhs) _ e in
          elim (Option-cases o) [
            | inl n ↦ cc (rw n at e1)
            | inr (w, ew) ↦
                let (vs, compared, same) =
                  folded-any (inverse_of op) ts lhs rhs w (eo ∙ ap some ew) in
                inr (
                  inr (
                    ground arith,
                    (
                      vs,
                      compared,
                      ap truth (sym (some_inj (some_inj (rw ew at e1))))
                          ∙ logic.of_not w
                          ∙ ap not same,
                    ),
                  ))
          ]
