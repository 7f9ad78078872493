-- ===== src/Types/Finite.antt =====
-- Types whose expansion ends: `Fits S f t` says that no path from `t`, through its parts and the
-- instance variables of its classes, is longer than `f`. In a store where each class refers to
-- earlier ones only, every type fits.
use dachs.Base.{
  ℕ, zero, suc, ◌+◌, ◌*◌, ◌≤◌, ◌<◌, ◌≡◌, Option, none, some, List, All, All-map, length,
  get_elem?-some, arith,
}
use dachs.Types.{
  AnyType, empty, builtin_type, class_type, tuple_type, func_type, generic_func_type, array_type,
  pointer_type, qualified_type, template_type, to_list, to_option, ClassScope, Store, lock,
}
use dachs.Types.Equality.{var_types}

abbrev pub AllOptional : (AnyType → Type 0) → Option AnyType → Type 0
AllOptional P none = Unit
AllOptional P (some t) = P t

-- The types that a comparison of two classes visits.
pub record ClassFits (S : Store) (P : AnyType → Type 0) (ref : ℕ) (ps : List AnyType) : Type 0 where
  pub scope : ClassScope
  pub found : lock S ref ≡ some scope
  pub vars : All P (var_types scope.instance_var_symbols)
  pub params : All P ps

abbrev FitsStep : Store → (AnyType → Type 0) → AnyType → Type 0
FitsStep S P (class_type n ref ps) = ClassFits S P ref (to_list ps)
FitsStep S P (tuple_type ts) = All P (to_list ts)
FitsStep S P (func_type ps r b) = All P (to_list ps) × AllOptional P (to_option r)
FitsStep S P (array_type t n) = P t
FitsStep S P (pointer_type t) = P t
FitsStep S P (qualified_type q t) = P t
FitsStep S P _ = Unit

abbrev pub Fits : Store → ℕ → AnyType → Type 0
Fits S zero t = ⊥
Fits S (suc f) t = FitsStep S (Fits S f) t

abbrev SizedStep : ℕ → (AnyType → Type 0) → AnyType → Type 0
SizedStep n P (class_type _ ref ps) = (ref < n) × All P (to_list ps)
SizedStep n P (tuple_type ts) = All P (to_list ts)
SizedStep n P (func_type ps r b) = All P (to_list ps) × AllOptional P (to_option r)
SizedStep n P (array_type t _) = P t
SizedStep n P (pointer_type t) = P t
SizedStep n P (qualified_type q t) = P t
SizedStep n P _ = Unit

-- The type is written with classes below `n`, and is nested less than `h` deep as written.
abbrev pub Sized : ℕ → ℕ → AnyType → Type 0
Sized n zero t = ⊥
Sized n (suc h) t = SizedStep n (Sized n h) t

-- The instance variables of each class have types written with earlier classes.
abbrev pub IsRanked : Store → ℕ → Type 0
IsRanked S H =
    (k : ℕ) (c : ClassScope)
    → lock S k ≡ some c
    → All (Sized k H) (var_types c.instance_var_symbols)

module _ (S : Store) (H : ℕ) (ranked : IsRanked S H) where
  AllOptional-map :
      {P Q : AnyType → Type 0}
      → ((t : AnyType) → P t → Q t)
      → (o : Option AnyType) → AllOptional P o
      → AllOptional Q o
  AllOptional-map f none h = tt
  AllOptional-map f (some t) h = f t h

  rank_bound : (k n h f : ℕ) → k < n → n * H + suc h ≤ suc f → k * H + H ≤ f
  rank_bound k n h f lt le = grind arith

  -- In such a store a type that is nested less than `h` deep fits into `length S * H + h`.
  pub Sized-Fits :
      (f n h : ℕ) (t : AnyType) → n ≤ length S → n * H + h ≤ f → Sized n h t → Fits S f t
  Sized-Fits zero n zero t l le s = s
  Sized-Fits zero n (suc h) t l le s = absurd (omega arith)
  Sized-Fits (suc f) n zero t l le s = absurd s
  Sized-Fits (suc f) n (suc h) (class_type m ref ps) l le s =
      let (c, e) = get_elem?-some S ref (omega arith) in
      record {
        scope = c;
        found = e;
        vars =
            All-map (λ u. Sized-Fits f ref H u (omega arith) (rank_bound ref n h f s.0 le)) _
              (ranked ref c e);
        params = All-map (λ u. Sized-Fits f n h u l (omega arith)) _ s.1;
      }
  Sized-Fits (suc f) n (suc h) (tuple_type ts) l le s =
      All-map (λ u. Sized-Fits f n h u l (omega arith)) _ s
  Sized-Fits (suc f) n (suc h) (func_type ps r b) l le s = (
    All-map (λ u. Sized-Fits f n h u l (omega arith)) _ s.0,
    AllOptional-map (λ u. Sized-Fits f n h u l (omega arith)) _ s.1,
  )
  Sized-Fits (suc f) n (suc h) (array_type t m) l le s = Sized-Fits f n h t l (omega arith) s
  Sized-Fits (suc f) n (suc h) (pointer_type t) l le s = Sized-Fits f n h t l (omega arith) s
  Sized-Fits (suc f) n (suc h) (qualified_type q t) l le s = Sized-Fits f n h t l (omega arith) s
  Sized-Fits (suc f) n (suc h) empty l le s = tt
  Sized-Fits (suc f) n (suc h) (builtin_type m) l le s = tt
  Sized-Fits (suc f) n (suc h) (generic_func_type r) l le s = tt
  Sized-Fits (suc f) n (suc h) (template_type a) l le s = tt
