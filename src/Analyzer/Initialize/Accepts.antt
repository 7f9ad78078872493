-- ===== src/Analyzer/Initialize/Accepts.antt =====
-- Which types of values a variable of a template type takes in src/dachs/semantics/analyzer.cpp.
use dachs.Base.{ℕ, ◌≡◌, refl, true, false, Option, some}
use dachs.Types.{AnyType, array_type, pointer_type, Store}
use dachs.Types.Equality.{type_eq}
use dachs.Types.Template.{is_template}
use dachs.Types.Instance.{is_instantiated_from}
use dachs.Analyzer.Initialize.{accepts}

-- If two types differ, as do the pointers to them and arrays of them, the second is no
-- template, and an array of it is an instance of an array of the first, then a variable that
-- is an array of the first takes a value that is an array of the second, but one that is a
-- pointer to the first takes none that is a pointer to the second.
pub accepts-pointer :
    (S : Store) (fuel : ℕ) (u t : AnyType) (n m : Option ℕ)
    → type_eq S fuel u t ≡ some false
    → type_eq S fuel (pointer_type u) (pointer_type t) ≡ some false
    → type_eq S fuel (array_type u n) (array_type t m) ≡ some false
    → is_template S fuel t ≡ some false
    → is_instantiated_from S fuel (array_type t m) (array_type u n) ≡ some true
    → (accepts S fuel (pointer_type u) (pointer_type t) ≡ some false)
      × (accepts S fuel (array_type u n) (array_type t m) ≡ some true)
unfolding accepts
accepts-pointer S fuel u t n m e p a known inst =
    (rw (p, is_instantiated_from, known, e) refl, rw (a, inst) refl)
