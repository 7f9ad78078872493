-- ===== src/Types/Instance/Laws.antt =====
-- What `is_instantiated_from` of src/dachs/semantics/type.cpp says of its second type.
use dachs.Base.{ℕ, suc, ◌≡◌, refl, Bool, true, false, Option, none, some, arith}
use dachs.Types.{AnyType, empty, class_type, array_type, pointer_type, Store}
use dachs.Types.Template.{is_template}
use dachs.Types.Template.Total.{is_template-le}
use dachs.Types.Instance.{is_instantiated_from, if_template}

if_template-true :
    (template result : Option Bool) → if_template template result ≡ some true → template ≡ some true
if_template-true none r h = ground arith
if_template-true (some true) r h = refl
if_template-true (some false) r h = ground arith

-- A type from which another is instantiated is a template.
pub is_instantiated_from-is_template :
    (S : Store) (fuel : ℕ) (l r : AnyType)
    → is_instantiated_from S fuel l r ≡ some true
    → is_template S (suc fuel) r ≡ some true
unfolding is_instantiated_from is_template
is_instantiated_from-is_template S fuel (array_type t n) (array_type u m) h =
    if_template-true (is_template S fuel u) _ h
is_instantiated_from-is_template S fuel (class_type n ref ps) (class_type m ref' qs) h =
    is_template-le S fuel (suc fuel) (class_type m ref' qs) (omega arith) true
      (if_template-true (is_template S fuel (class_type m ref' qs)) _ h)
is_instantiated_from-is_template S fuel (pointer_type t) (pointer_type u) h =
    if_template-true (is_template S fuel u) _ h
is_instantiated_from-is_template S fuel empty empty h = cc
is_instantiated_from-is_template S fuel _ _ h = cc
