-- ===== src/Scope/Functions/Laws.antt =====
-- Laws of `==` of functions and of the lookup of classes, src/dachs/semantics/scope.cpp and
-- scope.hpp.
use dachs.Base.{
  ℕ, String, str_eq, eq_iff, ==_sym, ◌≡◌, refl, inl, inr, some, List, [], ◌∷◌, length, arith,
  Bool-cases,
}
use mathlib.Core.Path.{subst}
use dachs.Base.Defined.{bind-some, some_inj}
use dachs.Types.{AnyType, ClassScope, FuncScope, Store, lock}
use dachs.Types.Equality.{var_types}
use dachs.Types.Equality.Laws.{type_eq_sym, str_eq_sym, all_zipped_sym}
use dachs.Scope.{
  Scope, global_scope, local_scope, func_scope, class_scope, find_class, resolve_class_by_name,
}
use dachs.Scope.Functions.{same_param, func_eq}

same_param_sym :
    (S : Store) (fuel : ℕ) (l r : AnyType) → same_param S fuel l r ≡ same_param S fuel r l
same_param_sym S fuel l r = ground (arith, type_eq_sym S fuel l r)

-- Two functions are the same as overloads in either order, at any fuel.
pub func_eq_sym : (S : Store) (fuel : ℕ) (l r : FuncScope) → func_eq S fuel l r ≡ func_eq S fuel r l
unfolding func_eq
func_eq_sym S fuel l r =
    rw
      (
        str_eq_sym l.name r.name,
        ==_sym (length l.params) (length r.params),
        all_zipped_sym (same_param S fuel) (same_param_sym S fuel) (var_types l.params)
            (var_types r.params),
      )
      refl

-- The class that a name resolves to is alive.
pub record HasName (S : Store) (name : String) (ref : ℕ) : Type 0 where
  pub scope : ClassScope
  pub found : lock S ref ≡ some scope
  pub same_name : scope.name ≡ name

find_class-HasName :
    (S : Store) (name : String) (refs : List ℕ) (ref : ℕ)
    → find_class S name refs ≡ some (some ref)
    → HasName S name ref
unfolding find_class
find_class-HasName S name [] ref e = cc
find_class-HasName S name (k ∷ refs) ref e =
    let (c, found, rest) = bind-some (lock S k) _ e in
    elim (Bool-cases (str_eq c.name name)) [
      | inl same ↦ record {
        scope = c;
        found = subst (λ j. lock S j ≡ some c) (some_inj (some_inj (rw same at rest))) found;
        same_name = (eq_iff c.name name).0 same;
      }
      | inr other ↦ find_class-HasName S name refs ref (rw other at rest)
    ]

-- The class that a name resolves to in a scope is alive and has that name.
pub resolve_class_by_name-HasName :
    (S : Store) (name : String) (s : Scope) (ref : ℕ)
    → resolve_class_by_name S name s ≡ some (some ref)
    → HasName S name ref
unfolding resolve_class_by_name
resolve_class_by_name-HasName S name (global_scope g) ref e =
    find_class-HasName S name g.classes ref e
resolve_class_by_name-HasName S name (local_scope l outer) ref e =
    resolve_class_by_name-HasName S name outer ref e
resolve_class_by_name-HasName S name (func_scope f outer) ref e =
    resolve_class_by_name-HasName S name outer ref e
resolve_class_by_name-HasName S name (class_scope c outer) ref e =
    resolve_class_by_name-HasName S name outer ref e
