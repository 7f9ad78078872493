-- ===== src/ConstFunc/Check.antt =====
-- What the verdict of `check_const` of src/dachs/semantics/const_func_checker.hpp says.
use dachs.Base.{ℕ, suc, ◌≡◌, refl, true, false, none, some, List, get_elem?, ◌↔◌}
use dachs.Types.{VarSymbol, Store}
use dachs.Scope.Functions.{func_is_template, is_ctor}
use dachs.ConstFunc.Harmless.{NoCalls, IsHarmless, visit-IsHarmless, harmless-visit}
use dachs.ConstFunc.{Member, Consts, visit, check_const}

-- A member function of which `check_const` reads the definition
pub record IsChecked (S : Store) (fuel : ℕ) (m : Member) : Type 0 where
  pub receiver : VarSymbol
  pub has_receiver : get_elem? m.scope.params 0 ≡ some receiver
  pub is_member : m.scope.is_member_func ≡ true
  pub no_ctor : is_ctor m.scope ≡ false
  pub no_template : func_is_template S fuel m.scope ≡ some false

check_const-visit :
    (S : Store) (fuel : ℕ) (members : List Member) (depth self : ℕ) (c : Consts) (m : Member)
    → get_elem? members self ≡ some m
    → c self ≡ none
    → (h : IsChecked S fuel m)
    → check_const S fuel members (suc depth) self c
      ≡ visit S fuel (check_const S fuel members depth) members self h.receiver.ty m.def (true, c)
unfolding check_const
check_const-visit S fuel members depth self c m found new h =
    rw (found, h.no_template, new, h.is_member, h.no_ctor, h.has_receiver) refl

-- In the definition of a member function that is not decided, neither a constructor nor a
-- template, in which no function is called by name, the function is found to be const exactly
-- if no assignment in it changes a member of a variable of the receiver's type.
pub check_const-IsHarmless :
    (S : Store) (fuel : ℕ) (members : List Member) (depth self : ℕ) (c : Consts) (m : Member)
    → get_elem? members self ≡ some m
    → c self ≡ none
    → (h : IsChecked S fuel m) → NoCalls m.def
    → (check_const S fuel members (suc depth) self c ≡ some (true, c))
      ↔ IsHarmless S fuel h.receiver.ty m.def
check_const-IsHarmless S fuel members depth self c m found new h n =
    rw (check_const-visit S fuel members depth self c m found new h) (
      (λ e. (visit-IsHarmless S fuel _ members self h.receiver.ty m.def (true, c) n e refl).1),
      harmless-visit S fuel _ members self h.receiver.ty m.def c n,
    )
