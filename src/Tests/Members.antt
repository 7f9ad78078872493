-- ===== src/Tests/Members.antt =====
-- Member functions that src/dachs/semantics/const_func_checker.hpp reads.
use dachs.Base.{ℕ, ◌≡◌, refl, ◌↔◌, true, false, String, str_eq, none, some, List, [], ◌∷◌}
use dachs.Types.{VarSymbol, FuncScope}
use dachs.Types.Template.{is_template}
use dachs.ConstFunc.{
  Tree, Trees, var_ref, ufcs_invocation, func_invocation, index_access, assignment_stmt, node,
  no_trees, trees, Member, Consts, check_const, is_const_violated_invocation,
}
use dachs.ConstFunc.Harmless.{IsHarmless}
use dachs.ConstFunc.Check.{IsChecked, check_const-IsHarmless}
use dachs.ConstFunc.Violation.{IsViolation, is_const_violated_invocation-IsViolation}
use dachs.Tests.Data.{point, store, var}

abbrev self : VarSymbol
self = var 60 "self" point

abbrev method : ℕ → String → FuncScope
method id name = record {
  id = id;
  name = name;
  is_builtin = false;
  params = self ∷ [];
  ret_type = none;
  is_member_func = true;
  is_const_ = none;
}

-- @x = 1
abbrev set_x : Tree
set_x =
    assignment_stmt (trees (ufcs_invocation (var_ref self) none) no_trees)
      (trees (node no_trees) no_trees)

abbrev one : Tree → Trees
one t = trees t no_trees

abbrev call : ℕ → Tree
call k = func_invocation (node no_trees) (one (var_ref self)) (some k)

-- func get: ret @x; func set: @x = 1, self.get()
abbrev members : List Member
members =
    record { scope = method 0 "get"; def = node (one (ufcs_invocation (var_ref self) none)) }
    ∷ record { scope = method 1 "set"; def = node (trees set_x (one (call 0))) }
    ∷ []

abbrev none_decided : Consts
none_decided i = none

abbrev checked :
    (id : ℕ) (name : String) (def : Tree)
    → str_eq name "dachs.init" ≡ false
    → IsChecked store 5 (record { scope = method id name; def = def })
unfolding is_template
checked id name def e = record {
  receiver = self;
  has_receiver = refl;
  is_member = refl;
  no_ctor = e;
  no_template = refl;
}

check_const-IsHarmless_example :
    (check_const store 5 members 2 0 none_decided ≡ some (true, none_decided))
    ↔ IsHarmless store 5 point (node (one (ufcs_invocation (var_ref self) none)))
check_const-IsHarmless_example =
    check_const-IsHarmless store 5 members 1 0 none_decided _ refl refl (checked 0 "get" _ refl)
      (tt, tt)

is_const_violated_invocation-IsViolation_example :
    IsViolation
      (method 1 "set")
      (some false)
      (index_access (var_ref self) (var_ref self))
      (some self)
unfolding is_const_violated_invocation
is_const_violated_invocation-IsViolation_example =
    is_const_violated_invocation-IsViolation (method 1 "set") (some false)
      (index_access (var_ref self) (var_ref self)) (some self) refl
