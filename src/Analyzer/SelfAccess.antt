-- ===== src/Analyzer/SelfAccess.antt =====
-- `self_access_checker` of src/dachs/semantics/analyzer.cpp, and its use on a statement of a
-- constructor.
pub mod Laws
use dachs.Base.{
  ℕ, String, str_eq, Bool, true, false, not, ◌||◌, ◌&&◌, Option, none, some, List, [], ◌∷◌, any_b,
  if◌then◌else◌,
}

-- A statement as the walker shows it: a reference with its name, a call with the function and the
-- arguments, a UFCS call with the object and the member, or any other node with its children.
mutual
  pub data Tree : Type 0 where
    var_ref : String → Tree
    func_invocation : Tree → Trees → Tree
    ufcs_invocation : Tree → String → Tree
    node : Trees → Tree

  pub data Trees : Type 0 where
    no_trees : Trees
    trees : Tree → Trees → Trees

-- The members of the checker. Of the call that it keeps, `is_self_access_with_func` has the name
-- of the function, if the function is a reference.
pub record Checker : Type 0 where
  pub is_self_access : Bool
  pub is_self_access_with_func : Option (Option String)
  pub is_self_access_with_ufcs : Option String

abbrev pub no_access : Checker
no_access = record {
  is_self_access = false;
  is_self_access_with_func = none;
  is_self_access_with_ufcs = none;
}

abbrev pub is_some : {A : Type 0} → Option A → Bool
is_some (some a) = true
is_some none = false

abbrev pub contains_self_access : Checker → Bool
contains_self_access c =
    c.is_self_access || is_some c.is_self_access_with_func || is_some c.is_self_access_with_ufcs

abbrev pub name_of : Tree → Option String
name_of (var_ref name) = some name
name_of t = none

-- The visits of a call with a reference as its first argument, and of a UFCS call of one
abbrev pub with_func : String → Tree → Checker → Checker
with_func name callee c =
    if str_eq name "self" then record c { is_self_access_with_func = some (name_of callee) } else c

abbrev pub with_ufcs : String → String → Checker → Checker
with_ufcs name member c =
    if str_eq name "self" then record c { is_self_access_with_ufcs = some member } else c

-- The walk with the checker. The function and the arguments of a call, the object of a UFCS call
-- and the children of other nodes are wrapped in an `any_expr` or are nodes of other kinds,
-- which are not walked once there is an access. A call or a UFCS call on a reference is not
-- walked further.
unfoldable mutual
  pub check : Tree → Checker → Checker
  check (var_ref name) c = if str_eq name "self" then record c { is_self_access = true } else c
  check (func_invocation callee no_trees) c = if contains_self_access c then c else check callee c
  check (func_invocation callee (trees (var_ref name) args)) c = with_func name callee c
  check (func_invocation callee (trees a args)) c =
      let c1 = if contains_self_access c then c else check callee c in
      check_all args (if contains_self_access c1 then c1 else check a c1)
  check (ufcs_invocation (var_ref name) member) c = with_ufcs name member c
  check (ufcs_invocation child member) c = if contains_self_access c then c else check child c
  check (node ts) c = if contains_self_access c then c else check_all ts c

  pub check_all : Trees → Checker → Checker
  check_all no_trees c = c
  check_all (trees t ts) c = check_all ts (if contains_self_access c then c else check t c)

abbrev pub or_ufcs : Option String → Option String → Option String
or_ufcs (some name) ufcs = some name
or_ufcs none ufcs = ufcs

abbrev pub violated_member_name : Checker → Option String
violated_member_name c = elim c.is_self_access_with_func [
  | some name ↦ or_ufcs name c.is_self_access_with_ufcs
  | none ↦ c.is_self_access_with_ufcs
]

abbrev pub is_initialized : List String → Option String → Bool
is_initialized names (some n) = any_b (str_eq n) names
is_initialized names none = false

-- The check of a statement before all variables are initialized, where `names` are: whether it
-- reports no error
unfoldable pub passes : List String → Tree → Bool
unfolding check
passes names stmt =
    let c = check stmt no_access in
    not (contains_self_access c) || is_initialized names (violated_member_name c)
