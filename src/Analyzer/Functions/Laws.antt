-- ===== src/Analyzer/Functions/Laws.antt =====
-- What a definition is that src/dachs/semantics/analyzer.cpp lets pass.
use dachs.Base.{ℕ, ◌≡◌, ◌⊎◌, true, false, some, List}
use dachs.Types.{AnyType, builtin_type, VarSymbol, Store}
use dachs.Types.Equality.{type_eq}
use dachs.Types.Predicates.{get_unit_type}
use dachs.Scope.Functions.{is_copier}
use dachs.ConstFunc.{Consts, Member, State, set_const, check_const}
use dachs.Analyzer.Blocks.Runs.{Outcome, returns, RunBlock}
use dachs.Analyzer.Returns.Laws.{IsDeduced}
use dachs.Analyzer.Functions.{FunctionDef, VisitedFunction, set_ret_type, copier_param}

module _ (S : Store) (fuel : ℕ) (members : List Member) (depth : ℕ) where
  -- The body returns a value on every run that ends, unless the type is the unit type.
  abbrev pub Terminates : FunctionDef → AnyType → Type 0
  Terminates def t =
      (type_eq S fuel t get_unit_type ≡ some true)
      ⊎ ((o : Outcome) → RunBlock def.body o → o ≡ returns)

  -- A copier returns the type of its receiver, which is a class.
  pub record IsCopierOf (params : List VarSymbol) (t : AnyType) : Type 0 where
    pub receiver : AnyType
    pub first_param : copier_param params ≡ some receiver
    pub same : type_eq S fuel t receiver ≡ some true

  pub record IsSound (def : FunctionDef) (consts : Consts) (v : VisitedFunction) : Type 0 where
    pub t : AnyType
    pub typed : v.def ≡ set_ret_type t def
    pub deduction : IsDeduced S fuel def.kind def.ret_type def.returns t
    pub termination : Terminates def t
    pub query : (def.is_query ≡ false) ⊎ (type_eq S fuel t (builtin_type "bool") ≡ some true)
    pub copier : (is_copier def.scope ≡ false) ⊎ IsCopierOf def.scope.params t
    pub verdict : State
    pub checked : check_const S fuel members depth def.index consts ≡ some verdict
    pub decided : v.consts ≡ set_const def.index verdict.0 verdict.1
