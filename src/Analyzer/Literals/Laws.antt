-- ===== src/Analyzer/Literals/Laws.antt =====
-- What a literal of an array is that src/dachs/semantics/analyzer.cpp lets pass.
use dachs.Base.{ℕ, ◌≡◌, Bool, true, false, Option, some, List, [], ◌∷◌, All}
use dachs.Types.{AnyType, is_known, builtin_type, pointer_type, FuncScope, Store}
use dachs.Types.Equality.{type_eq}
use dachs.Types.Template.{is_template}
use dachs.Types.Predicates.{get_array_underlying_type}
use dachs.Scope.{Scope}
use dachs.Analyzer.Calls.{Definitions}
use dachs.Analyzer.Copies.{Copiers, resolve_deep_copy}
use dachs.Analyzer.Copies.Grows.{Grows}
use dachs.Analyzer.Literals.{Construction, constructs, ClassLiteral, constructed, class_named}

module _ (S : Store) (fuel depth : ℕ) (current_scope : Scope) (defs : Definitions)
    (construct : ℕ → List AnyType → Option Construction) where
  -- The type of the elements: the one that is specified for a literal without elements, that of
  -- all elements otherwise
  abbrev pub HasElements : List AnyType → ClassLiteral → AnyType → Type 0
  HasElements [] lit elem_type =
      (is_known lit.type_of_literal ≡ true)
      × (is_template S fuel lit.type_of_literal ≡ some false)
      × (get_array_underlying_type S lit.type_of_literal ≡ some (pointer_type elem_type))
  HasElements (t ∷ ts) lit elem_type =
      (t ≡ elem_type) × All (λ u. type_eq S fuel t u ≡ some true) (t ∷ ts)

  -- The literal constructs the class of arrays from a buffer of the elements and a size, and
  -- the copiers of the elements are resolved.
  pub record IsArrayOf (elem_type : AnyType) (st : Copiers) (lit : ClassLiteral) (st' : Copiers)
      : Type 0 where
    pub template_ref : ℕ
    pub template : AnyType
    pub named :
        class_named S fuel depth current_scope defs construct "array"
        ≡ some (template_ref, template)
    pub is_template_class : is_template S fuel template ≡ some true
    pub ref : ℕ
    pub t : AnyType
    pub ctor : FuncScope
    pub made :
        construct template_ref (template ∷ pointer_type elem_type ∷ builtin_type "uint" ∷ [])
        ≡ some (constructs ref t ctor)
    pub sets : lit ≡ constructed ref t ctor
    pub success : Bool
    pub copied :
        resolve_deep_copy S fuel current_scope defs depth elem_type st ≡ some (success, st')
    pub grown : Grows S fuel current_scope defs st st'
