-- ===== src/Lib.antt =====
-- Dachs: a compiler whose semantic analysis works on a tree of scopes. This library models the
-- parts of the analysis that decide what names, calls and types mean, and the hash of symbols in
-- the runtime.
--
-- Types (src/dachs/semantics/type.hpp, type.cpp, symbol.hpp): the types as data, with classes as
-- indices into a store, since classes and types refer to one another in cycles. `Types.Equality`
-- is `operator==`, `Types.Template` is `is_template` and `is_class_template`, `Types.Instance` is
-- `is_instantiated_from`, `Types.Fuzzy` is `fuzzy_match`, `Types.Predicates` holds the builtin
-- types and the tests on types, `Types.Node` the nodes of the syntax tree for types and `to_ast`.
-- `Types.Finite` says which types have an expansion that ends.
--
-- Overload (src/dachs/semantics/scope.cpp, namespace `detail`): the scores of functions and the
-- choice of the overload set in three stages. `Overload.Narrow` is about one stage and the order
-- of all three, `Overload.Best` about the whole choice, `Overload.Match` about the scores,
-- `Overload.Exact` about calls that a function takes exactly.
--
-- Scope (src/dachs/semantics/scope.hpp, scope.cpp): the scopes from a node up to the root, with
-- lookups in `Scope`, definitions in `Scope.Define`, functions, casts and class templates in
-- `Scope.Functions` and `Scope.Templates`, members and constructors in `Scope.Members` (with
-- src/dachs/semantics/tmp_member_checker.hpp), the checks of array and pointer constructors of
-- src/dachs/semantics/tmp_constructor_checker.hpp in `Scope.Constructors`, the test for captured
-- variables of src/dachs/semantics/lambda_capture_resolver.hpp in `Scope.Capture`, and `from_ast`
-- of src/dachs/semantics/type_from_ast.hpp in `Scope.TypeFromAst`. Overload resolution is called by
-- `resolve_func` of the global scope, and itself asks the relations of `Types`.
--
-- Importer (src/dachs/parser/importer.cpp, implicit_import.hpp): the programs that a program
-- imports, merged into it. `Importer.Main` is about the functions named `main`, `Importer.Ends`
-- about the depth of imports. The file system and the parser are parameters.
--
-- Forward (src/dachs/semantics/forward_analyzer_impl.hpp): the checks of functions, classes,
-- operators and casts once all of them are defined in the global scope. `Forward.Distinct`,
-- `Forward.Operators` and `Forward.Casts` say what passing means for the lookups of `Scope` and
-- `Overload`; `Forward.Classes` has the receivers and constructors that are added to classes.
--
-- Ast (src/dachs/ast/ast.hpp, ast_fwd.hpp): the statements, as the analyzer reads them.
--
-- Analyzer (src/dachs/semantics/analyzer.cpp): parts of `symbol_analyzer`. `Analyzer.Blocks` is the
-- check for blocks that end without a return, with the runs of statements in
-- `Analyzer.Blocks.Runs`; `Analyzer.Returns` is `deduce_return_type`; `Analyzer.Calls` is
-- `resolve_func_call`, on the lookup of `Scope`, and the tests for private members;
-- `Analyzer.Index` is `index_access_analyzer`, and `Analyzer.Operators` the operators, both of
-- which resolve calls by `Analyzer.Calls` and ask `ConstFunc` about the receiver;
-- `Analyzer.Casts` is the visit of casts, on `resolve_cast_func` of `Scope.Functions`;
-- `Analyzer.Declares` has declarations, on `Scope.Define`, and references to variables,
-- `Analyzer.Typed` expressions `e : T`; `Analyzer.Literals` the literals, on `Analyzer.Copies`;
-- `Analyzer.Invocation` is the visit of calls, on `Analyzer.Calls` and `ConstFunc`;
-- `Analyzer.Functions` is the end of the visit of a function, on `Analyzer.Returns`,
-- `Analyzer.Blocks` and `ConstFunc`; `Analyzer.Initialize` and `Analyzer.Assign` are the
-- initializations and assignments, on `Analyzer.Copies`, `Analyzer.Defaults` the initializations
-- without values;
-- `Analyzer.Branches` has conditions, `if` and `case`; `Analyzer.Copies`
-- (src/dachs/semantics/copy_resolver.hpp) is the search for the copiers of a type, on
-- `Analyzer.Calls`, with the map of copiers keyed by the addresses of type objects, which are an
-- input, and `Analyzer.Copies.Grows` about what the map gets;
-- `Analyzer.Ufcs` is the visit of accesses `a.b`, on `Scope.Members`, `Analyzer.Calls` and
-- `ConstFunc`;
-- `Analyzer.Instances` is the instantiation of a class template from types that are specified,
-- and `Analyzer.SelfAccess` the check for accesses to `self` in constructors.
--
-- Lambda (src/dachs/semantics/lambda_capture_resolver.hpp): the captures of a lambda and the
-- layout of its object, on the test for captured variables of `Scope.Capture`.
--
-- ConstFunc (src/dachs/semantics/const_func_checker.hpp): whether a member function changes its
-- receiver, with the functions that are decided as the state, and the calls that violate it.
--
-- Codegen (src/dachs/codegen/llvmir/tmp_builtin_operator_ir_emitter.hpp): the instructions for
-- operators, over a builder of LLVM that is a parameter; `Codegen.Operators.Typed` and
-- `Codegen.Operators.Progress` relate them to the types of `Analyzer.Operators`,
-- `Codegen.Operators.Tuples` says what comparisons of tuples compute.
--
-- CityHash (runtime/src/dachs/runtime.hpp): `cityhash64` on bytes. A read outside of them has no
-- value.
--
-- Base holds what the modules share. `Option` stands for a computation of the program that may
-- have no value: an assertion fails, a read is out of bounds, an exception is thrown, or the
-- recursion is deeper than the fuel. A result of the program that is itself optional is a second
-- `Option` inside. Fuel bounds the depth of recursion through the instance variables of classes,
-- which need not end; enough fuel is shown where classes refer to earlier classes only. The loop
-- of `cityhash64` has the length as fuel.
-- `unsigned int` has 32 bits, and `size_t` and the words of the hash have 64, with their wrap.
--
-- The depth of calls in `check_const` and of imports in `import_program` is fuel as well; for
-- imports, more than the number of files is enough.
--
-- Not modelled: the parser and the rest of the code generator, which are written in terms of
-- libraries, the rest of the analyzer's walk over expressions and statements, instances of
-- templates, the printing of types and trees, and the driver.
pub mod Base
pub mod Types
pub mod Overload
pub mod Scope
pub mod CityHash
pub mod Forward
pub mod Ast
pub mod Analyzer
pub mod ConstFunc
pub mod Importer
pub mod Lambda
pub mod Codegen
pub mod Tests
