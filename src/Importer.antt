-- ===== src/Importer.antt =====
-- src/dachs/parser/importer.cpp: the programs that a program imports, merged into it.
pub mod Main
pub mod Ends
use dachs.Base.{
  ℕ, zero, suc, String, str_eq, Bool, true, false, not, Option, none, some, List, [], ◌∷◌, ◌++◌,
  any_b, is_empty, ◌&&◌, if◌then◌else◌, filterb,
}
use dachs.Ast.{Location}

abbrev pub FilePath : Type 0
FilePath = String

-- The file system and the libraries for strings and paths
pub record FileSystem : Type 0 where
  pub exists : FilePath → Bool
  pub is_directory : FilePath → Bool
  pub read_file : FilePath → Option String
  pub join : FilePath → FilePath → FilePath
  pub parent_path : FilePath → FilePath
  pub replace_dots : String → String
  pub append : String → String → String

-- `node::import`
pub record Import : Type 0 where
  pub path : String
  pub location : Location

-- `params` has the member `is_receiver` of each parameter.
pub record FunctionDefinition : Type 0 where
  pub name : String
  pub params : List Bool
  pub location : Location

-- `node::inu`; classes and constants are given by their places.
pub record Inu : Type 0 where
  pub imports : List Import
  pub global_constants : List Location
  pub classes : List Location
  pub functions : List FunctionDefinition

-- A parser gives the program, or the place of its `parse_error`.
pub data Parsed : Type 0 where
  parsed : Inu → Parsed
  syntax_error : Location → Parsed

-- The members of `importer_impl`. `library_dir` is the directory of the installed library.
pub record Importer : Type 0 where
  pub fs : FileSystem
  pub parse : String → FilePath → Parsed
  pub library_dir : FilePath
  pub import_dirs : List FilePath
  pub source_file : FilePath

pub data Imported : Type 0 where
  imported : Inu → List FilePath → Imported
  parse_error : Location → Imported
  out_of_fuel : Imported

abbrev pub is_main : FunctionDefinition → Bool
is_main f = str_eq f.name "main"

abbrev pub merge : Inu → Inu → Inu
merge lhs rhs = record lhs {
  global_constants = lhs.global_constants ++ rhs.global_constants;
  classes = lhs.classes ++ rhs.classes;
  functions = lhs.functions ++ filterb (λ f. not (is_main f)) rhs.functions;
}

-- The lambda `search` of `find_path`
unfoldable pub search_dir : Importer → FilePath → FilePath → Option FilePath
search_dir imp specified name =
    let fs = imp.fs in
    let joined = fs.join name specified in
    let p = if fs.exists joined then joined else fs.join (fs.parent_path imp.source_file) joined in
    if fs.is_directory p then none else if fs.exists p then some p else none

-- The directories in the order of the search
abbrev pub search_dirs : Importer → FilePath → List FilePath → Option FilePath
search_dirs imp specified [] = none
search_dirs imp specified (d ∷ ds) = elim (search_dir imp specified d) [
  | some p ↦ some p
  | none ↦ search_dirs imp specified ds
]

-- `find_path`: `none` stands for the error that no file is found.
unfoldable pub find_path : Importer → Import → Option FilePath
unfolding search_dir
find_path imp node =
    let specified = imp.fs.append (imp.fs.replace_dots node.path) ".dcs" in
    search_dirs imp specified
      (imp.library_dir ∷ imp.import_dirs ++ imp.fs.parent_path imp.source_file ∷ [])

abbrev pub is_in : FilePath → List FilePath → Bool
is_in p already = any_b (str_eq p) already

abbrev pub insert : FilePath → List FilePath → List FilePath
insert p already = if is_in p already then already else p ∷ already

-- What the loop does with the program that an import gives; `rest` is the rest of the loop.
abbrev pub after_import : Inu → Imported → (Inu → List FilePath → Imported) → Imported
after_import program (imported other already) rest = rest (merge program other) already
after_import program (parse_error at) rest = parse_error at
after_import program out_of_fuel rest = out_of_fuel

-- `parse`, where `rec` is the import of a program that is read from a file
abbrev pub parse_import :
    (Inu → FilePath → List FilePath → Imported)
    → Importer
    → FilePath
    → String
    → List FilePath
    → Imported
parse_import rec imp p code already = elim (imp.parse code p) [
  | parsed ast ↦ rec ast p already
  | syntax_error at ↦ parse_error at
]

-- One round of the loop of `import`
unfoldable pub import_one :
    (Inu → FilePath → List FilePath → Imported)
    → Importer
    → Import
    → Inu
    → List FilePath
    → (Inu → List FilePath → Imported)
    → Imported
unfolding find_path
import_one rec imp i program already rest = elim (find_path imp i) [
  | none ↦ parse_error i.location
  | some p ↦ elim (is_in p already) [
    | true ↦ rest program already
    | false ↦ elim (imp.fs.read_file p) [
      | none ↦ parse_error i.location
      | some source ↦ after_import program (parse_import rec imp p source already) rest
    ]
  ]
]

unfoldable pub import_loop :
    (Inu → FilePath → List FilePath → Imported)
    → Importer
    → List Import
    → Inu
    → List FilePath
    → Imported
unfolding import_one
import_loop rec imp [] program already = imported program already
import_loop rec imp (i ∷ is) program already =
    import_one rec imp i program already (λ p a. import_loop rec imp is p a)

-- `import` of a program in a file, at a depth of imports
unfoldable pub import_program : ℕ → Importer → Inu → FilePath → List FilePath → Imported
unfolding import_loop
import_program zero imp program file already = out_of_fuel
import_program (suc fuel) imp program file already =
    import_loop (import_program fuel imp) imp program.imports program (insert file already)

-- The parameters begin with no receiver.
abbrev pub no_receiver : List Bool → Bool
no_receiver [] = true
no_receiver (r ∷ rs) = not r

-- `function_definition::is_main_func`
abbrev pub is_main_func : FunctionDefinition → Bool
is_main_func f = is_main f && no_receiver f.params

abbrev pub import_if : Bool → String → List Import
import_if cond name = if cond then record { path = name; location = 0 } ∷ [] else []

-- `implicit_import::install` of src/dachs/parser/implicit_import.hpp, with what the parser has found
unfoldable pub install : Bool → Bool → Bool → Inu → Inu
install range_expr_found array_found string_found program = record program {
  imports =
      program.imports
      ++ import_if range_expr_found "std.range"
      ++ import_if array_found "std.array"
      ++ import_if string_found "std.string"
      ++ import_if (any_b (λ f. is_main_func f && not (is_empty f.params)) program.functions)
          "std.argv";
}
