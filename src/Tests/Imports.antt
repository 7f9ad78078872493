-- ===== src/Tests/Imports.antt =====
-- Two files that import each other, read by the importer of src/dachs/parser/importer.cpp.
use dachs.Base.{
  ◌≡◌, refl, String, str_eq, true, false, if◌then◌else◌, some, List, [], ◌∷◌, arith, Bool, sym, ap,
  ◌∙◌,
}
use dachs.Base.Defined.{some_inj}
use dachs.Importer.{
  FilePath, FileSystem, Import, Inu, Parsed, parsed, Importer, imported, find_path, is_in,
  import_program, search_dir,
}
use dachs.Importer.Main.{HasMains, import_program-HasMains}
use dachs.Importer.Ends.{IsDone, import_program-IsDone}

abbrev names : List FilePath
names = "a" ∷ "b" ∷ []

-- A file system with the files `a` and `b` and no directory; any import but that of `a` is of `b`.
abbrev files : FileSystem
files = record {
  exists = λ p. true;
  is_directory = λ p. false;
  read_file = λ p. some p;
  join = λ d p. p;
  parent_path = λ p. "";
  replace_dots = λ p. p;
  append = λ p q. if str_eq p "a" then "a" else "b";
}

abbrev importing : String → Inu
importing other = record {
  imports = record { path = other; location = 1 } ∷ [];
  global_constants = [];
  classes = [];
  functions = record { name = "main"; params = []; location = 2 } ∷ [];
}

abbrev parse : String → FilePath → Parsed
parse code p = parsed (importing (if str_eq p "a" then "b" else "a"))

abbrev importer : Importer
importer = record {
  fs = files;
  parse = parse;
  library_dir = "lib";
  import_dirs = [];
  source_file = "a";
}

ran : import_program 3 importer (importing "b") "a" [] ≡ imported (importing "b") ("b" ∷ "a" ∷ [])
unfolding import_program
ran = refl

import_program-HasMains_example :
    HasMains
      (record { name = "main"; params = []; location = 2 } ∷ [])
      (import_program 3 importer (importing "b") "a" [])
import_program-HasMains_example = import_program-HasMains 3 importer (importing "b") "a" []

file-is_in : (b : Bool) → is_in (if b then "a" else "b") names ≡ true
file-is_in true = refl
file-is_in false = refl

found : (i : Import) (p : FilePath) → find_path importer i ≡ some p → is_in p names ≡ true
unfolding find_path search_dir
found i p e = ap (λ q. is_in q names) (sym (some_inj e)) ∙ file-is_in (str_eq i.path "a")

import_program-IsDone_example : IsDone ("a" ∷ []) (import_program 2 importer (importing "b") "a" [])
import_program-IsDone_example =
    import_program-IsDone importer names found 2 (importing "b") "a" [] (omega arith)
