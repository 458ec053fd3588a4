-- ===== src/Config/Files.antt =====
-- The disk of the configuration with the parser and the writer of the store module. The file system
-- itself is a parameter.
use kalisko.Base.{Bool, Option, none, some, List, Bytes}
use kalisko.Store.Value.{Store}
use kalisko.Store.Lexer.Yylex.{Token, Location}
use kalisko.Store.Parse.{Parsed, parsed, RootTree, parse_store_file}
use kalisko.Store.Write.{write_store_gstring}
use kalisko.Config.{Disk}

-- The bytes of the file at a path, `none` where it cannot be opened, and the writing of a file.
pub record Files (D : Type 0) : Type 0 where
  pub read : D → Bytes → Option Bytes
  pub write : D → Bytes → Bytes → D
  pub exists : D → Bytes → Bool
  pub make_directory : D → D × Bool
  pub user_path : Bytes
  pub override_path : Bytes
  pub profiles_path : Bytes
  pub global_path : Bytes

-- `NULL` for a file that is not parsed. The parser ends on every file.
abbrev pub store_or_null : {F : Type 0} → Parsed F → Option (Store F)
store_or_null (parsed s) = some s
store_or_null _ = none

module _ {D F : Type 0} (parser : List (Token F) → Option (RootTree F)) (atof : Bytes → F)
    (format_double : F → Bytes) (loc : Location) (files : Files D) where
  -- `writeStoreFile`, whose writer puts the bytes into the file that `writeStoreGString` puts into
  -- a string.
  abbrev pub write_file : D → Bytes → Option Bytes → Option D
  write_file d path none = none
  write_file d path (some text) = some (files.write d path text)

  abbrev pub store_disk : Disk D F
  store_disk = record {
    parse_store_file = λ d path. store_or_null (parse_store_file parser atof (files.read d path));
    write_store_file = λ d path s. write_file d path (write_store_gstring atof format_double loc s);
    exists = files.exists;
    make_directory = files.make_directory;
    user_path = files.user_path;
    override_path = files.override_path;
    profiles_path = files.profiles_path;
    global_path = files.global_path;
  }
