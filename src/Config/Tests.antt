-- ===== src/Config/Tests.antt =====
-- Runs of src/modules/config/config.c, on a disk that holds the texts of stores.
use kalisko.Config.Files.{Files, store_disk}
use kalisko.Store.Path.{get_store_path, read_component, child}
use kalisko.Store.Lexer.{char_type, lex_step}
use kalisko.Base.{
  ◌≡◌, refl, Bool, true, false, Option, none, some, [], ◌∷◌, Bytes, codes, bytes_eq, bytes_eq_iff,
  arith, ap, ℕ,
}
use kalisko.Base.Int.{pos}
use kalisko.Base.Table.{Table, get, put, get-put}
use kalisko.Store.Value.{Store, Nodes, array, string, integer, empty, node}
use kalisko.Store.Value.Tables.{lookup, insert}
use kalisko.Store.Clone.{clone_store}
use kalisko.Store.Merge.{merge_store}
use kalisko.Store.Parse.Automaton.{parse}
use kalisko.Store.Parse.Grammar.{parse-IsParser}
use kalisko.Store.Lexer.Yylex.{Location, string_reader}
use kalisko.Store.Write.{write_store_gstring, indent, quoted}
use kalisko.Config.{Disk, World, done, out_of_fuel, check_files_merge, get_path}
use kalisko.Config.Load.{internal_reload_config, load_writable_config, combine, load_file}
use kalisko.Config.Save.{save_writable_config}
use kalisko.Config.Combined.{IsCombined, inject_writable, perform, perform-IsCombined, Answers}
use kalisko.Config.Layers.{internal_reload_config_lem}
use kalisko.Config.Saved.{load_writable_config-save_writable_config, IsFileSystem}
use kalisko.Config.Merges.{check_files_merge_endless}

abbrev kept : Bytes → Bytes
kept s = s

abbrev origin : Location
origin = record { last_line = 1; last_column = 1 }

abbrev is_some : Option Bytes → Bool
is_some none = false
is_some (some text) = true

-- A file system of texts.
abbrev memory : Files (Table Bytes)
memory = record {
  read = λ d path. get path d;
  write = λ d path text. put path text d;
  exists = λ d path. is_some (get path d);
  make_directory = λ d. (d, true);
  user_path = codes "u";
  override_path = codes "o";
  profiles_path = codes "p";
  global_path = codes "g";
}

get_written : (d : Table Bytes) (path text : Bytes) → get path (put path text d) ≡ some text
get_written d path text = ground (arith, get-put path path text d, bytes_eq_iff path path)

memory-IsFileSystem : IsFileSystem memory
memory-IsFileSystem d path text = (ap is_some (get_written d path text), get_written d path text)

abbrev settings : Nodes Bytes
settings = node (codes "name") (string (codes "a b")) empty

abbrev to_save : World (Table Bytes) Bytes
to_save = record {
  variables = record {
    writable_config_file_path = some (codes "o");
    profile_path = none;
    cli_config_file_path = none;
    writable_config_path_exists = true;
    config = none;
    writable_config = some (array settings);
    read_only_config = some (array empty);
  };
  disk = [];
  events = [];
}

load_writable_config-save_writable_config_example :
    (w' : World (Table Bytes) Bytes) × (save_writable_config
        (store_disk parse kept kept origin memory)
        to_save
      ≡ done w')
    × ((load_writable_config (store_disk parse kept kept origin memory) w').1 ≡ array settings)
unfolding write_store_gstring char_type lex_step string_reader indent quoted lookup
load_writable_config-save_writable_config_example =
    load_writable_config-save_writable_config parse kept kept origin memory to_save (array empty)
      settings (codes "name = \"a b\"") parse-IsParser memory-IsFileSystem ((refl, tt), (tt, tt))
      (omega arith, (omega arith, tt)) refl refl refl refl refl

-- A disk of stores.
abbrev file_of : Option (Store ℕ) → Bool
file_of none = false
file_of (some s) = true

abbrev stores : Disk (Table (Store ℕ)) ℕ
stores = record {
  parse_store_file = λ d path. get path d;
  write_store_file = λ d path s. some (put path s d);
  exists = λ d path. file_of (get path d);
  make_directory = λ d. (d, true);
  user_path = codes "u";
  override_path = codes "o";
  profiles_path = codes "p";
  global_path = codes "g";
}

abbrev one : Bytes → ℕ → Nodes ℕ
one key n = node key (integer (pos n)) empty

abbrev four_files : Table (Store ℕ)
four_files =
    (codes "p", array (one (codes "a") 1))
    ∷ (codes "u", array (one (codes "a") 2))
    ∷ (codes "g", array (one (codes "a") 3))
    ∷ (codes "o", array (one (codes "b") 4))
    ∷ []

abbrev start : World (Table (Store ℕ)) ℕ
start = record {
  variables = record {
    writable_config_file_path = none;
    profile_path = none;
    cli_config_file_path = none;
    writable_config_path_exists = false;
    config = none;
    writable_config = none;
    read_only_config = none;
  };
  disk = four_files;
  events = [];
}

internal_reload_config_lem_example :
    (w' : World (Table (Store ℕ)) ℕ) × ((cs : Nodes ℕ) × ((internal_reload_config stores 1 true
            start
          ≡ done (w', true))
        × ((w'.variables.config ≡ some (array cs))
            × (IsCombined w'.variables × (lookup (codes "a") cs ≡ some (integer (pos 2)))))))
unfolding get lookup bytes_eq load_file merge_store clone_store
internal_reload_config_lem_example =
    internal_reload_config_lem stores 0 true start (one (codes "a") 1) (one (codes "a") 2)
      (one (codes "a") 3) (one (codes "b") 4) (codes "a") refl refl
      ((refl, (refl, refl)), ((refl, refl), (refl, refl)))
      (((refl, tt), (refl, tt)), ((refl, tt), (refl, tt))) refl refl

abbrev combined : World (Table (Store ℕ)) ℕ
combined = record start {
  variables = record start.variables {
    config = some (array (one (codes "a") 1));
    read_only_config = some (array (one (codes "a") 1));
    writable_config = some (array empty);
  };
}

perform-IsCombined_example :
    (w' : World (Table (Store ℕ)) ℕ) × (o : Option (Store ℕ)) × (perform stores
        (inject_writable (array (one (codes "a") 7)))
        combined
      ≡ done (w', o))
    × IsCombined w'.variables
    × Answers (inject_writable (array (one (codes "a") 7))) combined (w', o)
unfolding combine clone_store merge_store insert
perform-IsCombined_example =
    perform-IsCombined stores (inject_writable (array (one (codes "a") 7))) combined
      (
        array (one (codes "a") 1),
        (array empty, (array (one (codes "a") 1), (refl, (refl, (refl, refl))))),
      )
      tt

-- A file that asks for a merge with the file `x`.
abbrev asking : Store ℕ
asking = array (node (codes "merge") (string (codes "x")) empty)

abbrev always : Store ℕ → Bytes → Option (Store ℕ)
always s path = some s

check_files_merge_endless_example : check_files_merge (always asking) none 1000 asking ≡ out_of_fuel
unfolding get_path get_store_path read_component child lookup bytes_eq
check_files_merge_endless_example =
    check_files_merge_endless (always asking) none 1000 asking (codes "x") refl refl
