-- ===== src/Config/Saved.antt =====
-- What is saved is loaded again, by the writer and the parser of the store module.
use kalisko.Base.{◌≡◌, refl, ◌∙◌, ap, true, Option, none, some, Bytes, List}
use kalisko.Store.Value.{Store, Nodes, array}
use kalisko.Store.Clone.{IsTree}
use kalisko.Store.Lexer.Yylex.{Token, Location}
use kalisko.Store.Parse.{RootTree, IsParser, parse_store_file}
use kalisko.Store.Parse.RoundTrip.{parse_store_file-write_store_gstring}
use kalisko.Store.Write.{write_store_gstring}
use kalisko.Store.Write.Brackets.{AreWritableNodes}
use kalisko.Config.{Disk, World, done}
use kalisko.Config.Load.{combine, load_writable_config}
use kalisko.Config.Save.{save_writable_config, saved_or_old}
use kalisko.Config.Combined.{save_result, write_config}
use kalisko.Config.Files.{Files, store_disk, store_or_null, write_file}

-- A file that was written is there and holds the bytes.
abbrev pub IsFileSystem : {D : Type 0} → Files D → Type 0
IsFileSystem {D} files =
    (d : D) (path text : Bytes)
    → (files.exists (files.write d path text) path ≡ true)
      × (files.read (files.write d path text) path ≡ some text)

module _ {D F : Type 0} (disk : Disk D F) where
  saved_disk : (w : World D F) (o : Option (Store F)) → (saved_or_old w o).disk ≡ w.disk
  saved_disk w none = refl
  saved_disk w (some x) = refl

  loaded_from :
      (w : World D F) (s : Store F)
      → disk.exists w.disk disk.override_path ≡ true
      → disk.parse_store_file w.disk disk.override_path ≡ some s
      → (load_writable_config disk w).1 ≡ s
  unfolding load_writable_config
  loaded_from w s e p = rw (e, p) refl

  written_to :
      (w : World D F) (s : Store F)
      → w.variables.writable_config_path_exists ≡ true
      → w.variables.writable_config_file_path ≡ some disk.override_path
      → write_config disk w (some s) ≡ disk.write_store_file w.disk disk.override_path s
  written_to w s e p = rw (e, p) refl

module _ {D F : Type 0} (parser : List (Token F) → Option (RootTree F)) (atof : Bytes → F)
    (format_double : F → Bytes) (loc : Location) (files : Files D) where
  -- On a file system where a file that was written is there and holds its bytes, with a yyparse
  -- that reads the sentences of the grammar: saving a writable configuration succeeds, if it is
  -- an array whose tables have distinct keys, whose strings and keys have no byte that is NUL or
  -- 255, whose floating point numbers atof reads back as they are written, and which
  -- writeStoreGString writes, there is a read-only configuration, and the path is that of the
  -- override file and known to be there; loading it then gives the same configuration.
  pub load_writable_config-save_writable_config :
      (w : World D F) (read_only : Store F) (ns : Nodes F) (text : Bytes)
      → IsParser parser
      → IsFileSystem files
      → IsTree (array ns)
      → AreWritableNodes atof format_double loc ns
      → write_store_gstring atof format_double loc (array ns) ≡ some text
      → w.variables.read_only_config ≡ some read_only
      → w.variables.writable_config ≡ some (array ns)
      → w.variables.writable_config_path_exists ≡ true
      → w.variables.writable_config_file_path ≡ some files.override_path
      → (w' : World D F) × (save_writable_config (store_disk parser atof format_double loc files) w
          ≡ done w')
        × ((load_writable_config (store_disk parser atof format_double loc files) w').1 ≡ array ns)
  load_writable_config-save_writable_config w r ns text p law t h g er ew ee ep =
      let disk = store_disk parser atof format_double loc files in
      let d = files.write w.disk files.override_path text in
      let w1 : World D F = record w { disk = d } in
      let w' = saved_or_old w1 (combine r (array ns)) in
      let same : w'.disk ≡ d = saved_disk disk w1 (combine r (array ns)) in
      let kept = law w.disk files.override_path text in
      let out : write_config disk w (some (array ns)) ≡ some d =
        written_to disk w (array ns) ee ep
        ∙ ap (write_file parser atof format_double loc files w.disk files.override_path) g in
      (
        w',
        save_result disk r (array ns) w d er ew out,
        loaded_from disk w' (array ns) (ap (λ x. files.exists x files.override_path) same ∙ kept.0)
            (ap
                (λ x.
                  store_or_null (parse_store_file parser atof (files.read x files.override_path)))
                same
              ∙ ap (λ x. store_or_null (parse_store_file parser atof x)) kept.1
              ∙ ap store_or_null (
                  parse_store_file-write_store_gstring atof format_double loc parser ns text p t h
                    g)),
      )
