-- ===== src/Config/Load.antt =====
-- src/modules/config/config.c: loading, saving and replacing the configuration.
use kalisko.Base.{ℕ, Bool, true, false, if◌then◌else◌, Option, none, some, ◌∷◌, Bytes, codes}
use kalisko.Store.Value.{Store, create_store}
use kalisko.Store.Merge.{merge_store}
use kalisko.Store.Clone.{clone_store}
use kalisko.Config.{Disk, World, Result, done, fault, ◌>>=◌, get_path, merged, check_files_merge}

-- `createStore()` for `NULL`
abbrev pub or_empty : {F : Type 0} → Option (Store F) → Store F
or_empty none = create_store
or_empty (some s) = s

-- The clone of the read-only configuration with the writable one merged into it; `none` where
-- they do not merge.
abbrev accepted : {F : Type 0} → Store F × Bool → Option (Store F)
accepted (s, true) = some s
accepted (s, false) = none

unfoldable pub combine : {F : Type 0} → Store F → Store F → Option (Store F)
unfolding clone_store merge_store
combine read_only writable = accepted (merge_store (clone_store read_only) writable)

module _ {D F : Type 0} where
  abbrev pub triggered : Bool → Bytes → World D F → World D F
  triggered false event w = w
  triggered true event w = record w { events = event ∷ w.events }

  abbrev pub with_config : Option (Store F) → World D F → World D F
  with_config s w = record w { variables = record w.variables { config = s } }

module _ {F : Type 0} where
  -- The profiles file with the user's file merged into it.
  abbrev pub user_layer : Option (Store F) → Bool → Option (Store F) → Store F
  user_layer profiles false user = or_empty profiles
  user_layer none true user = or_empty user
  user_layer (some profiles) true user = merged profiles (or_empty user)

  -- The check of the merges, once without and once with the profile.
  abbrev pub profiled_layer :
      (Store F → Result (Store F)) → Option Bytes → Store F → Result (Store F)
  profiled_layer check none store = check store
  profiled_layer check (some p) store =
      check store >>= λ checked. check (or_empty (get_path checked p))

  -- The global configuration below the others; a global file that cannot be parsed is `NULL` to
  -- `mergeStore`.
  abbrev pub global_layer : Bool → Option (Store F) → Store F → Result (Store F)
  global_layer false global store = done store
  global_layer true none store = fault
  global_layer true (some global) store = done (merged global store)

module _ {D F : Type 0} (disk : Disk D F) where
  -- The file at a path, if it is there.
  unfoldable pub load_file : D → Bytes → Option (Store F)
  load_file d path = if disk.exists d path then disk.parse_store_file d path else none

  -- `loadReadOnlyConfigs` with a file from the command line.
  unfoldable pub load_cli_config : ℕ → D → Option Bytes → Bytes → Result (Option (Store F))
  unfolding check_files_merge get_path
  load_cli_config n d profile path =
      let check = check_files_merge (disk.parse_store_file d) profile n in
      elim (disk.parse_store_file d path) [
        | none ↦ done none
        | some cmd ↦ check cmd >>= λ checked. elim profile [
          | none ↦ done (some checked)
          | some p ↦ elim (get_path checked p) [
            | none ↦ done none
            | some profiled ↦ check profiled >>= λ profiled'. done (some profiled')
          ]
        ]
      ]

  -- `loadReadOnlyConfigs` with the default files.
  unfoldable pub load_default_configs : ℕ → D → Option Bytes → Result (Store F)
  unfolding check_files_merge get_path merged load_file create_store
  load_default_configs n d profile =
      profiled_layer (check_files_merge (disk.parse_store_file d) profile n) profile (
        user_layer (load_file d disk.profiles_path) (disk.exists d disk.user_path)
          (disk.parse_store_file d disk.user_path))
      >>= λ store.
          global_layer (disk.exists d disk.global_path) (disk.parse_store_file d disk.global_path)
            store

  -- `loadReadOnlyConfigs`, on `cliConfigFilePath` and `profilePath`
  unfoldable pub load_read_only_configs :
      ℕ → D → Option Bytes → Option Bytes → Result (Option (Store F))
  unfolding load_cli_config load_default_configs
  load_read_only_configs n d (some path) profile = load_cli_config n d profile path
  load_read_only_configs n d none profile = load_default_configs n d profile >>= λ s. done (some s)

  -- `loadWritableConfig`, with `writableConfigFilePath` and `writableConfigPathExists`. The latter
  -- is set on every path.
  unfoldable pub load_writable_config : World D F → World D F × Store F
  unfolding create_store
  load_writable_config w =
      let d = w.disk in
      let made = disk.make_directory d in
      let here = disk.exists d disk.override_path in
      let found : Option (Store F) =
        if here then disk.parse_store_file d disk.override_path else none in
      (
        record w {
          variables = record w.variables {
            writable_config_file_path = some disk.override_path;
            writable_config_path_exists = if here then true else made.1;
          };
          disk = if here then d else made.0;
        },
        or_empty found,
      )

  abbrev pub loaded_world : Store F → World D F → World D F
  loaded_world read_only w =
      let loaded = load_writable_config w in
      record loaded.0 {
        variables = record loaded.0.variables {
          read_only_config = some read_only;
          writable_config = some loaded.1;
        };
      }

  abbrev pub reload_outcome : Bool → Store F → World D F → Option (Store F) → World D F × Bool
  reload_outcome do_trigger_event read_only w none =
      (with_config (some (clone_store read_only)) w, false)
  reload_outcome do_trigger_event read_only w (some s) =
      (triggered do_trigger_event (codes "reloadedConfig") (with_config (some s) w), true)

  -- The end of `internalReloadConfig`, behind the read-only configuration.
  unfoldable pub reload_writable : Bool → Store F → World D F → World D F × Bool
  unfolding load_writable_config combine
  reload_writable do_trigger_event read_only w =
      reload_outcome do_trigger_event read_only (loaded_world read_only w)
        (combine read_only (load_writable_config w).1)

  abbrev pub reload_read_only : Bool → Option (Store F) → World D F → World D F × Bool
  reload_read_only do_trigger_event none w = (w, false)
  reload_read_only do_trigger_event (some read_only) w =
      reload_writable do_trigger_event read_only w

  -- `internalReloadConfig`
  unfoldable pub internal_reload_config : ℕ → Bool → World D F → Result (World D F × Bool)
  unfolding load_read_only_configs reload_writable
  internal_reload_config n do_trigger_event w =
      let cleared : World D F = record w {
        variables = record w.variables {
          config = none;
          writable_config = none;
          read_only_config = none;
        };
      } in
      load_read_only_configs n w.disk w.variables.cli_config_file_path w.variables.profile_path
      >>= λ read_only. done (reload_read_only do_trigger_event read_only cleared)
