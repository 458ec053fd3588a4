-- ===== src/Config/Save.antt =====
-- src/modules/config/config.c: saving and replacing the configuration, and the start and end of
-- the module.
use kalisko.Base.{ℕ, Bool, true, false, Option, none, some, List, [], ◌∷◌, Bytes, codes}
use kalisko.Store.Value.{Store}
use kalisko.Config.{Disk, World, Result, done, fault, ◌>>=◌}
use kalisko.Config.Load.{combine, with_config, triggered, internal_reload_config}
use kalisko.Getopts.{Options, get_opt_value}

-- The new configuration, `none` where the two do not merge. `cloneStore` and `mergeStore` fail on
-- `NULL`.
unfoldable pub combine_both :
    {F : Type 0} → Option (Store F) → Option (Store F) → Result (Option (Store F))
unfolding combine
combine_both none writable = fault
combine_both (some read_only) none = fault
combine_both (some read_only) (some writable) = done (combine read_only writable)

module _ {D F : Type 0} where
  abbrev pub saved_or_old : World D F → Option (Store F) → World D F
  saved_or_old w none = w
  saved_or_old w (some s) = triggered true (codes "savedWritableConfig") (with_config (some s) w)

  -- A new read-only configuration, or everything as it was.
  abbrev pub injected_read_only :
      World D F → Option (Store F) → Option (Store F) → World D F × Option (Store F)
  injected_read_only w new none = (w, none)
  injected_read_only w new (some s) = (
    with_config (some s) (record w { variables = record w.variables { read_only_config = new } }),
    w.variables.read_only_config,
  )

  -- `injectReadOnlyConfig`, with what it returns
  unfoldable pub inject_read_only_config :
      Option (Store F) → World D F → Result (World D F × Option (Store F))
  unfolding combine_both
  inject_read_only_config new w =
      combine_both new w.variables.writable_config >>= λ s. done (injected_read_only w new s)

  abbrev pub injected_writable :
      World D F → Option (Store F) → Option (Store F) → World D F × Option (Store F)
  injected_writable w new none = (w, none)
  injected_writable w new (some s) = (
    with_config (some s) (record w { variables = record w.variables { writable_config = new } }),
    w.variables.writable_config,
  )

  -- `injectWritableConfig`
  unfoldable pub inject_writable_config :
      Option (Store F) → Bool → World D F → Result (World D F × Option (Store F))
  unfolding combine_both
  inject_writable_config new false w = done (
    record w { variables = record w.variables { writable_config = new } },
    w.variables.writable_config,
  )
  inject_writable_config new true w =
      combine_both w.variables.read_only_config new >>= λ s. done (injected_writable w new s)

  -- `injectWritableConfigFilePath` and `injectConfigProfile`
  unfoldable pub inject_writable_config_file_path :
      Option Bytes → World D F → World D F × Option Bytes
  inject_writable_config_file_path path w = (
    record w { variables = record w.variables { writable_config_file_path = path } },
    w.variables.writable_config_file_path,
  )

  unfoldable pub inject_config_profile : Option Bytes → World D F → World D F × Option Bytes
  inject_config_profile path w = (
    record w { variables = record w.variables { profile_path = path } },
    w.variables.profile_path,
  )

module _ {D F : Type 0} (disk : Disk D F) where
  -- A file that cannot be opened is not written.
  abbrev pub written : Bool → Option Bytes → Store F → D → Option D
  written true (some path) s d = disk.write_store_file d path s
  written _ _ s d = some d

  abbrev pub with_disk : World D F → Option D → Result (World D F)
  with_disk w none = fault
  with_disk w (some d) = done (record w { disk = d })

  abbrev pub saving : Store F → World D F → Result (World D F)
  saving s w = with_disk w (
      written w.variables.writable_config_path_exists w.variables.writable_config_file_path s
        w.disk)

  -- `saveWritableConfig`, on `writableConfig`
  unfoldable pub save_with : Option (Store F) → World D F → Result (World D F)
  unfolding combine_both
  save_with none w = done w
  save_with (some s) w = saving s w >>= λ w'.
      (combine_both w.variables.read_only_config (some s) >>= λ new. done (saved_or_old w' new))

  -- `saveWritableConfig`
  unfoldable pub save_writable_config : World D F → Result (World D F)
  unfolding save_with
  save_writable_config w = save_with w.variables.writable_config w

  -- The static `finalize`: only the saving is seen from outside.
  unfoldable pub finalize : World D F → Result (World D F)
  unfolding save_writable_config
  finalize w = save_writable_config w

  abbrev started : World D F × Bool → Result (World D F × Bool)
  started (w, true) = done (w, true)
  started (w, false) = finalize w >>= λ w'. done (w', false)

  -- `MODULE_INIT`; the options come from the command line by `getOptValue`.
  unfoldable pub initialize : ℕ → List Bytes → Options → D → Result (World D F × Bool)
  unfolding get_opt_value internal_reload_config finalize
  initialize n argv options d =
      let file = get_opt_value argv (codes "config" ∷ codes "c" ∷ []) options in
      let profile = get_opt_value argv (codes "profile" ∷ codes "p" ∷ []) file.1 in
      internal_reload_config disk n false (record {
        variables = record {
          writable_config_file_path = none;
          profile_path = profile.0;
          cli_config_file_path = file.0;
          writable_config_path_exists = false;
          config = none;
          writable_config = none;
          read_only_config = none;
        };
        disk = d;
        events = [];
      })
      >>= started
