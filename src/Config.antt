-- ===== src/Config.antt =====
-- src/modules/config/config.c: the layers of the configuration and their merge. The disk and
-- the calls of the store module that work on files are the interface `Disk`.
pub mod Load
pub mod Save
pub mod Combined
pub mod Layers
pub mod Files
pub mod Saved
pub mod Merges
mod Tests
use kalisko.Base.{
  ℕ, zero, suc, Bool, true, false, Option, none, some, List, [], ◌∷◌, Bytes, codes, ◌≡◌, ap,
}
use kalisko.Store.Value.{Store, Items, Nodes, array, list, string, create_store}
use kalisko.Store.Value.Tables.{nth}
use kalisko.Store.Path.{Found, found, get_store_path}
use kalisko.Store.Merge.{merge_store}
use kalisko.Store.Clone.{clone_store}

-- What `config.c` uses of files: `parseStoreFile` (`none` is `NULL`), `writeStoreFile` (`none` is a
-- read beyond a string), `g_file_test`, `g_mkdir_with_parents`, and the paths that `g_build_path`
-- makes of the directories. Config.Files fills in the modelled parser and writer.
pub record Disk (D F : Type 0) : Type 0 where
  pub parse_store_file : D → Bytes → Option (Store F)
  pub write_store_file : D → Bytes → Store F → Option D
  pub exists : D → Bytes → Bool
  pub make_directory : D → D × Bool
  pub user_path : Bytes
  pub override_path : Bytes
  pub profiles_path : Bytes
  pub global_path : Bytes

-- The static variables.
pub record Config (F : Type 0) : Type 0 where
  pub writable_config_file_path : Option Bytes
  pub profile_path : Option Bytes
  pub cli_config_file_path : Option Bytes
  pub writable_config_path_exists : Bool
  pub config : Option (Store F)
  pub writable_config : Option (Store F)
  pub read_only_config : Option (Store F)

-- The variables, the disk, and the events that were triggered, the last one first.
pub record World (D F : Type 0) : Type 0 where
  pub variables : Config F
  pub disk : D
  pub events : List Bytes

-- `fault` is a read of freed memory, or a failed assertion on `NULL`.
pub data Result (A : Type 0) : Type 0 where
  done : A → Result A
  fault : Result A
  out_of_fuel : Result A

infixl 5 ◌>>=◌
abbrev pub ◌>>=◌ : {A B : Type 0} → Result A → (A → Result B) → Result B
done a >>= f = f a
fault >>= f = fault
out_of_fuel >>= f = out_of_fuel

pub at_done :
    {A B : Type 0} {r : Result A} {a : A} (f : A → Result B) → r ≡ done a → (r >>= f) ≡ f a
at_done f e = ap (λ r. r >>= f) e

-- A store behind a pointer, or what `freeStore` leaves of it.
pub data Pointer (F : Type 0) : Type 0 where
  live : Store F → Pointer F
  freed : Pointer F

module _ {F : Type 0} where
  -- A check of what a pointer leads to.
  abbrev pub check_pointer : (Store F → Result (Store F)) → Pointer F → Result (Option (Store F))
  check_pointer check (live s) = check s >>= λ checked. done (some checked)
  check_pointer check freed = fault

  -- `NULL` for a path that is not there. The fuel of `getStorePath` is always enough.
  abbrev pub store_at : Found F → Option (Store F)
  store_at (found s) = s
  store_at Found.out_of_fuel = none

  unfoldable pub get_path : Store F → Bytes → Option (Store F)
  unfolding get_store_path
  get_path s path = store_at (get_store_path s path)

  -- What is left of a target that `mergeStore` may refuse.
  unfoldable pub merged : Store F → Store F → Store F
  unfolding merge_store
  merged target import = (merge_store target import).0

  abbrev merge_data : Store F → Option (Store F)
  merge_data s = get_path s (codes "merge")

  abbrev pub merge_prepared : Store F → Option (Store F) → Store F
  merge_prepared store none = store
  merge_prepared store (some import) = merged store import

-- The functions that read while the disk stays as it is: `parse` is `parseStoreFile`, and `profile`
-- is `profilePath`.
module _ {F : Type 0} (parse : Bytes → Option (Store F)) (profile : Option Bytes) where
  -- The file's own merges are done: what is merged, by the profile. `missing` is what happens
  -- where the profile is not in the file.
  abbrev pub prepared :
      (Store F → Result (Store F)) → Result (Option (Store F)) → Store F → Result (Option (Store F))
  prepared check missing checked = elim profile [
    | none ↦ done (some checked)
    | some p ↦ elim (get_path checked p) [
      | none ↦ missing
      | some profiled ↦ check_pointer check (live profiled)
    ]
  ]

  -- `checkFilesMerge` for one file, up to the merge of the store. `none` is a file that cannot be
  -- parsed.
  abbrev pub prepare :
      (Store F → Result (Store F)) → Result (Option (Store F)) → Bytes → Result (Option (Store F))
  prepare check missing path = elim (parse path) [
    | none ↦ done none
    | some store ↦ check store >>= prepared check missing
  ]

  -- The loop over a list of files. The list belongs to the store that is merged into: it grows
  -- when the file that is merged has a list under `merge` too, and is freed under the loop when
  -- the file has anything else there.
  unfoldable pub merge_files : (Store F → Result (Store F)) → ℕ → ℕ → Store F → Result (Store F)
  unfolding get_path merged nth
  merge_files check zero i store = out_of_fuel
  merge_files check (suc n) i store = elim (merge_data store) [
    | some (list files) ↦ elim (nth files i) [
      | none ↦ done store
      | some (string path) ↦ prepare check (done none) path >>= λ import.
          merge_files check n (suc i) (merge_prepared store import)
      | some _ ↦ merge_files check n (suc i) store
    ]
    | _ ↦ fault
  ]

  -- `checkFilesMerge`. In the case of one file, a store without the profile is freed and then checked
  -- all the same.
  unfoldable pub check_files_merge : ℕ → Store F → Result (Store F)
  unfolding merge_files get_path merged
  check_files_merge zero store = out_of_fuel
  check_files_merge (suc n) store = elim (merge_data store) [
    | none ↦ done store
    | some (string path) ↦
        prepare (check_files_merge n) (check_pointer (check_files_merge n) freed) path >>= λ import.
        done (merge_prepared store import)
    | some (list files) ↦ merge_files (check_files_merge n) n 0 store
    | some _ ↦ done store
  ]
