-- ===== src/Module.antt =====
-- src/module.c: the modules that are loaded, their dependencies and reference counts. The shared
-- libraries, what their functions answer and do, and the finding of functions in them are
-- parameters. References to modules are their names, which the table of modules keeps apart.
pub mod Load
pub mod Graph
pub mod Runtime
pub mod Request
pub mod Fresh
pub mod Counts
pub mod Unload
pub mod Unneed
pub mod Parent
pub mod Link
pub mod Pending
pub mod Need
pub mod Loading
pub mod NeedModule
pub mod Initialize
pub mod Entered
pub mod Requested
pub mod Edge
pub mod Depend
pub mod Commands
pub mod Revoke
mod Tests
mod CommandTests
use kalisko.Base.{
  ◌≡◌, ℕ, zero, suc, ◌+◌, ◌-◌, Bytes, bytes_eq, codes, ltb, Bool, true, false, not, ◌||◌, ◌&&◌,
  if◌then◌else◌, Option, none, some, List, [], ◌∷◌, length,
}
use kalisko.Base.Int.{ℤ, pos, negsuc}
use kalisko.Base.Table.{Table, get, put, drop, has, add_name, drop_name}
use kalisko.Version.{Version, compare_versions, is_negative, is_positive}
use kalisko.Timer.{Timers, remove_module_timers, init_timers}

-- `Module`; `handle` is a Boolean, whether the library is open.
pub record Module : Type 0 where
  pub author : Bytes
  pub description : Bytes
  pub version : Version
  pub bcversion : Version
  pub handle : Bool
  pub rc : ℕ
  pub dependencies : List Bytes
  pub rdeps : List Bytes
  pub loaded : Bool

-- `ModuleDependency`
pub record ModuleDependency : Type 0 where
  pub name : Bytes
  pub version : Version

-- What the modules change outside of the loader: the timers, and a state of their own.
pub record World (C S : Type 0) : Type 0 where
  pub timers : Timers C
  pub others : S

-- What is left of a run of an initializer (`MODULE_INIT`): it ends with its answer, or it calls
-- `requestModule` or `addModuleRuntimeDependency`, and goes on with the world after the call and the
-- answer to it. Each constructor has the world at that point.
pub data Initializer (C S : Type 0) : Type 0 where
  init_ends : World C S → Bool → Initializer C S
  init_requests : World C S → Bytes → (World C S → Bool → Initializer C S) → Initializer C S
  init_depends : World C S → Bytes → Bytes → (World C S → Bool → Initializer C S) → Initializer C S

-- A shared library: which of the functions it has, and what they answer and do. `resolves` is
-- whether it opens with all of its symbols resolved.
pub record Library (C S : Type 0) : Type 0 where
  pub name : Option Bytes
  pub author : Option Bytes
  pub description : Option Bytes
  pub version : Option Version
  pub bcversion : Option Version
  pub depends : Option (List ModuleDependency)
  pub resolves : Bool
  pub initialize : Option (World C S → Initializer C S)
  pub finalize : Option (World C S → World C S)

-- `modules` and `core`, with the world around them.
pub record Loader (C S : Type 0) : Type 0 where
  pub modules : Table Module
  pub core : Module
  pub world : World C S

abbrev pub core_name : Bytes
core_name = codes "core"

-- A parent is the core or a module in the table.
abbrev pub parent_name : Option Bytes → Bytes
parent_name none = core_name
parent_name (some name) = name

abbrev pub zero_version : Version
zero_version = record { major = 0; minor = 0; patch = 0; revision = [] }

-- The checks of a version that is needed against those of a module.
unfoldable pub satisfies : Option Version → Version → Version → Bool
satisfies none version bcversion = true
satisfies (some needed) version bcversion =
    not (is_negative (compare_versions needed bcversion))
    && not (is_positive (compare_versions needed version))

-- The module that `needModule` makes from the functions of its library, or `none` for a
-- `meta_error`. The name that the library has is not looked at, as in the source.
unfoldable pub new_module :
    Option Version
    → Option Bytes
    → Option Bytes
    → Option Bytes
    → Option Version
    → Option Version
    → Option (List ModuleDependency)
    → Option (Module × List ModuleDependency)
new_module needed (some n) (some a) (some d) (some v) (some b) (some deps) =
    if satisfies needed v b
    then some (
      record {
        author = a;
        description = d;
        version = v;
        bcversion = b;
        handle = true;
        rc = 1;
        dependencies = [];
        rdeps = [];
        loaded = false;
      },
      deps,
    )
    else none
new_module needed n a d v b deps = none

abbrev pub in_module : {A : Type 0} → (Module → A) → Option Module → Option A
in_module f none = none
in_module f (some m) = some (f m)

abbrev count_of : Option Module → ℤ
count_of none = negsuc 0
count_of (some m) = pos m.rc

abbrev keys : Table Module → List Bytes
keys [] = []
keys ((k, m) ∷ t) = k ∷ keys t

abbrev loaded_in : Option Module → Bool
loaded_in none = false
loaded_in (some m) = m.loaded

module _ {C S : Type 0} where
  -- `initModules`
  unfoldable pub init_modules : World C S → Loader C S
  init_modules w = record {
    modules = [];
    core = record {
      author = codes "The Kalisko team";
      description = codes "The Kalisko application framework core.";
      version = zero_version;
      bcversion = zero_version;
      handle = false;
      rc = 0;
      dependencies = [];
      rdeps = [];
      loaded = true;
    };
    world = w;
  }

  -- A module of the table, or the core under its name.
  unfoldable pub module_of : Bytes → Loader C S → Option Module
  module_of name l = if bytes_eq name core_name then some l.core else get name l.modules

  -- `getModuleAuthor` and the getters that follow it
  unfoldable pub get_module_author : Bytes → Loader C S → Option Bytes
  unfolding module_of
  get_module_author name l = in_module (λ m. m.author) (module_of name l)

  unfoldable pub get_module_description : Bytes → Loader C S → Option Bytes
  unfolding module_of
  get_module_description name l = in_module (λ m. m.description) (module_of name l)

  unfoldable pub get_module_version : Bytes → Loader C S → Option Version
  unfolding module_of
  get_module_version name l = in_module (λ m. m.version) (module_of name l)

  unfoldable pub get_module_bc_version : Bytes → Loader C S → Option Version
  unfolding module_of
  get_module_bc_version name l = in_module (λ m. m.bcversion) (module_of name l)

  unfoldable pub get_module_reference_count : Bytes → Loader C S → ℤ
  unfolding module_of
  get_module_reference_count name l = count_of (module_of name l)

  unfoldable pub get_module_dependencies : Bytes → Loader C S → Option (List Bytes)
  unfolding module_of
  get_module_dependencies name l = in_module (λ m. m.dependencies) (module_of name l)

  unfoldable pub get_module_reverse_dependencies : Bytes → Loader C S → Option (List Bytes)
  unfolding module_of
  get_module_reverse_dependencies name l = in_module (λ m. m.rdeps) (module_of name l)

  -- `getActiveModules`
  unfoldable pub get_active_modules : Loader C S → List Bytes
  get_active_modules l = keys l.modules

  -- `isModuleLoaded`
  unfoldable pub is_module_loaded : Bytes → Loader C S → Bool
  is_module_loaded name l = loaded_in (get name l.modules)

  -- `isModuleRequested`
  unfoldable pub is_module_requested : Bytes → Loader C S → Bool
  is_module_requested name l = has name l.core.dependencies

  -- A module written back to the table.
  abbrev pub write : Bytes → Module → Loader C S → Loader C S
  write name m l = record l { modules = put name m l.modules }

  -- The entry that `needModule` adds to the dependencies of the parent.
  abbrev pub add_to_parent : Option Bytes → Bytes → Loader C S → Loader C S
  add_to_parent none name l = record l {
    core = record l.core { dependencies = add_name name l.core.dependencies };
  }
  add_to_parent (some parent) name l = elim (get parent l.modules) [
    | none ↦ l
    | some p ↦ write parent (record p { dependencies = add_name name p.dependencies }) l
  ]

  -- The end of `needModule`: `m` is the module needed.
  unfoldable pub link : Option Bytes → Bytes → Module → Loader C S → Loader C S
  link parent name m l =
      add_to_parent parent name
        (write name (record m { rdeps = add_name (parent_name parent) m.rdeps }) l)
