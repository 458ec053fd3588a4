-- ===== src/Module/Tests.antt =====
-- Runs of the module loader.
use kalisko.Base.{
  ◌≡◌, ◌≢◌, refl, ℕ, ◌+◌, Bytes, bytes_eq, Bool, true, false, Option, none, some, List, [], ◌∷◌,
  ◌⊎◌, ◌↔◌, arith, bytes_eq_iff,
}
use kalisko.Base.Table.{has, get}
use kalisko.Version.{Version}
use kalisko.Module.{
  Initializer, init_ends, Loader, Module, Library, World, satisfies, is_module_loaded, new_module,
}
use kalisko.Module.Load.{
  check_dependency, add_module_runtime_dependency, request_module, revoke_module, without_timers,
  finalizer,
}
use kalisko.Module.Graph.{Reach, Ranked, check_dependency-Reach}
use kalisko.Module.Runtime.{add_module_runtime_dependency_lem}
use kalisko.Module.Fresh.{revoke_module-request_module_fresh}

abbrev pub one_two : ℕ → Version
one_two n = record { major = 1; minor = 2; patch = n; revision = [] }

abbrev pub a_module : List Bytes → List Bytes → Module
a_module deps rdeps = record {
  author = [];
  description = [];
  version = one_two 4;
  bcversion = one_two 3;
  handle = true;
  rc = 1;
  dependencies = deps;
  rdeps = rdeps;
  loaded = true;
}

-- `event` and `socket`, which depends on it, are loaded, and `store` beside them.
abbrev pub event : Bytes
event = 101 ∷ []

abbrev pub socket : Bytes
socket = 115 ∷ []

abbrev store : Bytes
store = 116 ∷ []

abbrev pub quiet : World ℕ ℕ
quiet = record { timers = some []; others = 0 }

abbrev three_loaded : Loader ℕ ℕ
three_loaded = record {
  modules =
      (event, a_module [] (socket ∷ []))
      ∷ (socket, a_module (event ∷ []) [])
      ∷ (store, a_module [] [])
      ∷ [];
  core = a_module [] [];
  world = quiet;
}

abbrev rank : Bytes → ℕ
rank [] = 0
rank (c ∷ cs) = c

three_loaded-Ranked : Ranked three_loaded rank
unfolding get has bytes_eq
three_loaded-Ranked a b h =
    ground (
      arith,
      bytes_eq_iff event a,
      bytes_eq_iff socket a,
      bytes_eq_iff store a,
      bytes_eq_iff event b,
    )

check_dependency-Reach_example :
    (b : Bool) × (check_dependency 200 three_loaded socket event ≡ some b)
    × ((b ≡ true) ↔ Reach three_loaded socket event)
check_dependency-Reach_example =
    check_dependency-Reach three_loaded rank three_loaded-Ranked 200 socket event (omega arith)

socket-store : socket ≢ store
unfolding bytes_eq
socket-store e = ground (arith, bytes_eq_iff socket store)

add_module_runtime_dependency_lem_example :
    (Reach three_loaded store socket
      × (add_module_runtime_dependency 200 socket store three_loaded ≡ some (three_loaded, false)))
    ⊎ ((¬ Reach three_loaded store socket)
        × ((l' : Loader ℕ ℕ) × (add_module_runtime_dependency 200 socket store three_loaded
              ≡ some (l', true))
            × Reach l' socket store
            × ((rank' : Bytes → ℕ) × Ranked l' rank')))
unfolding get has bytes_eq
add_module_runtime_dependency_lem_example =
    add_module_runtime_dependency_lem three_loaded rank 200 socket store (a_module (event ∷ []) [])
      (a_module [] []) three_loaded-Ranked socket-store refl refl (omega arith) (omega arith)

abbrev pub start_counting : World ℕ ℕ → Initializer ℕ ℕ
start_counting w = init_ends (record w { others = w.others + 1 }) true

abbrev fresh : Module
fresh = record (a_module [] []) { loaded = false }

abbrev pub counting : Library ℕ ℕ
counting = record {
  name = some [];
  author = some [];
  description = some [];
  version = some (one_two 4);
  bcversion = some (one_two 3);
  depends = some [];
  resolves = true;
  initialize = some start_counting;
  finalize = none;
}

abbrev libraries : Bytes → Option (Library ℕ ℕ)
libraries name = some counting

abbrev config : Bytes
config = 99 ∷ []

revoke_module-request_module_fresh_example :
    (l1 : Loader ℕ ℕ) × (l2 : Loader ℕ ℕ) × (request_module libraries 1 config three_loaded
      ≡ some (l1, true))
    × (is_module_loaded config l1 ≡ true)
    × (revoke_module libraries 1 config l1 ≡ some (l2, true))
    × ((k : Bytes) → get k l2.modules ≡ get k three_loaded.modules)
    × (l2.core ≡ three_loaded.core)
    × (l2.world
        ≡ without_timers config
            (finalizer (some counting) (record { timers = some []; others = 1 })))
unfolding get has bytes_eq new_module satisfies
revoke_module-request_module_fresh_example =
    revoke_module-request_module_fresh libraries 0 config three_loaded counting fresh start_counting
      (record { timers = some []; others = 1 }) refl refl refl refl refl refl refl refl
