-- ===== src/Module/CommandTests.antt =====
-- Two libraries that are requested and revoked.
use kalisko.Module.Depend.{add_module_runtime_dependency-IsConsistent}
use kalisko.Base.Count.{count}
use kalisko.Module.Loading.{AreLibraries, HasDistinct, NeverDepends}
use kalisko.Module.Commands.{
  Command, request, revoke, Requested, request_module-IsConsistent, run_commands,
  run_commands-IsConsistent,
}
use kalisko.Module.Revoke.{Revoked, revoke_module-IsConsistent, init_modules-IsConsistent}
use kalisko.Module.Counts.{IsConsistent, deps_in, listed, owes, IsCounted, on_branches}
use kalisko.Module.Tests.{a_module, event, socket, quiet, counting, one_two, start_counting}
use kalisko.Module.{init_requests, Loader, Module, Library, core_name, init_modules}
use kalisko.Module.Load.{
  request_module, revoke_module, add_edge, add_module_runtime_dependency, check_dependency,
  any_depends,
}
use kalisko.Base.{
  ◌≡◌, refl, ℕ, Bytes, bytes_eq, bytes_eq_iff, if◌then◌else◌, Option, none, some, List, [], ◌∷◌,
  arith, true,
}
use kalisko.Base.Table.{has, get, Table}

abbrev names : List Bytes
names = event ∷ (socket ∷ [])

-- `socket`, which depends on `event` and requests it when it is initialized.
abbrev on_event : Library ℕ ℕ
on_event = record counting {
  depends = some (record { name = event; version = one_two 3 } ∷ []);
  initialize = some (λ w. init_requests w event (λ w1 ok. start_counting w1));
}

abbrev two_libraries : Bytes → Option (Library ℕ ℕ)
two_libraries k =
    if bytes_eq k event then some counting else if bytes_eq k socket then some on_event else none

two_libraries-AreLibraries : AreLibraries names two_libraries
unfolding has bytes_eq
two_libraries-AreLibraries = record {
  once = (refl, (refl, tt));
  no_core = refl;
  named = λ k lib h. ground (arith, h);
  distinct = λ k.
      on_branches HasDistinct (bytes_eq k event) (some counting)
        (if bytes_eq k socket then some on_event else none) (λ e. tt)
        (λ e.
          on_branches HasDistinct (bytes_eq k socket) (some on_event) none (λ f. (refl, tt))
            (λ f. tt));
  requests = λ k.
      on_branches NeverDepends (bytes_eq k event) (some counting)
        (if bytes_eq k socket then some on_event else none) (λ e w. tt)
        (λ e.
          on_branches NeverDepends (bytes_eq k socket) (some on_event) none (λ f w w1 ok. tt)
            (λ f. tt));
}

abbrev core_with : List Bytes → Module
core_with deps = record (a_module deps []) { rc = 0 }

abbrev second : Table Module
second = (socket, a_module (event ∷ []) (core_name ∷ [])) ∷ []

-- `socket` is requested, and holds `event`.
abbrev both_loaded : Loader ℕ ℕ
both_loaded = record {
  modules = (event, a_module [] (socket ∷ [])) ∷ second;
  core = core_with (socket ∷ []);
  world = quiet;
}

both_loaded-IsConsistent : IsConsistent [] [] both_loaded
unfolding has get bytes_eq owes deps_in listed
both_loaded-IsConsistent = record {
  apart = refl;
  counted = λ k.
      on_branches (IsCounted [] k) (bytes_eq event k) (some (a_module [] (socket ∷ [])))
        (get k second) (λ e. (refl, ((refl, tt), tt)))
        (λ e.
          on_branches (IsCounted [] k) (bytes_eq socket k)
            (some (a_module (event ∷ []) (core_name ∷ []))) none
            (λ f. (refl, ((refl, tt), (refl, tt)))) (λ f. tt));
  mutual_edges = λ r k. ground (
    arith,
    bytes_eq_iff event k,
    bytes_eq_iff socket k,
    bytes_eq_iff event r,
    bytes_eq_iff socket r,
    bytes_eq_iff r event,
    bytes_eq_iff r socket,
    bytes_eq_iff core_name r,
    bytes_eq_iff r core_name,
  );
  disjoint = λ r k. ground arith;
  single = tt;
  unheld = λ k r h. ground (arith, h);
}

request_module-IsConsistent_example :
    Requested two_libraries names socket
      (init_modules quiet)
      (request_module two_libraries 5 socket (init_modules quiet))
unfolding init_modules get count
request_module-IsConsistent_example =
    request_module-IsConsistent two_libraries names 5 socket (init_modules quiet)
      two_libraries-AreLibraries (init_modules-IsConsistent quiet) (omega arith)

revoke_module-IsConsistent_example :
    Revoked two_libraries names socket both_loaded
      (revoke_module two_libraries 3 socket both_loaded)
unfolding has bytes_eq
revoke_module-IsConsistent_example =
    revoke_module-IsConsistent two_libraries names 3 socket both_loaded (refl, (refl, tt))
      both_loaded-IsConsistent (omega arith)

abbrev commands : List Command
commands = request socket ∷ request event ∷ revoke socket ∷ revoke event ∷ []

run_commands-IsConsistent_example :
    (l : Loader ℕ ℕ) × (run_commands two_libraries 5 commands (init_modules quiet) ≡ some l)
    × IsConsistent [] [] l
run_commands-IsConsistent_example =
    run_commands-IsConsistent two_libraries names commands quiet two_libraries-AreLibraries

-- Both are requested, and neither holds the other.
abbrev side_by_side : Loader ℕ ℕ
side_by_side = record {
  modules = (event, a_module [] (core_name ∷ [])) ∷ (socket, a_module [] (core_name ∷ [])) ∷ [];
  core = core_with names;
  world = quiet;
}

side_by_side-IsConsistent : IsConsistent [] [] side_by_side
unfolding has get bytes_eq owes deps_in listed
side_by_side-IsConsistent = record {
  apart = refl;
  counted = λ k.
      on_branches (IsCounted [] k) (bytes_eq event k) (some (a_module [] (core_name ∷ [])))
        (if bytes_eq socket k then some (a_module [] (core_name ∷ [])) else none)
        (λ e. (refl, ((refl, tt), tt)))
        (λ e.
          on_branches (IsCounted [] k) (bytes_eq socket k) (some (a_module [] (core_name ∷ [])))
            none (λ f. (refl, ((refl, tt), tt))) (λ f. tt));
  mutual_edges = λ r k. ground (
    arith,
    bytes_eq_iff event k,
    bytes_eq_iff socket k,
    bytes_eq_iff event r,
    bytes_eq_iff socket r,
    bytes_eq_iff core_name r,
    bytes_eq_iff r core_name,
  );
  disjoint = λ r k. ground arith;
  single = tt;
  unheld = λ k r h. ground (arith, h);
}

add_module_runtime_dependency-IsConsistent_example :
    IsConsistent [] [] (add_edge socket event side_by_side)
unfolding add_module_runtime_dependency check_dependency any_depends get bytes_eq
add_module_runtime_dependency-IsConsistent_example =
    add_module_runtime_dependency-IsConsistent 2 socket event side_by_side
      (add_edge socket event side_by_side) true side_by_side-IsConsistent refl
