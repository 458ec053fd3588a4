-- ===== src/Module/Load.antt =====
-- Loading, unloading, requests and runtime dependencies of src/module.c. A result `none` is fuel that
-- ran out or a pointer to a module that is no longer there.
use kalisko.Module.{
  Library, Module, Loader, ModuleDependency, parent_name, satisfies, link, core_name, World,
  add_to_parent, write, new_module, Initializer, init_ends, init_requests, init_depends,
}
use kalisko.Base.{
  ℕ, zero, suc, Bytes, bytes_eq, Bool, true, false, ◌&&◌, if◌then◌else◌, Option, none, some, List,
  [], ◌∷◌, ltb, ◌+◌, ◌-◌,
}
use kalisko.Base.Table.{get, drop, has, add_name, drop_name}
use kalisko.Version.{Version}
use kalisko.Timer.{remove_module_timers}

-- A step that may fail in the source, with the state it leaves.
abbrev pub Outcome : Type 0 → Type 0 → Type 0
Outcome C S = Option (Loader C S × Bool)

-- `checkModuleDependencyByModule`: `depends` is its recursive call.
unfoldable pub any_depends : (Bytes → Option Bool) → Bytes → List Bytes → Option Bool
any_depends depends target [] = some false
any_depends depends target (d ∷ ds) =
    let rest = any_depends depends target ds in
    if bytes_eq d target
    then some true
    else elim (depends d) [ none ↦ none | some b ↦ if b then some true else rest ]

abbrev pub dependencies_of : Option Module → List Bytes
dependencies_of none = []
dependencies_of (some m) = m.dependencies

module _ {C S : Type 0} where
  abbrev pub then_state :
      Option (Loader C S) → (Loader C S → Option (Loader C S)) → Option (Loader C S)
  then_state none k = none
  then_state (some l) k = k l

  abbrev pub then_outcome : Outcome C S → (Loader C S → Bool → Outcome C S) → Outcome C S
  then_outcome none k = none
  then_outcome (some (l, ok)) k = k l ok

  -- A result after a step that cannot fail.
  abbrev pub with_result : Option (Loader C S) → Bool → Outcome C S
  with_result none ok = none
  with_result (some l) ok = some (l, ok)

  -- `unneedModule` for each name of a list
  unfoldable pub unneed_each :
      (Bytes → Loader C S → Option (Loader C S)) → List Bytes → Loader C S → Option (Loader C S)
  unneed_each unneed [] l = some l
  unneed_each unneed (d ∷ ds) l = then_state (unneed d l) (unneed_each unneed ds)

  -- The dependencies of a module being loaded, needed in turn up to the first that fails.
  unfoldable pub need_each :
      (ModuleDependency → Loader C S → Outcome C S)
      → List ModuleDependency
      → Loader C S
      → Outcome C S
  need_each need [] l = some (l, true)
  need_each need (d ∷ ds) l =
      then_outcome (need d l) (λ l' ok. if ok then need_each need ds l' else some (l', false))

  unfoldable pub check_dependency : ℕ → Loader C S → Bytes → Bytes → Option Bool
  unfolding any_depends
  check_dependency zero l source target = none
  check_dependency (suc n) l source target =
      any_depends (λ d. check_dependency n l d target) target
        (dependencies_of (get source l.modules))

  -- `checkModuleDependency`
  unfoldable pub check_module_dependency : ℕ → Bytes → Bytes → Loader C S → Option Bool
  check_module_dependency n source target l = elim (get source l.modules) [
    | none ↦ some false
    | some s ↦ elim (get target l.modules) [
      | none ↦ some false
      | some t ↦ check_dependency n l source target
    ]
  ]

  -- The changes that `addModuleRuntimeDependency` makes to the two modules.
  unfoldable pub add_edge : Bytes → Bytes → Loader C S → Loader C S
  add_edge source target l =
      let l1 = add_to_parent (some source) target l in
      elim (get target l1.modules) [
        | none ↦ l1
        | some t ↦ write target (record t { rdeps = add_name source t.rdeps; rc = t.rc + 1 }) l1
      ]

  -- `addModuleRuntimeDependency`
  unfoldable pub add_module_runtime_dependency : ℕ → Bytes → Bytes → Loader C S → Outcome C S
  unfolding check_dependency
  add_module_runtime_dependency n source target l = elim (get source l.modules) [
    | none ↦ some (l, false)
    | some s ↦ elim (get target l.modules) [
      | none ↦ some (l, false)
      | some t ↦ elim (check_dependency n l source target) [
        | none ↦ none
        | some forward ↦
            if forward then some (l, true) else elim (check_dependency n l target source) [
              | none ↦ none
              | some back ↦ if back then some (l, false) else some (add_edge source target l, true)
            ]
      ]
    ]
  ]

  abbrev pub finalizer : Option (Library C S) → World C S → World C S
  finalizer none w = w
  finalizer (some lib) w = elim lib.finalize [ none ↦ w | some f ↦ f w ]

  abbrev pub without_timers : Bytes → World C S → World C S
  without_timers name w = record w { timers = (remove_module_timers name w.timers).0 }

  -- `requestModule`, where `need` is its call of `needModule`.
  unfoldable pub request_by : (Bytes → Loader C S → Outcome C S) → Bytes → Loader C S → Outcome C S
  request_by need name l =
      if bytes_eq name core_name
      then some (l, false)
      else if has name l.core.dependencies
      then some (l, false)
      else need name l

  -- `init_func()`, with the loader's functions that it calls.
  unfoldable pub run_initializer :
      (Bytes → Loader C S → Outcome C S)
      → (Bytes → Bytes → Loader C S → Outcome C S)
      → Initializer C S
      → Loader C S
      → Outcome C S
  run_initializer request depend (init_ends w ok) l = some (record l { world = w }, ok)
  run_initializer request depend (init_requests w name next) l =
      then_outcome (request name (record l { world = w }))
        (λ l' ok. run_initializer request depend (next l'.world ok) l')
  run_initializer request depend (init_depends w source target next) l =
      then_outcome (depend source target (record l { world = w }))
        (λ l' ok. run_initializer request depend (next l'.world ok) l')

module _ {C S : Type 0} (libraries : Bytes → Option (Library C S)) where
  -- The part of `unneedModule` that finalizes a module and takes it out of the table.
  unfoldable pub unload : Bytes → Module → Loader C S → Loader C S
  unload name m l =
      let world = without_timers name (finalizer (libraries name) l.world) in
      record l { world = if m.loaded then world else l.world; modules = drop name l.modules }

  -- `unneedModule`
  unfoldable pub unneed_module : ℕ → Option Bytes → Bytes → Loader C S → Option (Loader C S)
  unfolding unneed_each
  unneed_module zero parent name l = none
  unneed_module (suc n) parent name l = elim (get name l.modules) [
    | none ↦ none
    | some m ↦
        let left : Module = record m {
          rdeps = drop_name (parent_name parent) m.rdeps;
          rc = m.rc - 1;
        } in
        let rest = unneed_each (unneed_module n (some name)) m.dependencies (unload name left l) in
        if ltb 0 left.rc then some (write name left l) else rest
  ]

  -- `needModule` after the dependencies: opening with all symbols and initialization. `need` is
  -- what a request of the initializer calls.
  unfoldable pub start_module :
      (Bytes → Loader C S → Outcome C S)
      → ℕ
      → Library C S
      → Option Bytes
      → Bytes
      → Loader C S
      → Outcome C S
  unfolding run_initializer request_by add_module_runtime_dependency
  start_module need n lib parent name l =
      let failed = with_result (unneed_module n parent name l) false in
      if lib.resolves
      then elim lib.initialize [
        | none ↦ failed
        | some initialize ↦
            then_outcome
              (run_initializer (request_by need) (add_module_runtime_dependency n)
                (initialize l.world) l)
              (λ l' ok.
                if ok
                then elim (get name l'.modules) [
                  | none ↦ none
                  | some m ↦ some (link parent name (record m { loaded = true }) l', true)
                ]
                else with_result (unneed_module n parent name l') false)
      ]
      else failed

  -- `needModule`
  unfoldable pub need_module : ℕ → Option Bytes → Bytes → Option Version → Loader C S → Outcome C S
  need_module zero parent name needed l = none
  need_module (suc n) parent name needed l = elim (get name l.modules) [
    | some m ↦
        if m.loaded && satisfies needed m.version m.bcversion
        then some (link parent name (record m { rc = m.rc + 1 }) l, true)
        else some (l, false)
    | none ↦ elim (libraries name) [
      | none ↦ some (l, false)
      | some lib ↦
          elim (new_module needed lib.name lib.author lib.description lib.version lib.bcversion
            lib.depends) [
              | none ↦ some (l, false)
              | some (m, deps) ↦
                  then_outcome
                    (need_each (λ d. need_module n (some name) d.name (some d.version)) deps
                      (write name m l))
                    (λ l' ok.
                      if ok
                      then start_module (λ r. need_module n none r none) n lib parent name l'
                      else with_result (unneed_module n parent name l') false)
            ]
    ]
  ]

  -- `requestModule`
  unfoldable pub request_module : ℕ → Bytes → Loader C S → Outcome C S
  unfolding need_module request_by
  request_module n name l = request_by (λ r. need_module n none r none) name l

  -- `revokeModule`
  unfoldable pub revoke_module : ℕ → Bytes → Loader C S → Outcome C S
  revoke_module n name l =
      let l' : Loader C S = record l {
        core = record l.core { dependencies = drop_name name l.core.dependencies };
      } in
      if bytes_eq name core_name
      then some (l, false)
      else if has name l.core.dependencies
      then with_result (unneed_module n none name l') true
      else some (l, false)

  -- The loop of `forceUnloadModule` over the reverse dependencies.
  unfoldable pub force_each :
      (Bytes → Loader C S → Outcome C S) → List Bytes → Loader C S → Outcome C S
  force_each force [] l = some (l, true)
  force_each force (r ∷ rs) l =
      let skipped = force_each force rs l in
      if bytes_eq r core_name
      then skipped
      else then_outcome (force r l)
          (λ l' ok. if ok then force_each force rs l' else some (l', false))

  -- `forceUnloadModule`
  unfoldable pub force_unload_module : ℕ → Bytes → Loader C S → Outcome C S
  unfolding force_each
  force_unload_module zero name l = none
  force_unload_module (suc n) name l =
      if bytes_eq name core_name then some (l, false) else elim (get name l.modules) [
        | none ↦ some (l, false)
        | some m ↦ then_outcome (force_each (force_unload_module n) m.rdeps l) (λ l' ok.
            if ok
            then elim (get name l'.modules) [
              | none ↦ some (l', true)
              | some m' ↦ revoke_module n name l'
            ]
            else some (l', false))
      ]

  -- The assertions at the end of `freeModules`.
  abbrev none_left : Option (Loader C S) → Option (World C S)
  none_left none = none
  none_left (some l) = elim l.core.rdeps [
    | [] ↦ elim l.modules [ [] ↦ some l.world | _ ∷ _ ↦ none ]
    | _ ∷ _ ↦ none
  ]

  -- `freeModules`
  unfoldable pub free_modules : ℕ → Loader C S → Option (World C S)
  free_modules n l = none_left (unneed_each (unneed_module n none) l.core.dependencies l)
