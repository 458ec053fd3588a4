-- ===== src/Module/Fresh.antt =====
-- The first request of a module without dependencies, and its end.
use kalisko.Base.{
  ◌≡◌, refl, ◌∙◌, ap, ℕ, suc, ◌-◌, Bytes, bytes_eq, bytes_eq_iff, bytes_eq_refl, true, false,
  Option, none, some, List, [], arith,
}
use kalisko.Base.Table.{
  has, get, put, drop, get-put, get-drop, has-add_name, add_name, drop_name, drop_name-add_name,
}
use kalisko.Module.{
  Loader, Module, ModuleDependency, write, link, satisfies, core_name, Library, World, new_module,
  Version, is_module_loaded, init_ends, Initializer,
}
use kalisko.Module.Load.{
  request_module, revoke_module, need_module, need_each, unneed_module, unneed_each, unload,
  start_module, finalizer, without_timers, Outcome, request_by, run_initializer,
}
use kalisko.Module.Request.{link_core}

abbrev pub module_from : {C S : Type 0} → Library C S → Option (Module × List ModuleDependency)
module_from lib =
    new_module none lib.name lib.author lib.description lib.version lib.bcversion lib.depends

new_module_fresh :
    (n a d : Option Bytes) (v b : Option Version) (deps : Option (List ModuleDependency))
    (m : Module) (ds : List ModuleDependency)
    → new_module none n a d v b deps ≡ some (m, ds)
    → (m.rc ≡ 1) × (m.rdeps ≡ []) × (m.dependencies ≡ [])
unfolding new_module satisfies
new_module_fresh n a d v b deps m ds h = ground arith

module _ {C S : Type 0} (libraries : Bytes → Option (Library C S)) where
  -- The loader before the module is initialized, and after.
  abbrev started : World C S → Bytes → Module → Loader C S → Loader C S
  started w name m l =
      link none name (record m { loaded = true }) (record (write name m l) { world = w })

  start_fresh :
      (need : Bytes → Loader C S → Outcome C S) (n : ℕ) (name : Bytes) (l : Loader C S)
      (lib : Library C S) (m : Module) (f : World C S → Initializer C S) (w : World C S)
      → lib.resolves ≡ true
      → lib.initialize ≡ some f
      → f l.world ≡ init_ends w true
      → get name l.modules ≡ some m
      → start_module libraries need n lib none name l
        ≡ some (link none name (record m { loaded = true }) (record l { world = w }), true)
  unfolding start_module run_initializer
  start_fresh need n name l lib m f w a i o g = ground (arith, a, i, o, g)

  request_fresh :
      (n : ℕ) (name : Bytes) (l : Loader C S) (lib : Library C S) (m : Module)
      (f : World C S → Initializer C S) (w : World C S)
      → bytes_eq name core_name ≡ false
      → has name l.core.dependencies ≡ false
      → get name l.modules ≡ none
      → libraries name ≡ some lib
      → module_from lib ≡ some (m, [])
      → lib.resolves ≡ true
      → lib.initialize ≡ some f
      → f l.world ≡ init_ends w true
      → request_module libraries (suc n) name l ≡ some (started w name m l, true)
  unfolding request_module request_by need_module need_each
  request_fresh n name l lib m f w c r g e q a i o =
      let here : get name (put name m l.modules) ≡ some m =
        get-put name name m l.modules ∙ rw (bytes_eq_refl name) refl in
      ground (
        arith,
        start_fresh (λ r. need_module libraries n none r none) n name (write name m l) lib m f w a i
            o here,
      )

  revoke_last :
      (n : ℕ) (name : Bytes) (l : Loader C S) (m : Module)
      → bytes_eq name core_name ≡ false
      → has name l.core.dependencies ≡ true
      → get name l.modules ≡ some m
      → m.rc ≡ 1
      → m.dependencies ≡ []
      → revoke_module libraries (suc n) name l
        ≡ some (
          unload libraries name
              (record m { rdeps = drop_name core_name m.rdeps; rc = m.rc - 1 })
              (record l {
                core = record l.core { dependencies = drop_name name l.core.dependencies };
              }),
          true,
        )
  unfolding revoke_module unneed_module unneed_each
  revoke_last n name l m c r g h d = ground arith

  is_module_loaded_in :
      (name : Bytes) (m : Module) (l : Loader C S)
      → get name l.modules ≡ some m
      → m.loaded ≡ true
      → is_module_loaded name l ≡ true
  unfolding is_module_loaded
  is_module_loaded_in name m l g h = ground arith

  unload_loaded :
      (name : Bytes) (m : Module) (l : Loader C S) (lib : Library C S)
      → libraries name ≡ some lib
      → m.loaded ≡ true
      → unload libraries name m l ≡ record l {
        world = without_timers name (finalizer (some lib) l.world);
        modules = drop name l.modules;
      }
  unfolding unload
  unload_loaded name m l lib e h = rw (e, h) refl

  get-drop-put :
      (name k : Bytes) (l : Loader C S) (a b : Module)
      → get name l.modules ≡ none
      → get k (drop name (put name b (put name a l.modules))) ≡ get k l.modules
  get-drop-put name k l a b g =
      get-drop name k (put name b (put name a l.modules))
      ∙ ground (
        arith,
        bytes_eq_iff name k,
        get-put name k b (put name a l.modules),
        get-put name k a l.modules,
        ap (λ x. get x l.modules),
      )

  -- For a name that is not that of the core, is not requested and is not in the table, whose
  -- library opens, has every function and no dependencies, and whose initializer succeeds without
  -- a call of requestModule or addModuleRuntimeDependency: the request succeeds and the module is
  -- then loaded, revoking it succeeds, and afterwards the table answers as before, the core is as
  -- before, and the world is that of the initializer after the finalizer and without the timers
  -- of the module.
  pub revoke_module-request_module_fresh :
      (n : ℕ) (name : Bytes) (l : Loader C S) (lib : Library C S) (m : Module)
      (f : World C S → Initializer C S) (w : World C S)
      → bytes_eq name core_name ≡ false
      → has name l.core.dependencies ≡ false
      → get name l.modules ≡ none
      → libraries name ≡ some lib
      → module_from lib ≡ some (m, [])
      → lib.resolves ≡ true
      → lib.initialize ≡ some f
      → f l.world ≡ init_ends w true
      → (l1 : Loader C S) × (l2 : Loader C S) × (request_module libraries (suc n) name l
          ≡ some (l1, true))
        × (is_module_loaded name l1 ≡ true)
        × (revoke_module libraries (suc n) name l1 ≡ some (l2, true))
        × ((k : Bytes) → get k l2.modules ≡ get k l.modules)
        × (l2.core ≡ l.core)
        × (l2.world ≡ without_timers name (finalizer (some lib) w))
  revoke_module-request_module_fresh n name l lib m f w c r g e q a i o =
      let (one, none_back, none_on) =
        new_module_fresh lib.name lib.author lib.description lib.version lib.bcversion lib.depends m
          [] q in
      let m1 : Module = record m { loaded = true; rdeps = add_name core_name m.rdeps } in
      let l1 : Loader C S = record {
        modules = put name m1 (put name m l.modules);
        core = record l.core { dependencies = add_name name l.core.dependencies };
        world = w;
      } in
      let in1 : get name l1.modules ≡ some m1 =
        get-put name name m1 (put name m l.modules) ∙ rw (bytes_eq_refl name) refl in
      let wanted : has name l1.core.dependencies ≡ true =
        has-add_name name name l.core.dependencies ∙ rw (bytes_eq_refl name) refl in
      let l2 : Loader C S = record l1 {
        core = record l1.core { dependencies = drop_name name l1.core.dependencies };
      } in
      let left : Module = record m1 { rdeps = drop_name core_name m1.rdeps; rc = m1.rc - 1 } in
      (
        l1,
        record l2 {
          world = without_timers name (finalizer (some lib) w);
          modules = drop name l1.modules;
        },
        request_fresh n name l lib m f w c r g e q a i o
            ∙ ap (λ x. some (x, true))
                (link_core name (record m { loaded = true })
                  (record (write name m l) { world = w })),
        is_module_loaded_in name m1 l1 in1 refl,
        revoke_last n name l1 m1 c wanted in1 one none_on
            ∙ ap (λ x. some (x, true)) (unload_loaded name left l2 lib e refl),
        (λ k. get-drop-put name k l m m1 g),
        rw (drop_name-add_name name l.core.dependencies r) refl,
        refl,
      )
