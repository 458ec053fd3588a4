-- ===== src/Module/Request.antt =====
-- `needModule`, `requestModule` and `revokeModule` of src/module.c.
use kalisko.Base.{
  ◌≡◌, refl, ◌∙◌, ap, ℕ, suc, ◌<◌, ◌+◌, ◌-◌, Bytes, bytes_eq, bytes_eq_iff, bytes_eq_refl, true,
  false, Option, none, some, ◌↔◌, arith,
}
use kalisko.Base.Table.{
  has, get, put, get-put, has-add_name, add_name, drop_name, drop_name-add_name,
}
use kalisko.Version.{Version, AtMost, compare_versions-AtMost, compare_versions-swap}
use kalisko.Module.{Loader, Module, write, link, satisfies, core_name, Library}
use kalisko.Module.Load.{request_module, revoke_module, need_module, unneed_module, request_by}

-- The check of a needed version succeeds exactly when it lies between the version that the module
-- is compatible with and its own in the lexicographic order of major, minor and patch numbers.
pub satisfies_lem :
    (needed version bcversion : Version)
    → (satisfies (some needed) version bcversion ≡ true)
      ↔ (AtMost bcversion needed × AtMost needed version)
unfolding satisfies
satisfies_lem needed version bcversion =
    let swap = compare_versions-swap needed bcversion in
    let low = compare_versions-AtMost bcversion needed in
    let high = compare_versions-AtMost needed version in
    (
      (λ h. (low.0 (ground arith), high.0 (ground arith))),
      λ h. let a = low.1 h.0 in let b = high.1 h.1 in ground arith,
    )

abbrev shared : Module → Module
shared m = record m { rc = m.rc + 1; rdeps = add_name core_name m.rdeps }

abbrev unshared : Module → Module
unshared m = record m { rc = m.rc - 1; rdeps = drop_name core_name m.rdeps }

unshared-shared : (m : Module) → has core_name m.rdeps ≡ false → unshared (shared m) ≡ m
unshared-shared m d =
    let e : m.rc + 1 - 1 ≡ m.rc = omega arith in rw (e, drop_name-add_name core_name m.rdeps d) refl

module _ {C S : Type 0} where
  get-put-put :
      (name k : Bytes) (l : Loader C S) (m a b : Module)
      → get name l.modules ≡ some m
      → b ≡ m
      → get k (put name b (put name a l.modules)) ≡ get k l.modules
  get-put-put name k l m a b g e =
      get-put name k b (put name a l.modules)
      ∙ ground (arith, bytes_eq_iff name k, get-put name k a l.modules, ap (λ x. get x l.modules))

  pub link_core :
      (name : Bytes) (m : Module) (l : Loader C S)
      → link none name m l ≡ record l {
        modules = put name (record m { rdeps = add_name core_name m.rdeps }) l.modules;
        core = record l.core { dependencies = add_name name l.core.dependencies };
      }
  unfolding link
  link_core name m l = refl

module _ {C S : Type 0} (libraries : Bytes → Option (Library C S)) where
  request_loaded :
      (n : ℕ) (name : Bytes) (l : Loader C S) (m : Module)
      → bytes_eq name core_name ≡ false
      → has name l.core.dependencies ≡ false
      → get name l.modules ≡ some m
      → m.loaded ≡ true
      → request_module libraries (suc n) name l
        ≡ some (link none name (record m { rc = m.rc + 1 }) l, true)
  unfolding request_module request_by need_module satisfies
  request_loaded n name l m c r g h = ground arith

  revoke_shared :
      (n : ℕ) (name : Bytes) (l : Loader C S) (m : Module)
      → bytes_eq name core_name ≡ false
      → has name l.core.dependencies ≡ true
      → get name l.modules ≡ some m
      → 1 < m.rc
      → revoke_module libraries (suc n) name l
        ≡ some (
          write name
              (record m { rdeps = drop_name core_name m.rdeps; rc = m.rc - 1 })
              (record l {
                core = record l.core { dependencies = drop_name name l.core.dependencies };
              }),
          true,
        )
  unfolding revoke_module unneed_module
  revoke_shared n name l m c r g h = ground arith

  -- For a module that is loaded with a reference count above 0, is not the core, and is not
  -- requested: the request succeeds and enters it in the dependencies of the core, revoking it
  -- succeeds, and afterwards the table answers as before and the core and the world are as
  -- before.
  pub revoke_module-request_module :
      (n : ℕ) (name : Bytes) (l : Loader C S) (m : Module)
      → bytes_eq name core_name ≡ false
      → has name l.core.dependencies ≡ false
      → get name l.modules ≡ some m
      → m.loaded ≡ true
      → 0 < m.rc
      → has core_name m.rdeps ≡ false
      → (l1 : Loader C S) × (l2 : Loader C S) × (request_module libraries (suc n) name l
          ≡ some (l1, true))
        × (has name l1.core.dependencies ≡ true)
        × (revoke_module libraries (suc n) name l1 ≡ some (l2, true))
        × ((k : Bytes) → get k l2.modules ≡ get k l.modules)
        × (l2.core ≡ l.core)
        × (l2.world ≡ l.world)
  revoke_module-request_module n name l m c r g h p d =
      let l1 : Loader C S = record l {
        modules = put name (shared m) l.modules;
        core = record l.core { dependencies = add_name name l.core.dependencies };
      } in
      let in1 : get name l1.modules ≡ some (shared m) =
        get-put name name (shared m) l.modules ∙ rw (bytes_eq_refl name) refl in
      let wanted : has name l1.core.dependencies ≡ true =
        has-add_name name name l.core.dependencies ∙ rw (bytes_eq_refl name) refl in
      (
        l1,
        write name (unshared (shared m)) (record l1 {
          core = record l1.core { dependencies = drop_name name l1.core.dependencies };
        }),
        request_loaded n name l m c r g h
            ∙ ap (λ x. some (x, true)) (link_core name (record m { rc = m.rc + 1 }) l),
        wanted,
        revoke_shared n name l1 (shared m) c wanted in1 (omega (arith, p)),
        (λ k. get-put-put name k l m (shared m) (unshared (shared m)) g (unshared-shared m d)),
        rw (drop_name-add_name name l.core.dependencies r) refl,
        refl,
      )
