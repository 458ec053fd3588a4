-- ===== src/Module/Revoke.antt =====
-- Requests that are given up, on a loader with consistent counts.
use kalisko.Base.Names.{drop_name-absent, Once}
use kalisko.Module.Unneed.{unneed_module-Keeps, size}
use kalisko.Module.Counts.{owes, IsConsistent, deps_in, listed}
use kalisko.Base.{
  ◌≡◌, refl, sym, ◌∙◌, Bytes, bytes_eq, bytes_eq_iff, bytes_eq_refl, ℕ, ◌<◌, ◌≤◌, Bool, true, false,
  ◌&&◌, not, Option, none, some, [], ◌∷◌, length, arith, inl, inr, Bool-cases, ap, List,
}
use kalisko.Base.Table.{has, get, drop_name, has-drop_name}
use kalisko.Module.{Loader, Library, World, core_name, init_modules}
use kalisko.Module.Load.{unneed_module, revoke_module}

module _ {C S : Type 0} where
  -- The loader starts with nothing to count.
  pub init_modules-IsConsistent : (w : World C S) → IsConsistent [] [] (init_modules w)
  unfolding init_modules listed deps_in has get owes
  init_modules-IsConsistent w = record {
    apart = refl;
    counted = λ k. tt;
    mutual_edges = λ r k. ground arith;
    disjoint = λ r k. ground arith;
    single = tt;
    unheld = λ k r h. refl;
  }

  -- The core without one of its requests.
  abbrev pub unrequested : Bytes → Loader C S → Loader C S
  unrequested name l = record l {
    core = record l.core { dependencies = drop_name name l.core.dependencies };
  }

  deps_in-unrequested :
      (name : Bytes) (l : Loader C S) (r k : Bytes)
      → has k (deps_in (unrequested name l) r)
        ≡ not (bytes_eq core_name r && bytes_eq name k) && has k (deps_in l r)
  unfolding deps_in
  deps_in-unrequested name l r k = ground (
    arith,
    has-drop_name name k l.core.dependencies,
    bytes_eq_iff core_name r,
    bytes_eq_iff r core_name,
  )

  listed-unrequested :
      (name : Bytes) (l : Loader C S) (r k : Bytes) → listed (unrequested name l) r k ≡ listed l r k
  unfolding listed
  listed-unrequested name l r k = refl

  pub requested_in : (l : Loader C S) → deps_in l core_name ≡ l.core.dependencies
  unfolding deps_in
  requested_in l = ground (arith, bytes_eq_refl core_name)

  unrequested-IsConsistent :
      (name : Bytes) (l : Loader C S)
      → IsConsistent [] [] l
      → has name l.core.dependencies ≡ true
      → IsConsistent [] ((core_name, name) ∷ []) (unrequested name l)
  unfolding owes has
  unrequested-IsConsistent name l c h = record {
    apart = c.apart;
    counted = c.counted;
    mutual_edges = λ r k. ground (
      arith,
      listed-unrequested name l r k,
      deps_in-unrequested name l r k,
      c.mutual_edges r k,
      bytes_eq_iff core_name r,
      bytes_eq_iff name k,
      requested_in l,
      h,
    );
    disjoint = λ r k. ground (arith, deps_in-unrequested name l r k);
    single = (refl, tt);
    unheld = λ k r p. ground (arith, p);
  }

  -- The core is in no table and has no holders.
  pub core_unrequested :
      (l : Loader C S) → IsConsistent [] [] l → has core_name l.core.dependencies ≡ false
  unfolding listed has owes
  core_unrequested l c = ground (arith, c.mutual_edges core_name core_name, c.apart, requested_in l)

module _ {C S : Type 0} (libraries : Bytes → Option (Library C S)) where
  -- What revoking a request does on a consistent loader: it ends, answers whether there was the
  -- request, takes it out, and leaves the references counted.
  abbrev pub Revoked : List Bytes → Bytes → Loader C S → Option (Loader C S × Bool) → Type 0
  Revoked us name l o =
      (l' : Loader C S) × (o ≡ some (l', has name l.core.dependencies))
      × IsConsistent [] [] l'
      × (l'.core.dependencies ≡ drop_name name l.core.dependencies)
      × (size us l' ≤ size us l)

  revoke_requested :
      (n : ℕ) (name : Bytes) (l l' : Loader C S)
      → bytes_eq name core_name ≡ false
      → has name l.core.dependencies ≡ true
      → unneed_module libraries n none name (unrequested name l) ≡ some l'
      → revoke_module libraries n name l ≡ some (l', true)
  unfolding revoke_module
  revoke_requested n name l l' a h e = ground (arith, a, h, e)

  revoke_unrequested :
      (n : ℕ) (name : Bytes) (l : Loader C S)
      → has name l.core.dependencies ≡ false
      → revoke_module libraries n name l ≡ some (l, false)
  unfolding revoke_module
  revoke_unrequested n name l h = ground (arith, h)

  -- On a loader with consistent counts in which nothing is being loaded, and with fuel above the
  -- number of modules in the table: revokeModule ends, it answers whether the core had the name
  -- among its dependencies, these are afterwards those before without the name, the counts are
  -- consistent, and the modules with the names, from a list without repetition, that are not
  -- loaded are no more than before.
  pub revoke_module-IsConsistent :
      (us : List Bytes) (n : ℕ) (name : Bytes) (l : Loader C S)
      → Once us
      → IsConsistent [] [] l
      → length l.modules < n
      → Revoked us name l (revoke_module libraries n name l)
  revoke_module-IsConsistent us n name l o c f = elim (Bool-cases (has name l.core.dependencies)) [
    | inl h ↦
        let a : bytes_eq name core_name ≡ false =
          ground (arith, h, core_unrequested l c, bytes_eq_iff name core_name) in
        let (l', e, k) =
          unneed_module-Keeps libraries n [] [] (unrequested name l) none name
            (unrequested-IsConsistent name l c h) f in
        (
          l',
          revoke_requested n name l l' a h e ∙ ap (λ b. some (l', b)) (sym h),
          k.consistent,
          ap (λ m. m.dependencies) k.same_core,
          k.fits us o,
        )
    | inr h ↦ (
      l,
      revoke_unrequested n name l h ∙ ap (λ b. some (l, b)) (sym h),
      c,
      sym (drop_name-absent name l.core.dependencies h),
      omega arith,
    )
  ]
