-- ===== src/Module/Entered.antt =====
-- One call of `needModule`, and the module that it enters into the table.
use kalisko.Module.Loading.{AreLibraries, EachNeeded}
use kalisko.Module.Need.{Waiting, Needed}
use kalisko.Module.Unneed.{size}
use kalisko.Module.Counts.{deps_in, deps_in-write}
use kalisko.Base.{
  ◌≡◌, ◌∙◌, Bytes, bytes_eq, bytes_eq_iff, bytes_eq_refl, ℕ, suc, ◌+◌, ◌≤◌, Bool, true, false, ◌&&◌,
  if◌then◌else◌, Option, none, some, List, ◌∷◌, arith, inl, inr, Option-cases,
}
use kalisko.Base.Count.{absent-put_new}
use kalisko.Base.Names.{length-put}
use kalisko.Base.Table.{has, get, get-put}
use kalisko.Version.{Version}
use kalisko.Module.{
  Module, ModuleDependency, Loader, Library, core_name, write, link, new_module, satisfies,
}
use kalisko.Module.Load.{unneed_module, need_module, need_each, start_module, with_result}

-- The library's functions as `needModule` reads them.
abbrev pub module_for :
    {C S : Type 0} → Option Version → Library C S → Option (Module × List ModuleDependency)
module_for needed lib =
    new_module needed lib.name lib.author lib.description lib.version lib.bcversion lib.depends

module _ {C S : Type 0} where
  pub not_waiting :
      (pending : List Bytes) (l : Loader C S) (k : Bytes)
      → Waiting pending l
      → get k l.modules ≡ none
      → has k pending ≡ false
  not_waiting pending l k w g = ground (arith, w k, g)

  pub entered-Waiting :
      (pending : List Bytes) (l : Loader C S) (k : Bytes) (m : Module)
      → Waiting pending l
      → m.loaded ≡ false
      → Waiting (k ∷ pending) (write k m l)
  unfolding has
  entered-Waiting pending l k m w f j h = ground (arith, get-put k j m l.modules, w j, f, h)

  pub waiting_module :
      (pending : List Bytes) (l : Loader C S) (k : Bytes)
      → Waiting (k ∷ pending) l
      → (m : Module) × (get k l.modules ≡ some m)
  unfolding has
  waiting_module pending l k w = elim (Option-cases (get k l.modules)) [
    | inl e ↦ absurd (ground (arith, w k, e, bytes_eq_refl k))
    | inr f ↦ f
  ]

module _ {C S : Type 0} (libraries : Bytes → Option (Library C S)) where
  pub need_found :
      (n : ℕ) (parent : Option Bytes) (k : Bytes) (needed : Option Version) (l : Loader C S)
      (m : Module)
      → get k l.modules ≡ some m
      → need_module libraries (suc n) parent k needed l ≡ (
          if m.loaded && satisfies needed m.version m.bcversion
          then some (link parent k (record m { rc = m.rc + 1 }) l, true)
          else some (l, false))
  unfolding need_module
  need_found n parent k needed l m g = ground (arith, g)

  pub need_no_library :
      (n : ℕ) (parent : Option Bytes) (k : Bytes) (needed : Option Version) (l : Loader C S)
      → get k l.modules ≡ none
      → libraries k ≡ none
      → need_module libraries (suc n) parent k needed l ≡ some (l, false)
  unfolding need_module
  need_no_library n parent k needed l g h = ground (arith, g, h)

  pub need_not_new :
      (n : ℕ) (parent : Option Bytes) (k : Bytes) (needed : Option Version) (l : Loader C S)
      (lib : Library C S)
      → get k l.modules ≡ none
      → libraries k ≡ some lib
      → module_for needed lib ≡ none
      → need_module libraries (suc n) parent k needed l ≡ some (l, false)
  unfolding need_module
  need_not_new n parent k needed l lib g h e = ground (arith, g, h, e)

  pub need_entered :
      (n : ℕ) (parent : Option Bytes) (k : Bytes) (needed : Option Version) (l l2 : Loader C S)
      (lib : Library C S) (m m2 : Module) (ds : List ModuleDependency) (ok : Bool)
      → get k l.modules ≡ none
      → libraries k ≡ some lib
      → module_for needed lib ≡ some (m, ds)
      → need_each (λ d. need_module libraries n (some k) d.name (some d.version)) ds (write k m l)
        ≡ some (l2, ok)
      → get k l2.modules ≡ some m2
      → need_module libraries (suc n) parent k needed l ≡ (
          if ok
          then start_module libraries (λ r. need_module libraries n none r none) n lib parent k l2
          else with_result (unneed_module libraries n parent k l2) false)
  unfolding need_module
  need_entered n parent k needed l l2 lib m m2 ds ok g h e r t = ground (arith, g, h, e, r, t)

  module _ (us : List Bytes) where
    pub named_apart_lib :
        (k : Bytes) (lib : Library C S)
        → AreLibraries us libraries
        → libraries k ≡ some lib
        → bytes_eq k core_name ≡ false
    named_apart_lib k lib s h = ground (arith, s.no_core, h, bytes_eq_iff k core_name)

    pub size-entered :
        (l : Loader C S) (k : Bytes) (m : Module)
        → get k l.modules ≡ none
        → has k us ≡ true
        → size us (write k m l) ≤ size us l
    size-entered l k m g h =
        omega (arith, length-put k l.modules m, absent-put_new k l.modules m us g h)

    -- The dependencies of the others, after those of a module that was entered are loaded.
    pub entered_edges :
        (pending : List Bytes) (k : Bytes) (m : Module) (l l2 : Loader C S)
        → bytes_eq k core_name ≡ false
        → has k pending ≡ false
        → EachNeeded libraries us (k ∷ pending) k (write k m l) l2
        → (q j : Bytes) → has q pending ≡ true
        → has j (deps_in l2 q) ≡ has j (deps_in l q)
    unfolding has
    entered_edges pending k m l l2 a x r q j h =
        let d : bytes_eq k q ≡ false = ground (arith, h, x, bytes_eq_iff k q) in
        r.edges q j (ground (arith, h)) d ∙ ground (arith, deps_in-write l k m q a, d)

    pub through-Needed :
        (pending : List Bytes) (parent : Option Bytes) (k : Bytes) (m : Module)
        (l l2 l3 : Loader C S) (ok : Bool)
        → bytes_eq k core_name ≡ false
        → has k pending ≡ false
        → size us (write k m l) ≤ size us l
        → EachNeeded libraries us (k ∷ pending) k (write k m l) l2
        → Needed us pending parent k l2 l3 ok
        → Needed us pending parent k l l3 ok
    through-Needed pending parent k m l l2 l3 ok a x z r s = record {
      consistent = s.consistent;
      fits = omega (arith, s.fits, r.fits, z);
      waiting = s.waiting;
      edges = λ q j h. ground (arith, s.edges q j h, entered_edges pending k m l l2 a x r q j h);
      core_edges = λ j h.
          s.core_edges j (r.core_edges j (ground (arith, deps_in-write l k m core_name a, a, h)));
      linked = s.linked;
    }
