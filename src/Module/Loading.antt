-- ===== src/Module/Loading.antt =====
-- `needModule` ends on a loader with consistent counts, and leaves them consistent, whether the
-- module is loaded or not.
use mathlib.Core.Path.{subst}
use kalisko.Module.Need.{Waiting, Loads, Needed}
use kalisko.Module.Unneed.{size}
use kalisko.Module.Counts.{IsConsistent, deps_in}
use kalisko.Base.{
  ◌≡◌, refl, ◌∙◌, Bytes, bytes_eq, bytes_eq_iff, bytes_eq_refl, ℕ, ◌+◌, ◌<◌, ◌≤◌, Bool, true, false,
  if◌then◌else◌, Option, none, some, List, [], ◌∷◌, arith, inl, inr, Bool-cases,
}
use kalisko.Base.Count.{outside}
use kalisko.Base.Names.{Once}
use kalisko.Base.Table.{has}
use kalisko.Version.{Version}
use kalisko.Module.{
  Initializer, init_ends, Module, ModuleDependency, Loader, Library, core_name, parent_name,
  new_module, init_requests, init_depends, World,
}
use kalisko.Module.Load.{Outcome, need_module, need_each}

abbrev pub names_of : List ModuleDependency → List Bytes
names_of [] = []
names_of (d ∷ ds) = d.name ∷ names_of ds

pub new_module_entered :
    (needed : Option Version) (n a d : Option Bytes) (v b : Option Version)
    (deps : Option (List ModuleDependency)) (m : Module) (ds : List ModuleDependency)
    → new_module needed n a d v b deps ≡ some (m, ds)
    → ((m.rc ≡ 1) × (m.rdeps ≡ []) × (m.dependencies ≡ [])) × (m.loaded ≡ false) × (deps ≡ some ds)
unfolding new_module
new_module_entered needed n a d v b deps m ds h = ground arith

-- No dependency is named twice.
abbrev pub AreDistinct : Option (List ModuleDependency) → Type 0
AreDistinct none = Unit
AreDistinct (some ds) = Once (names_of ds)

abbrev pub HasDistinct : {C S : Type 0} → Option (Library C S) → Type 0
HasDistinct none = Unit
HasDistinct (some lib) = AreDistinct lib.depends

-- An initializer that does not call `addModuleRuntimeDependency`.
abbrev pub OnlyRequests : {C S : Type 0} → Initializer C S → Type 0
OnlyRequests (init_ends w ok) = Unit
OnlyRequests {C} {S} (init_requests w name next) =
    (w' : World C S) (ok : Bool) → OnlyRequests (next w' ok)
OnlyRequests (init_depends w source target next) = true ≡ false

abbrev pub InitRequests : {C S : Type 0} → Option (World C S → Initializer C S) → Type 0
InitRequests none = Unit
InitRequests {C} {S} (some f) = (w : World C S) → OnlyRequests (f w)

abbrev pub NeverDepends : {C S : Type 0} → Option (Library C S) → Type 0
NeverDepends none = Unit
NeverDepends (some lib) = InitRequests lib.initialize

-- The libraries have names among `us`, none has that of the core, no library names a dependency
-- twice, and no initializer adds a runtime dependency.
pub record AreLibraries {C S : Type 0} (us : List Bytes) (libraries : Bytes → Option (Library C S))
    : Type 0 where
  pub once : Once us
  pub no_core : libraries core_name ≡ none
  pub named : (k : Bytes) (lib : Library C S) → libraries k ≡ some lib → has k us ≡ true
  pub distinct : (k : Bytes) → HasDistinct (libraries k)
  pub requests : (k : Bytes) → NeverDepends (libraries k)

pub distinct_names :
    {C S : Type 0} {us : List Bytes} {libraries : Bytes → Option (Library C S)} (k : Bytes)
    (lib : Library C S) (ds : List ModuleDependency)
    → AreLibraries us libraries
    → libraries k ≡ some lib
    → lib.depends ≡ some ds
    → Once (names_of ds)
distinct_names k lib ds s h d = subst AreDistinct d (subst HasDistinct h (s.distinct k))

pub library_requests :
    {C S : Type 0} {us : List Bytes} {libraries : Bytes → Option (Library C S)} (k : Bytes)
    (lib : Library C S)
    → AreLibraries us libraries
    → libraries k ≡ some lib
    → InitRequests lib.initialize
library_requests k lib s h = subst NeverDepends h (s.requests k)

module _ {C S : Type 0} (libraries : Bytes → Option (Library C S)) (us : List Bytes) where
  -- A loading that ends.
  abbrev pub IsNeeded :
      List Bytes → Option Bytes → Bytes → Loader C S → Option (Loader C S × Bool) → Type 0
  IsNeeded pending parent k l o =
      (l' : Loader C S) × (ok : Bool) × (o ≡ some (l', ok)) × Needed us pending parent k l l' ok

  abbrev pub Needs : ℕ → Type 0
  Needs n =
      (pending : List Bytes) (parent : Option Bytes) (k : Bytes) (needed : Option Version)
      (l : Loader C S)
      → IsConsistent pending [] l
      → Waiting pending l
      → Loads pending parent
      → has k (deps_in l (parent_name parent)) ≡ false
      → outside pending us + size us l < n
      → IsNeeded pending parent k l (need_module libraries n parent k needed l)

  -- What the loop over the dependencies of `k` leaves.
  pub record EachNeeded (pending : List Bytes) (k : Bytes) (l l' : Loader C S) : Type 0 where
    pub consistent : IsConsistent pending [] l'
    pub fits : size us l' ≤ size us l
    pub waiting : Waiting pending l'
    pub edges :
        (q j : Bytes)
        → has q pending ≡ true
        → bytes_eq k q ≡ false
        → has j (deps_in l' q) ≡ has j (deps_in l q)
    pub core_edges :
        (j : Bytes) → has j (deps_in l core_name) ≡ true → has j (deps_in l' core_name) ≡ true

  one-EachNeeded :
      (pending : List Bytes) (k d : Bytes) (l l' : Loader C S) (ok : Bool)
      → Needed us pending (some k) d l l' ok
      → EachNeeded pending k l l'
  one-EachNeeded pending k d l l' ok r = record {
    consistent = r.consistent;
    fits = r.fits;
    waiting = r.waiting;
    edges = λ q j x y. ground (arith, r.edges q j x, y);
    core_edges = r.core_edges;
  }

  EachNeeded-trans :
      (pending : List Bytes) (k : Bytes) (l1 l2 l3 : Loader C S)
      → EachNeeded pending k l1 l2
      → EachNeeded pending k l2 l3
      → EachNeeded pending k l1 l3
  EachNeeded-trans pending k l1 l2 l3 a b = record {
    consistent = b.consistent;
    fits = omega (arith, a.fits, b.fits);
    waiting = b.waiting;
    edges = λ q j x y. b.edges q j x y ∙ a.edges q j x y;
    core_edges = λ j h. b.core_edges j (a.core_edges j h);
  }

  need_each_next :
      (need : ModuleDependency → Loader C S → Outcome C S) (d : ModuleDependency)
      (ds : List ModuleDependency) (l l1 : Loader C S) (ok : Bool)
      → need d l ≡ some (l1, ok)
      → need_each need (d ∷ ds) l ≡ (if ok then need_each need ds l1 else some (l1, false))
  unfolding need_each
  need_each_next need d ds l l1 ok e = ground (arith, e)

  pub need_each-Needed :
      (n : ℕ) (pending : List Bytes) (k : Bytes) (ds : List ModuleDependency) (l : Loader C S)
      → Needs n
      → IsConsistent pending [] l
      → Waiting pending l
      → has k pending ≡ true
      → Once (names_of ds)
      → ((j : Bytes) → has j (names_of ds) ≡ true → has j (deps_in l k) ≡ false)
      → outside pending us + size us l < n
      → (l' : Loader C S) × (ok : Bool) × (need_each
            (λ d. need_module libraries n (some k) d.name (some d.version))
            ds
            l
          ≡ some (l', ok))
        × EachNeeded pending k l l'
  unfolding need_each has
  need_each-Needed n pending k [] l ih c w p o e f = (
    l,
    true,
    refl,
    record {
      consistent = c;
      fits = omega arith;
      waiting = w;
      edges = λ q j x y. refl;
      core_edges = λ j h. h;
    },
  )
  need_each-Needed n pending k (d ∷ ds) l ih c w p o e f =
      let need =
        λ (d : ModuleDependency). need_module libraries n (some k) d.name (some d.version) in
      let (l1, ok, e1, r1) =
        ih pending (some k) d.name (some d.version) l c w p
          (e d.name (ground (arith, bytes_eq_refl d.name))) f in
      let s = need_each_next need d ds l l1 ok e1 in
      elim (Bool-cases ok) [
        | inl t ↦
            let (l2, ok2, e2, r2) =
              need_each-Needed n pending k ds l1 ih r1.consistent r1.waiting p o.1
                (λ j h. ground (arith, r1.edges k j, e j, h, p, o.0, bytes_eq_iff d.name j))
                (omega (arith, f, r1.fits)) in
            (
              l2,
              ok2,
              ground (arith, s, t, e2),
              EachNeeded-trans pending k l l1 l2 (one-EachNeeded pending k d.name l l1 ok r1) r2,
            )
        | inr t ↦ (l1, false, ground (arith, s, t), one-EachNeeded pending k d.name l l1 ok r1)
      ]
