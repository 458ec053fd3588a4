-- ===== src/Module/Initialize.antt =====
-- The calls of the loader in an initializer that `needModule` runs: the requests are made while the
-- module itself is being loaded.
use kalisko.Module.Loading.{Needs, OnlyRequests}
use kalisko.Module.Need.{Waiting, Needed, world-IsConsistent}
use kalisko.Module.Unneed.{size}
use kalisko.Module.Revoke.{requested_in}
use kalisko.Module.Counts.{IsConsistent, deps_in}
use kalisko.Base.{
  ◌≡◌, refl, ◌∙◌, Bytes, bytes_eq, bytes_eq_iff, ℕ, ◌+◌, ◌<◌, ◌≤◌, Bool, true, false, ◌||◌, Option,
  none, some, List, [], ◌∷◌, arith, inl, inr, Bool-cases, ap,
}
use kalisko.Base.Count.{outside}
use kalisko.Base.Table.{has}
use kalisko.Module.{
  Loader, Library, World, Initializer, init_ends, init_requests, init_depends, core_name,
}
use kalisko.Module.Load.{Outcome, need_module, request_by, run_initializer}

module _ {C S : Type 0} (us : List Bytes) where
  -- What requests leave while the modules `pending` are being loaded: these depend on the same
  -- modules as before, and the core on no fewer.
  pub record Grows (pending : List Bytes) (l l' : Loader C S) : Type 0 where
    pub consistent : IsConsistent pending [] l'
    pub fits : size us l' ≤ size us l
    pub waiting : Waiting pending l'
    pub edges : (q j : Bytes) → has q pending ≡ true → has j (deps_in l' q) ≡ has j (deps_in l q)
    pub core_edges :
        (j : Bytes) → has j (deps_in l core_name) ≡ true → has j (deps_in l' core_name) ≡ true

  Grows-refl :
      (pending : List Bytes) (l : Loader C S)
      → IsConsistent pending [] l
      → Waiting pending l
      → Grows pending l l
  Grows-refl pending l c w = record {
    consistent = c;
    fits = omega arith;
    waiting = w;
    edges = λ q j h. refl;
    core_edges = λ j h. h;
  }

  Grows-trans :
      (pending : List Bytes) (l1 l2 l3 : Loader C S)
      → Grows pending l1 l2
      → Grows pending l2 l3
      → Grows pending l1 l3
  Grows-trans pending l1 l2 l3 a b = record {
    consistent = b.consistent;
    fits = omega (arith, a.fits, b.fits);
    waiting = b.waiting;
    edges = λ q j h. b.edges q j h ∙ a.edges q j h;
    core_edges = λ j h. b.core_edges j (a.core_edges j h);
  }

  Grows-world :
      (pending : List Bytes) (l : Loader C S) (w : World C S)
      → IsConsistent pending [] l
      → Waiting pending l
      → Grows pending l (record l { world = w })
  unfolding deps_in
  Grows-world pending l w c v = record {
    consistent = world-IsConsistent pending l w c;
    fits = omega arith;
    waiting = v;
    edges = λ q j h. refl;
    core_edges = λ j h. h;
  }

  -- A module that was needed for the core.
  Needed-Grows :
      (pending : List Bytes) (k : Bytes) (l l' : Loader C S) (ok : Bool)
      → IsConsistent pending [] l
      → Waiting pending l
      → Needed us pending none k l l' ok
      → Grows pending l l'
  Needed-Grows pending k l l' ok c w r = record {
    consistent = r.consistent;
    fits = r.fits;
    waiting = r.waiting;
    edges =
        λ q j h. ground (arith, r.edges q j h, h, w core_name, c.apart, bytes_eq_iff core_name q);
    core_edges = r.core_edges;
  }

  -- What follows the requests in the loading of the module.
  pub Needed-after :
      (pending : List Bytes) (parent : Option Bytes) (k : Bytes) (l l' l'' : Loader C S) (ok : Bool)
      → Grows (k ∷ pending) l l'
      → Needed us pending parent k l' l'' ok
      → Needed us pending parent k l l'' ok
  unfolding has
  Needed-after pending parent k l l' l'' ok a b = record {
    consistent = b.consistent;
    fits = omega (arith, a.fits, b.fits);
    waiting = b.waiting;
    edges = λ q j h. ground (arith, b.edges q j h, a.edges q j, h);
    core_edges = λ j h. b.core_edges j (a.core_edges j h);
    linked = b.linked;
  }

module _ {C S : Type 0} where
  pub request_refused :
      (need : Bytes → Loader C S → Outcome C S) (name : Bytes) (l : Loader C S)
      → bytes_eq name core_name || has name l.core.dependencies ≡ true
      → request_by need name l ≡ some (l, false)
  unfolding request_by
  request_refused need name l h = ground (arith, h)

  pub request_needed :
      (need : Bytes → Loader C S → Outcome C S) (name : Bytes) (l : Loader C S)
      → bytes_eq name core_name || has name l.core.dependencies ≡ false
      → request_by need name l ≡ need name l
  unfolding request_by
  request_needed need name l h = ground (arith, h)

module _ {C S : Type 0} (libraries : Bytes → Option (Library C S)) (us : List Bytes) (n : ℕ)
    (pending : List Bytes) where
  abbrev need : Bytes → Loader C S → Outcome C S
  need r = need_module libraries n none r none

  -- A call that ends, and what it leaves.
  abbrev pub IsGrown : Loader C S → Option (Loader C S × Bool) → Type 0
  IsGrown l o = (l' : Loader C S) × (ok : Bool) × (o ≡ some (l', ok)) × Grows us pending l l'

  request-Grows :
      (name : Bytes) (l : Loader C S)
      → Needs libraries us n
      → IsConsistent pending [] l
      → Waiting pending l
      → outside pending us + size us l < n
      → IsGrown l (request_by need name l)
  request-Grows name l ih c w f =
      elim (Bool-cases (bytes_eq name core_name || has name l.core.dependencies)) [
        | inl h ↦ (l, false, request_refused need name l h, Grows-refl us pending l c w)
        | inr h ↦
            let u : has name (deps_in l core_name) ≡ false =
              ap (has name) (requested_in l) ∙ ground (arith, h) in
            let (l', ok, e, r) = ih pending none name none l c w tt u f in
            (l', ok, request_needed need name l h ∙ e, Needed-Grows us pending name l l' ok c w r)
      ]

  module _ (depend : Bytes → Bytes → Loader C S → Outcome C S) where
    run_next :
        (w : World C S) (name : Bytes) (next : World C S → Bool → Initializer C S)
        (l l' : Loader C S) (ok : Bool)
        → request_by need name (record l { world = w }) ≡ some (l', ok)
        → run_initializer (request_by need) depend (init_requests w name next) l
          ≡ run_initializer (request_by need) depend (next l'.world ok) l'
    unfolding run_initializer
    run_next w name next l l' ok e = ground (arith, e)

    pub run_initializer-Grows :
        (initializer : Initializer C S) (l : Loader C S)
        → OnlyRequests initializer
        → Needs libraries us n
        → IsConsistent pending [] l
        → Waiting pending l
        → outside pending us + size us l < n
        → IsGrown l (run_initializer (request_by need) depend initializer l)
    unfolding run_initializer
    run_initializer-Grows (init_ends w ok) l q ih c v x =
        (record l { world = w }, ok, refl, Grows-world us pending l w c v)
    run_initializer-Grows (init_requests w name next) l q ih c v x =
        let l1 : Loader C S = record l { world = w } in
        let a = Grows-world us pending l w c v in
        let (l2, ok, e, b) = request-Grows name l1 ih a.consistent a.waiting x in
        let (l3, ok3, e3, d) =
          run_initializer-Grows (next l2.world ok) l2 (q l2.world ok) ih b.consistent b.waiting
            (omega (arith, x, b.fits)) in
        (
          l3,
          ok3,
          run_next w name next l l2 ok e ∙ e3,
          Grows-trans us pending l l1 l3 a (Grows-trans us pending l1 l2 l3 b d),
        )
    run_initializer-Grows (init_depends w source target next) l q ih c v x =
        absurd (ground (arith, q))
