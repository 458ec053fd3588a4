-- ===== src/Module/Need.antt =====
-- What `needModule` leaves behind: the counts, the modules that are being loaded, and who depends on
-- whom.
use kalisko.Module.Unneed.{Keeps, size}
use kalisko.Module.Unload.{named_apart}
use kalisko.Module.Parent.{
  IsParent, IsParent-put, get-add_to_parent, parent_found, parent_written, depending,
}
use kalisko.Module.Link.{link-IsConsistent, deps_in-link, held}
use kalisko.Module.Counts.{IsConsistent, deps_in, IsCounted-at, listed}
use kalisko.Base.{
  ◌≡◌, refl, sym, ◌∙◌, Bytes, bytes_eq, bytes_eq_iff, bytes_eq_refl, ◌+◌, ◌≤◌, Bool, true, false,
  ◌&&◌, ◌||◌, not, if◌then◌else◌, Option, none, some, List, [], ◌∷◌, arith, inl, inr, ap,
}
use mathlib.Core.Path.{subst}
use kalisko.Base.Count.{absent-put_found}
use kalisko.Base.Names.{Once, length-put_found}
use kalisko.Base.Table.{has, get, get-put}
use kalisko.Module.{Module, Loader, World, core_name, write, link, add_to_parent, parent_name}

-- A module that is there and not loaded yet.
abbrev pub waits : Option Module → Bool
waits none = false
waits (some m) = not m.loaded

-- The parent is the core or is being loaded.
abbrev pub Loads : List Bytes → Option Bytes → Type 0
Loads pending none = Unit
Loads pending (some p) = has p pending ≡ true

abbrev pub loading_or_core : List Bytes → Bytes → Bool
loading_or_core pending q = bytes_eq q core_name || has q pending

module _ {C S : Type 0} where
  abbrev pub Waiting : List Bytes → Loader C S → Type 0
  Waiting pending l = (j : Bytes) → has j pending ≡ true → waits (get j l.modules) ≡ true

  pub Loads-IsParent :
      (pending : List Bytes) (parent : Option Bytes) (l : Loader C S)
      → Waiting pending l
      → Loads pending parent
      → IsParent parent l
  Loads-IsParent pending none l w h = tt
  Loads-IsParent pending (some p) l w h = ground (arith, w p, h)

  -- `us` are names that have libraries, and `ok` is whether `k` was loaded for the parent.
  pub record Needed (us pending : List Bytes) (parent : Option Bytes) (k : Bytes)
      (l l' : Loader C S) (ok : Bool) : Type 0 where
    pub consistent : IsConsistent pending [] l'
    pub fits : size us l' ≤ size us l
    pub waiting : Waiting pending l'
    pub edges :
        (q j : Bytes)
        → has q pending ≡ true
        → has j (deps_in l' q)
          ≡ (ok && (bytes_eq (parent_name parent) q && bytes_eq k j)) || has j (deps_in l q)
    pub core_edges :
        (j : Bytes) → has j (deps_in l core_name) ≡ true → has j (deps_in l' core_name) ≡ true
    pub linked : ok ≡ true → has k (deps_in l' (parent_name parent)) ≡ true

  -- A `needModule` that changes nothing.
  pub refused :
      (us pending : List Bytes) (parent : Option Bytes) (k : Bytes) (l : Loader C S)
      → IsConsistent pending [] l
      → Waiting pending l
      → Needed us pending parent k l l false
  refused us pending parent k l c w = record {
    consistent = c;
    fits = omega arith;
    waiting = w;
    edges = λ q j h. refl;
    core_edges = λ j h. h;
    linked = λ h. absurd (ground (arith, h));
  }

  -- An initialization changes the world around the loader only.
  pub world-IsConsistent :
      (pending : List Bytes) (l : Loader C S) (w : World C S)
      → IsConsistent pending [] l
      → IsConsistent pending [] (record l { world = w })
  unfolding listed deps_in
  world-IsConsistent pending l w c = record {
    apart = c.apart;
    counted = c.counted;
    mutual_edges = c.mutual_edges;
    disjoint = c.disjoint;
    single = c.single;
    unheld = c.unheld;
  }

  size-write :
      (us : List Bytes) (l : Loader C S) (k : Bytes) (m v : Module)
      → get k l.modules ≡ some v
      → size us (write k m l) ≤ size us l
  size-write us l k m v g =
      omega (arith, length-put_found k l.modules v m g, absent-put_found k l.modules v m us g)

  size-add_to_parent :
      (us : List Bytes) (parent : Option Bytes) (k : Bytes) (l : Loader C S)
      → IsParent parent l
      → size us (add_to_parent parent k l) ≤ size us l
  size-add_to_parent us none k l h = omega arith
  size-add_to_parent us (some p) k l h =
      let (v, g) = parent_found p l h in
      subst (λ x. size us x ≤ size us l) (sym (parent_written p k l v g))
        (size-write us l p (depending k v) v g)

  waits-add_to_parent :
      (parent : Option Bytes) (k : Bytes) (l : Loader C S) (j : Bytes)
      → IsParent parent l
      → waits (get j (add_to_parent parent k l).modules) ≡ waits (get j l.modules)
  waits-add_to_parent parent k l j h = elim (get-add_to_parent parent k l j h) [
    | inl e ↦ ap waits e
    | inr (v, e, f) ↦ ap waits f ∙ sym (ap waits e)
  ]

  waits-link :
      (parent : Option Bytes) (k : Bytes) (l : Loader C S) (m1 : Module) (j : Bytes)
      → IsParent parent l
      → waits (get j (link parent k m1 l).modules)
        ≡ (if bytes_eq k j then not m1.loaded else waits (get j l.modules))
  unfolding link
  waits-link parent k l m1 j h =
      waits-add_to_parent parent k (write k (held parent m1) l) j
        (IsParent-put parent k l (held parent m1) h)
      ∙ ground (arith, get-put k j (held parent m1) l.modules)

  size-link :
      (us : List Bytes) (parent : Option Bytes) (k : Bytes) (l : Loader C S) (m m1 : Module)
      → get k l.modules ≡ some m
      → IsParent parent l
      → size us (link parent k m1 l) ≤ size us l
  unfolding link
  size-link us parent k l m m1 g h = omega (
    arith,
    size-add_to_parent us parent k (write k (held parent m1) l)
        (IsParent-put parent k l (held parent m1) h),
    size-write us l k (held parent m1) m g,
  )

  -- A module that is loaded already gets one more holder.
  pub loaded-Needed :
      (us pending : List Bytes) (parent : Option Bytes) (k : Bytes) (l : Loader C S) (m : Module)
      → IsConsistent pending [] l
      → Waiting pending l
      → Loads pending parent
      → has k (deps_in l (parent_name parent)) ≡ false
      → get k l.modules ≡ some m
      → m.loaded ≡ true
      → Needed us pending parent k l (link parent k (record m { rc = m.rc + 1 }) l) true
  loaded-Needed us pending parent k l m c w p n g t =
      let m1 : Module = record m { rc = m.rc + 1 } in
      let h = Loads-IsParent pending parent l w p in
      let a = named_apart pending [] l k m c g in
      let x : has k pending ≡ false = ground (arith, w k, g, t) in
      let o = IsCounted-at pending [] l k m c g in
      record {
        consistent =
            link-IsConsistent parent k l m m1 pending pending c g
              (ground (arith, o.0, x), refl, refl) h n x (λ j b. refl);
        fits = size-link us parent k l m m1 g h;
        waiting =
            λ j e. ground (arith, waits-link parent k l m1 j h, w j e, x, bytes_eq_iff k j, e);
        edges = λ q j e. deps_in-link parent k l m m1 q j a c.apart g refl h;
        core_edges =
            λ j e. deps_in-link parent k l m m1 core_name j a c.apart g refl h ∙ ground (arith, e);
        linked = λ t.
            deps_in-link parent k l m m1 (parent_name parent) k a c.apart g refl h
            ∙ ground (arith, bytes_eq_refl k, bytes_eq_refl (parent_name parent));
      }

  -- A module whose loading ends well.
  pub finished-Needed :
      (us pending : List Bytes) (parent : Option Bytes) (k : Bytes) (l : Loader C S) (m : Module)
      → IsConsistent (k ∷ pending) [] l
      → Waiting (k ∷ pending) l
      → Loads pending parent
      → has k (deps_in l (parent_name parent)) ≡ false
      → get k l.modules ≡ some m
      → has k pending ≡ false
      → Needed us pending parent k l (link parent k (record m { loaded = true }) l) true
  unfolding has
  finished-Needed us pending parent k l m c w p n g x =
      let m1 : Module = record m { loaded = true } in
      let v : Waiting pending l = λ j e. w j (ground (arith, e)) in
      let h = Loads-IsParent pending parent l v p in
      let a = named_apart (k ∷ pending) [] l k m c g in
      let o = IsCounted-at (k ∷ pending) [] l k m c g in
      record {
        consistent =
            link-IsConsistent parent k l m m1 (k ∷ pending) pending c g
              (ground (arith, o.0, bytes_eq_refl k), refl, refl) h n x (λ j b. ground (arith, b));
        fits = size-link us parent k l m m1 g h;
        waiting =
            λ j e. ground (arith, waits-link parent k l m1 j h, v j e, x, bytes_eq_iff k j, e);
        edges = λ q j e. deps_in-link parent k l m m1 q j a c.apart g refl h;
        core_edges =
            λ j e. deps_in-link parent k l m m1 core_name j a c.apart g refl h ∙ ground (arith, e);
        linked = λ t.
            deps_in-link parent k l m m1 (parent_name parent) k a c.apart g refl h
            ∙ ground (arith, bytes_eq_refl k, bytes_eq_refl (parent_name parent));
      }

  deps_in_same :
      (pending : List Bytes) (l l' : Loader C S) (q : Bytes)
      → Keeps pending [] l l'
      → loading_or_core pending q ≡ true
      → deps_in l' q ≡ deps_in l q
  unfolding deps_in
  deps_in_same pending l l' q k e = ground (arith, e, k.same q, k.same_core)

  -- A module whose loading fails.
  pub abandoned-Needed :
      (us pending : List Bytes) (parent : Option Bytes) (k : Bytes) (l l' : Loader C S)
      → Once us
      → Waiting pending l
      → Keeps pending [] l l'
      → Needed us pending parent k l l' false
  abandoned-Needed us pending parent k l l' o w s = record {
    consistent = s.consistent;
    fits = s.fits us o;
    waiting = λ j e. ap waits (s.same j e) ∙ w j e;
    edges = λ q j e. ap (has j) (deps_in_same pending l l' q s (ground (arith, e)));
    core_edges = λ j e.
        ap (has j) (deps_in_same pending l l' core_name s (ground (arith, bytes_eq_refl core_name)))
        ∙ e;
    linked = λ h. absurd (ground (arith, h));
  }
