-- ===== src/Module/Pending.antt =====
-- A module while it is being loaded: entered with a reference that nobody holds, linked with its
-- parent at the end, or given up.
use kalisko.Module.Parent.{IsCounted-but}
use kalisko.Module.Unneed.{unneed_module-Keeps, unneed_held, Unneeded}
use kalisko.Module.Unload.{left, named_apart, listed_at, listed-left, deps_in-left}
use kalisko.Module.Counts.{
  owes, IsConsistent, deps_in, listed, IsCounted-at, listed-write, deps_in-write,
}
use kalisko.Base.{
  ◌≡◌, refl, sym, ◌∙◌, Bytes, bytes_eq, bytes_eq_iff, bytes_eq_refl, ℕ, zero, suc, ◌<◌, false,
  Option, none, some, List, [], ◌∷◌, length, arith,
}
use mathlib.Core.Path.{subst}
use kalisko.Base.Names.{Once}
use kalisko.Base.Table.{has, get, get-put, drop_name}
use kalisko.Module.{Module, Loader, Library, core_name, write, parent_name}
use kalisko.Module.Load.{unneed_module}

empty_names : (t : List Bytes) → ((r : Bytes) → has r t ≡ false) → t ≡ []
unfolding has
empty_names [] h = refl
empty_names (r ∷ t) h = absurd (ground (arith, h r, bytes_eq_refl r))

module _ {C S : Type 0} where
  listed-none : (l : Loader C S) (r k : Bytes) → get k l.modules ≡ none → listed l r k ≡ false
  unfolding listed has
  listed-none l r k g = ground (arith, g)

  deps_in-none :
      (l : Loader C S) (k : Bytes)
      → bytes_eq k core_name ≡ false
      → get k l.modules ≡ none
      → deps_in l k ≡ []
  unfolding deps_in
  deps_in-none l k a g = ground (arith, a, g)

  -- `needModule` enters a module that is not there yet.
  pub entered-IsConsistent :
      (pending : List Bytes) (l : Loader C S) (k : Bytes) (m : Module)
      → IsConsistent pending [] l
      → get k l.modules ≡ none
      → bytes_eq k core_name ≡ false
      → has k pending ≡ false
      → (m.rc ≡ 1) × (m.rdeps ≡ []) × (m.dependencies ≡ [])
      → IsConsistent (k ∷ pending) [] (write k m l)
  unfolding has owes
  entered-IsConsistent pending l k m c g a p (n, r, d) = record {
    apart = ground (arith, get-put k core_name m l.modules, c.apart);
    counted =
        IsCounted-but pending (k ∷ pending) l k m c.counted
          (ground (arith, n, r, bytes_eq_refl k), (subst Once (sym r) tt, subst Once (sym d) tt))
          (λ j b. ground (arith, b));
    mutual_edges = λ q j. ground (
      arith,
      listed-write l k m q j,
      deps_in-write l k m q a,
      c.mutual_edges q j,
      listed-none l q k g,
      deps_in-none l k a g,
      bytes_eq_iff k j,
      bytes_eq_iff k q,
      r,
      d,
    );
    disjoint = λ q j. ground arith;
    single = tt;
    unheld = λ j q h. ground (arith, h, listed-write l k m q j, c.unheld j q, r);
  }

  -- A module that is being loaded has no holder yet.
  no_holders :
      (pending : List Bytes) (l : Loader C S) (k : Bytes) (m : Module)
      → IsConsistent (k ∷ pending) [] l
      → get k l.modules ≡ some m
      → m.rdeps ≡ []
  unfolding has
  no_holders pending l k m c g =
      empty_names m.rdeps
        (λ r. sym (listed_at l r k m g) ∙ c.unheld k r (ground (arith, bytes_eq_refl k)))

  -- The counts of a module whose loading ends without success.
  abandoned-IsConsistent :
      (pending : List Bytes) (l : Loader C S) (k r : Bytes) (m : Module)
      → IsConsistent (k ∷ pending) [] l
      → get k l.modules ≡ some m
      → has k pending ≡ false
      → IsConsistent pending [] (write k (left r m) l)
  unfolding has drop_name
  abandoned-IsConsistent pending l k r m c g p =
      let a = named_apart (k ∷ pending) [] l k m c g in
      let e = no_holders pending l k m c g in
      let o = IsCounted-at (k ∷ pending) [] l k m c g in
      record {
        apart = ground (arith, get-put k core_name (left r m) l.modules, c.apart);
        counted =
            IsCounted-but (k ∷ pending) pending l k (left r m) c.counted
              (
                ground (arith, e, o.0, p, bytes_eq_refl k),
                (subst (λ x. Once (drop_name r x)) (sym e) tt, o.1.1),
              )
              (λ j b. ground (arith, b));
        mutual_edges = λ q j. ground (
          arith,
          listed-left l r k m q j g,
          deps_in-left l r k m q a g,
          c.mutual_edges q j,
          bytes_eq_iff k j,
          bytes_eq_refl k,
          c.unheld k q,
        );
        disjoint = λ q j. ground (arith, c.disjoint q j, deps_in-left l r k m q a g);
        single = tt;
        unheld = λ j q h. ground (arith, h, listed-left l r k m q j g, c.unheld j q);
      }

  -- `unneedModule` at the end of a `needModule` that fails.
  pub abandon-Keeps :
      (libraries : Bytes → Option (Library C S)) (n : ℕ) (pending : List Bytes) (l : Loader C S)
      (parent : Option Bytes) (k : Bytes) (m : Module)
      → IsConsistent (k ∷ pending) [] l
      → get k l.modules ≡ some m
      → has k pending ≡ false
      → length l.modules < n
      → Unneeded libraries pending [] l (unneed_module libraries n parent k l)
  abandon-Keeps libraries zero pending l parent k m c g p f = absurd (omega (arith, f))
  abandon-Keeps libraries (suc n) pending l parent k m c g p f =
      unneed_held libraries n pending [] l parent k m (unneed_module-Keeps libraries n)
        (abandoned-IsConsistent pending l k (parent_name parent) m c g p) g
        (λ j h. ground (arith, bytes_eq_iff k j, h, p)) f
