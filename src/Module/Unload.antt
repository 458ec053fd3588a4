-- ===== src/Module/Unload.antt =====
-- `unneedModule` keeps the references counted, and ends.
use mathlib.Core.Path.{subst}
use kalisko.Base.{
  ◌-◌, ◌≡◌, sym, ◌∙◌, ap, Bytes, bytes_eq, bytes_eq_iff, true, false, ◌&&◌, ◌||◌, not,
  if◌then◌else◌, Option, none, some, List, [], ◌∷◌, arith,
}
use kalisko.Base.Table.{has, get, get-put, get-drop, drop_name, has-drop_name}
use kalisko.Base.Names.{Once, length-drop_name, drop_name-Once, has-length}
use kalisko.Module.{Module, Loader, core_name, write, Library}
use kalisko.Module.Load.{unload}
use kalisko.Module.Counts.{
  Debts, owes, Single, rdeps_of, IsCounted, deps_in, listed, IsConsistent, IsCounted-at,
  IsCounted-write, listed-write, deps_in-write, on_branches,
}

-- The references that `k` holds on the modules of a list.
abbrev pub debts_of : Bytes → List Bytes → Debts → Debts
debts_of k [] ds = ds
debts_of k (d ∷ deps) ds = (k, d) ∷ debts_of k deps ds

owes-debts_of :
    (k : Bytes) (deps : List Bytes) (ds : Debts) (r j : Bytes)
    → owes (debts_of k deps ds) r j ≡ (bytes_eq k r && has j deps) || owes ds r j
unfolding owes has
owes-debts_of k [] ds r j = ground arith
owes-debts_of k (d ∷ deps) ds r j = ground (arith, owes-debts_of k deps ds r j)

debts_of-Single :
    (k : Bytes) (deps : List Bytes) (ds : Debts)
    → Once deps
    → Single ds
    → ((j : Bytes) → has j deps ≡ true → owes ds k j ≡ false)
    → Single (debts_of k deps ds)
unfolding has
debts_of-Single k [] ds o s h = s
debts_of-Single k (d ∷ deps) ds o s h = (
  owes-debts_of k deps ds k d ∙ ground (arith, o.0, h d, bytes_eq_iff d d),
  debts_of-Single k deps ds o.1 s (λ j e. h j (ground (arith, e))),
)

-- A module without the holder `r` and with one reference less.
abbrev pub left : Bytes → Module → Module
left r m = record m { rdeps = drop_name r m.rdeps; rc = m.rc - 1 }

module _ {C S : Type 0} where
  -- Every module has a name other than that of the core.
  pub named_apart :
      (pending : List Bytes) (debts : Debts) (l : Loader C S) (k : Bytes) (m : Module)
      → IsConsistent pending debts l
      → get k l.modules ≡ some m
      → bytes_eq k core_name ≡ false
  named_apart pending debts l k m c g = ground (arith, bytes_eq_iff k core_name, c.apart)

  pub listed_at :
      (l : Loader C S) (r k : Bytes) (m : Module)
      → get k l.modules ≡ some m
      → listed l r k ≡ has r m.rdeps
  unfolding listed
  listed_at l r k m g = ap (λ o. has r (rdeps_of o)) g

  pub owed_holder :
      (pending : List Bytes) (debts : Debts) (l : Loader C S) (r k : Bytes) (m : Module)
      → IsConsistent pending ((r, k) ∷ debts) l
      → get k l.modules ≡ some m
      → has r m.rdeps ≡ true
  unfolding owes
  owed_holder pending debts l r k m c g =
      ground (arith, listed_at l r k m g, c.mutual_edges r k, bytes_eq_iff r r, bytes_eq_iff k k)

  pub listed-left :
      (l : Loader C S) (r k : Bytes) (m : Module) (q j : Bytes)
      → get k l.modules ≡ some m
      → listed (write k (left r m) l) q j ≡ not (bytes_eq r q && bytes_eq k j) && listed l q j
  listed-left l r k m q j g = ground (
    arith,
    listed-write l k (left r m) q j,
    has-drop_name r q m.rdeps,
    listed_at l q k m g,
    bytes_eq_iff k j,
  )

  pub deps_in_at :
      (l : Loader C S) (k : Bytes) (m : Module)
      → bytes_eq k core_name ≡ false
      → get k l.modules ≡ some m
      → deps_in l k ≡ m.dependencies
  unfolding deps_in
  deps_in_at l k m a g = ground (arith, a, g)

  pub deps_in-left :
      (l : Loader C S) (r k : Bytes) (m : Module) (q : Bytes)
      → bytes_eq k core_name ≡ false
      → get k l.modules ≡ some m
      → deps_in (write k (left r m) l) q ≡ deps_in l q
  deps_in-left l r k m q a g =
      ground (arith, deps_in-write l k (left r m) q a, deps_in_at l k m a g, bytes_eq_iff k q)

  pub left-IsConsistent :
      (pending : List Bytes) (debts : Debts) (l : Loader C S) (r k : Bytes) (m : Module)
      → IsConsistent pending ((r, k) ∷ debts) l
      → get k l.modules ≡ some m
      → IsConsistent pending debts (write k (left r m) l)
  unfolding owes
  left-IsConsistent pending debts l r k m c g =
      let a = named_apart pending ((r, k) ∷ debts) l k m c g in
      let d = IsCounted-at pending ((r, k) ∷ debts) l k m c g in
      let o = owed_holder pending debts l r k m c g in
      record {
        apart = ground (arith, get-put k core_name (left r m) l.modules, c.apart);
        counted = IsCounted-write pending ((r, k) ∷ debts) l k (left r m) c (
          omega (arith, length-drop_name r m.rdeps d.1.0 o, d.0),
          (drop_name-Once r m.rdeps d.1.0, d.1.1),
        );
        mutual_edges = λ q j. ground (
          arith,
          listed-left l r k m q j g,
          deps_in-left l r k m q a g,
          c.mutual_edges q j,
          c.single.0,
          bytes_eq_iff r q,
          bytes_eq_iff k j,
          c.disjoint q j,
        );
        disjoint = λ q j. ground (arith, deps_in-left l r k m q a g, c.disjoint q j);
        single = c.single.1;
        unheld = λ j q p. ground (arith, listed-left l r k m q j g, c.unheld j q p);
      }

  pub listed-unload :
      (libraries : Bytes → Option (Library C S)) (l : Loader C S) (k : Bytes) (m : Module)
      (q j : Bytes)
      → listed (unload libraries k m l) q j ≡ not (bytes_eq k j) && listed l q j
  unfolding unload listed has
  listed-unload libraries l k m q j = ground (arith, get-drop k j l.modules)

  pub deps_in-unload :
      (libraries : Bytes → Option (Library C S)) (l : Loader C S) (k : Bytes) (m : Module)
      (q : Bytes)
      → bytes_eq k core_name ≡ false
      → deps_in (unload libraries k m l) q ≡ (if bytes_eq k q then [] else deps_in l q)
  unfolding unload deps_in
  deps_in-unload libraries l k m q a =
      ground (arith, bytes_eq_iff k q, bytes_eq_iff q core_name, get-drop k q l.modules)

  -- A module that nobody counts has no holder, and is not being loaded.
  pub uncounted :
      (pending : List Bytes) (debts : Debts) (l : Loader C S) (k : Bytes) (m : Module)
      → IsConsistent pending debts l
      → get k l.modules ≡ some m
      → m.rc ≡ 0
      → (r : Bytes) → listed l r k ≡ false
  uncounted pending debts l k m c g z r =
      ground
        (arith, listed_at l r k m g, has-length r m.rdeps, IsCounted-at pending debts l k m c g)

  pub unload-IsConsistent :
      (libraries : Bytes → Option (Library C S)) (pending : List Bytes) (debts : Debts)
      (l : Loader C S) (k : Bytes) (m m' : Module)
      → IsConsistent pending debts l
      → get k l.modules ≡ some m
      → m.rc ≡ 0
      → IsConsistent pending (debts_of k m.dependencies debts) (unload libraries k m' l)
  unfolding unload has
  unload-IsConsistent libraries pending debts l k m m' c g z =
      let a = named_apart pending debts l k m c g in
      let d = IsCounted-at pending debts l k m c g in
      let e = deps_in_at l k m a g in
      let u = uncounted pending debts l k m c g z in
      record {
        apart = ground (arith, get-drop k core_name l.modules, c.apart);
        counted = λ j. subst (IsCounted pending j) (sym (get-drop k j l.modules)) (
            on_branches (IsCounted pending j) (bytes_eq k j) none (get j l.modules) (λ h. tt)
              (λ h. c.counted j));
        mutual_edges = λ q j. ground (
          arith,
          listed-unload libraries l k m' q j,
          deps_in-unload libraries l k m' q a,
          owes-debts_of k m.dependencies debts q j,
          c.mutual_edges q j,
          u q,
          bytes_eq_iff k j,
          bytes_eq_iff k q,
          e,
        );
        disjoint = λ q j. ground (
          arith,
          deps_in-unload libraries l k m' q a,
          owes-debts_of k m.dependencies debts q j,
          c.disjoint q j,
          bytes_eq_iff k q,
        );
        single =
            debts_of-Single k m.dependencies debts d.1.1 c.single
              (λ j h. ground (arith, c.disjoint k j, e));
        unheld = λ j q h. ground (arith, listed-unload libraries l k m' q j, c.unheld j q h);
      }
