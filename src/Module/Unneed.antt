-- ===== src/Module/Unneed.antt =====
-- `unneedModule` ends on a loader with consistent counts, and leaves them consistent.
use mathlib.Core.Path.{subst}
use kalisko.Module.Unload.{
  debts_of, left, listed_at, owed_holder, left-IsConsistent, unload-IsConsistent,
}
use kalisko.Module.Counts.{Debts, owes, IsConsistent, listed}
use kalisko.Base.{
  ◌≡◌, refl, ◌∙◌, Bytes, bytes_eq, bytes_eq_iff, bytes_eq_refl, ℕ, zero, suc, ◌+◌, ◌<◌, ◌≤◌, ◌-◌,
  true, false, if◌then◌else◌, Option, some, List, [], ◌∷◌, length, arith, Option-cases, inl, inr,
  ltb, Bool-cases,
}
use kalisko.Base.Table.{has, get, get-put, get-drop, drop-put}
use kalisko.Base.Count.{absent, absent-put_found, absent-drop}
use kalisko.Base.Names.{Once, length-put_found, length-drop_found}
use kalisko.Module.{Module, Loader, write, Library, parent_name}
use kalisko.Module.Load.{unneed_module, unneed_each, unload}

-- The entries of the table, and the names of a list that are in none.
abbrev pub size : {C S : Type 0} → List Bytes → Loader C S → ℕ
size us l = length l.modules + absent us l.modules

-- What a step leaves: the references counted, no module more, the core and the modules that are
-- being loaded as they were.
pub record Keeps {C S : Type 0} (pending : List Bytes) (debts : Debts) (l l' : Loader C S)
    : Type 0 where
  pub consistent : IsConsistent pending debts l'
  pub no_more : length l'.modules ≤ length l.modules
  pub fits : (us : List Bytes) → Once us → size us l' ≤ size us l
  pub same_core : l'.core ≡ l.core
  pub same : (j : Bytes) → has j pending ≡ true → get j l'.modules ≡ get j l.modules

abbrev pub Apart : Bytes → List Bytes → Type 0
Apart k pending = (j : Bytes) → has j pending ≡ true → bytes_eq k j ≡ false

module _ {C S : Type 0} where
  Keeps-trans :
      (pending : List Bytes) (d e : Debts) (l1 l2 l3 : Loader C S)
      → Keeps pending d l1 l2
      → Keeps pending e l2 l3
      → Keeps pending e l1 l3
  Keeps-trans pending d e l1 l2 l3 a b = record {
    consistent = b.consistent;
    no_more = omega (arith, a.no_more, b.no_more);
    fits = λ us o. omega (arith, a.fits us o, b.fits us o);
    same_core = b.same_core ∙ a.same_core;
    same = λ j h. b.same j h ∙ a.same j h;
  }

  owed_module :
      (pending : List Bytes) (debts : Debts) (l : Loader C S) (r k : Bytes)
      → IsConsistent pending ((r, k) ∷ debts) l
      → (m : Module) × (get k l.modules ≡ some m)
  unfolding owes listed has
  owed_module pending debts l r k c = elim (Option-cases (get k l.modules)) [
    | inl e ↦ absurd (ground (arith, e, c.mutual_edges r k, bytes_eq_iff r r, bytes_eq_iff k k))
    | inr f ↦ f
  ]

  owed_unheld :
      (pending : List Bytes) (debts : Debts) (l : Loader C S) (r k : Bytes) (m : Module)
      → IsConsistent pending ((r, k) ∷ debts) l
      → get k l.modules ≡ some m
      → Apart k pending
  owed_unheld pending debts l r k m c g j h = ground (
    arith,
    bytes_eq_iff k j,
    listed_at l r k m g,
    owed_holder pending debts l r k m c g,
    c.unheld j r h,
  )

  left-Keeps :
      (pending : List Bytes) (debts : Debts) (l : Loader C S) (r k : Bytes) (m : Module)
      → IsConsistent pending debts (write k (left r m) l)
      → get k l.modules ≡ some m
      → Apart k pending
      → Keeps pending debts l (write k (left r m) l)
  left-Keeps pending debts l r k m c g u = record {
    consistent = c;
    no_more = omega (arith, length-put_found k l.modules m (left r m) g);
    fits = λ us o. omega (
      arith,
      length-put_found k l.modules m (left r m) g,
      absent-put_found k l.modules m (left r m) us g,
    );
    same_core = refl;
    same = λ j h. ground (arith, get-put k j (left r m) l.modules, u j h);
  }

module _ {C S : Type 0} (libraries : Bytes → Option (Library C S)) where
  unload-write :
      (l : Loader C S) (k : Bytes) (m m' : Module)
      → unload libraries k m (write k m' l) ≡ unload libraries k m l
  unfolding unload
  unload-write l k m m' = rw (drop-put k m' l.modules) refl

  -- Taking out the last holder of a module and the module.
  unload-Keeps :
      (pending : List Bytes) (debts : Debts) (l : Loader C S) (r k : Bytes) (m : Module)
      → IsConsistent pending debts (write k (left r m) l)
      → get k l.modules ≡ some m
      → Apart k pending
      → m.rc - 1 ≡ 0
      → Keeps pending (debts_of k m.dependencies debts) l (unload libraries k (left r m) l)
  unfolding unload
  unload-Keeps pending debts l r k m c g u z = record {
    consistent =
        subst (IsConsistent pending (debts_of k m.dependencies debts))
          (unload-write l k (left r m) (left r m))
          (unload-IsConsistent libraries pending debts (write k (left r m) l) k (left r m)
            (left r m) c (ground (arith, get-put k k (left r m) l.modules, bytes_eq_refl k)) z);
    no_more = omega (arith, length-drop_found k l.modules m g);
    fits = λ us o. omega (arith, length-drop_found k l.modules m g, absent-drop k l.modules us o);
    same_core = refl;
    same = λ j h. ground (arith, get-drop k j l.modules, u j h);
  }

  unload_fewer :
      (l : Loader C S) (k : Bytes) (m m' : Module)
      → get k l.modules ≡ some m
      → length (unload libraries k m' l).modules < length l.modules
  unfolding unload
  unload_fewer l k m m' g = length-drop_found k l.modules m g

  -- An unloading that ends and leaves the references counted.
  abbrev pub Unneeded : List Bytes → Debts → Loader C S → Option (Loader C S) → Type 0
  Unneeded pending debts l o = (l' : Loader C S) × (o ≡ some l') × Keeps pending debts l l'

  abbrev pub Unneeds : ℕ → Type 0
  Unneeds n =
      (pending : List Bytes) (debts : Debts) (l : Loader C S) (parent : Option Bytes) (k : Bytes)
      → IsConsistent pending ((parent_name parent, k) ∷ debts) l
      → length l.modules < n
      → Unneeded pending debts l (unneed_module libraries n parent k l)

  unneed_each-Keeps :
      (n : ℕ) (pending : List Bytes) (debts : Debts) (k : Bytes) (deps : List Bytes)
      (l : Loader C S)
      → Unneeds n
      → IsConsistent pending (debts_of k deps debts) l
      → length l.modules < n
      → Unneeded pending debts l (unneed_each (unneed_module libraries n (some k)) deps l)
  unfolding unneed_each
  unneed_each-Keeps n pending debts k [] l ih c f = (
    l,
    refl,
    record {
      consistent = c;
      no_more = omega arith;
      fits = λ us o. omega arith;
      same_core = refl;
      same = λ j h. refl;
    },
  )
  unneed_each-Keeps n pending debts k (d ∷ deps) l ih c f =
      let (l1, e1, k1) = ih pending (debts_of k deps debts) l (some k) d c f in
      let (l2, e2, k2) =
        unneed_each-Keeps n pending debts k deps l1 ih k1.consistent
          (omega (arith, f, k1.no_more)) in
      (l2, ground (arith, e1, e2), Keeps-trans pending (debts_of k deps debts) debts l l1 l2 k1 k2)

  unneed_step :
      (n : ℕ) (parent : Option Bytes) (k : Bytes) (l : Loader C S) (m : Module)
      → get k l.modules ≡ some m
      → unneed_module libraries (suc n) parent k l ≡ (
          if ltb 0 (m.rc - 1)
          then some (write k (left (parent_name parent) m) l)
          else unneed_each
              (unneed_module libraries n (some k))
              m.dependencies
              (unload libraries k (left (parent_name parent) m) l))
  unfolding unneed_module
  unneed_step n parent k l m g = ground (arith, g)

  -- `unneedModule` of a module that its holder has given up, in the state that counts it so.
  pub unneed_held :
      (n : ℕ) (pending : List Bytes) (debts : Debts) (l : Loader C S) (parent : Option Bytes)
      (k : Bytes) (m : Module)
      → Unneeds n
      → IsConsistent pending debts (write k (left (parent_name parent) m) l)
      → get k l.modules ≡ some m
      → Apart k pending
      → length l.modules < suc n
      → Unneeded pending debts l (unneed_module libraries (suc n) parent k l)
  unneed_held n pending debts l parent k m ih c g u f =
      let r = parent_name parent in
      let e = unneed_step n parent k l m g in
      elim (Bool-cases (ltb 0 (m.rc - 1))) [
        | inl h ↦
            (write k (left r m) l, ground (arith, e, h), left-Keeps pending debts l r k m c g u)
        | inr h ↦
            let k1 = unload-Keeps pending debts l r k m c g u (ground (arith, h)) in
            let (l2, e2, k2) =
              unneed_each-Keeps n pending debts k m.dependencies (unload libraries k (left r m) l)
                ih k1.consistent (omega (arith, f, unload_fewer l k m (left r m) g)) in
            (
              l2,
              e ∙ ground (arith, h, e2),
              Keeps-trans pending (debts_of k m.dependencies debts) debts l
                  (unload libraries k (left r m) l) l2 k1 k2,
            )
      ]

  pub unneed_module-Keeps : (n : ℕ) → Unneeds n
  unneed_module-Keeps zero pending debts l parent k c f = absurd (omega (arith, f))
  unneed_module-Keeps (suc n) pending debts l parent k c f =
      let r = parent_name parent in
      let (m, g) = owed_module pending debts l r k c in
      unneed_held n pending debts l parent k m (unneed_module-Keeps n)
        (left-IsConsistent pending debts l r k m c g) g (owed_unheld pending debts l r k m c g) f
