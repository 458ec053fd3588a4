-- ===== src/Module/Link.antt =====
-- The end of `needModule`, which links a module with its parent, and the counts.
use kalisko.Module.Parent.{
  IsCounted-but, IsParent, listed-add_to_parent, deps_in-add_to_parent, IsCounted-add_to_parent,
  IsParent-put, get-add_to_parent,
}
use kalisko.Module.Unload.{named_apart, listed_at, deps_in_at}
use kalisko.Module.Counts.{
  owes, IsConsistent, deps_in, listed, loading, IsCounted-at, listed-write, deps_in-write,
}
use kalisko.Base.{
  ◌≡◌, sym, ◌∙◌, Bytes, bytes_eq, bytes_eq_iff, ◌+◌, false, ◌&&◌, ◌||◌, Option, none, some, List,
  [], length, arith, inl, inr,
}
use mathlib.Core.Path.{subst}
use kalisko.Base.Names.{Once, length-add_name, add_name-Once}
use kalisko.Base.Table.{has, get, add_name, get-put, has-add_name}
use kalisko.Module.{Module, Loader, core_name, write, link, parent_name}

-- The module as it is written before the parent.
abbrev pub held : Option Bytes → Module → Module
held parent m = record m { rdeps = add_name (parent_name parent) m.rdeps }

module _ {C S : Type 0} (parent : Option Bytes) (k : Bytes) (l : Loader C S) (m m1 : Module) where
  IsParent-stays : IsParent parent l → IsParent parent (write k (held parent m1) l)
  IsParent-stays h = IsParent-put parent k l (held parent m1) h

  listed-link :
      (q j : Bytes)
      → get k l.modules ≡ some m
      → m1.rdeps ≡ m.rdeps
      → IsParent parent l
      → listed (link parent k m1 l) q j
        ≡ (bytes_eq (parent_name parent) q && bytes_eq k j) || listed l q j
  unfolding link
  listed-link q j g r h =
      listed-add_to_parent parent k (write k (held parent m1) l) q j (IsParent-stays h)
      ∙ ground (
        arith,
        listed-write l k (held parent m1) q j,
        has-add_name (parent_name parent) q m1.rdeps,
        listed_at l q k m g,
        bytes_eq_iff k j,
        r,
      )

  pub deps_in-link :
      (q j : Bytes)
      → bytes_eq k core_name ≡ false
      → get core_name l.modules ≡ none
      → get k l.modules ≡ some m
      → m1.dependencies ≡ m.dependencies
      → IsParent parent l
      → has j (deps_in (link parent k m1 l) q)
        ≡ (bytes_eq (parent_name parent) q && bytes_eq k j) || has j (deps_in l q)
  unfolding link
  deps_in-link q j a b g d h =
      deps_in-add_to_parent parent k (write k (held parent m1) l) q j
        (ground (arith, get-put k core_name (held parent m1) l.modules)) (IsParent-stays h)
      ∙ ground
          (arith, deps_in-write l k (held parent m1) q a, deps_in_at l k m a g, bytes_eq_iff k q, d)

  counted_more :
      (ps qs : List Bytes)
      → IsConsistent ps [] l
      → get k l.modules ≡ some m
      → m1.rdeps ≡ m.rdeps
      → has k (deps_in l (parent_name parent)) ≡ false
      → m1.rc ≡ length m.rdeps + 1
      → has k qs ≡ false
      → m1.rc ≡ length (add_name (parent_name parent) m1.rdeps) + loading k qs
  unfolding owes
  counted_more ps qs c g r u n v = ground (
    arith,
    v,
    n,
    r,
    u,
    c.mutual_edges (parent_name parent) k,
    listed_at l (parent_name parent) k m g,
    length-add_name (parent_name parent) m1.rdeps,
  )

  -- The counts after a module has a holder more: one that was loaded, or one that is no longer
  -- being loaded.
  pub link-IsConsistent :
      (ps qs : List Bytes)
      → IsConsistent ps [] l
      → get k l.modules ≡ some m
      → (m1.rc ≡ length m.rdeps + 1) × (m1.rdeps ≡ m.rdeps) × (m1.dependencies ≡ m.dependencies)
      → IsParent parent l
      → has k (deps_in l (parent_name parent)) ≡ false
      → has k qs ≡ false
      → ((j : Bytes) → bytes_eq k j ≡ false → has j ps ≡ has j qs)
      → IsConsistent qs [] (link parent k m1 l)
  unfolding link owes
  link-IsConsistent ps qs c g (n, r, d) h u v e =
      let a = named_apart ps [] l k m c g in
      let o = IsCounted-at ps [] l k m c g in
      record {
        apart =
            elim (get-add_to_parent parent k (write k (held parent m1) l) core_name
              (IsParent-stays h)) [
                | inl x ↦
                    x ∙ ground (arith, get-put k core_name (held parent m1) l.modules, c.apart)
                | inr (x, y, z) ↦
                    absurd
                      (ground (arith, y, get-put k core_name (held parent m1) l.modules, c.apart))
              ];
        counted =
            IsCounted-add_to_parent qs parent k (write k (held parent m1) l)
              (IsCounted-but ps qs l k (held parent m1) c.counted
                (
                  counted_more ps qs c g r u n v,
                  (
                    add_name-Once (parent_name parent) m1.rdeps (subst Once (sym r) o.1.0),
                    subst Once (sym d) o.1.1,
                  ),
                )
                e)
              (IsParent-stays h);
        mutual_edges = λ q j.
            ground
              (arith, listed-link q j g r h, deps_in-link q j a c.apart g d h, c.mutual_edges q j);
        disjoint = λ q j. ground arith;
        single = tt;
        unheld = λ j q w.
            ground (arith, listed-link q j g r h, c.unheld j q, e j, w, v, bytes_eq_iff k j);
      }
