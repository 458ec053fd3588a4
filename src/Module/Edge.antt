-- ===== src/Module/Edge.antt =====
-- The changes of `addModuleRuntimeDependency`, and the counts.
use kalisko.Module.Unload.{named_apart, listed_at, deps_in_at}
use kalisko.Module.Parent.{
  IsCounted-but, IsParent, listed-add_to_parent, deps_in-add_to_parent, IsCounted-add_to_parent,
  get-add_to_parent, depending,
}
use kalisko.Module.Counts.{
  IsConsistent, IsCounted, deps_in, listed, owes, listed-write, deps_in-write,
}
use kalisko.Base.{
  ◌≡◌, refl, sym, ◌∙◌, Bytes, bytes_eq, bytes_eq_iff, ℕ, zero, suc, ◌+◌, Bool, false, ◌||◌,
  if◌then◌else◌, Option, none, some, List, [], ◌∷◌, arith, inl, inr, ap,
}
use mathlib.Core.Path.{subst}
use kalisko.Base.Names.{length-add_name, add_name-Once}
use kalisko.Base.Table.{has, get, add_name, has-add_name, get-put}
use kalisko.Module.{Module, Loader, core_name, write, add_to_parent}
use kalisko.Module.Load.{add_edge, check_dependency, any_depends, dependencies_of}

any_depends-has :
    (depends : Bytes → Option Bool) (target : Bytes) (ds : List Bytes)
    → any_depends depends target ds ≡ some false
    → has target ds ≡ false
unfolding any_depends has
any_depends-has depends target [] h = refl
any_depends-has depends target (d ∷ ds) h = ground (arith, h, any_depends-has depends target ds)

-- A module with a holder and a reference more.
abbrev more : Bytes → Module → Module
more r m = record m { rdeps = add_name r m.rdeps; rc = m.rc + 1 }

module _ {C S : Type 0} where
  pub not_direct :
      (n : ℕ) (l : Loader C S) (source target : Bytes)
      → check_dependency n l source target ≡ some false
      → has target (dependencies_of (get source l.modules)) ≡ false
  unfolding check_dependency
  not_direct zero l source target h = absurd (ground (arith, h))
  not_direct (suc n) l source target h =
      any_depends-has (λ d. check_dependency n l d target) target
        (dependencies_of (get source l.modules)) h

  abbrev with_dependency : Bytes → Bytes → Loader C S → Loader C S
  with_dependency source target l = add_to_parent (some source) target l

  target_kept :
      (source target : Bytes) (l : Loader C S) (t : Module)
      → IsParent (some source) l
      → get target l.modules ≡ some t
      → (u : Module) × (get target (with_dependency source target l).modules ≡ some u)
        × (u.rdeps ≡ t.rdeps)
        × (u.rc ≡ t.rc)
  target_kept source target l t h g = elim (get-add_to_parent (some source) target l target h) [
    | inl e ↦ (t, e ∙ g, refl, refl)
    | inr (v, e, f) ↦ (depending target v, f, ground (arith, e, g), ground (arith, e, g))
  ]

  edge_written :
      (source target : Bytes) (l : Loader C S) (u : Module)
      → get target (with_dependency source target l).modules ≡ some u
      → add_edge source target l ≡ write target (more source u) (with_dependency source target l)
  unfolding add_edge
  edge_written source target l u g = ground (arith, g)

  apart_kept :
      (source target : Bytes) (l : Loader C S)
      → IsParent (some source) l
      → get core_name l.modules ≡ none
      → get core_name (with_dependency source target l).modules ≡ none
  apart_kept source target l h a = elim (get-add_to_parent (some source) target l core_name h) [
    | inl e ↦ e ∙ a
    | inr (v, e, f) ↦ absurd (ground (arith, e, a))
  ]

  edge_mutual :
      (source target : Bytes) (l : Loader C S) (t u : Module) (q j : Bytes)
      → IsConsistent [] [] l
      → IsParent (some source) l
      → get target l.modules ≡ some t
      → get target (with_dependency source target l).modules ≡ some u
      → u.rdeps ≡ t.rdeps
      → listed (write target (more source u) (with_dependency source target l)) q j
        ≡ has j (deps_in (write target (more source u) (with_dependency source target l)) q)
          || owes [] q j
  unfolding owes
  edge_mutual source target l t u q j c h g g1 r =
      let l1 = with_dependency source target l in
      let a = named_apart [] [] l target t c g in
      let x = listed-write l1 target (more source u) q j in
      let y = ap (has j) (deps_in-write l1 target (more source u) q a) in
      let d = deps_in_at l1 target u a g1 in
      let z : has j (if bytes_eq target q then u.dependencies else deps_in l1 q)
          ≡ has j (deps_in l1 q) =
        ground (arith, d, bytes_eq_iff target q) in
      x
      ∙ ground (
        arith,
        y,
        z,
        listed-add_to_parent (some source) target l q j h,
        deps_in-add_to_parent (some source) target l q j c.apart h,
        has-add_name source q u.rdeps,
        listed_at l q target t g,
        r,
        c.mutual_edges q j,
        bytes_eq_iff target j,
      )

  pub add_edge-IsConsistent :
      (source target : Bytes) (l : Loader C S) (t : Module)
      → IsConsistent [] [] l
      → IsParent (some source) l
      → get target l.modules ≡ some t
      → has target (deps_in l source) ≡ false
      → IsConsistent [] [] (add_edge source target l)
  unfolding owes has
  add_edge-IsConsistent source target l t c h g n =
      let l1 = with_dependency source target l in
      let (u, g1, r, m) = target_kept source target l t h g in
      let a = named_apart [] [] l target t c g in
      let counts = IsCounted-add_to_parent [] (some source) target l c.counted h in
      let o : IsCounted [] target (some u) = subst (IsCounted [] target) g1 (counts target) in
      let d = deps_in_at l1 target u a g1 in
      let w = listed_at l source target t g in
      subst (IsConsistent [] []) (sym (edge_written source target l u g1)) (record {
        apart = ground (
          arith,
          get-put target core_name (more source u) l1.modules,
          apart_kept source target l h c.apart,
        );
        counted =
            IsCounted-but [] [] l1 target (more source u) counts
              (
                ground (
                  arith,
                  o.0,
                  n,
                  w,
                  c.mutual_edges source target,
                  r,
                  length-add_name source u.rdeps,
                ),
                (add_name-Once source u.rdeps o.1.0, o.1.1),
              )
              (λ j b. refl);
        mutual_edges = λ q j. edge_mutual source target l t u q j c h g g1 r;
        disjoint = λ q j. ground arith;
        single = tt;
        unheld = λ j q p. ground (arith, p);
      })
