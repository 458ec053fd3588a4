-- ===== src/Module/Parent.antt =====
-- The entry that `needModule` adds to the dependencies of the parent, and the counts.
use kalisko.Base.Count.{missing}
use kalisko.Module.Unload.{listed_at, deps_in_at}
use kalisko.Module.Counts.{IsCounted, deps_in, listed, on_branches, listed-write, deps_in-write}
use kalisko.Base.{
  ◌≡◌, refl, sym, ◌∙◌, Bytes, bytes_eq, bytes_eq_iff, ◌+◌, false, ◌&&◌, ◌||◌, if◌then◌else◌, Option,
  none, some, List, length, arith, inl, inr, Bool-cases, Option-cases, ap, ◌⊎◌,
}
use mathlib.Core.Path.{subst}
use kalisko.Base.Names.{add_name-Once}
use kalisko.Base.Table.{has, get, put, add_name, get-put, has-add_name}
use kalisko.Module.{Module, Loader, core_name, write, add_to_parent, parent_name}

-- A count does not depend on what else is being loaded.
recount :
    (ps qs : List Bytes) (k : Bytes) (o : Option Module)
    → has k ps ≡ has k qs
    → IsCounted ps k o
    → IsCounted qs k o
recount ps qs k none e c = tt
recount ps qs k (some m) e c =
    (subst (λ b. m.rc ≡ length m.rdeps + (if b then 1 else 0)) e c.0, c.1)

-- A parent with a dependency more.
abbrev pub depending : Bytes → Module → Module
depending k m = record m { dependencies = add_name k m.dependencies }

module _ {C S : Type 0} where
  -- The counts of a table in which one entry is replaced.
  pub IsCounted-but :
      (ps qs : List Bytes) (l : Loader C S) (k : Bytes) (m : Module)
      → ((j : Bytes) → IsCounted ps j (get j l.modules))
      → IsCounted qs k (some m)
      → ((j : Bytes) → bytes_eq k j ≡ false → has j ps ≡ has j qs)
      → (j : Bytes) → IsCounted qs j (get j (put k m l.modules))
  IsCounted-but ps qs l k m c h e j = subst (IsCounted qs j) (sym (get-put k j m l.modules)) (
      on_branches (IsCounted qs j) (bytes_eq k j) (some m) (get j l.modules)
        (λ b. subst (λ i. IsCounted qs i (some m)) ((bytes_eq_iff k j).0 b) h)
        (λ b. recount ps qs j (get j l.modules) (e j b) (c j)))

  -- The core is no entry of the table, every other parent is.
  abbrev pub IsParent : Option Bytes → Loader C S → Type 0
  IsParent none l = Unit
  IsParent (some p) l = missing (get p l.modules) ≡ false

  pub parent_found :
      (p : Bytes) (l : Loader C S) → IsParent (some p) l → (v : Module) × (get p l.modules ≡ some v)
  parent_found p l h = elim (Option-cases (get p l.modules)) [
    | inl e ↦ absurd (ground (arith, h, e))
    | inr f ↦ f
  ]

  pub parent_written :
      (p k : Bytes) (l : Loader C S) (v : Module)
      → get p l.modules ≡ some v
      → add_to_parent (some p) k l ≡ write p (depending k v) l
  parent_written p k l v g = ground (arith, g)

  listed-depending :
      (p k : Bytes) (l : Loader C S) (v : Module) (q j : Bytes)
      → get p l.modules ≡ some v
      → listed (write p (depending k v) l) q j ≡ listed l q j
  listed-depending p k l v q j g =
      ground (arith, listed-write l p (depending k v) q j, listed_at l q p v g, bytes_eq_iff p j)

  deps_in-depending :
      (p k : Bytes) (l : Loader C S) (v : Module) (q j : Bytes)
      → bytes_eq p core_name ≡ false
      → get p l.modules ≡ some v
      → has j (deps_in (write p (depending k v) l) q)
        ≡ (bytes_eq p q && bytes_eq k j) || has j (deps_in l q)
  deps_in-depending p k l v q j a g = ground (
    arith,
    deps_in-write l p (depending k v) q a,
    deps_in_at l p v a g,
    bytes_eq_iff p q,
    has-add_name k j v.dependencies,
  )

  pub listed-add_to_parent :
      (parent : Option Bytes) (k : Bytes) (l : Loader C S) (q j : Bytes)
      → IsParent parent l
      → listed (add_to_parent parent k l) q j ≡ listed l q j
  unfolding listed
  listed-add_to_parent none k l q j h = refl
  listed-add_to_parent (some p) k l q j h =
      let (v, g) = parent_found p l h in
      ap (λ x. listed x q j) (parent_written p k l v g) ∙ listed-depending p k l v q j g

  pub deps_in-add_to_parent :
      (parent : Option Bytes) (k : Bytes) (l : Loader C S) (q j : Bytes)
      → get core_name l.modules ≡ none
      → IsParent parent l
      → has j (deps_in (add_to_parent parent k l) q)
        ≡ (bytes_eq (parent_name parent) q && bytes_eq k j) || has j (deps_in l q)
  unfolding deps_in
  deps_in-add_to_parent none k l q j a h = ground (
    arith,
    has-add_name k j l.core.dependencies,
    bytes_eq_iff core_name q,
    bytes_eq_iff q core_name,
  )
  deps_in-add_to_parent (some p) k l q j a h =
      let (v, g) = parent_found p l h in
      ap (λ x. has j (deps_in x q)) (parent_written p k l v g)
      ∙ deps_in-depending p k l v q j (ground (arith, a, g, bytes_eq_iff p core_name)) g

  pub IsCounted-add_to_parent :
      (ps : List Bytes) (parent : Option Bytes) (k : Bytes) (l : Loader C S)
      → ((j : Bytes) → IsCounted ps j (get j l.modules))
      → IsParent parent l
      → (j : Bytes) → IsCounted ps j (get j (add_to_parent parent k l).modules)
  IsCounted-add_to_parent ps none k l c h j = c j
  IsCounted-add_to_parent ps (some p) k l c h j =
      let (v, g) = parent_found p l h in
      let d = subst (IsCounted ps p) g (c p) in
      subst (λ x. IsCounted ps j (get j x.modules)) (sym (parent_written p k l v g))
        (IsCounted-but ps ps l p (depending k v) c
          (d.0, (d.1.0, add_name-Once k v.dependencies d.1.1)) (λ i b. refl) j)

  -- The other fields of every module stay.
  pub get-add_to_parent :
      (parent : Option Bytes) (k : Bytes) (l : Loader C S) (j : Bytes)
      → IsParent parent l
      → (get j (add_to_parent parent k l).modules ≡ get j l.modules)
        ⊎ ((v : Module) × (get j l.modules ≡ some v)
            × (get j (add_to_parent parent k l).modules ≡ some (depending k v)))
  get-add_to_parent none k l j h = inl refl
  get-add_to_parent (some p) k l j h =
      let (v, g) = parent_found p l h in
      let w =
        ap (λ x. get j x.modules) (parent_written p k l v g)
        ∙ get-put p j (depending k v) l.modules in
      elim (Bool-cases (bytes_eq p j)) [
        | inl e ↦
            inr (
              v,
              ap (λ i. get i l.modules) (sym ((bytes_eq_iff p j).0 e)) ∙ g,
              w ∙ ground (arith, e),
            )
        | inr e ↦ inl (w ∙ ground (arith, e))
      ]

  pub IsParent-put :
      (parent : Option Bytes) (k : Bytes) (l : Loader C S) (m : Module)
      → IsParent parent l
      → IsParent parent (write k m l)
  IsParent-put none k l m h = tt
  IsParent-put (some p) k l m h = ground (arith, h, get-put k p m l.modules)
