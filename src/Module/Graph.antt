-- ===== src/Module/Graph.antt =====
-- The dependencies of the modules as a graph, and the check for a path in it.
use kalisko.Module.{Loader}
use kalisko.Base.Table.{has, get}
use mathlib.Core.Path.{subst}
use kalisko.Module.Load.{any_depends, dependencies_of, check_dependency}
use kalisko.Base.{
  ◌≡◌, refl, sym, ◌∙◌, ap, ℕ, zero, suc, ◌<◌, Bytes, bytes_eq, bytes_eq_iff, bytes_eq_refl, Bool,
  true, false, Option, some, List, [], ◌∷◌, ◌⊎◌, inl, inr, ◌↔◌, arith, Bool-cases, Answer,
}

-- `a` has `b` in its `dependencies`.
abbrev pub Edge : {C S : Type 0} → Loader C S → Bytes → Bytes → Type 0
Edge l a b = has b (dependencies_of (get a l.modules)) ≡ true

-- `a` depends on `b`, directly or over other modules.
pub data Reach {C S : Type 0} (l : Loader C S) : Bytes → Bytes → Type 0 where
  direct : {a b : Bytes} → Edge l a b → Reach l a b
  over : {a b c : Bytes} → Edge l a b → Reach l b c → Reach l a c

-- A numbering that falls along the dependencies, which shows that they have no cycle.
abbrev pub Ranked : {C S : Type 0} → Loader C S → (Bytes → ℕ) → Type 0
Ranked l rank = (a b : Bytes) → Edge l a b → rank b < rank a

abbrev Hit : (Bytes → Type 0) → Bytes → List Bytes → Type 0
Hit P target ds = (d : Bytes) × (has d ds ≡ true) × ((d ≡ target) ⊎ P d)

any_none :
    (depends : Bytes → Option Bool) (target : Bytes) → any_depends depends target [] ≡ some false
unfolding any_depends
any_none depends target = refl

any_hit :
    (depends : Bytes → Option Bool) (target d : Bytes) (ds : List Bytes)
    → bytes_eq d target ≡ true
    → any_depends depends target (d ∷ ds) ≡ some true
unfolding any_depends
any_hit depends target d ds h = ground arith

any_found :
    (depends : Bytes → Option Bool) (target d : Bytes) (ds : List Bytes)
    → depends d ≡ some true
    → any_depends depends target (d ∷ ds) ≡ some true
unfolding any_depends
any_found depends target d ds h = ground arith

any_next :
    (depends : Bytes → Option Bool) (target d : Bytes) (ds : List Bytes)
    → bytes_eq d target ≡ false
    → depends d ≡ some false
    → any_depends depends target (d ∷ ds) ≡ any_depends depends target ds
unfolding any_depends
any_next depends target d ds h k = ground arith

pub contradictory : (b : Bool) → b ≡ true → ¬ (b ≡ false)
contradictory b h k = ground arith

has_head : (d : Bytes) (ds : List Bytes) → has d (d ∷ ds) ≡ true
unfolding has
has_head d ds = ground (arith, bytes_eq_refl d)

has_tail : (c d : Bytes) (ds : List Bytes) → has c ds ≡ true → has c (d ∷ ds) ≡ true
unfolding has
has_tail c d ds h = ground arith

has_nothing : (d : Bytes) → ¬ (has d [] ≡ true)
unfolding has
has_nothing d h = ground arith

has_later : (c d : Bytes) (ds : List Bytes) → has c (d ∷ ds) ≡ true → (d ≡ c) ⊎ (has c ds ≡ true)
unfolding has
has_later c d ds h = ground (arith, bytes_eq_iff d c)

module _ (P : Bytes → Type 0) (depends : Bytes → Option Bool) (target : Bytes) where
  no-Hit :
      (d : Bytes) (ds : List Bytes)
      → bytes_eq d target ≡ false
      → ¬ P d
      → Hit P target (d ∷ ds)
      → Hit P target ds
  no-Hit d ds h k (c, m, x) = elim (has_later c d ds m) [
    | inl e ↦ elim x [
      | inl q ↦ absurd (contradictory (bytes_eq d target) ((bytes_eq_iff d target).1 (e ∙ q)) h)
      | inr p ↦ absurd (k (subst P (sym e) p))
    ]
    | inr m' ↦ (c, m', x)
  ]

  any_depends-Answer :
      (ds : List Bytes)
      → ((d : Bytes) → has d ds ≡ true → Answer (depends d) (P d))
      → Answer (any_depends depends target ds) (Hit P target ds)
  any_depends-Answer [] h =
      (false, any_none depends target, ((λ q. ground arith), λ (d, m, x). absurd (has_nothing d m)))
  any_depends-Answer (d ∷ ds) h = elim (Bool-cases (bytes_eq d target)) [
    | inl e ↦ (
      true,
      any_hit depends target d ds e,
      ((λ q. (d, has_head d ds, inl ((bytes_eq_iff d target).0 e))), λ q. refl),
    )
    | inr e ↦
        let (b, p, q) = h d (has_head d ds) in
        elim (Bool-cases b) [
          | inl t ↦ (
            true,
            any_found depends target d ds (p ∙ ap some t),
            ((λ z. (d, has_head d ds, inr (q.0 t))), λ z. refl),
          )
          | inr f ↦
              let (b', p', q') = any_depends-Answer ds (λ c m. h c (has_tail c d ds m)) in
              (
                b',
                any_next depends target d ds e (p ∙ ap some f) ∙ p',
                (
                  (λ z. let (c, m, x) = q'.0 z in (c, has_tail c d ds m, x)),
                  λ z. q'.1 (no-Hit d ds e (λ w. contradictory b (q.1 w) f) z),
                ),
              )
        ]
  ]

module _ {C S : Type 0} (l : Loader C S) where
  -- A path from `a` is a hit among its dependencies.
  Hit-Reach :
      (a target : Bytes)
      → Hit (λ d. Reach l d target) target (dependencies_of (get a l.modules))
      → Reach l a target
  Hit-Reach a target (d, m, inl e) = direct (subst (λ x. Edge l a x) e m)
  Hit-Reach a target (d, m, inr r) = over m r

  Reach-Hit :
      (a target : Bytes)
      → Reach l a target
      → Hit (λ d. Reach l d target) target (dependencies_of (get a l.modules))
  Reach-Hit a target (direct e) = (target, e, inl refl)
  Reach-Hit a target (over {b = b} e r) = (b, e, inr r)

  check_dependency_step :
      (n : ℕ) (source target : Bytes)
      → check_dependency (suc n) l source target
        ≡ any_depends
            (λ d. check_dependency n l d target)
            target
            (dependencies_of (get source l.modules))
  unfolding check_dependency
  check_dependency_step n source target = refl

  -- When the dependencies have no cycle (a numbering falls along them) and the fuel is above the
  -- number of the source, checkModuleDependencyByModule ends, and its answer is true exactly when
  -- there is a path of dependencies from the source to the target.
  pub check_dependency-Reach :
      (rank : Bytes → ℕ)
      → Ranked l rank
      → (n : ℕ) (source target : Bytes) → rank source < n
      → (b : Bool) × (check_dependency n l source target ≡ some b)
        × ((b ≡ true) ↔ Reach l source target)
  check_dependency-Reach rank ranked zero source target h = elim h [ ]
  check_dependency-Reach rank ranked (suc n) source target h =
      let (b, p, q) =
        any_depends-Answer (λ d. Reach l d target) (λ d. check_dependency n l d target) target
          (dependencies_of (get source l.modules))
          (λ d e.
            check_dependency-Reach rank ranked n d target (omega (arith, ranked source d e))) in
      (
        b,
        check_dependency_step n source target ∙ p,
        ((λ z. Hit-Reach source target (q.0 z)), λ r. q.1 (Reach-Hit source target r)),
      )
