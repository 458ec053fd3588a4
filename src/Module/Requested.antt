-- ===== src/Module/Requested.antt =====
-- `needModule` and `requestModule` end on a loader with consistent counts, and leave them so.
use kalisko.Module.Loading.{
  AreLibraries, library_requests, new_module_entered, IsNeeded, Needs, need_each-Needed,
  distinct_names,
}
use kalisko.Module.Need.{Waiting, Loads, refused, loaded-Needed}
use kalisko.Module.Unneed.{size}
use kalisko.Module.Pending.{entered-IsConsistent}
use kalisko.Module.Counts.{IsConsistent, deps_in, deps_in-write}
use kalisko.Base.{
  ◌≡◌, ◌∙◌, Bytes, bytes_eq_refl, ℕ, zero, suc, ◌+◌, ◌<◌, true, false, ◌&&◌, Option, none, some,
  List, [], ◌∷◌, length, arith, inl, inr, Bool-cases, Option-cases,
}
use kalisko.Base.Count.{outside, outside-push}
use kalisko.Base.Table.{has, get}
use kalisko.Version.{Version}
use kalisko.Module.{Module, ModuleDependency, Loader, Library, write, link, parent_name, satisfies}
use kalisko.Module.Load.{need_module}
use kalisko.Module.NeedModule.{abandon-IsNeeded, start_module-IsNeeded}
use kalisko.Module.Entered.{
  module_for, need_found, need_no_library, need_not_new, need_entered, named_apart_lib, not_waiting,
  entered-Waiting, size-entered, through-Needed, waiting_module,
}

module _ {C S : Type 0} (libraries : Bytes → Option (Library C S)) (us : List Bytes) where
  -- `needModule` of a module that is not there, after its library is read.
  entered-IsNeeded :
      (n : ℕ) (pending : List Bytes) (parent : Option Bytes) (k : Bytes) (needed : Option Version)
      (l : Loader C S) (lib : Library C S) (m : Module) (ds : List ModuleDependency)
      → AreLibraries us libraries
      → Needs libraries us n
      → IsConsistent pending [] l
      → Waiting pending l
      → Loads pending parent
      → has k (deps_in l (parent_name parent)) ≡ false
      → outside pending us + size us l < suc n
      → get k l.modules ≡ none
      → libraries k ≡ some lib
      → module_for needed lib ≡ some (m, ds)
      → IsNeeded libraries us pending parent k l (need_module libraries (suc n) parent k needed l)
  unfolding has
  entered-IsNeeded n pending parent k needed l lib m ds s ih c w p u f g h e =
      let (new, unloaded, depends) =
        new_module_entered needed lib.name lib.author lib.description lib.version lib.bcversion
          lib.depends m ds e in
      let a = named_apart_lib libraries us k lib s h in
      let x = not_waiting pending l k w g in
      let i = s.named k lib h in
      let l1 = write k m l in
      let c1 = entered-IsConsistent pending l k m c g a x new in
      let w1 = entered-Waiting pending l k m w unloaded in
      let z = size-entered libraries us l k m g i in
      let y = outside-push k pending us i x in
      let (l2, ok, e2, r) =
        need_each-Needed libraries us n (k ∷ pending) k ds l1 ih c1 w1
          (ground (arith, bytes_eq_refl k)) (distinct_names k lib ds s h depends)
          (λ j q. ground (arith, deps_in-write l k m k a, bytes_eq_refl k, new.2))
          (omega (arith, f, z, y)) in
      let (m2, g2) = waiting_module pending l2 k r.waiting in
      let e3 = need_entered libraries n parent k needed l l2 lib m m2 ds ok g h e e2 g2 in
      let f2 : length l2.modules < n = omega (arith, r.fits, z, y, f) in
      elim (Bool-cases ok) [
        | inl t ↦
            let (l3, ok3, e4, v) =
              start_module-IsNeeded libraries us n lib pending parent k m2 l2 s.once ih
                (library_requests k lib s h) r.consistent r.waiting p g2 x
                (omega (arith, f, z, y, r.fits)) in
            (
              l3,
              ok3,
              e3 ∙ ground (arith, t, e4),
              through-Needed libraries us pending parent k m l l2 l3 ok3 a x z r v,
            )
        | inr t ↦
            let (l3, ok3, e4, v) =
              abandon-IsNeeded libraries us n pending parent k l2 m2 s.once r.consistent r.waiting
                g2 x f2 in
            (
              l3,
              ok3,
              e3 ∙ ground (arith, t, e4),
              through-Needed libraries us pending parent k m l l2 l3 ok3 a x z r v,
            )
      ]

  pub need_module-IsNeeded : AreLibraries us libraries → (n : ℕ) → Needs libraries us n
  need_module-IsNeeded s zero pending parent k needed l c w p u f = absurd (omega (arith, f))
  need_module-IsNeeded s (suc n) pending parent k needed l c w p u f =
      elim (Option-cases (get k l.modules)) [
        | inr (m, g) ↦
            let e = need_found libraries n parent k needed l m g in
            elim (Bool-cases (m.loaded && satisfies needed m.version m.bcversion)) [
              | inl t ↦ (
                link parent k (record m { rc = m.rc + 1 }) l,
                true,
                ground (arith, e, t),
                loaded-Needed us pending parent k l m c w p u g (ground (arith, t)),
              )
              | inr t ↦ (l, false, ground (arith, e, t), refused us pending parent k l c w)
            ]
        | inl g ↦ elim (Option-cases (libraries k)) [
          | inl h ↦ (
            l,
            false,
            need_no_library libraries n parent k needed l g h,
            refused us pending parent k l c w,
          )
          | inr (lib, h) ↦ elim (Option-cases (module_for needed lib)) [
            | inl e ↦ (
              l,
              false,
              need_not_new libraries n parent k needed l lib g h e,
              refused us pending parent k l c w,
            )
            | inr ((m, ds), e) ↦
                entered-IsNeeded n pending parent k needed l lib m ds s (need_module-IsNeeded s n) c
                  w p u f g h e
          ]
        ]
      ]
