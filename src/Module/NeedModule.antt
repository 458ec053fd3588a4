-- ===== src/Module/NeedModule.antt =====
-- The recursion of `needModule` over the dependencies, and `requestModule`.
use mathlib.Core.Path.{subst}
use kalisko.Module.Initialize.{Grows, Needed-after, run_initializer-Grows}
use kalisko.Module.Entered.{waiting_module}
use kalisko.Module.Unneed.{size}
use kalisko.Base.Count.{outside}
use kalisko.Module.Loading.{Needs, IsNeeded, InitRequests, InitRequests}
use kalisko.Module.Need.{Waiting, Loads, finished-Needed, abandoned-Needed}
use kalisko.Module.Pending.{abandon-Keeps}
use kalisko.Module.Counts.{owes, IsConsistent, deps_in}
use kalisko.Base.{
  ◌+◌, bytes_eq_refl, ◌≡◌, refl, ◌∙◌, Bytes, ℕ, ◌<◌, Bool, true, false, if◌then◌else◌, Option, none,
  some, List, [], ◌∷◌, length, arith, inl, inr, Bool-cases, Option-cases, ap,
}
use kalisko.Base.Names.{Once}
use kalisko.Base.Table.{has, get}
use kalisko.Module.{Module, Loader, Library, link, parent_name, Initializer, World}
use kalisko.Module.Load.{
  request_by, need_module, add_module_runtime_dependency, Outcome, run_initializer, unneed_module,
  start_module, with_result,
}

module _ {C S : Type 0} (libraries : Bytes → Option (Library C S)) (us : List Bytes) where
  -- A loading that fails after the dependencies.
  pub abandon-IsNeeded :
      (n : ℕ) (pending : List Bytes) (parent : Option Bytes) (k : Bytes) (l : Loader C S)
      (m : Module)
      → Once us
      → IsConsistent (k ∷ pending) [] l
      → Waiting (k ∷ pending) l
      → get k l.modules ≡ some m
      → has k pending ≡ false
      → length l.modules < n
      → IsNeeded libraries us pending parent k l
          (with_result (unneed_module libraries n parent k l) false)
  unfolding has
  abandon-IsNeeded n pending parent k l m o c w g x f =
      let (l', e, s) = abandon-Keeps libraries n pending l parent k m c g x f in
      let v : Waiting pending l = λ j h. w j (ground (arith, h)) in
      (l', false, ap (λ r. with_result r false) e, abandoned-Needed us pending parent k l l' o v s)

  abbrev Starts :
      (Bytes → Loader C S → Outcome C S)
      → ℕ
      → Library C S
      → List Bytes
      → Option Bytes
      → Bytes
      → Loader C S
      → Type 0
  Starts need n lib pending parent k l =
      IsNeeded libraries us pending parent k l (start_module libraries need n lib parent k l)

  start_unresolved :
      (need : Bytes → Loader C S → Outcome C S) (n : ℕ) (lib : Library C S) (parent : Option Bytes)
      (k : Bytes) (l : Loader C S)
      → lib.resolves ≡ false
      → start_module libraries need n lib parent k l
        ≡ with_result (unneed_module libraries n parent k l) false
  unfolding start_module
  start_unresolved need n lib parent k l r = rw r refl

  start_missing :
      (need : Bytes → Loader C S → Outcome C S) (n : ℕ) (lib : Library C S) (parent : Option Bytes)
      (k : Bytes) (l : Loader C S)
      → lib.initialize ≡ none
      → start_module libraries need n lib parent k l
        ≡ with_result (unneed_module libraries n parent k l) false
  unfolding start_module
  start_missing need n lib parent k l r = ground (arith, r)

  start_initialized :
      (need : Bytes → Loader C S → Outcome C S) (n : ℕ) (lib : Library C S) (parent : Option Bytes)
      (k : Bytes) (m : Module) (l l' : Loader C S) (initializer : World C S → Initializer C S)
      (ok : Bool)
      → lib.resolves ≡ true
      → lib.initialize ≡ some initializer
      → run_initializer (request_by need) (add_module_runtime_dependency n) (initializer l.world) l
        ≡ some (l', ok)
      → get k l'.modules ≡ some m
      → start_module libraries need n lib parent k l ≡ (
          if ok
          then some (link parent k (record m { loaded = true }) l', true)
          else with_result (unneed_module libraries n parent k l') false)
  unfolding start_module
  start_initialized need n lib parent k m l l' initializer ok r i e g = ground (arith, r, i, e, g)

  -- `k` is being loaded, so that nobody depends on it.
  not_linked :
      (pending : List Bytes) (k r : Bytes) (l : Loader C S)
      → IsConsistent (k ∷ pending) [] l
      → has k (deps_in l r) ≡ false
  unfolding has owes
  not_linked pending k r l c = ground (arith, c.mutual_edges r k, c.unheld k r, bytes_eq_refl k)

  -- The end of a loading after the initializer.
  start_ended :
      (need : Bytes → Loader C S → Outcome C S) (n : ℕ) (lib : Library C S) (pending : List Bytes)
      (parent : Option Bytes) (k : Bytes) (l l' : Loader C S)
      (initializer : World C S → Initializer C S) (ok : Bool)
      → Once us
      → Loads pending parent
      → has k pending ≡ false
      → size us l < n
      → lib.resolves ≡ true
      → lib.initialize ≡ some initializer
      → run_initializer (request_by need) (add_module_runtime_dependency n) (initializer l.world) l
        ≡ some (l', ok)
      → Grows us (k ∷ pending) l l'
      → Starts need n lib pending parent k l
  start_ended need n lib pending parent k l l' initializer ok o p x z r i e a =
      let c = a.consistent in
      let (m, g) = waiting_module pending l' k a.waiting in
      let e1 = start_initialized need n lib parent k m l l' initializer ok r i e g in
      elim (Bool-cases ok) [
        | inl t ↦ (
          link parent k (record m { loaded = true }) l',
          true,
          ground (arith, e1, t),
          Needed-after us pending parent k l l' (link parent k (record m { loaded = true }) l') true
              a
              (finished-Needed us pending parent k l' m c a.waiting p
                (not_linked pending k (parent_name parent) l' c) g x),
        )
        | inr t ↦
            let (l2, ok2, e2, s) =
              abandon-IsNeeded n pending parent k l' m o c a.waiting g x
                (omega (arith, z, a.fits)) in
            (l2, ok2, ground (arith, e1, t, e2), Needed-after us pending parent k l l' l2 ok2 a s)
      ]

  pub start_module-IsNeeded :
      (n : ℕ) (lib : Library C S) (pending : List Bytes) (parent : Option Bytes) (k : Bytes)
      (m : Module) (l : Loader C S)
      → Once us
      → Needs libraries us n
      → InitRequests lib.initialize
      → IsConsistent (k ∷ pending) [] l
      → Waiting (k ∷ pending) l
      → Loads pending parent
      → get k l.modules ≡ some m
      → has k pending ≡ false
      → outside (k ∷ pending) us + size us l < n
      → Starts (λ r. need_module libraries n none r none) n lib pending parent k l
  start_module-IsNeeded n lib pending parent k m l o ih q c w p g x f =
      let need : Bytes → Loader C S → Outcome C S = λ r. need_module libraries n none r none in
      let h : length l.modules < n = omega (arith, f) in
      elim (Bool-cases lib.resolves) [
        | inr r ↦
            let (l', ok, e, s) = abandon-IsNeeded n pending parent k l m o c w g x h in
            (l', ok, start_unresolved need n lib parent k l r ∙ e, s)
        | inl r ↦ elim (Option-cases lib.initialize) [
          | inl i ↦
              let (l', ok, e, s) = abandon-IsNeeded n pending parent k l m o c w g x h in
              (l', ok, start_missing need n lib parent k l i ∙ e, s)
          | inr (initializer, i) ↦
              let (l', ok, e, a) =
                run_initializer-Grows libraries us n (k ∷ pending) (add_module_runtime_dependency n)
                  (initializer l.world) l (subst InitRequests i q l.world) ih c w f in
              start_ended need n lib pending parent k l l' initializer ok o p x (omega (arith, f)) r
                i e a
        ]
      ]
