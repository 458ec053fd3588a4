-- ===== src/Module/Depend.antt =====
-- A runtime dependency keeps the references counted.
use kalisko.Module.Edge.{not_direct, add_edge-IsConsistent}
use kalisko.Module.Unload.{named_apart, deps_in_at}
use kalisko.Module.Counts.{IsConsistent}
use kalisko.Base.{
  ◌≡◌, refl, sym, ◌∙◌, Bytes, ℕ, Bool, true, false, ◌||◌, Option, none, some, [], arith, inl, inr,
  Option-cases, ap,
}
use mathlib.Core.Path.{subst}
use kalisko.Base.Count.{missing}
use kalisko.Base.Table.{has, get}
use kalisko.Module.{Module, Loader}
use kalisko.Module.Load.{add_edge, add_module_runtime_dependency, check_dependency, dependencies_of}

-- What `addModuleRuntimeDependency` answers after its two searches.
abbrev checked : {L : Type 0} → Option Bool → Option Bool → L → L → Option (L × Bool)
checked none back l l1 = none
checked (some true) back l l1 = some (l, true)
checked (some false) none l l1 = none
checked (some false) (some true) l l1 = some (l, false)
checked (some false) (some false) l l1 = some (l1, true)

abbrev state_of : {L : Type 0} → L → Option (L × Bool) → L
state_of l none = l
state_of l (some (l', ok)) = l'

module _ {C S : Type 0} where
  unchanged :
      (l l' : Loader C S) (b ok : Bool)
      → ◌≡◌ {A = Option (Loader C S × Bool)} (some (l, b)) (some (l', ok))
      → IsConsistent [] [] l
      → IsConsistent [] [] l'
  unchanged l l' b ok e c = subst (λ o. IsConsistent [] [] (state_of l o)) e c

  depends_refused :
      (n : ℕ) (source target : Bytes) (l : Loader C S)
      → missing (get source l.modules) || missing (get target l.modules) ≡ true
      → add_module_runtime_dependency n source target l ≡ some (l, false)
  unfolding add_module_runtime_dependency
  depends_refused n source target l h = ground (arith, h)

  depends_checked :
      (n : ℕ) (source target : Bytes) (l : Loader C S) (s t : Module)
      → get source l.modules ≡ some s
      → get target l.modules ≡ some t
      → add_module_runtime_dependency n source target l
        ≡ checked
            (check_dependency n l source target)
            (check_dependency n l target source)
            l
            (add_edge source target l)
  unfolding add_module_runtime_dependency
  depends_checked n source target l s t g h = ground (arith, g, h)

  checked-IsConsistent :
      (forward back : Option Bool) (l l1 l' : Loader C S) (ok : Bool)
      → IsConsistent [] [] l
      → (forward ≡ some false → IsConsistent [] [] l1)
      → checked forward back l l1 ≡ some (l', ok)
      → IsConsistent [] [] l'
  checked-IsConsistent none back l l1 l' ok c f e = absurd (ground (arith, e))
  checked-IsConsistent (some true) back l l1 l' ok c f e = unchanged l l' true ok e c
  checked-IsConsistent (some false) none l l1 l' ok c f e = absurd (ground (arith, e))
  checked-IsConsistent (some false) (some true) l l1 l' ok c f e = unchanged l l' false ok e c
  checked-IsConsistent (some false) (some false) l l1 l' ok c f e =
      unchanged l1 l' true ok e (f refl)

  -- Whatever addModuleRuntimeDependency answers on a loader with consistent counts in which
  -- nothing is being loaded, the loader that it leaves has consistent counts.
  pub add_module_runtime_dependency-IsConsistent :
      (n : ℕ) (source target : Bytes) (l l' : Loader C S) (ok : Bool)
      → IsConsistent [] [] l
      → add_module_runtime_dependency n source target l ≡ some (l', ok)
      → IsConsistent [] [] l'
  add_module_runtime_dependency-IsConsistent n source target l l' ok c e =
      elim (Option-cases (get source l.modules)) [
        | inl g ↦
            unchanged l l' false ok
              (sym (depends_refused n source target l (ground (arith, g))) ∙ e) c
        | inr (s, g) ↦ elim (Option-cases (get target l.modules)) [
          | inl h ↦
              unchanged l l' false ok
                (sym (depends_refused n source target l (ground (arith, h))) ∙ e) c
          | inr (t, h) ↦
              let d = deps_in_at l source s (named_apart [] [] l source s c g) g in
              checked-IsConsistent (check_dependency n l source target)
                (check_dependency n l target source) l (add_edge source target l) l' ok c
                (λ f. add_edge-IsConsistent source target l t c (ground (arith, g)) h (
                  ap (has target) (d ∙ sym (ap dependencies_of g))
                  ∙ not_direct n l source target f))
                (sym (depends_checked n source target l s t g h) ∙ e)
        ]
      ]
