-- ===== src/Module/Commands.antt =====
-- Requests and their revocations in any order, from the start of the loader.
use kalisko.Module.Loading.{AreLibraries}
use kalisko.Module.Requested.{need_module-IsNeeded}
use kalisko.Module.Revoke.{revoke_module-IsConsistent, init_modules-IsConsistent, requested_in}
use kalisko.Module.Unneed.{size}
use kalisko.Module.Counts.{IsConsistent, deps_in}
use kalisko.Base.{
  ◌≡◌, refl, ◌∙◌, Bytes, bytes_eq, ℕ, suc, ◌+◌, ◌<◌, ◌≤◌, Bool, true, false, ◌||◌, not, Option,
  none, some, List, [], ◌∷◌, length, arith, inl, inr, Bool-cases, ap,
}
use kalisko.Base.Count.{count-length, missing}
use kalisko.Base.Table.{has, get}
use kalisko.Module.{Loader, Library, World, core_name, init_modules}
use kalisko.Module.Load.{Outcome, need_module, request_module, revoke_module, request_by}

module _ {C S : Type 0} (libraries : Bytes → Option (Library C S)) where
  -- What a request does on a consistent loader: it ends, no request of the core is lost, the name is
  -- one if it answers that the module is loaded, and the references stay counted.
  abbrev pub Requested : List Bytes → Bytes → Loader C S → Option (Loader C S × Bool) → Type 0
  Requested us name l o =
      (l' : Loader C S) × (ok : Bool) × (o ≡ some (l', ok))
      × IsConsistent [] [] l'
      × ((j : Bytes) → not (has j l.core.dependencies) || has j l'.core.dependencies ≡ true)
      × (not ok || has name l'.core.dependencies ≡ true)
      × (size us l' ≤ size us l)

  request_refused :
      (n : ℕ) (name : Bytes) (l : Loader C S)
      → bytes_eq name core_name || has name l.core.dependencies ≡ true
      → request_module libraries n name l ≡ some (l, false)
  unfolding request_module request_by
  request_refused n name l h = ground (arith, h)

  request_needed :
      (n : ℕ) (name : Bytes) (l : Loader C S)
      → bytes_eq name core_name || has name l.core.dependencies ≡ false
      → request_module libraries n name l ≡ need_module libraries n none name none l
  unfolding request_module request_by
  request_needed n name l h = ground (arith, h)

  -- When every library has a name of a list without repetition, none has the name of the core,
  -- none names a dependency twice, and no initializer calls addModuleRuntimeDependency, while any
  -- may call requestModule: on a loader with consistent counts in which nothing is being loaded,
  -- and with fuel above the number of names, the modules in the table and the names not in it:
  -- requestModule ends, the core keeps its dependencies and, if it succeeds, has the name among
  -- them, the counts are consistent, and the modules with the names that are not loaded are no
  -- more than before.
  pub request_module-IsConsistent :
      (us : List Bytes) (n : ℕ) (name : Bytes) (l : Loader C S)
      → AreLibraries us libraries
      → IsConsistent [] [] l
      → length us + size us l < n
      → Requested us name l (request_module libraries n name l)
  unfolding has
  request_module-IsConsistent us n name l s c f =
      elim (Bool-cases (bytes_eq name core_name || has name l.core.dependencies)) [
        | inl h ↦ (l, false, request_refused n name l h, c, (λ j. ground arith), refl, omega arith)
        | inr h ↦
            let u : has name (deps_in l core_name) ≡ false =
              ap (has name) (requested_in l) ∙ ground (arith, h) in
            let (l', ok, e, r) =
              need_module-IsNeeded libraries us s n [] none name none l c (λ j x. ground (arith, x))
                tt u (omega (arith, f, count-length (λ v. not (has v [])) us)) in
            (
              l',
              ok,
              request_needed n name l h ∙ e,
              r.consistent,
              (λ j. ground (arith, r.core_edges j, requested_in l, requested_in l')),
              ground (arith, r.linked, requested_in l'),
              r.fits,
            )
      ]

-- What the command line, the modules and the configuration ask of the loader.
pub data Command : Type 0 where
  request : Bytes → Command
  revoke : Bytes → Command

module _ {C S : Type 0} (libraries : Bytes → Option (Library C S)) where
  abbrev pub run_command : ℕ → Command → Loader C S → Outcome C S
  run_command n (request name) l = request_module libraries n name l
  run_command n (revoke name) l = revoke_module libraries n name l

  -- The commands one after the other, whatever they answer.
  unfoldable pub run_commands : ℕ → List Command → Loader C S → Option (Loader C S)
  run_commands n [] l = some l
  run_commands n (x ∷ xs) l = elim (run_command n x l) [
    | none ↦ none
    | some (l', ok) ↦ run_commands n xs l'
  ]

  run_next :
      (n : ℕ) (x : Command) (xs : List Command) (l l' : Loader C S) (ok : Bool)
      → run_command n x l ≡ some (l', ok)
      → run_commands n (x ∷ xs) l ≡ run_commands n xs l'
  unfolding run_commands
  run_next n x xs l l' ok e = ground (arith, e)

  command-IsConsistent :
      (us : List Bytes) (n : ℕ) (x : Command) (l : Loader C S)
      → AreLibraries us libraries
      → IsConsistent [] [] l
      → length us + size us l < n
      → (l' : Loader C S) × (ok : Bool) × (run_command n x l ≡ some (l', ok))
        × IsConsistent [] [] l'
        × (size us l' ≤ size us l)
  command-IsConsistent us n (request name) l s c f =
      let (l', ok, e, d, r, i, z) = request_module-IsConsistent libraries us n name l s c f in
      (l', ok, e, d, z)
  command-IsConsistent us n (revoke name) l s c f =
      let (l', e, d, r, z) =
        revoke_module-IsConsistent libraries us n name l s.once c (omega (arith, f)) in
      (l', has name l.core.dependencies, e, d, z)

  commands-IsConsistent :
      (us : List Bytes) (n : ℕ) (xs : List Command) (l : Loader C S)
      → AreLibraries us libraries
      → IsConsistent [] [] l
      → length us + size us l < n
      → (l' : Loader C S) × (run_commands n xs l ≡ some l') × IsConsistent [] [] l'
  unfolding run_commands
  commands-IsConsistent us n [] l s c f = (l, refl, c)
  commands-IsConsistent us n (x ∷ xs) l s c f =
      let (l1, ok, e, d, z) = command-IsConsistent us n x l s c f in
      let (l2, e2, d2) = commands-IsConsistent us n xs l1 s d (omega (arith, f, z)) in
      (l2, run_next n x xs l l1 ok e ∙ e2, d2)

  -- When every library has a name of a list without repetition, none has the name of the core,
  -- none names a dependency twice, and no initializer calls addModuleRuntimeDependency, while any
  -- may call requestModule: any sequence of requests and revocations, from the loader that
  -- initModules makes and with fuel twice the length of the list and one, ends, whether the
  -- modules load or fail, and leaves a loader in which the count of each module is the number of
  -- its reverse dependencies, these are the modules and the core that have it among their
  -- dependencies, and the core is in no table.
  pub run_commands-IsConsistent :
      (us : List Bytes) (xs : List Command) (w : World C S)
      → AreLibraries us libraries
      → (l : Loader C S) × (run_commands (suc (length us + length us)) xs (init_modules w) ≡ some l)
        × IsConsistent [] [] l
  unfolding init_modules
  run_commands-IsConsistent us xs w s =
      commands-IsConsistent us (suc (length us + length us)) xs (init_modules w) s
        (init_modules-IsConsistent w)
        (omega (arith, count-length (λ u. missing (get u (init_modules w).modules)) us))
