-- ===== src/Config/Combined.antt =====
-- The configuration is the read-only one with the writable one merged into it.
use kalisko.Base.{◌≡◌, refl, ◌∙◌, ap, true, Option, some, Option-cases, inl, inr, none, sym, ◌⊎◌}
use kalisko.Store.Value.{Store}
use kalisko.Config.{Disk, Config, World, Result, done, ◌>>=◌, at_done}
use kalisko.Config.Load.{combine}
use kalisko.Config.Save.{
  combine_both, inject_read_only_config, inject_writable_config, save_writable_config,
  injected_read_only, saved_or_old, injected_writable, save_with, written, with_disk,
}

abbrev pub IsCombined : {F : Type 0} → Config F → Type 0
IsCombined {F} c =
    (read_only : Store F) × ((writable : Store F) × ((s : Store F) × ((c.read_only_config
            ≡ some read_only)
          × ((c.writable_config ≡ some writable)
              × ((c.config ≡ some s) × (combine read_only writable ≡ some s))))))

-- The calls that replace a part of the configuration.
pub data Operation (F : Type 0) : Type 0 where
  save : Operation F
  inject_read_only inject_writable : Store F → Operation F

combine_both-some :
    {F : Type 0} {r w : Option (Store F)} {a b : Store F}
    → r ≡ some a
    → w ≡ some b
    → combine_both r w ≡ done (combine a b)
unfolding combine_both
combine_both-some {r = r} {b = b} e q = ap (combine_both r) q ∙ ap (λ x. combine_both x (some b)) e

module _ {D F : Type 0} where
  -- What an injection answers: `NULL`, where the stores do not merge and nothing changes, or the
  -- store that it replaces.
  abbrev pub Injected :
      Result (Option (Store F))
      → Option (Store F)
      → World D F
      → World D F × Option (Store F)
      → Type 0
  Injected new old w r =
      ((new ≡ done none) × (r.0 ≡ w) × (r.1 ≡ none))
      ⊎ ((s : Store F) × (new ≡ done (some s)) × (r.0.variables.config ≡ some s) × (r.1 ≡ old))

  abbrev pub Answers : Operation F → World D F → World D F × Option (Store F) → Type 0
  Answers save w r = r.1 ≡ none
  Answers (inject_read_only n) w r =
      Injected (combine_both (some n) w.variables.writable_config) w.variables.read_only_config w r
  Answers (inject_writable n) w r =
      Injected (combine_both w.variables.read_only_config (some n)) w.variables.writable_config w r

module _ {D F : Type 0} (disk : Disk D F) where
  -- An operation with what it returns; saving returns nothing.
  abbrev pub perform : Operation F → World D F → Result (World D F × Option (Store F))
  perform save w = save_writable_config disk w >>= λ w'. done (w', none)
  perform (inject_read_only s) w = inject_read_only_config (some s) w
  perform (inject_writable s) w = inject_writable_config (some s) true w

  -- The disk after the writable configuration was written, `none` for a read beyond a string.
  abbrev pub write_config : World D F → Option (Store F) → Option D
  write_config w none = some w.disk
  write_config w (some v) =
      written disk w.variables.writable_config_path_exists w.variables.writable_config_file_path v
        w.disk

  -- Saving can write the configuration.
  abbrev pub CanWrite : Operation F → World D F → Type 0
  CanWrite save w = (d : D) × (write_config w w.variables.writable_config ≡ some d)
  CanWrite (inject_read_only s) w = Unit
  CanWrite (inject_writable s) w = Unit

  inject_read_only_result :
      (n v : Store F) (w : World D F)
      → w.variables.writable_config ≡ some v
      → inject_read_only_config (some n) w ≡ done (injected_read_only w (some n) (combine n v))
  unfolding inject_read_only_config
  inject_read_only_result n v w e =
      at_done (λ s. done (injected_read_only w (some n) s)) (combine_both-some refl e)

  inject_writable_result :
      (r n : Store F) (w : World D F)
      → w.variables.read_only_config ≡ some r
      → inject_writable_config (some n) true w ≡ done (injected_writable w (some n) (combine r n))
  unfolding inject_writable_config
  inject_writable_result r n w e =
      at_done (λ s. done (injected_writable w (some n) s)) (combine_both-some e refl)

  pub save_result :
      (r v : Store F) (w : World D F) (d : D)
      → w.variables.read_only_config ≡ some r
      → w.variables.writable_config ≡ some v
      → write_config w (some v) ≡ some d
      → save_writable_config disk w ≡ done (saved_or_old (record w { disk = d }) (combine r v))
  unfolding save_writable_config save_with
  save_result r v w d er ev ew =
      ap (λ o. save_with disk o w) ev
      ∙ at_done _ (ap (with_disk disk w) ew)
      ∙ at_done _ (combine_both-some er refl)

  -- If the configuration is the clone of the read-only one with the writable one merged into it,
  -- then saving it, where it can be written without a read beyond a string, and injecting a
  -- read-only or a writable one with an update end and leave it so. An injection returns the
  -- store that it replaces and sets the configuration, or, where the stores do not merge, returns
  -- NULL and changes nothing.
  pub perform-IsCombined :
      (op : Operation F) (w : World D F)
      → IsCombined w.variables
      → CanWrite op w
      → (w' : World D F) × (o : Option (Store F)) × (perform op w ≡ done (w', o))
        × IsCombined w'.variables
        × Answers op w (w', o)
  perform-IsCombined save w (r, (v, (s, (er, (ev, (ec, e)))))) (d, g) = (
    saved_or_old (record w { disk = d }) (some s),
    none,
    at_done (λ w'. done (w', none))
        (save_result r v w d er ev (ap (write_config w) (sym ev) ∙ g)
          ∙ ap (λ o. done (saved_or_old (record w { disk = d }) o)) e),
    (r, (v, (s, (er, (ev, (refl, e)))))),
    refl,
  )
  perform-IsCombined (inject_read_only n) w (r, (v, (s, (er, (ev, (ec, e)))))) u =
      elim (Option-cases (combine n v)) [
        | inl q ↦ (
          w,
          none,
          inject_read_only_result n v w ev ∙ ap (λ o. done (injected_read_only w (some n) o)) q,
          (r, (v, (s, (er, (ev, (ec, e)))))),
          inl (combine_both-some refl ev ∙ ap done q, refl, refl),
        )
        | inr (x, q) ↦ (
          (injected_read_only w (some n) (some x)).0,
          w.variables.read_only_config,
          inject_read_only_result n v w ev ∙ ap (λ o. done (injected_read_only w (some n) o)) q,
          (n, (v, (x, (refl, (ev, (refl, q)))))),
          inr (x, combine_both-some refl ev ∙ ap done q, refl, refl),
        )
      ]
  perform-IsCombined (inject_writable n) w (r, (v, (s, (er, (ev, (ec, e)))))) u =
      elim (Option-cases (combine r n)) [
        | inl q ↦ (
          w,
          none,
          inject_writable_result r n w er ∙ ap (λ o. done (injected_writable w (some n) o)) q,
          (r, (v, (s, (er, (ev, (ec, e)))))),
          inl (combine_both-some er refl ∙ ap done q, refl, refl),
        )
        | inr (x, q) ↦ (
          (injected_writable w (some n) (some x)).0,
          w.variables.writable_config,
          inject_writable_result r n w er ∙ ap (λ o. done (injected_writable w (some n) o)) q,
          (r, (n, (x, (er, (refl, (refl, q)))))),
          inr (x, combine_both-some er refl ∙ ap done q, refl, refl),
        )
      ]
