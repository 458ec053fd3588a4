-- ===== src/Config/Layers.antt =====
-- The order of the layers: the writable file, the user's file, the profiles, the global file.
use kalisko.Config.Combined.{IsCombined}
use kalisko.Base.{
  ℕ, suc, ◌≡◌, refl, ◌∙◌, ap, Bool, true, false, Option, none, some, Bytes, bytes_eq_iff, codes,
  arith,
}
use kalisko.Store.Value.{Store, Nodes, array, empty, node}
use kalisko.Store.Value.Tables.{lookup, insert, Distinct, lookup-insert, insert-Distinct}
use kalisko.Store.Clone.{clone_store, clone_nodes}
use kalisko.Store.Merge.{merge_store, merge_nodes, merged_value, lookup-merge_nodes}
use kalisko.Store.Path.{get_store_path, read_component, child, Found, found}
use kalisko.Config.{Disk, World, done, get_path, merged, check_files_merge, store_at, at_done}
use kalisko.Config.Load.{
  combine, internal_reload_config, load_read_only_configs, load_default_configs, reload_writable,
  load_writable_config, load_file, user_layer, global_layer, triggered, with_config, loaded_world,
  reload_outcome, reload_read_only,
}

module _ {F : Type 0} where
  abbrev pub cloned : Option (Store F) → Option (Store F)
  cloned none = none
  cloned (some s) = some (clone_store s)

  abbrev or_else : Option (Store F) → Option (Store F) → Option (Store F)
  or_else none b = b
  or_else (some s) b = some s

  or_else-none : (a : Option (Store F)) → or_else a none ≡ a
  or_else-none none = refl
  or_else-none (some s) = refl

  -- A clone has the clones of the values under their keys.
  lookup-clone_nodes :
      (ns target : Nodes F) (k : Bytes)
      → Distinct ns
      → lookup k (clone_nodes ns target) ≡ or_else (cloned (lookup k ns)) (lookup k target)
  unfolding clone_store lookup
  lookup-clone_nodes empty target k d = refl
  lookup-clone_nodes (node j v ns) target k d = ground (
    arith,
    lookup-clone_nodes ns (insert j (clone_store v) target) k d.1,
    lookup-insert j k (clone_store v) target,
    bytes_eq_iff j k,
  )

  -- Merging keeps the keys distinct.
  merge_nodes-Distinct : (ns target : Nodes F) → Distinct target → Distinct (merge_nodes target ns)
  unfolding merge_store
  merge_nodes-Distinct empty target d = d
  merge_nodes-Distinct (node k v ns) target d =
      merge_nodes-Distinct ns _ (insert-Distinct k _ target d)

  merged-arrays :
      (target ns : Nodes F) → merged (array target) (array ns) ≡ array (merge_nodes target ns)
  unfolding merged merge_store
  merged-arrays target ns = refl

  abbrev found_key : Option (Store F) → Found F
  found_key none = found none
  found_key (some s) = found (some s)

  get_path-merge :
      (ns : Nodes F)
      → get_path (array ns) (codes "merge") ≡ store_at (found_key (lookup (codes "merge") ns))
  unfolding get_path get_store_path read_component child
  get_path-merge ns = refl

  -- A store with nothing under `merge` is left alone.
  check_files_merge-none :
      (parse : Bytes → Option (Store F)) (profile : Option Bytes) (n : ℕ) (ns : Nodes F)
      → lookup (codes "merge") ns ≡ none
      → check_files_merge parse profile (suc n) (array ns) ≡ done (array ns)
  unfolding check_files_merge
  check_files_merge-none parse profile n ns h =
      let e : get_path (array ns) (codes "merge") ≡ none =
        get_path-merge ns ∙ ap (λ o. store_at (found_key o)) h in
      rw (e, check_files_merge) refl

  user_layer_both :
      (pr u : Nodes F) (a c : Option (Store F)) (b : Bool)
      → a ≡ some (array pr)
      → b ≡ true
      → c ≡ some (array u)
      → user_layer a b c ≡ array (merge_nodes pr u)
  unfolding merged merge_store
  user_layer_both pr u a c b ea eb ec = rw (ea, eb, ec) refl

  global_layer-some :
      (g s : Nodes F) (a : Bool) (b : Option (Store F))
      → a ≡ true
      → b ≡ some (array g)
      → global_layer a b (array s) ≡ done (array (merge_nodes g s))
  unfolding merged merge_store
  global_layer-some g s a b ea eb = rw (ea, eb) refl

  combine-arrays :
      (ro w : Nodes F)
      → combine (array ro) (array w) ≡ some (array (merge_nodes (clone_nodes ro empty) w))
  unfolding combine clone_store merge_store
  combine-arrays ro w = refl

  no_merge :
      (pr u : Nodes F)
      → Distinct u
      → lookup (codes "merge") pr ≡ none
      → lookup (codes "merge") u ≡ none
      → lookup (codes "merge") (merge_nodes pr u) ≡ none
  no_merge pr u d hp hu = lookup-merge_nodes pr u (codes "merge") d ∙ rw (hp, hu) refl

-- The event does not touch the configuration.
triggered_config :
    {D F : Type 0} (ev : Bool) (s : Store F) (w : World D F)
    → ((r : Store F) × ((v : Store F) × ((w.variables.read_only_config ≡ some r)
            × ((w.variables.writable_config ≡ some v) × (combine r v ≡ some s)))))
    → ((triggered ev (codes "reloadedConfig") (with_config (some s) w)).variables.config ≡ some s)
      × IsCombined (triggered ev (codes "reloadedConfig") (with_config (some s) w)).variables
triggered_config true s w (r, (v, (er, (ev, e)))) = (refl, (r, (v, (s, (er, (ev, (refl, e)))))))
triggered_config false s w (r, (v, (er, (ev, e)))) = (refl, (r, (v, (s, (er, (ev, (refl, e)))))))

module _ {D F : Type 0} (disk : Disk D F) where
  -- All the files are there and can be parsed.
  abbrev pub Files : D → Nodes F → Nodes F → Nodes F → Nodes F → Type 0
  Files d pr u g o =
      ((load_file disk d disk.profiles_path ≡ some (array pr))
        × ((disk.exists d disk.user_path ≡ true)
            × (disk.parse_store_file d disk.user_path ≡ some (array u))))
      × (((disk.exists d disk.global_path ≡ true)
            × (disk.parse_store_file d disk.global_path ≡ some (array g)))
          × ((disk.exists d disk.override_path ≡ true)
              × (disk.parse_store_file d disk.override_path ≡ some (array o))))

  load_default_layers :
      (n : ℕ) (d : D) (pr u g o : Nodes F)
      → Files d pr u g o
      → Distinct u
      → lookup (codes "merge") pr ≡ none
      → lookup (codes "merge") u ≡ none
      → load_default_configs disk (suc n) d none ≡ done (array (merge_nodes g (merge_nodes pr u)))
  unfolding load_default_configs
  load_default_layers n d pr u g o f du hp hu =
      let users = user_layer_both pr u _ _ _ f.0.0 f.0.1.0 f.0.1.1 in
      let parse = disk.parse_store_file d in
      let checked =
        ap (check_files_merge parse none (suc n)) users
        ∙ check_files_merge-none parse none n (merge_nodes pr u) (no_merge pr u du hp hu) in
      at_done (global_layer (disk.exists d disk.global_path) (parse disk.global_path)) checked
      ∙ global_layer-some g (merge_nodes pr u) _ _ f.1.0.0 f.1.0.1

  load_writable_there :
      (w : World D F) (o : Nodes F)
      → disk.exists w.disk disk.override_path ≡ true
      → disk.parse_store_file w.disk disk.override_path ≡ some (array o)
      → (load_writable_config disk w).1 ≡ array o
  unfolding load_writable_config
  load_writable_there w o e p = rw (e, p) refl

  -- What a reload leaves when the two configurations merge.
  reloaded :
      (ev : Bool) (read_only s : Store F) (w : World D F)
      → combine read_only (load_writable_config disk w).1 ≡ some s
      → (w' : World D F) × ((reload_writable disk ev read_only w ≡ (w', true))
          × ((w'.variables.config ≡ some s) × IsCombined w'.variables))
  unfolding reload_writable
  reloaded ev read_only s w e =
      let loaded = loaded_world disk read_only w in
      (
        _,
        (
          ap (reload_outcome disk ev read_only loaded) e,
          triggered_config ev s loaded
              (read_only, ((load_writable_config disk w).1, (refl, (refl, e)))),
        ),
      )

  read_only_layers :
      (n : ℕ) (d : D) (cli profile : Option Bytes) (pr u g o : Nodes F)
      → cli ≡ none
      → profile ≡ none
      → Files d pr u g o
      → Distinct u
      → lookup (codes "merge") pr ≡ none
      → lookup (codes "merge") u ≡ none
      → load_read_only_configs disk (suc n) d cli profile
        ≡ done (some (array (merge_nodes g (merge_nodes pr u))))
  unfolding load_read_only_configs
  read_only_layers n d cli profile pr u g o ec ep f du hp hu =
      ap (λ c. load_read_only_configs disk (suc n) d c profile) ec
      ∙ ap (λ p. load_read_only_configs disk (suc n) d none p) ep
      ∙ at_done (λ x. done (some x)) (load_default_layers n d pr u g o f du hp hu)

  layers_key :
      (pr u g o : Nodes F) (key : Bytes)
      → Distinct pr
      → Distinct u
      → Distinct g
      → Distinct o
      → lookup key (merge_nodes (clone_nodes (merge_nodes g (merge_nodes pr u)) empty) o)
        ≡ merged_value
            (cloned (merged_value (lookup key g) (merged_value (lookup key pr) (lookup key u))))
            (lookup key o)
  unfolding lookup
  layers_key pr u g o key dp du dg dr =
      lookup-merge_nodes (clone_nodes (merge_nodes g (merge_nodes pr u)) empty) o key dr
      ∙ ap (λ x. merged_value x (lookup key o))
          (lookup-clone_nodes (merge_nodes g (merge_nodes pr u)) empty key
              (merge_nodes-Distinct (merge_nodes pr u) g dg)
            ∙ or_else-none (cloned (lookup key (merge_nodes g (merge_nodes pr u))))
            ∙ ap cloned (
                lookup-merge_nodes g (merge_nodes pr u) key (merge_nodes-Distinct u pr dp)
                ∙ ap (merged_value (lookup key g)) (lookup-merge_nodes pr u key du)))

  -- If there are no options for a file or a profile, the files of the profiles, the user, the
  -- global configuration and the writable one are all there and parse to arrays with distinct
  -- keys, and those of the profiles and of the user have nothing under "merge", then a reload
  -- succeeds, the configuration is the read-only one with the writable one merged into it, and it
  -- has under every key the value of the writable file merged into the clone of what the global
  -- file, the profiles and the user have there, each merged into the one before.
  pub internal_reload_config_lem :
      (n : ℕ) (ev : Bool) (w : World D F) (pr u g o : Nodes F) (key : Bytes)
      → w.variables.cli_config_file_path ≡ none
      → w.variables.profile_path ≡ none
      → Files w.disk pr u g o
      → (Distinct pr × Distinct u) × (Distinct g × Distinct o)
      → lookup (codes "merge") pr ≡ none
      → lookup (codes "merge") u ≡ none
      → (w' : World D F) × ((cs : Nodes F) × ((internal_reload_config disk (suc n) ev w
              ≡ done (w', true))
            × ((w'.variables.config ≡ some (array cs))
                × (IsCombined w'.variables
                    × (lookup key cs
                        ≡ merged_value
                            (cloned (
                              merged_value
                                (lookup key g)
                                (merged_value (lookup key pr) (lookup key u))))
                            (lookup key o))))))
  unfolding internal_reload_config
  internal_reload_config_lem n ev w pr u g o key ec ep f dis hp hu =
      let ro : Nodes F = merge_nodes g (merge_nodes pr u) in
      let cs : Nodes F = merge_nodes (clone_nodes ro empty) o in
      let cleared : World D F = record w {
        variables = record w.variables {
          config = none;
          writable_config = none;
          read_only_config = none;
        };
      } in
      let there : (load_writable_config disk cleared).1 ≡ array o =
        load_writable_there cleared o f.1.1.0 f.1.1.1 in
      let (w', (e, (c, k))) =
        reloaded ev (array ro) (array cs) cleared
          (ap (combine (array ro)) there ∙ combine-arrays ro o) in
      (
        w',
        (
          cs,
          (
            at_done (λ x. done (reload_read_only disk ev x cleared))
                  (read_only_layers n w.disk _ _ pr u g o ec ep f dis.0.1 hp hu)
                ∙ ap done e,
            (c, (k, layers_key pr u g o key dis.0.0 dis.0.1 dis.1.0 dis.1.1)),
          ),
        ),
      )
