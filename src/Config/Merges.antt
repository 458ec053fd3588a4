-- ===== src/Config/Merges.antt =====
-- The merges that a configuration file asks for, where they go wrong.
use kalisko.Base.{ℕ, zero, suc, ◌≡◌, refl, ◌∙◌, ap, Option, none, some, Bytes, codes}
use kalisko.Store.Value.{Store, string}
use kalisko.Config.{
  Result, done, out_of_fuel, ◌>>=◌, get_path, merge_prepared, prepare, check_files_merge, prepared,
  check_pointer, freed,
}

module _ {F : Type 0} (parse : Bytes → Option (Store F)) (profile : Option Bytes) where
  merge_one :
      (n : ℕ) (store : Store F) (path : Bytes)
      → get_path store (codes "merge") ≡ some (string path)
      → check_files_merge parse profile (suc n) store ≡ (
          prepare parse profile
            (check_files_merge parse profile n)
            (check_pointer (check_files_merge parse profile n) freed)
            path
          >>= λ import. done (merge_prepared store import))
  unfolding check_files_merge
  merge_one n store path e = rw (e, check_files_merge) refl

  merge_nothing :
      (n : ℕ) (store : Store F)
      → get_path store (codes "merge") ≡ none
      → check_files_merge parse profile (suc n) store ≡ done store
  unfolding check_files_merge
  merge_nothing n store e = rw (e, check_files_merge) refl

  prepare_parsed :
      (check : Store F → Result (Store F)) (missing : Result (Option (Store F))) (path : Bytes)
      (s : Store F) (r : Result (Store F))
      → parse path ≡ some s
      → check s ≡ r
      → prepare parse profile check missing path ≡ (r >>= prepared parse profile check missing)
  prepare_parsed check missing path s r e c =
      rw (e, prepare) (ap (λ x. x >>= prepared parse profile check missing) c)

  -- On a file that asks for the merge of a file with the same store, such as itself,
  -- checkFilesMerge does not end.
  pub check_files_merge_endless :
      (n : ℕ) (store : Store F) (path : Bytes)
      → get_path store (codes "merge") ≡ some (string path)
      → parse path ≡ some store
      → check_files_merge parse profile n store ≡ out_of_fuel
  check_files_merge_endless zero store path e q = unfold check_files_merge in refl
  check_files_merge_endless (suc n) store path e q =
      merge_one n store path e
      ∙ ap (λ r. r >>= λ x. done (merge_prepared store x))
          (prepare_parsed (check_files_merge parse profile n)
            (check_pointer (check_files_merge parse profile n) freed) path store out_of_fuel q
            (check_files_merge_endless n store path e q))
