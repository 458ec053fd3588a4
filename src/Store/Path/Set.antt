-- ===== src/Store/Path/Set.antt =====
-- What `getStorePath` finds after `setStorePath` and `deleteStorePath`.
use kalisko.Store.Value.Tables.{lookup-insert, Distinct, lookup-remove}
use kalisko.Store.Path.Walk.{
  walk, walk-none, walk-nil, path_of, split_store_path-path_of, get_store_path-path_of, walk-append,
}
use kalisko.Store.Path.Change.{
  IsPlain, put_at, join_last, join-ne-nil, join_next, cut_last-append, length-join, walk-put_at,
}
use kalisko.Store.Path.{
  read_component, join, write_loop, child, written, replacing, missing, write, at_parent, set_in,
  write_at, array, cut_last, max_path_len, set_store_path, get_store_path, found, delete_store_path,
  delete_in,
}
use kalisko.Store.Value.{Store, Nodes}
use kalisko.Base.{
  ℕ, zero, suc, ◌≤◌, ◌<◌, ◌≡◌, ◌≢◌, refl, sym, ◌∙◌, Bool, true, false, inl, inr, List, [], ◌∷◌,
  ◌++◌, none, some, Bytes, length, length-append, arith, All, Option-cases, take-all, bytes_eq_refl,
  ap, ◌↔◌,
}

module _ {F : Type 0} (f : Store F → Store F × Bool) where
  module _ (n : ℕ) (s : Store F) (p k iter : Bytes)
      (read : read_component [] false p ≡ some (k, iter)) where
    write_loop-missing : p ≢ [] → child s k ≡ none → write_loop f (suc n) s p ≡ missing
    unfolding write_loop
    write_loop-missing ne e = ground arith

    write_loop-last :
        (v : Store F)
        → p ≢ []
        → child s k ≡ some v
        → iter ≡ []
        → write_loop f (suc n) s p ≡ replacing s k (write f v)
    unfolding write_loop
    write_loop-last v ne e i = ground arith

    write_loop-next :
        (v : Store F)
        → p ≢ []
        → child s k ≡ some v
        → iter ≢ []
        → write_loop f (suc n) s p ≡ replacing s k (write_loop f n v iter)
    unfolding write_loop
    write_loop-next v ne e i = ground arith

  write_loop-join :
      (n : ℕ) (s : Store F) (ks : List Bytes) (t : Store F)
      → All IsPlain ks
      → length (join ks) ≤ n
      → walk (some s) ks ≡ some t
      → write_loop f (suc n) s (join ks) ≡ written (put_at f s ks) (f t).1
  write_loop-join n s [] t h b e = unfold write_loop join in ground arith
  write_loop-join n s (k ∷ []) t h b e =
      let c : child s k ≡ some t = sym (walk-nil (child s k)) ∙ e in
      write_loop-last n s (join (k ∷ [])) k [] (join_last k h.0) t (join-ne-nil k [] h.0) c refl
      ∙ rw (c, put_at)
  write_loop-join zero s (k ∷ j ∷ js) t h b e =
      absurd (unfold join in omega (arith, length-append k (b'/' ∷ join (j ∷ js))))
  write_loop-join (suc n) s (k ∷ j ∷ js) t h b e = elim (Option-cases (child s k)) [
    | inl c ↦ absurd (ground (arith, walk-none (j ∷ js)))
    | inr (v, c) ↦
        write_loop-next (suc n) s (join (k ∷ j ∷ js)) k (join (j ∷ js)) (join_next k j js h.0) v
          (join-ne-nil k (j ∷ js) h.0) c (join-ne-nil j js h.1.0)
        ∙ rw
            (write_loop-join n v (j ∷ js) t h.1
              (unfold join in omega (arith, length-append k (b'/' ∷ join (j ∷ js))))
              (rw (c, walk) at e))
            (rw (c, put_at) refl)
  ]

  -- The parts of an assembled path, given to the parent.
  at_parent-append :
      (g : Bytes → Store F → Store F × Bool) (s : Store F) (ks : List Bytes) (key : Bytes)
      → at_parent g s (some (ks ++ key ∷ [])) ≡ write_at (g key) s (join ks)
  at_parent-append g s [] key = unfold cut_last in refl
  at_parent-append g s (k ∷ ks) key = rw (cut_last-append k ks key)

  write_at-join :
      (s : Store F) (ks : List Bytes) (t : Store F)
      → All IsPlain ks
      → length (join ks) < max_path_len
      → walk (some s) ks ≡ some t
      → write_at f s (join ks) ≡ written (put_at f s ks) (f t).1
  unfolding write_at
  write_at-join s ks t h b e = rw (
    take-all 4095 (join ks) (omega arith),
    write_loop-join (length (join ks)) s ks t h (omega arith) e,
  )

module _ {F : Type 0} where
  child-set_in :
      (key : Bytes) (v : Store F) (ns : Nodes F) → child (set_in key v (array ns)).0 key ≡ some v
  unfolding child set_in
  child-set_in key v ns = rw (lookup-insert, bytes_eq_refl)

  module _ (s : Store F) (ks : List Bytes) (key : Bytes) (t : Store F) (h : All IsPlain ks) where
    set_store_path_found :
        (v : Store F)
        → length (path_of ks key) < max_path_len
        → walk (some s) ks ≡ some t
        → set_store_path s (path_of ks key) v
          ≡ written (put_at (set_in key v) s ks) (set_in key v t).1
    unfolding set_store_path
    set_store_path_found v b e =
        rw (take-all 4095 (path_of ks key) (omega arith), split_store_path-path_of ks key)
          (at_parent-append (set_in key v) (λ k. set_in k v) s ks key
            ∙ write_at-join (set_in key v) s ks t h (omega (arith, length-join ks key h)) e)

    delete_store_path_found :
        length (path_of ks key) < max_path_len
        → walk (some s) ks ≡ some t
        → delete_store_path s (path_of ks key)
          ≡ written (put_at (delete_in key) s ks) (delete_in key t).1
    unfolding delete_store_path
    delete_store_path_found b e = rw (split_store_path-path_of ks key) (
        at_parent-append (delete_in key) delete_in s ks key
        ∙ write_at-join (delete_in key) s ks t h (omega (arith, length-join ks key h)) e)

    -- What is found behind a change of the value that the components above the key lead to.
    get_store_path-put_at :
        (f : Store F → Store F × Bool)
        → key ≢ []
        → length (path_of ks key) < max_path_len
        → walk (some s) ks ≡ some t
        → get_store_path (put_at f s ks) (path_of ks key) ≡ found (child (f t).0 key)
    get_store_path-put_at f ne b e =
        get_store_path-path_of (put_at f s ks) ks key ne b
        ∙ rw (walk-append (some (put_at f s ks)) ks (key ∷ []), walk-put_at f s ks e)
            (ap found (walk-nil (child (f t).0 key)))

  -- setStorePath under an array that is there succeeds, and getStorePath then finds the value at
  -- the same path, for components above the key that need no escape and are not empty, a key that
  -- is not empty, and a path that fits the buffer.
  pub get_store_path-set_store_path :
      (s : Store F) (ks : List Bytes) (key : Bytes) (v : Store F) (ns : Nodes F)
      → All IsPlain ks
      → key ≢ []
      → length (path_of ks key) < max_path_len
      → walk (some s) ks ≡ some (array ns)
      → (s' : Store F) × (set_store_path s (path_of ks key) v ≡ written s' true)
        × (get_store_path s' (path_of ks key) ≡ found (some v))
  get_store_path-set_store_path s ks key v ns h ne b e = (
    put_at (set_in key v) s ks,
    unfold set_in in set_store_path_found s ks key (array ns) h v b e,
    get_store_path-put_at s ks key (array ns) h (set_in key v) ne b e
        ∙ ap found (child-set_in key v ns),
  )

  delete_in-done :
      (key : Bytes) (ns : Nodes F)
      → ((delete_in key (array ns)).1 ≡ true) ↔ (found (child (array ns) key) ≢ found none)
  unfolding delete_in child
  delete_in-done key ns = ground arith

  -- deleteStorePath under an array that is there and has distinct keys succeeds exactly if
  -- getStorePath found a value before, and getStorePath finds none after, under the same
  -- conditions on the path.
  pub get_store_path-delete_store_path :
      (s : Store F) (ks : List Bytes) (key : Bytes) (ns : Nodes F)
      → All IsPlain ks
      → key ≢ []
      → length (path_of ks key) < max_path_len
      → walk (some s) ks ≡ some (array ns)
      → Distinct ns
      → (s' : Store F) × (done : Bool) × (delete_store_path s (path_of ks key) ≡ written s' done)
        × (get_store_path s' (path_of ks key) ≡ found none)
        × ((done ≡ true) ↔ (get_store_path s (path_of ks key) ≢ found none))
  get_store_path-delete_store_path s ks key ns h ne b e d = (
    put_at (delete_in key) s ks,
    (delete_in key (array ns)).1,
    delete_store_path_found s ks key (array ns) h b e,
    get_store_path-put_at s ks key (array ns) h (delete_in key) ne b e
        ∙ unfold child delete_in in rw (lookup-remove key key ns d, bytes_eq_refl key),
    rw (get_store_path-path_of s ks key ne b, walk-append (some s) ks (key ∷ []), e, walk, walk-nil)
        (delete_in-done key ns),
  )
