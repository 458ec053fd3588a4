-- ===== src/Store/Path/Change.antt =====
-- `setStorePath` and `deleteStorePath` on paths assembled from components.
use kalisko.Store.Value.Tables.{lookup-insert, size-set_nth, nth-set_nth}
use kalisko.Store.Path.Walk.{
  escape, path_of, walk, read_component-slash, read_component-end, walk-none,
}
use kalisko.Store.Path.{
  cut_last, child, join, replace_child, Store, read_component, array, list, atoi, Items, ℤ, item_at,
  in_bounds, size, set_item, pos, negsuc,
}
use kalisko.Base.{
  ◌≤◌, ◌≡◌, ◌≢◌, refl, Bool, false, ◌||◌, inl, inr, List, [], ◌∷◌, ◌++◌, none, some, ◌==◌,
  Bool-cases, Bytes, length, length-append, arith, All, ap, Option-cases, bytes_eq_refl, ltb,
}

-- A component with nothing to escape.
pub record IsPlain (k : Bytes) : Type 0 where
  pub ne_nil : k ≢ []
  pub plain : All (λ c. (c == b'/' || c == b'\\') ≡ false) k

escape_plain : (k : Bytes) → All (λ c. (c == b'/' || c == b'\\') ≡ false) k → escape k ≡ k
escape_plain [] h = refl
escape_plain (c ∷ cs) h = rw h.0 (ap (◌∷◌ c) (escape_plain cs h.1))

escape-IsPlain : {k : Bytes} → IsPlain k → escape k ≡ k
escape-IsPlain {k} h = escape_plain k h.plain

pub join_last : (k : Bytes) → IsPlain k → read_component [] false (join (k ∷ [])) ≡ some (k, [])
unfolding join
join_last k h = rw (escape-IsPlain h) at (read_component-end k [])

pub join_next :
    (k j : Bytes) (js : List Bytes)
    → IsPlain k
    → read_component [] false (join (k ∷ j ∷ js)) ≡ some (k, join (j ∷ js))
unfolding join
join_next k j js h = rw (escape-IsPlain h) at (read_component-slash k [] (join (j ∷ js)))

pub join-ne-nil : (k : Bytes) (ks : List Bytes) → IsPlain k → join (k ∷ ks) ≢ []
unfolding join
join-ne-nil [] ks h = absurd (h.ne_nil refl)
join-ne-nil (c ∷ cs) [] h = ground arith
join-ne-nil (c ∷ cs) (j ∷ js) h = ground arith

pub length-join :
    (ks : List Bytes) (key : Bytes) → All IsPlain ks → length (join ks) ≤ length (path_of ks key)
unfolding join
length-join [] key h = omega arith
length-join (k ∷ []) key h =
    rw (escape-IsPlain h.0) (omega (arith, length-append k (b'/' ∷ path_of [] key)))
length-join (k ∷ j ∷ js) key h = rw (escape-IsPlain h.0) (
    omega (
      arith,
      length-append k (b'/' ∷ path_of (j ∷ js) key),
      length-append k (b'/' ∷ join (j ∷ js)),
      length-join (j ∷ js) key h.1,
    ))

pub cut_last-append :
    (k : Bytes) (ks : List Bytes) (key : Bytes) → cut_last k (ks ++ key ∷ []) ≡ (k ∷ ks, key)
unfolding cut_last
cut_last-append k [] key = refl
cut_last-append k (j ∷ js) key = rw (cut_last-append j js key)

module _ {F : Type 0} where
  item_at-set_item :
      (vs : Items F) (i : ℤ) (w : Store F) {v : Store F}
      → item_at vs (in_bounds i (size vs)) ≡ some v
      → item_at
          (set_item vs (in_bounds i (size vs)) w)
          (in_bounds i (size (set_item vs (in_bounds i (size vs)) w)))
        ≡ some w
  item_at-set_item vs (pos i) w e = elim (Bool-cases (ltb i (size vs))) [
    | inl b ↦ rw (b, size-set_nth, b) (nth-set_nth vs i w (rw b at e))
    | inr b ↦ absurd (ground arith)
  ]
  item_at-set_item vs (negsuc i) w e = ground arith

  pub child-replace_child :
      (s : Store F) (k : Bytes) (w : Store F) {v : Store F}
      → child s k ≡ some v
      → child (replace_child s k w) k ≡ some w
  unfolding child replace_child
  child-replace_child (array ns) k w e = ground (arith, lookup-insert k k w ns, bytes_eq_refl k)
  child-replace_child (list vs) k w e = item_at-set_item vs (atoi k) w e
  child-replace_child _ k w e = ground arith

  -- The store after `f` has worked on the value under the components.
  abbrev pub put_at : (Store F → Store F × Bool) → Store F → List Bytes → Store F
  put_at f s [] = (f s).0
  put_at f s (k ∷ ks) = elim (child s k) [ none ↦ s | some v ↦ replace_child s k (put_at f v ks) ]

  pub walk-put_at :
      (f : Store F → Store F × Bool) (s : Store F) (ks : List Bytes) {t : Store F}
      → walk (some s) ks ≡ some t
      → walk (some (put_at f s ks)) ks ≡ some (f t).0
  walk-put_at f s [] e = ground arith
  walk-put_at f s (k ∷ ks) e = elim (Option-cases (child s k)) [
    | inl c ↦ absurd (ground (arith, walk-none ks))
    | inr (v, c) ↦
        rw (c, put_at, walk)
          (rw (child-replace_child s k (put_at f v ks) c) (walk-put_at f v ks (rw (c, walk) at e)))
  ]
