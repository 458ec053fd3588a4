-- ===== src/Store/Path/Walk.antt =====
-- Paths assembled from escaped components: what they split into and where they lead.
use kalisko.Store.Path.{
  get_loop, split_loop, split_store_path, read_component, Store, child, found, get_store_path,
  max_path_len,
}
use kalisko.Base.{
  ℕ, zero, suc, ◌≤◌, ◌<◌, ◌≡◌, ◌≢◌, refl, ◌∙◌, false, ◌||◌, inl, inr, List, [], ◌∷◌, ◌++◌, Option,
  none, some, append-nil, append_assoc, ◌==◌, if◌then◌else◌, Bytes, length, length-append, arith,
  Option-cases, take-all, sym,
}

-- A backslash before each slash and backslash.
abbrev pub escape_char : ℕ → Bytes
escape_char c = if c == b'/' || c == b'\\' then b'\\' ∷ c ∷ [] else c ∷ []

abbrev pub escape : Bytes → Bytes
escape [] = []
escape (c ∷ cs) = escape_char c ++ escape cs

-- The path through the components `ks` to `k`.
abbrev pub path_of : List Bytes → Bytes → Bytes
path_of [] k = escape k
path_of (j ∷ js) k = escape j ++ b'/' ∷ path_of js k

read_component-escape_char :
    (c : ℕ) (acc rest : Bytes)
    → read_component acc false (escape_char c ++ rest) ≡ read_component (acc ++ c ∷ []) false rest
unfolding read_component
read_component-escape_char c acc rest = ground arith

pub read_component-slash :
    (k acc rest : Bytes)
    → read_component acc false (escape k ++ b'/' ∷ rest) ≡ some (acc ++ k, rest)
read_component-slash [] acc rest = unfold read_component in rw append-nil
read_component-slash (c ∷ cs) acc rest = simp append_assoc (
    read_component-escape_char c acc _
    ∙ read_component-slash cs (acc ++ c ∷ []) rest
    ∙ rw append_assoc)

pub read_component-end : (k acc : Bytes) → read_component acc false (escape k) ≡ some (acc ++ k, [])
read_component-end [] acc = unfold read_component in rw append-nil
read_component-end (c ∷ cs) acc =
    read_component-escape_char c acc _ ∙ read_component-end cs (acc ++ c ∷ []) ∙ rw append_assoc

split_loop-escape_char :
    (parts : List Bytes) (c : ℕ) (acc rest : Bytes)
    → split_loop parts acc false (escape_char c ++ rest)
      ≡ split_loop parts (acc ++ c ∷ []) false rest
unfolding split_loop
split_loop-escape_char parts c acc rest = ground arith

split_loop-slash :
    (parts : List Bytes) (k acc rest : Bytes)
    → split_loop parts acc false (escape k ++ b'/' ∷ rest)
      ≡ split_loop (parts ++ (acc ++ k) ∷ []) [] false rest
split_loop-slash parts [] acc rest = unfold split_loop in rw append-nil
split_loop-slash parts (c ∷ cs) acc rest = simp append_assoc (
    split_loop-escape_char parts c acc _
    ∙ split_loop-slash parts cs (acc ++ c ∷ []) rest
    ∙ rw append_assoc)

split_loop-end :
    (parts : List Bytes) (k acc : Bytes)
    → split_loop parts acc false (escape k) ≡ some (parts ++ (acc ++ k) ∷ [])
split_loop-end parts [] acc = unfold split_loop in rw append-nil
split_loop-end parts (c ∷ cs) acc =
    split_loop-escape_char parts c acc _ ∙ split_loop-end parts cs (acc ++ c ∷ []) ∙ rw append_assoc

split_loop-path_of :
    (parts ks : List Bytes) (k : Bytes)
    → split_loop parts [] false (path_of ks k) ≡ some (parts ++ (ks ++ k ∷ []))
split_loop-path_of parts [] k = split_loop-end parts k []
split_loop-path_of parts (j ∷ js) k =
    split_loop-slash parts j [] _ ∙ split_loop-path_of (parts ++ j ∷ []) js k ∙ rw append_assoc

-- splitStorePath gives back the components of which a path was assembled, with slashes and
-- backslashes in them escaped.
pub split_store_path-path_of :
    (ks : List Bytes) (k : Bytes) → split_store_path (path_of ks k) ≡ some (ks ++ k ∷ [])
unfolding split_store_path
split_store_path-path_of ks k = split_loop-path_of [] ks k

escape-ne-nil : (k : Bytes) → k ≢ [] → escape k ≢ []
escape-ne-nil [] h = h
escape-ne-nil (c ∷ cs) h = ground arith

path_of-ne-nil : (ks : List Bytes) (k : Bytes) → k ≢ [] → path_of ks k ≢ []
path_of-ne-nil [] k h = escape-ne-nil k h
path_of-ne-nil ([] ∷ js) k h = ground arith
path_of-ne-nil ((c ∷ cs) ∷ js) k h = ground arith

module _ {F : Type 0} where
  -- From container to child along the components.
  abbrev pub walk : Option (Store F) → List Bytes → Option (Store F)
  walk none ks = none
  walk (some s) [] = some s
  walk (some s) (k ∷ ks) = walk (child s k) ks

  pub walk-none : (ks : List Bytes) → walk none ks ≡ none
  walk-none [] = refl
  walk-none (k ∷ ks) = refl

  pub walk-nil : (o : Option (Store F)) → walk o [] ≡ o
  walk-nil none = refl
  walk-nil (some s) = refl

  pub walk-append :
      (o : Option (Store F)) (js ks : List Bytes) → walk o (js ++ ks) ≡ walk (walk o js) ks
  walk-append none js ks = rw (walk-none js) (walk-none (js ++ ks) ∙ sym (walk-none ks))
  walk-append (some s) [] ks = refl
  walk-append (some s) (j ∷ js) ks = walk-append (child s j) js ks

  module _ (n : ℕ) (s : Store F) (p k iter : Bytes)
      (read : read_component [] false p ≡ some (k, iter)) where
    get_loop-missing : p ≢ [] → child s k ≡ none → get_loop (suc n) s p ≡ found none
    unfolding get_loop
    get_loop-missing ne e = ground arith

    get_loop-last :
        {v : Store F}
        → p ≢ []
        → child s k ≡ some v
        → iter ≡ []
        → get_loop (suc n) s p ≡ found (some v)
    unfolding get_loop
    get_loop-last ne e i = ground arith

    get_loop-next :
        {v : Store F}
        → p ≢ []
        → child s k ≡ some v
        → iter ≢ []
        → get_loop (suc n) s p ≡ get_loop n v iter
    unfolding get_loop
    get_loop-next ne e i = ground arith

  get_loop-path_of :
      (n : ℕ) (s : Store F) (ks : List Bytes) (k : Bytes)
      → k ≢ []
      → length (path_of ks k) ≤ n
      → get_loop (suc n) s (path_of ks k) ≡ found (walk (some s) (ks ++ k ∷ []))
  get_loop-path_of n s [] k ne h = elim (Option-cases (child s k)) [
    | inl e ↦
        rw (e, walk)
          (get_loop-missing n s (escape k) k [] (read_component-end k []) (escape-ne-nil k ne) e)
    | inr (v, e) ↦
        rw (e, walk)
          (get_loop-last n s (escape k) k [] (read_component-end k []) (escape-ne-nil k ne) e refl)
  ]
  get_loop-path_of zero s (j ∷ js) k ne h =
      absurd (omega (arith, length-append (escape j) (b'/' ∷ path_of js k)))
  get_loop-path_of (suc n) s (j ∷ js) k ne h = elim (Option-cases (child s j)) [
    | inl e ↦
        rw (e, walk)
          (get_loop-missing (suc n) s _ j _ (read_component-slash j [] (path_of js k))
            (path_of-ne-nil (j ∷ js) k ne) e)
    | inr (v, e) ↦
        rw (e, walk)
          (get_loop-next (suc n) s _ j _ (read_component-slash j [] (path_of js k))
              (path_of-ne-nil (j ∷ js) k ne) e (path_of-ne-nil js k ne)
            ∙ get_loop-path_of n v js k ne
                (omega (arith, length-append (escape j) (b'/' ∷ path_of js k))))
  ]

  -- getStorePath of a path assembled from escaped components leads where the components lead one
  -- after the other, or to NULL where one is missing, if the last is not empty and the path fits
  -- the buffer.
  pub get_store_path-path_of :
      (s : Store F) (ks : List Bytes) (k : Bytes)
      → k ≢ []
      → length (path_of ks k) < max_path_len
      → get_store_path s (path_of ks k) ≡ found (walk (some s) (ks ++ k ∷ []))
  unfolding get_store_path
  get_store_path-path_of s ks k ne h =
      rw (take-all 4095 (path_of ks k) (omega arith))
        (get_loop-path_of (length (path_of ks k)) s ks k ne (omega arith))
