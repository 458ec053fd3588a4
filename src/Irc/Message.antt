-- ===== src/Irc/Message.antt =====
-- A message that is written in the form of the protocol is parsed into its parts.
use mathlib.Core.List.{append_assoc, append-nil}
use kalisko.Base.{
  ◌≡◌, refl, ◌∙◌, ap, ℕ, Bool, true, false, ◌==◌, Option, none, some, List, [], ◌∷◌, ◌++◌, Bytes,
  arith, All,
}
use kalisko.Strings.{
  is_white, squeeze, strip_duplicate_whitespace, pieces, strsplit, strchr, strstr, chug, chomp,
  unless_last,
}
use kalisko.Irc.{parse_params}

-- No character is white.
abbrev pub AreText : Bytes → Type 0
AreText s = All (λ c. is_white c ≡ false) s

-- A word does not start with a colon.
abbrev pub IsWord : Bytes → Type 0
IsWord [] = ⊥
IsWord (c ∷ cs) = (c == b':' ≡ false) × AreText (c ∷ cs)

-- The words of a message, each after a space.
abbrev pub words_text : List Bytes → Bytes
words_text [] = []
words_text (w ∷ ws) = b' ' ∷ (w ++ words_text ws)

abbrev pub trailing_text : Option Bytes → Bytes
trailing_text none = []
trailing_text (some t) = b' ' ∷ b':' ∷ t

pub strchr-text : (w r : Bytes) → AreText w → strchr b' ' (w ++ b' ' ∷ r) ≡ some (w, b' ' ∷ r)
unfolding strchr is_white
strchr-text [] r h = refl
strchr-text (c ∷ cs) r h = ground (arith, h.0, strchr-text cs r h.1)

pub strchr-no_space : (w : Bytes) → AreText w → strchr b' ' w ≡ none
unfolding strchr is_white
strchr-no_space [] h = refl
strchr-no_space (c ∷ cs) h = ground (arith, h.0, strchr-no_space cs h.1)

abbrev pub before_trailing : Bytes → Option Bytes → Option (Bytes × Bytes)
before_trailing s none = none
before_trailing s (some t) = some (s, trailing_text (some t))

strstr-trailing : (t : Option Bytes) → strstr b' ' b':' (trailing_text t) ≡ before_trailing [] t
unfolding strstr
strstr-trailing none = refl
strstr-trailing (some t) = refl

strstr-text :
    (w r s : Bytes) (t : Option Bytes)
    → AreText w
    → strstr b' ' b':' r ≡ before_trailing s t
    → strstr b' ' b':' (w ++ r) ≡ before_trailing (w ++ s) t
unfolding strstr is_white
strstr-text [] r s t h e = e
strstr-text (c ∷ cs) r s none h e = ground (arith, h.0, strstr-text cs r s none h.1 e)
strstr-text (c ∷ cs) r s (some t) h e = ground (arith, h.0, strstr-text cs r s (some t) h.1 e)

strstr-space :
    (c : ℕ) (cs s : Bytes) (t : Option Bytes)
    → c == b':' ≡ false
    → strstr b' ' b':' (c ∷ cs) ≡ before_trailing s t
    → strstr b' ' b':' (b' ' ∷ c ∷ cs) ≡ before_trailing (b' ' ∷ s) t
unfolding strstr
strstr-space c cs s none h e = ground (arith, h, e)
strstr-space c cs s (some t) h e = ground (arith, h, e)

pub strstr-words :
    (ws : List Bytes) (t : Option Bytes)
    → All IsWord ws
    → strstr b' ' b':' (words_text ws ++ trailing_text t) ≡ before_trailing (words_text ws) t
strstr-words [] t h = strstr-trailing t
strstr-words ([] ∷ ws) t h = elim h.0 [ ]
strstr-words ((c ∷ cs) ∷ ws) t h =
    let e =
      strstr-text (c ∷ cs) (words_text ws ++ trailing_text t) (words_text ws) t h.0.1
        (strstr-words ws t h.1) in
    strstr-space c ((cs ++ words_text ws) ++ trailing_text t) ((c ∷ cs) ++ words_text ws) t h.0.0
      (ap (strstr b' ' b':') (append_assoc (c ∷ cs) (words_text ws) (trailing_text t)) ∙ e)

-- What `g_strchug` and `g_strchomp` take for white is so for the sources, and a space is.
pub record IsSpace (isspace : ℕ → Bool) : Type 0 where
  pub blank : isspace b' ' ≡ true
  pub among : (c : ℕ) → is_white c ≡ false → isspace c ≡ false

module _ (isspace : ℕ → Bool) (spaces : IsSpace isspace) where
  pub chug-word : (w r : Bytes) → IsWord w → chug isspace (b' ' ∷ (w ++ r)) ≡ w ++ r
  unfolding chug
  chug-word [] r h = elim h [ ]
  chug-word (c ∷ cs) r h = ground (arith, spaces.blank, spaces.among c, h)

  chomp-cons :
      (c : ℕ) (cs : Bytes)
      → isspace c ≡ false
      → chomp isspace cs ≡ cs
      → chomp isspace (c ∷ cs) ≡ c ∷ cs
  unfolding chomp
  chomp-cons c [] h e = ground (arith, h)
  chomp-cons c (x ∷ xs) h e = ap (λ s. unless_last isspace c s) e

  chomp-text : (w r : Bytes) → AreText w → chomp isspace r ≡ r → chomp isspace (w ++ r) ≡ w ++ r
  chomp-text [] r h e = e
  chomp-text (c ∷ cs) r h e = chomp-cons c (cs ++ r) (spaces.among c h.0) (chomp-text cs r h.1 e)

  chomp-blank :
      (c : ℕ) (cs : Bytes)
      → chomp isspace (c ∷ cs) ≡ c ∷ cs
      → chomp isspace (b' ' ∷ c ∷ cs) ≡ b' ' ∷ c ∷ cs
  unfolding chomp
  chomp-blank c cs e = ap (λ s. unless_last isspace b' ' s) e

  chomp-words : (ws : List Bytes) → All IsWord ws → chomp isspace (words_text ws) ≡ words_text ws
  unfolding chomp
  chomp-words [] h = refl
  chomp-words ([] ∷ ws) h = elim h.0 [ ]
  chomp-words ((c ∷ cs) ∷ ws) h =
      chomp-blank c (cs ++ words_text ws)
        (chomp-text (c ∷ cs) (words_text ws) h.0.1 (chomp-words ws h.1))

squeeze-text :
    (w r : Bytes)
    → AreText w
    → squeeze is_white b' ' false r ≡ r
    → squeeze is_white b' ' false (w ++ r) ≡ w ++ r
unfolding squeeze
squeeze-text [] r h e = e
squeeze-text (c ∷ cs) r h e = ground (arith, h.0, squeeze-text cs r h.1 e)

squeeze-words :
    (ws : List Bytes) → All IsWord ws → squeeze is_white b' ' false (words_text ws) ≡ words_text ws
unfolding squeeze is_white
squeeze-words [] h = refl
squeeze-words ([] ∷ ws) h = elim h.0 [ ]
squeeze-words ((c ∷ cs) ∷ ws) h =
    ground (arith, h.0.1.0, squeeze-text cs (words_text ws) h.0.1.1 (squeeze-words ws h.1))

pieces-text :
    (w r p : Bytes) (ps : List Bytes)
    → AreText w
    → pieces b' ' r ≡ p ∷ ps
    → pieces b' ' (w ++ r) ≡ (w ++ p) ∷ ps
unfolding pieces is_white
pieces-text [] r p ps h e = e
pieces-text (c ∷ cs) r p ps h e = ground (arith, h.0, pieces-text cs r p ps h.1 e)

pieces-words : (ws : List Bytes) → All IsWord ws → pieces b' ' (words_text ws) ≡ [] ∷ ws
unfolding pieces
pieces-words [] h = refl
pieces-words ([] ∷ ws) h = elim h.0 [ ]
pieces-words ((c ∷ cs) ∷ ws) h =
    ap (λ ps. [] ∷ ps)
      (pieces-text (c ∷ cs) (words_text ws) [] ws h.0.1 (pieces-words ws h.1)
        ∙ ap (λ w. w ∷ ws) (append-nil (c ∷ cs)))

pub parse_params-words :
    (isspace : ℕ → Bool) (w : Bytes) (ws : List Bytes)
    → IsSpace isspace
    → All IsWord (w ∷ ws)
    → parse_params isspace (words_text (w ∷ ws)) ≡ w ∷ ws
unfolding parse_params strip_duplicate_whitespace
parse_params-words isspace [] ws s h = elim h.0 [ ]
parse_params-words isspace (c ∷ cs) ws s h =
    let text = (c ∷ cs) ++ words_text ws in
    ap (λ x. strsplit b' ' (squeeze is_white b' ' false (chomp isspace x)))
      (chug-word isspace s (c ∷ cs) (words_text ws) h.0)
    ∙ ap (λ x. strsplit b' ' (squeeze is_white b' ' false x))
        (chomp-text isspace s (c ∷ cs) (words_text ws) h.0.1 (chomp-words isspace s ws h.1))
    ∙ ap (strsplit b' ') (squeeze-text (c ∷ cs) (words_text ws) h.0.1 (squeeze-words ws h.1))
    ∙ pieces-text (c ∷ cs) (words_text ws) [] ws h.0.1 (pieces-words ws h.1)
    ∙ ap (λ x. x ∷ ws) (append-nil (c ∷ cs))
