-- ===== src/Irc/RoundTrip.antt =====
-- Messages in the form of the protocol: written and parsed.
use mathlib.Core.List.{append_assoc, append-nil}
use kalisko.Base.{
  ◌≡◌, refl, ◌∙◌, ap, ℕ, Bool, false, ◌==◌, Option, none, some, List, [], ◌∷◌, ◌++◌, Bytes, length,
  arith, All,
}
use kalisko.Strings.{strchr, chug, chomp, is_white, unless_last}
use kalisko.Irc.{
  IrcMessage, parse_irc_message, parse_params, parse_end, parse_command, with_params,
  without_params, second_on, after_prefix,
}
use kalisko.Irc.Message.{
  AreText, IsWord, IsSpace, words_text, trailing_text, before_trailing, strchr-text,
  strchr-no_space, strstr-words, parse_params-words, chug-word,
}

-- `NULL` for no parameters.
abbrev pub words_given : List Bytes → Option (List Bytes)
words_given [] = none
words_given (w ∷ ws) = some (w ∷ ws)

abbrev pub prefix_text : Option Bytes → Bytes
prefix_text none = []
prefix_text (some p) = b':' ∷ (p ++ b' ' ∷ [])

-- A message with its parts in the order of the protocol.
abbrev pub message_text : Option Bytes → Bytes → List Bytes → Option Bytes → Bytes
message_text prefix command words trailing =
    prefix_text prefix ++ (command ++ (words_text words ++ trailing_text trailing))

abbrev pub message_of : Option Bytes → Bytes → List Bytes → Option Bytes → IrcMessage
message_of prefix command words trailing = record {
  raw_message = message_text prefix command words trailing;
  prefix = prefix;
  command = command;
  params = words_given words;
  params_count = length words;
  trailing = trailing;
}

abbrev pub IsPrefix : Option Bytes → Type 0
IsPrefix none = Unit
IsPrefix (some p) = AreText p

-- The trailing part does not end in white characters.
abbrev pub EndsSolid : (ℕ → Bool) → Option Bytes → Type 0
EndsSolid isspace none = Unit
EndsSolid isspace (some t) = chomp isspace t ≡ t

abbrev parts : Bytes → Option Bytes → Bytes → List Bytes → Option Bytes → IrcMessage
parts raw prefix command words trailing = record {
  raw_message = raw;
  prefix = prefix;
  command = command;
  params = words_given words;
  params_count = length words;
  trailing = trailing;
}

module _ (isspace : ℕ → Bool) (spaces : IsSpace isspace) where
  chomp-trailing :
      (t : Bytes) → chomp isspace t ≡ t → chomp isspace (b' ' ∷ b':' ∷ t) ≡ b' ' ∷ b':' ∷ t
  unfolding chomp is_white
  chomp-trailing [] e = ground (arith, spaces.among b':')
  chomp-trailing (x ∷ xs) e = ap (λ s. unless_last isspace b' ' (unless_last isspace b':' s)) e

  parse_end-words :
      (raw : Bytes) (prefix : Option Bytes) (command rest w : Bytes) (ws : List Bytes)
      (t : Option Bytes)
      → All IsWord (w ∷ ws)
      → EndsSolid isspace t
      → rest ≡ words_text (w ∷ ws) ++ trailing_text t
      → parse_end isspace raw prefix command rest (before_trailing (words_text (w ∷ ws)) t)
        ≡ parts raw prefix command (w ∷ ws) t
  unfolding parse_end
  parse_end-words raw prefix command rest w ws none h e r =
      ap (λ x. with_params raw prefix command x none)
        (ap (parse_params isspace) (r ∙ append-nil (words_text (w ∷ ws)))
          ∙ parse_params-words isspace w ws spaces h)
  parse_end-words raw prefix command rest w ws (some t) h e r =
      ap
        (λ x.
          with_params raw prefix command x
            (some (second_on (chomp isspace (trailing_text (some t))))))
        (parse_params-words isspace w ws spaces h)
      ∙ ap (λ x. with_params raw prefix command (w ∷ ws) (some (second_on x))) (chomp-trailing t e)

  parse_end-trailing :
      (raw : Bytes) (prefix : Option Bytes) (command rest t : Bytes)
      → EndsSolid isspace (some t)
      → parse_end isspace raw prefix command rest (before_trailing [] (some t))
        ≡ parts raw prefix command [] (some t)
  unfolding parse_end
  parse_end-trailing raw prefix command rest t e =
      ap (λ x. without_params raw prefix command (some (second_on x))) (chomp-trailing t e)

  -- The command and what follows it.
  parse_command-text :
      (raw : Bytes) (prefix : Option Bytes) (command : Bytes) (words : List Bytes)
      (t : Option Bytes)
      → IsWord command
      → All IsWord words
      → EndsSolid isspace t
      → parse_command isspace raw prefix
          (command ++ (words_text words ++ trailing_text t))
          (strchr b' ' (command ++ (words_text words ++ trailing_text t)))
        ≡ parts raw prefix command words t
  unfolding parse_command
  parse_command-text raw prefix [] words t c h e = elim c [ ]
  parse_command-text raw prefix (x ∷ xs) [] none c h e =
      ap (λ s. parse_command isspace raw prefix s (strchr b' ' s)) (append-nil (x ∷ xs))
      ∙ ap (parse_command isspace raw prefix (x ∷ xs)) (strchr-no_space (x ∷ xs) c.1)
  parse_command-text raw prefix (x ∷ xs) [] (some t) c h e =
      let rest = trailing_text (some t) in
      ap (parse_command isspace raw prefix ((x ∷ xs) ++ rest)) (strchr-text (x ∷ xs) (b':' ∷ t) c.1)
      ∙ ap (parse_end isspace raw prefix (x ∷ xs) rest) (strstr-words [] (some t) tt)
      ∙ parse_end-trailing raw prefix (x ∷ xs) rest t e
  parse_command-text raw prefix (x ∷ xs) (w ∷ ws) t c h e =
      let rest = words_text (w ∷ ws) ++ trailing_text t in
      ap (parse_command isspace raw prefix ((x ∷ xs) ++ rest))
        (strchr-text (x ∷ xs) ((w ++ words_text ws) ++ trailing_text t) c.1)
      ∙ ap (parse_end isspace raw prefix (x ∷ xs) rest) (strstr-words (w ∷ ws) t h)
      ∙ parse_end-words raw prefix (x ∷ xs) rest w ws t h e refl

  parse-no_prefix :
      (x : ℕ) (cs : Bytes)
      → x == b':' ≡ false
      → isspace x ≡ false
      → parse_irc_message isspace (x ∷ cs)
        ≡ some (parse_command isspace (x ∷ cs) none (x ∷ cs) (strchr b' ' (x ∷ cs)))
  unfolding parse_irc_message chug
  parse-no_prefix x cs h k = rw h rw k refl

  parse-prefix :
      (cs p body : Bytes)
      → strchr b' ' cs ≡ some (p, b' ' ∷ body)
      → chug isspace (b' ' ∷ body) ≡ body
      → parse_irc_message isspace (b':' ∷ cs)
        ≡ some (parse_command isspace (b':' ∷ cs) (some p) body (strchr b' ' body))
  unfolding parse_irc_message
  parse-prefix cs p body h k =
      ap (after_prefix isspace (b':' ∷ cs)) h
      ∙ ap (λ s. some (parse_command isspace (b':' ∷ cs) (some p) s (strchr b' ' s))) k

  -- When what GLib strips as white is white for the string functions and a space is so: a message
  -- of an optional prefix without white characters, a command and parameters that are words (not
  -- empty, without white characters and without a colon at the start) and an optional trailing
  -- part that does not end in white characters, written with a colon before the prefix, a space
  -- before each parameter and a space and a colon before the trailing part, is parsed by
  -- parseIrcMessage into exactly these parts.
  pub parse_irc_message-message_text :
      (prefix : Option Bytes) (command : Bytes) (words : List Bytes) (trailing : Option Bytes)
      → IsPrefix prefix
      → IsWord command
      → All IsWord words
      → EndsSolid isspace trailing
      → parse_irc_message isspace (message_text prefix command words trailing)
        ≡ some (message_of prefix command words trailing)
  parse_irc_message-message_text prefix [] words t p c h e = elim c [ ]
  parse_irc_message-message_text none (x ∷ xs) words t p c h e =
      let body = xs ++ (words_text words ++ trailing_text t) in
      parse-no_prefix x body c.0 (spaces.among x c.1.0)
      ∙ ap some (parse_command-text (x ∷ body) none (x ∷ xs) words t c h e)
  parse_irc_message-message_text (some q) (x ∷ xs) words t p c h e =
      let rest = words_text words ++ trailing_text t in
      let body = (x ∷ xs) ++ rest in
      let cs = (q ++ b' ' ∷ []) ++ body in
      parse-prefix cs q body
        (ap (strchr b' ') (append_assoc q (b' ' ∷ []) body) ∙ strchr-text q body p)
        (chug-word isspace spaces (x ∷ xs) rest c)
      ∙ ap some (parse_command-text (b':' ∷ cs) (some q) (x ∷ xs) words t c h e)
