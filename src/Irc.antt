-- ===== src/Irc.antt =====
-- src/modules/irc_parser/irc_parser.c: IRC messages and user masks. The characters that GLib's
-- `g_strchug` and `g_strchomp` strip are a parameter.
pub mod Message
pub mod RoundTrip
pub mod Mask
mod Tests
use kalisko.Base.{
  ℕ, Bool, true, false, ◌==◌, if◌then◌else◌, Option, none, some, List, [], ◌∷◌, Bytes, length, take,
  ltb, ◌-◌,
}
use kalisko.Strings.{strip_duplicate_whitespace, strsplit, strchr, strstr, chug, chomp}

-- `IrcMessage`
pub record IrcMessage : Type 0 where
  pub raw_message : Bytes
  pub prefix : Option Bytes
  pub command : Bytes
  pub params : Option (List Bytes)
  pub params_count : ℕ
  pub trailing : Option Bytes

-- `IrcUserMask`
pub record IrcUserMask : Type 0 where
  pub nick : Bytes
  pub user : Option Bytes
  pub host : Option Bytes

abbrev tail : Bytes → Bytes
tail [] = []
tail (c ∷ cs) = cs

-- The mask from the first `!` and the first `@`; `none` is a length below zero, for which `g_strndup`
-- allocates without success and ends the program.
abbrev pub mask_of : Bytes → Option (Bytes × Bytes) → Option (Bytes × Bytes) → Option IrcUserMask
mask_of s none none = some (record { nick = s; user = none; host = none })
mask_of s none (some (before, host)) = none
mask_of s (some (nick, user)) none =
    some (record { nick = nick; user = some (tail user); host = none })
mask_of s (some (nick, user)) (some (before, host)) =
    if ltb (length before) (length nick)
    then none
    else some (record {
      nick = nick;
      user = some (take (length before - length nick - 1) (tail user));
      host = some (tail host);
    })

abbrev pub given : Option IrcUserMask → Option (Option IrcUserMask)
given none = none
given (some m) = some (some m)

-- `parseIrcUserMask`, which answers `NULL` for `NULL`.
unfoldable pub parse_irc_user_mask : Option Bytes → Option (Option IrcUserMask)
unfolding strchr
parse_irc_user_mask none = some none
parse_irc_user_mask (some s) = given (mask_of s (strchr b'!' s) (strchr b'@' s))

abbrev pub second_on : Bytes → Bytes
second_on (a ∷ (b ∷ cs)) = cs
second_on s = []

abbrev pub with_params : Bytes → Option Bytes → Bytes → List Bytes → Option Bytes → IrcMessage
with_params raw prefix command params trailing = record {
  raw_message = raw;
  prefix = prefix;
  command = command;
  params = some params;
  params_count = length params;
  trailing = trailing;
}

abbrev pub without_params : Bytes → Option Bytes → Bytes → Option Bytes → IrcMessage
without_params raw prefix command trailing = record {
  raw_message = raw;
  prefix = prefix;
  command = command;
  params = none;
  params_count = 0;
  trailing = trailing;
}

module _ (isspace : ℕ → Bool) where
  -- The words of the parameters.
  unfoldable pub parse_params : Bytes → List Bytes
  parse_params text = strsplit b' ' (strip_duplicate_whitespace (chomp isspace (chug isspace text)))

  -- The end of a message from the space after the command: the parameters and the trailing part.
  unfoldable pub parse_end :
      Bytes → Option Bytes → Bytes → Bytes → Option (Bytes × Bytes) → IrcMessage
  parse_end raw prefix command rest none = with_params raw prefix command (parse_params rest) none
  parse_end raw prefix command rest (some ([], found)) =
      without_params raw prefix command (some (second_on (chomp isspace found)))
  parse_end raw prefix command rest (some (c ∷ cs, found)) =
      with_params raw prefix command (parse_params (c ∷ cs))
        (some (second_on (chomp isspace found)))

  -- The command, at the first space or at the end.
  unfoldable pub parse_command : Bytes → Option Bytes → Bytes → Option (Bytes × Bytes) → IrcMessage
  unfolding parse_end
  parse_command raw prefix part none = without_params raw prefix part none
  parse_command raw prefix part (some (command, rest)) =
      parse_end raw prefix command rest (strstr b' ' b':' rest)

  abbrev parse_part : Bytes → Option Bytes → Bytes → IrcMessage
  parse_part raw prefix part = parse_command raw prefix part (strchr b' ' part)

  abbrev pub after_prefix : Bytes → Option (Bytes × Bytes) → Option IrcMessage
  after_prefix raw none = none
  after_prefix raw (some (prefix, rest)) = some (parse_part raw (some prefix) (chug isspace rest))

  -- `parseIrcMessage`
  unfoldable pub parse_irc_message : Bytes → Option IrcMessage
  unfolding parse_command
  parse_irc_message [] = some (parse_part [] none [])
  parse_irc_message (c ∷ cs) =
      if c == b':'
      then after_prefix (c ∷ cs) (strchr b' ' cs)
      else some (parse_part (c ∷ cs) none (chug isspace (c ∷ cs)))
