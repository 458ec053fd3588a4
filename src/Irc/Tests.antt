-- ===== src/Irc/Tests.antt =====
-- Runs of the functions on strings and of the IRC parser.
use kalisko.Base.{◌≡◌, refl, some, [], ◌∷◌, Bytes, codes, arith}
use kalisko.Strings.{
  is_white, is_newline, strip_duplicate_whitespace, strip_duplicate_newlines, chomp,
}
use kalisko.Strings.Squeezed.{strip_duplicates_lem, IsSqueezed}
use kalisko.Irc.{parse_irc_message, parse_irc_user_mask}
use kalisko.Irc.Message.{IsSpace}
use kalisko.Irc.RoundTrip.{message_text, message_of, parse_irc_message-message_text}
use kalisko.Irc.Mask.{parse_irc_user_mask-mask_parts, mask_parts}

abbrev two_lines : Bytes
two_lines = codes "a \t b\r\n\n c"

strip_duplicates_lem_example :
    IsSqueezed is_white b' ' two_lines (strip_duplicate_whitespace two_lines)
    × IsSqueezed is_newline 10 two_lines (strip_duplicate_newlines two_lines)
strip_duplicates_lem_example = strip_duplicates_lem two_lines

is_white-IsSpace : IsSpace is_white
unfolding is_white
is_white-IsSpace = record { blank = refl; among = λ c h. h }

-- `:irc.net PRIVMSG #kalisko you :Hello World`
parse_irc_message-message_text_example :
    parse_irc_message is_white (
      message_text
        (some (codes "irc.net"))
        (codes "PRIVMSG")
        (codes "#kalisko" ∷ codes "you" ∷ [])
        (some (codes "Hello World")))
    ≡ some (
        message_of
          (some (codes "irc.net"))
          (codes "PRIVMSG")
          (codes "#kalisko" ∷ codes "you" ∷ [])
          (some (codes "Hello World")))
unfolding is_white chomp
parse_irc_message-message_text_example =
    parse_irc_message-message_text is_white is_white-IsSpace (some (codes "irc.net"))
      (codes "PRIVMSG") (codes "#kalisko" ∷ codes "you" ∷ []) (some (codes "Hello World"))
      (ground arith) (ground arith) (ground arith) refl

parse_irc_user_mask-mask_parts_example :
    parse_irc_user_mask (some (codes "Someone!someone@Someone.user.gamesurge"))
    ≡ mask_parts (codes "Someone") (some (codes "someone")) (some (codes "Someone.user.gamesurge"))
parse_irc_user_mask-mask_parts_example =
    parse_irc_user_mask-mask_parts (codes "Someone") (some (codes "someone"))
      (some (codes "Someone.user.gamesurge")) (ground arith) (ground arith) (ground arith)
      (ground arith)
