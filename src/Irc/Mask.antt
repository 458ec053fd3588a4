-- ===== src/Irc/Mask.antt =====
-- User masks, with and without a user and a host.
use kalisko.Base.{
  ◌≡◌, refl, sym, ◌∙◌, ap, ℕ, ◌-◌, Bool, false, ◌==◌, ltb, if◌then◌else◌, Option, none, some, [],
  ◌∷◌, ◌++◌, Bytes, length, length-append, take, arith, All,
}
use kalisko.Strings.{strchr}
use kalisko.Irc.{IrcUserMask, parse_irc_user_mask, mask_of, given}
use mathlib.Core.List.{append_assoc, append-nil}

-- No character is the one.
abbrev pub IsFreeOf : ℕ → Bytes → Type 0
IsFreeOf d s = All (λ c. c == d ≡ false) s

strchr-found : (d : ℕ) (s r : Bytes) → IsFreeOf d s → strchr d (s ++ d ∷ r) ≡ some (s, d ∷ r)
unfolding strchr
strchr-found d [] r h = ground arith
strchr-found d (c ∷ cs) r h = ground (arith, h.0, strchr-found d cs r h.1)

strchr-free : (d : ℕ) (s : Bytes) → IsFreeOf d s → strchr d s ≡ none
unfolding strchr
strchr-free d [] h = refl
strchr-free d (c ∷ cs) h = ground (arith, h.0, strchr-free d cs h.1)

free_append : (d : ℕ) (s r : Bytes) → IsFreeOf d s → IsFreeOf d r → IsFreeOf d (s ++ r)
free_append d [] r h k = k
free_append d (c ∷ cs) r h k = (h.0, free_append d cs r h.1 k)

take-append : (s r : Bytes) → take (length s) (s ++ r) ≡ s
take-append [] r = refl
take-append (c ∷ cs) r = ap (◌∷◌ c) (take-append cs r)

-- A mask: the nick, a user after `!` and a host after `@`.
abbrev pub user_text : Option Bytes → Bytes
user_text none = []
user_text (some u) = b'!' ∷ u

abbrev pub host_text : Option Bytes → Bytes
host_text none = []
host_text (some h) = b'@' ∷ h

abbrev pub IsFreeUser : Option Bytes → Type 0
IsFreeUser none = Unit
IsFreeUser (some u) = IsFreeOf b'@' u

-- The parts of the mask, if there is no host without a user.
abbrev pub mask_parts : Bytes → Option Bytes → Option Bytes → Option (Option IrcUserMask)
mask_parts nick none (some h) = none
mask_parts nick user host = some (some (record { nick = nick; user = user; host = host }))

abbrev pub IsFreeHost : Option Bytes → Type 0
IsFreeHost none = Unit
IsFreeHost (some h) = IsFreeOf b'!' h

cut_user :
    (late : Bool) (n : ℕ) (nick u h : Bytes)
    → late ≡ false
    → n ≡ length u
    → ◌≡◌ {A = Option IrcUserMask}
        (if late
          then none
          else some (record { nick = nick; user = some (take n (u ++ b'@' ∷ h)); host = some h }))
        (some (record { nick = nick; user = some u; host = some h }))
cut_user late n nick u h e f =
    ground (arith, e, ap (λ m. take m (u ++ b'@' ∷ h)) f, take-append u (b'@' ∷ h))

both_found :
    (s nick u h : Bytes)
    → mask_of s (some (nick, b'!' ∷ (u ++ b'@' ∷ h))) (some (nick ++ b'!' ∷ u, b'@' ∷ h))
      ≡ some (record { nick = nick; user = some u; host = some h })
both_found s nick u h =
    let e = length-append nick (b'!' ∷ u) in
    cut_user (ltb (length (nick ++ b'!' ∷ u)) (length nick))
      (length (nick ++ b'!' ∷ u) - length nick - 1) nick u h (ground (arith, e)) (omega (arith, e))

mask_by :
    (s : Bytes) (x y : Option (Bytes × Bytes))
    → strchr b'!' s ≡ x
    → strchr b'@' s ≡ y
    → parse_irc_user_mask (some s) ≡ given (mask_of s x y)
unfolding parse_irc_user_mask
mask_by s x y e f =
    ap (λ v. given (mask_of s v (strchr b'@' s))) e ∙ ap (λ v. given (mask_of s x v)) f

-- For a nick without ! and @, an optional user without @ after a ! and an optional host without !
-- after an @: parseIrcUserMask answers these parts, except for a host without a user, where the
-- length that it gives to g_strndup is below zero and the program ends.
pub parse_irc_user_mask-mask_parts :
    (nick : Bytes) (user host : Option Bytes)
    → IsFreeOf b'!' nick
    → IsFreeOf b'@' nick
    → IsFreeUser user
    → IsFreeHost host
    → parse_irc_user_mask (some (nick ++ (user_text user ++ host_text host)))
      ≡ mask_parts nick user host
parse_irc_user_mask-mask_parts nick none none a b f g =
    ap (λ s. parse_irc_user_mask (some s)) (append-nil nick)
    ∙ mask_by nick none none (strchr-free b'!' nick a) (strchr-free b'@' nick b)
parse_irc_user_mask-mask_parts nick (some u) none a b f g =
    let s = nick ++ b'!' ∷ u in
    ap (λ x. parse_irc_user_mask (some (nick ++ b'!' ∷ x))) (append-nil u)
    ∙ mask_by s (some (nick, b'!' ∷ u)) none (strchr-found b'!' nick u a)
        (strchr-free b'@' s (free_append b'@' nick (b'!' ∷ u) b (refl, f)))
parse_irc_user_mask-mask_parts nick none (some h) a b f g =
    let s = nick ++ b'@' ∷ h in
    mask_by s none (some (nick, b'@' ∷ h))
      (strchr-free b'!' s (free_append b'!' nick (b'@' ∷ h) a (refl, g)))
      (strchr-found b'@' nick h b)
parse_irc_user_mask-mask_parts nick (some u) (some h) a b f g =
    let s = nick ++ b'!' ∷ (u ++ b'@' ∷ h) in
    mask_by s (some (nick, b'!' ∷ (u ++ b'@' ∷ h))) (some (nick ++ b'!' ∷ u, b'@' ∷ h))
      (strchr-found b'!' nick (u ++ b'@' ∷ h) a)
      (ap (strchr b'@') (sym (append_assoc nick (b'!' ∷ u) (b'@' ∷ h)))
        ∙ strchr-found b'@' (nick ++ b'!' ∷ u) h (free_append b'@' nick (b'!' ∷ u) b (refl, f)))
    ∙ ap given (both_found s nick u h)
