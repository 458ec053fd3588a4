-- ===== src/Base/Clib.antt =====
-- Functions of the C library that the sources call, in the C locale.
pub mod Decimal
use Prim.Native.Nat.{ℕ, ◌+◌, ◌-◌, ◌*◌, ◌/◌, ◌%◌, zero, suc}
use mathlib.Core.Bool.{Bool, ◌&&◌, ◌||◌}
use mathlib.Core.List.{[], ◌∷◌, ◌++◌}
use kalisko.Base.Tests.{◌==◌, leb, ltb, if◌then◌else◌}
use kalisko.Base.Lists.{Bytes}
use kalisko.Base.Int.{ℤ, pos, negsuc, neg_ℕ}

-- `isspace` and `isdigit` of the C locale.
abbrev pub is_space : ℕ → Bool
is_space c = c == 32 || (leb 9 c && leb c 13)

abbrev pub is_digit : ℕ → Bool
is_digit c = leb b'0' c && leb c b'9'

-- `atoi` of the C library, on numbers that an `int` can hold: white space, a sign, digits.
unfoldable pub digits_value : ℕ → Bytes → ℕ
digits_value acc [] = acc
digits_value acc (c ∷ cs) =
    let rest = digits_value (acc * 10 + (c - 48)) cs in if is_digit c then rest else acc

unfoldable pub atoi : Bytes → ℤ
unfolding digits_value
atoi [] = pos 0
atoi (c ∷ cs) =
    let rest = atoi cs in
    if is_space c
    then rest
    else if c == b'-'
    then neg_ℕ (digits_value 0 cs)
    else if c == b'+'
    then pos (digits_value 0 cs)
    else pos (digits_value 0 (c ∷ cs))

-- The decimal digits of a number, as `printf` writes them. A number has at most `n` of them
-- beyond the last.
unfoldable pub decimal_loop : ℕ → ℕ → Bytes
decimal_loop zero n = (n % 10 + 48) ∷ []
decimal_loop (suc k) n =
    let more = decimal_loop k (n / 10) in
    if ltb n 10 then (n + 48) ∷ [] else more ++ (n % 10 + 48) ∷ []

unfoldable pub decimal : ℕ → Bytes
unfolding decimal_loop
decimal n = decimal_loop n n

-- `%d`
unfoldable pub format_int : ℤ → Bytes
unfolding decimal
format_int (pos n) = decimal n
format_int (negsuc n) = b'-' ∷ decimal (suc n)
