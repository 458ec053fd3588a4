-- ===== src/Base/Clib/Decimal.antt =====
-- The C library's `atoi` reads back what its `%d` writes.
use kalisko.Base.{
  ℕ, zero, suc, ◌+◌, ◌*◌, ◌/◌, ◌%◌, ◌≤◌, ◌<◌, ◌≡◌, refl, [], ◌∷◌, ◌++◌, Bytes, All, arith, length,
  length-append, ◌-◌,
}
use kalisko.Base.Int.{ℤ, pos, negsuc}
use kalisko.Base.Clib.{digits_value, atoi, decimal, decimal_loop, format_int}

abbrev pub IsDigit : ℕ → Type 0
IsDigit c = (b'0' ≤ c) × (c ≤ b'9')

digits_value-append :
    (w v : Bytes) (acc : ℕ)
    → All IsDigit w
    → digits_value acc (w ++ v) ≡ digits_value (digits_value acc w) v
unfolding digits_value
digits_value-append [] v acc h = refl
digits_value-append (c ∷ w) v acc h =
    ground (arith, digits_value-append w v (acc * 10 + (c - 48)) h.1)

All-snoc : (w : Bytes) (c : ℕ) → All IsDigit w → IsDigit c → All IsDigit (w ++ c ∷ [])
All-snoc [] c h k = (k, tt)
All-snoc (d ∷ w) c h k = (h.0, All-snoc w c h.1 k)

decimal_loop-IsDigit : (k n : ℕ) → All IsDigit (decimal_loop k n)
unfolding decimal_loop
decimal_loop-IsDigit zero n = ((omega arith, omega arith), tt)
decimal_loop-IsDigit (suc k) n =
    ground
      (arith, All-snoc (decimal_loop k (n / 10)) (n % 10 + 48) (decimal_loop-IsDigit k (n / 10)))

decimal_loop-digits_value : (k n : ℕ) → n ≤ k → digits_value 0 (decimal_loop k n) ≡ n
unfolding decimal_loop digits_value
decimal_loop-digits_value zero n h = ground arith
decimal_loop-digits_value (suc k) n h = ground (
  arith,
  digits_value-append (decimal_loop k (n / 10)) ((n % 10 + 48) ∷ []) 0
      (decimal_loop-IsDigit k (n / 10)),
  decimal_loop-digits_value k (n / 10),
)

decimal_loop-length : (k n : ℕ) → 0 < length (decimal_loop k n)
unfolding decimal_loop
decimal_loop-length zero n = omega arith
decimal_loop-length (suc k) n =
    ground (arith, length-append (decimal_loop k (n / 10)) ((n % 10 + 48) ∷ []))

atoi-digits : (w : Bytes) → All IsDigit w → 0 < length w → atoi w ≡ pos (digits_value 0 w)
unfolding atoi
atoi-digits [] h k = ground arith
atoi-digits (c ∷ w) h k = ground arith

pub decimal-IsDigit : (n : ℕ) → All IsDigit (decimal n)
unfolding decimal
decimal-IsDigit n = decimal_loop-IsDigit n n

pub decimal-length : (n : ℕ) → 0 < length (decimal n)
unfolding decimal
decimal-length n = decimal_loop-length n n

digits_value-decimal : (n : ℕ) → digits_value 0 (decimal n) ≡ n
unfolding decimal
digits_value-decimal n = decimal_loop-digits_value n n (omega arith)

-- atoi reads back the number that %d writes.
pub atoi-format_int : (i : ℤ) → atoi (format_int i) ≡ i
unfolding format_int
atoi-format_int (pos n) =
    rw (atoi-digits (decimal n) (decimal-IsDigit n) (decimal-length n), digits_value-decimal n) refl
atoi-format_int (negsuc n) = unfold atoi in rw (digits_value-decimal (suc n)) refl
