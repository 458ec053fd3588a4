-- ===== src/Store/Lexer/Steps.antt =====
-- What one round of `yylex` does, by the type of the character.
use kalisko.Base.{ℕ, ◌<◌, ◌≡◌, ◌≢◌, arith}
use kalisko.Store.Lexer.{
  CharType, quotation, escape, end, LexerState, reading_string_extended, repeat, consume, TokenKind,
  lex_step, char_type,
}

-- A byte that a C string can hold, and that the reader does not take for `EOF`.
abbrev pub IsText : ℕ → Type 0
IsText c = (0 < c) × (c < 255)

pub char_type-end : (c : ℕ) → IsText c → char_type c ≢ end
unfolding char_type
char_type-end c h = ground arith

pub char_type-quotation : (c : ℕ) → c ≢ b'"' → char_type c ≢ quotation
unfolding char_type
char_type-quotation c h = ground arith

pub char_type-escape : (c : ℕ) → c ≢ b'\\' → char_type c ≢ escape
unfolding char_type
char_type-escape c h = ground arith

pub lex_step-ne-repeat :
    (s : LexerState) (type : CharType) (c : ℕ) (t : TokenKind)
    → (lex_step s type c t).action ≢ repeat
unfolding lex_step
lex_step-ne-repeat s type c t = ground arith

pub lex_step_extended :
    (type : CharType) (c : ℕ) (t : TokenKind)
    → type ≢ end
    → type ≢ quotation
    → type ≢ escape
    → lex_step reading_string_extended type c t
      ≡ record { action = consume; state = reading_string_extended; token = t }
unfolding lex_step
lex_step_extended type c t e q b = ground arith
