-- ===== src/Store/Lexer/Reads.antt =====
-- The tokens of a text: what `yylex` reads from it, one call after the other.
use kalisko.Base.{ℕ, ◌≡◌, ◌∙◌, List, [], ◌∷◌, Bytes}
use kalisko.Store.Lexer.{start, skip, return, space, delimiter, lex_step, char_type, TokenKind}
use kalisko.Store.Lexer.Yylex.{Token, Location, advance, lexed, yylex}
use kalisko.Store.Lexer.Rounds.{Step, run_skip, run_return}
use kalisko.Store.Lexer.Simple.{EndsSimple}

-- A text that starts with a character at which a simple string ends.
abbrev pub Opens : Bytes → Type 0
Opens [] = ⊥
Opens (c ∷ cs) = EndsSimple (char_type c)

-- A token that does not end the input.
abbrev pub GoesOn : {F : Type 0} → Token F → Type 0
GoesOn Token.eof = ⊥
GoesOn (Token.error e) = ⊥
GoesOn _ = Unit

space-Step : (c : ℕ) → char_type c ≡ space → Step start c TokenKind.eof skip start TokenKind.eof
unfolding lex_step
space-Step c h = record { action = rw h; state = rw h; token = rw h }

delimiter-Step :
    (c : ℕ) → char_type c ≡ delimiter → Step start c TokenKind.eof return start (TokenKind.char c)
unfolding lex_step
delimiter-Step c h = record { action = rw h; state = rw h; token = rw h }

module _ {F : Type 0} (atof : Bytes → F) where
  -- One call of `yylex` reads the token and leaves the rest.
  abbrev pub Reads : Bytes → Token F → Bytes → Type 0
  Reads r t q = (loc : Location) → (l : Location) × (yylex atof loc r ≡ lexed t l q)

  -- The tokens of the text up to token 0.
  abbrev pub Tokens : Bytes → List (Token F) → Type 0
  Tokens r [] = (q : Bytes) × Reads r Token.eof q
  Tokens r (t ∷ ts) = (q : Bytes) × (Reads r t q × (GoesOn t × Tokens q ts))

  skip_space :
      (c : ℕ) (r : Bytes) (loc : Location)
      → char_type c ≡ space
      → yylex atof loc (c ∷ r) ≡ yylex atof (advance c loc) r
  unfolding yylex
  skip_space c r loc h = run_skip atof _ _ _ _ [] loc c r (space-Step c h)

  Reads-space :
      (c : ℕ) (r q : Bytes) (t : Token F) → char_type c ≡ space → Reads r t q → Reads (c ∷ r) t q
  Reads-space c r q t h k loc = let (l, e) = k (advance c loc) in (l, skip_space c r loc h ∙ e)

  -- White space, a comma or a semicolon before the text.
  pub Tokens-space :
      (c : ℕ) (r : Bytes) (ts : List (Token F))
      → char_type c ≡ space
      → Tokens r ts
      → Tokens (c ∷ r) ts
  Tokens-space c r [] h (q, k) = (q, Reads-space c r q Token.eof h k)
  Tokens-space c r (t ∷ ts) h (q, (k, m)) = (q, (Reads-space c r q t h k, m))

  pub Tokens-delimiter :
      (c : ℕ) (r : Bytes) (ts : List (Token F))
      → char_type c ≡ delimiter
      → Tokens r ts
      → Tokens (c ∷ r) (Token.char c ∷ ts)
  unfolding yylex
  Tokens-delimiter c r ts h k = (
    r,
    ((λ loc. (advance c loc, run_return atof _ _ _ _ [] loc c r (delimiter-Step c h))), (tt, k)),
  )
