-- ===== src/Store/Write/Strings.antt =====
-- The strings that `dumpStore` writes are read back by `yylex`.
use kalisko.Store.Lexer.Quoted.{track, yylex-escape_store_string}
use kalisko.Store.Lexer.{char_type}
use kalisko.Store.Lexer.Simple.{EndsSimple, yylex-check_simple}
use kalisko.Store.Lexer.Steps.{IsText}
use kalisko.Store.Write.{quoted, escape_store_string}
use kalisko.Base.{
  ℕ, ◌≡◌, refl, true, false, [], ◌∷◌, ◌++◌, append_assoc, Option, none, some, Bytes, All, arith,
  Bool,
}
use kalisko.Store.Lexer.Yylex.{
  lexed, string, Location, yylex, check_simple_store_string_capability, step_back, advance,
}

module _ {F : Type 0} (atof : Bytes → F) (format_double : F → Bytes) (loc : Location) where
  -- A string or key, as dumpStore writes it, is read by yylex as one string token with that
  -- value, if a delimiter, a quotation mark, the start of a comment, white space or the end
  -- follows, no byte of the string is NUL or 255, and the check of the string does not read
  -- beyond it.
  pub yylex-quoted :
      (s text rest : Bytes) (d : ℕ) (loc' : Location)
      → All IsText s
      → EndsSimple (char_type d)
      → quoted atof format_double loc s ≡ some text
      → (l : Location) × (yylex atof loc' (text ++ d ∷ rest) ≡ lexed (string s) l (d ∷ rest))
  unfolding quoted
  yylex-quoted s text rest d loc' h e q =
      after (check_simple_store_string_capability atof loc s) refl
    where
      after :
          (o : Option Bool)
          → check_simple_store_string_capability atof loc s ≡ o
          → (l : Location) × (yylex atof loc' (text ++ d ∷ rest) ≡ lexed (string s) l (d ∷ rest))
      after none c = absurd (ground arith)
      after (some true) c =
          let same : text ≡ s = ground arith in
          (
            step_back (advance d (track s loc')),
            rw same (yylex-check_simple atof s loc loc' d rest c e),
          )
      after (some false) c =
          let same : text ≡ b'"' ∷ (escape_store_string s ++ b'"' ∷ []) = ground arith in
          (
            track (b'"' ∷ (escape_store_string s ++ b'"' ∷ [])) loc',
            rw (same, append_assoc) (yylex-escape_store_string atof s (d ∷ rest) loc' h),
          )
