-- ===== src/Store/Lexer/Yylex.antt =====
-- src/modules/store/lexer.c: `yylex` and `lexStore`, over the readers of
-- src/modules/store/parse.c.
use kalisko.Base.{
  ℕ, zero, suc, ◌+◌, ◌-◌, Bool, false, List, [], ◌∷◌, ◌++◌, Option, none, some, ◌==◌, if◌then◌else◌,
  Bytes, bytes_eq, length,
}
use kalisko.Base.Clib.{atoi}
use kalisko.Base.Int.{ℤ}
use kalisko.Store.Lexer.{
  Lexer, LexError, TokenKind, start, repeat, consume, skip, return, pushback_return, lex_step,
  char_type,
}

-- A token with its value, `lval`.
pub data Token (F : Type 0) : Type 0 where
  eof : Token F
  string : Bytes → Token F
  integer : ℤ → Token F
  float_number : F → Token F
  error : LexError → Token F
  char : ℕ → Token F

-- `YYLTYPE`, as far as the lexer writes it.
pub record Location : Type 0 where
  pub last_line : ℕ
  pub last_column : ℕ

-- What `yylex` does before it looks at the state.
abbrev pub advance : ℕ → Location → Location
advance c loc =
    if c == b'\n'
    then record { last_line = loc.last_line + 1; last_column = 1 }
    else record loc { last_column = loc.last_column + 1 }

-- `lloc->last_column--`, which stands behind the increment above.
abbrev pub step_back : Location → Location
step_back loc = record loc { last_column = loc.last_column - 1 }

-- `StoreReader` and `StoreUnreader`. `none` is a read beyond the memory of the resource.
pub record Reader (R : Type 0) : Type 0 where
  pub read : R → Option (ℕ × R)
  pub unread : ℕ → R → R

abbrev uncons : Bytes → Option (ℕ × Bytes)
uncons [] = none
uncons (c ∷ cs) = some (c, cs)

-- `storeStringRead` and `storeStringUnread`: the resource is what stands from the pointer on, the
-- terminating NUL included. The lexer gives back only the character that it read last.
unfoldable pub string_reader : Reader Bytes
string_reader = record { read = uncons; unread = ◌∷◌ }

-- `storeFileRead` and `storeFileUnread`: at the end of the file, `EOF` is read and not given back.
abbrev file_read : Bytes → Option (ℕ × Bytes)
file_read [] = some (255, [])
file_read (c ∷ cs) = some (c, cs)

unfoldable pub file_reader : Reader Bytes
file_reader = record { read = file_read; unread = λ c cs. if c == 255 then cs else c ∷ cs }

pub data Lexed (F R : Type 0) : Type 0 where
  lexed : Token F → Location → R → Lexed F R
  fault : Lexed F R
  out_of_fuel : Lexed F R

-- The results of `lexStore`.
pub data Results (F : Type 0) : Type 0 where
  results : List (Token F) → Results F
  fault : Results F
  out_of_fuel : Results F

abbrev pub initial : Lexer
initial = record { state = start; assemble = []; token = TokenKind.eof }

abbrev pub push : {F : Type 0} → Token F → Results F → Results F
push t (results ts) = results (t ∷ ts)
push t r = r

-- The C library's `atof` is the parameter.
module _ {F : Type 0} (atof : Bytes → F) where
  -- The `switch` on `lex.token` when a token is returned.
  abbrev pub token_value : TokenKind → Bytes → Token F
  token_value TokenKind.eof a = eof
  token_value TokenKind.string a = string a
  token_value TokenKind.integer a = integer (atoi a)
  token_value TokenKind.float_number a = float_number (atof a)
  token_value (TokenKind.error e) a = error e
  token_value (TokenKind.char c) a = char c

  -- The `while(true)` of `yylex`.
  unfoldable pub yylex_loop : {R : Type 0} → Reader R → ℕ → Lexer → Location → R → Lexed F R
  yylex_loop reader zero lex loc r = Lexed.out_of_fuel
  yylex_loop reader (suc n) lex loc r = elim (reader.read r) [
    | none ↦ Lexed.fault
    | some (c, r') ↦
        let step = lex_step lex.state (char_type c) c lex.token in
        let moved = advance c loc in
        let next : Lexer = record {
          state = step.state;
          assemble = lex.assemble;
          token = step.token;
        } in
        elim step.action [
          | repeat ↦ yylex_loop reader n next (step_back moved) (reader.unread c r')
          | consume ↦
              yylex_loop reader n (record next { assemble = lex.assemble ++ c ∷ [] }) moved r'
          | skip ↦ yylex_loop reader n next moved r'
          | return ↦ lexed (token_value step.token lex.assemble) moved r'
          | pushback_return ↦
              lexed (token_value step.token lex.assemble) (step_back moved) (reader.unread c r')
        ]
  ]

  -- `yylex` on a string. A round of the loop reads a character, so that this is fuel enough.
  unfoldable pub run : Lexer → Location → Bytes → Lexed F Bytes
  unfolding yylex_loop string_reader
  run lex loc r = yylex_loop string_reader (suc (length r)) lex loc r

  unfoldable pub yylex : Location → Bytes → Lexed F Bytes
  unfolding run
  yylex = run initial

  -- The loop of `lexStore`, which ends at token 0.
  unfoldable pub lex_store_loop : ℕ → Location → Bytes → Results F
  unfolding yylex
  lex_store_loop zero loc r = Results.out_of_fuel
  lex_store_loop (suc n) loc r = elim (yylex loc r) [
    | lexed eof loc' r' ↦ results []
    | lexed t loc' r' ↦ push t (lex_store_loop n loc' r')
    | Lexed.fault ↦ Results.fault
    | Lexed.out_of_fuel ↦ Results.out_of_fuel
  ]

  -- `lexStoreString`; `lloc` is not initialised by `lexStore`. A token takes a character at least.
  unfoldable pub lex_store_string : Location → Bytes → Results F
  unfolding lex_store_loop
  lex_store_string loc s = lex_store_loop (suc (suc (length s))) loc (s ++ 0 ∷ [])

  abbrev pub is_string : Bytes → Results F → Option Bool
  is_string s (results (string t ∷ [])) = some (bytes_eq t s)
  is_string s (results _) = some false
  is_string s _ = none

  -- `checkSimpleStoreStringCapability`; `none` where it reads beyond the string's memory.
  unfoldable pub check_simple_store_string_capability : Location → Bytes → Option Bool
  unfolding lex_store_string bytes_eq
  check_simple_store_string_capability loc s = is_string s (lex_store_string loc s)
