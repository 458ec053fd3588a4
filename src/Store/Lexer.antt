-- ===== src/Store/Lexer.antt =====
-- src/modules/store/lexer.c: the characters, the state machine and `yylex`.
pub mod Yylex
pub mod Steps
pub mod Rounds
pub mod Quoted
pub mod Total
pub mod Simple
pub mod Reads
pub mod Numbers
use kalisko.Base.Clib.{is_space, is_digit}
use kalisko.Base.{ℕ, Bool, ◌&&◌, ◌||◌, ◌==◌, leb, if◌then◌else◌, Bytes}

-- `StoreLexCharType`
pub data CharType : Type 0 where
  delimiter space quotation comment escape decimal end digit letter : CharType

-- `getStoreLexCharType`. A character is its byte; `char` is signed, so that byte 255 is `EOF`.
unfoldable pub char_type : ℕ → CharType
char_type c =
    if is_space c
    then space
    else if is_digit c
    then digit
    else if c == 255 || c == 0
    then end
    else if c == b'.'
    then decimal
    else if c == b'"'
    then quotation
    else if c == b'\\'
    then escape
    else if c == b'/' || c == b'#'
    then comment
    else if c == b'(' || c == b')' || c == b'{' || c == b'}' || c == b'='
    then delimiter
    else if c == b';' || c == b','
    then space
    else if c == b'-'
    then digit
    else letter

-- `LexerState`
pub data LexerState : Type 0 where
  start commenting reading_string_simple reading_string_extended : LexerState
  reading_string_extended_escaping reading_number_int reading_number_float : LexerState

-- `LexerAction`
pub data LexerAction : Type 0 where
  repeat consume skip return pushback_return : LexerAction

-- The three messages that go with token -1.
pub data LexError : Type 0 where
  unexpected_end unexpected_escape double_decimal_mark : LexError

-- `lex->token`, before its value is read off `assemble`: 0, -1, a delimiter, or one of the three
-- token numbers.
pub data TokenKind : Type 0 where
  eof string integer float_number : TokenKind
  error : LexError → TokenKind
  char : ℕ → TokenKind

-- `LexerStruct`. `c` and `type` are those of the character in hand. Setting token -1 also assigns
-- the message to `assemble`, and nothing else reads `assemble` then: the message stands in the kind.
pub record Lexer : Type 0 where
  pub state : LexerState
  pub assemble : Bytes
  pub token : TokenKind

-- What a state function returns: its action, and the state and token that it leaves.
pub record LexStep : Type 0 where
  pub action : LexerAction
  pub state : LexerState
  pub token : TokenKind

abbrev act : LexerAction → LexerState → TokenKind → LexStep
act a s t = record { action = a; state = s; token = t }

pub lex_state_start : ℕ → CharType → TokenKind → LexStep
lex_state_start c delimiter t = act return start (char c)
lex_state_start c space t = act skip start t
lex_state_start c quotation t = act skip reading_string_extended t
lex_state_start c comment t = act skip commenting t
lex_state_start c escape t = act consume reading_string_simple t
lex_state_start c decimal t = act consume reading_number_float t
lex_state_start c end t = act return start t
lex_state_start c digit t = act consume reading_number_int t
lex_state_start c letter t = act consume reading_string_simple t

pub lex_state_commenting : ℕ → CharType → TokenKind → LexStep
lex_state_commenting c end t = act return commenting t
lex_state_commenting c _ t = act skip (if c == b'\n' then start else commenting) t

pub lex_state_reading_string_simple : CharType → TokenKind → LexStep
lex_state_reading_string_simple delimiter t = act pushback_return reading_string_simple string
lex_state_reading_string_simple quotation t = act pushback_return reading_string_simple string
lex_state_reading_string_simple comment t = act pushback_return reading_string_simple string
lex_state_reading_string_simple space t = act pushback_return reading_string_simple string
lex_state_reading_string_simple end t = act pushback_return reading_string_simple string
lex_state_reading_string_simple _ t = act consume reading_string_simple t

pub lex_state_reading_string_extended : CharType → TokenKind → LexStep
lex_state_reading_string_extended quotation t = act return reading_string_extended string
lex_state_reading_string_extended escape t = act skip reading_string_extended_escaping t
lex_state_reading_string_extended end t = act return reading_string_extended (error unexpected_end)
lex_state_reading_string_extended _ t = act consume reading_string_extended t

pub lex_state_reading_string_extended_escaping : CharType → TokenKind → LexStep
lex_state_reading_string_extended_escaping quotation t = act consume reading_string_extended t
lex_state_reading_string_extended_escaping escape t = act consume reading_string_extended t
lex_state_reading_string_extended_escaping _ t =
    act return reading_string_extended_escaping (error unexpected_escape)

pub lex_state_reading_number_int : CharType → TokenKind → LexStep
lex_state_reading_number_int digit t = act consume reading_number_int t
lex_state_reading_number_int decimal t = act consume reading_number_float t
lex_state_reading_number_int letter t = act consume reading_string_simple t
lex_state_reading_number_int _ t = act pushback_return reading_number_int integer

pub lex_state_reading_number_float : CharType → TokenKind → LexStep
lex_state_reading_number_float digit t = act consume reading_number_float t
lex_state_reading_number_float decimal t =
    act return reading_number_float (error double_decimal_mark)
lex_state_reading_number_float letter t = act consume reading_string_simple t
lex_state_reading_number_float _ t = act pushback_return reading_number_float float_number

-- The first `switch` of `yylex`, on the type of the character in hand.
unfoldable pub lex_step : LexerState → CharType → ℕ → TokenKind → LexStep
unfolding lex_state_start lex_state_commenting lex_state_reading_string_simple
    lex_state_reading_string_extended lex_state_reading_string_extended_escaping
    lex_state_reading_number_int lex_state_reading_number_float
lex_step start type c t = lex_state_start c type t
lex_step commenting type c t = lex_state_commenting c type t
lex_step reading_string_simple type c t = lex_state_reading_string_simple type t
lex_step reading_string_extended type c t = lex_state_reading_string_extended type t
lex_step reading_string_extended_escaping type c t =
    lex_state_reading_string_extended_escaping type t
lex_step reading_number_int type c t = lex_state_reading_number_int type t
lex_step reading_number_float type c t = lex_state_reading_number_float type t
