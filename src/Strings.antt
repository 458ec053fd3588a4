-- ===== src/Strings.antt =====
-- src/modules/string_util/string_util.c: functions on strings, and the functions of the C library and
-- GLib that cut strings at a character. Strings are changed in place in the sources; here the result
-- is the string afterwards.
pub mod Squeezed
use kalisko.Base.{
  ℕ, Bool, true, false, ◌==◌, ◌||◌, if◌then◌else◌, Option, none, some, List, [], ◌∷◌, Bytes, leb,
  ◌&&◌, ◌++◌, length, zero, suc,
}

-- `WHITESPACE_CHARS`
unfoldable pub is_white : ℕ → Bool
is_white c = c == 32 || (leb 9 c && leb c 13)

-- `NEWLINE_CHARS`
unfoldable pub is_newline : ℕ → Bool
is_newline c = c == 10 || c == 13

-- Every run of separators becomes `kept`; `after` is whether the last character was one.
unfoldable pub squeeze : (ℕ → Bool) → ℕ → Bool → Bytes → Bytes
squeeze separates kept after [] = []
squeeze separates kept after (c ∷ cs) =
    let rest = squeeze separates kept (separates c) cs in
    if separates c then if after then rest else kept ∷ rest else c ∷ rest

-- `stripDuplicateWhitespace`
unfoldable pub strip_duplicate_whitespace : Bytes → Bytes
unfolding squeeze
strip_duplicate_whitespace s = squeeze is_white 32 false s

-- `stripDuplicateNewlines`
unfoldable pub strip_duplicate_newlines : Bytes → Bytes
unfolding squeeze
strip_duplicate_newlines s = squeeze is_newline 10 false s

-- `isalnum`, in the C locale
abbrev pub is_alnum : ℕ → Bool
is_alnum c = (leb 48 c && leb c 57) || ((leb 65 c && leb c 90) || (leb 97 c && leb c 122))

-- `convertToFilename`
unfoldable pub convert_to_filename : Bytes → Bytes
convert_to_filename [] = []
convert_to_filename (c ∷ cs) =
    (if is_alnum c || c == b'#' then c else b'_') ∷ convert_to_filename cs

abbrev in_first : ℕ → List Bytes → List Bytes
in_first c [] = (c ∷ []) ∷ []
in_first c (p ∷ ps) = (c ∷ p) ∷ ps

unfoldable pub pieces : ℕ → Bytes → List Bytes
pieces d [] = [] ∷ []
pieces d (c ∷ cs) = let rest = pieces d cs in if c == d then [] ∷ rest else in_first c rest

-- `g_strsplit` at a character, without a limit
abbrev pub strsplit : ℕ → Bytes → List Bytes
strsplit d [] = []
strsplit d (c ∷ cs) = pieces d (c ∷ cs)

-- `parseCommaSeparated`: the array afterwards, and how many strings were added; `none` is `NULL`.
unfoldable pub parse_comma_separated : Option Bytes → Option (List Bytes) → Option (List Bytes) × ℕ
unfolding pieces
parse_comma_separated (some s) (some out) =
    (some (out ++ strsplit b',' s), length (strsplit b',' s))
parse_comma_separated s out = (out, 0)

abbrev after_char : ℕ → Option (Bytes × Bytes) → Option (Bytes × Bytes)
after_char c none = none
after_char c (some (before, found)) = some (c ∷ before, found)

abbrev indentation_of : ℕ → Bytes → Bytes
indentation_of zero indentation = []
indentation_of (suc levels) indentation = indentation ++ indentation_of levels indentation

abbrev indented : Bool → Bytes → List Bytes → Bytes
indented first indent [] = []
indented first indent (p ∷ ps) =
    (if first then [] else 10 ∷ []) ++ (indent ++ (p ++ indented false indent ps))

-- `indentString`
unfoldable pub indent_string : Bytes → Bytes → ℕ → Bytes
unfolding pieces
indent_string input indentation levels =
    indented true (indentation_of levels indentation) (strsplit 10 input)

-- `strchr`: what stands before the character, and the string from it on.
unfoldable pub strchr : ℕ → Bytes → Option (Bytes × Bytes)
strchr d [] = none
strchr d (c ∷ cs) =
    let rest = strchr d cs in if c == d then some ([], c ∷ cs) else after_char c rest

abbrev pub starts : ℕ → Bytes → Bool
starts d [] = false
starts d (c ∷ cs) = c == d

-- `strstr` for two characters
unfoldable pub strstr : ℕ → ℕ → Bytes → Option (Bytes × Bytes)
strstr a b [] = none
strstr a b (c ∷ cs) =
    let rest = strstr a b cs in
    if c == a && starts b cs then some ([], c ∷ cs) else after_char c rest

module _ (isspace : ℕ → Bool) where
  -- `g_strchug`
  unfoldable pub chug : Bytes → Bytes
  chug [] = []
  chug (c ∷ cs) = let rest = chug cs in if isspace c then rest else c ∷ cs

  abbrev pub unless_last : ℕ → Bytes → Bytes
  unless_last c [] = if isspace c then [] else c ∷ []
  unless_last c (x ∷ xs) = c ∷ x ∷ xs

  -- `g_strchomp`
  unfoldable pub chomp : Bytes → Bytes
  chomp [] = []
  chomp (c ∷ cs) = unless_last c (chomp cs)
