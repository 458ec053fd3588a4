-- ===== src/Store/Text.antt =====
-- src/modules/store/store.c: `escapeStoreString`.
use kalisko.Base.{ℕ, ◌||◌, [], ◌∷◌, ◌++◌, ◌==◌, if◌then◌else◌, Bytes}

abbrev pub escape_byte : ℕ → Bytes
escape_byte c = if c == b'"' || c == b'\\' then b'\\' ∷ c ∷ [] else c ∷ []

-- `escapeStoreString`: what the loop appends to `escaped`.
unfoldable pub escape_onto : Bytes → Bytes → Bytes
escape_onto escaped [] = escaped
escape_onto escaped (c ∷ cs) = escape_onto (escaped ++ escape_byte c) cs

unfoldable pub escape_store_string : Bytes → Bytes
unfolding escape_onto
escape_store_string = escape_onto []
