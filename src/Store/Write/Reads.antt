-- ===== src/Store/Write/Reads.antt =====
-- What `dumpStore` writes is read back by `yylex`, token by token.
use kalisko.Base.Int.{ℤ}
use kalisko.Base.{
  ℕ, zero, suc, ◌≡◌, refl, sym, ◌∙◌, ap, some, List, [], ◌∷◌, ◌++◌, append_assoc, append-nil, Bytes,
  All, length, ◌<◌,
}
use kalisko.Base.Clib.{format_int}
use kalisko.Store.Lexer.{char_type, digit}
use kalisko.Store.Lexer.Steps.{IsText}
use kalisko.Store.Lexer.Simple.{EndsSimple}
use kalisko.Store.Lexer.Yylex.{Token, Location, lexed, yylex}
use kalisko.Store.Lexer.Reads.{Reads, Tokens, Opens, Tokens-space, GoesOn}
use kalisko.Store.Lexer.Numbers.{Reads-float, Reads-format_int}
use kalisko.Store.Write.Strings.{yylex-quoted}
use kalisko.Store.Write.{Context, dump, indent, quoted}

-- Tabs before the text.
abbrev pub tabs : ℕ → Bytes
tabs zero = []
tabs (suc n) = b'\t' ∷ tabs n

pub indent-tabs : (n : ℕ) (c : Context) → indent n c ≡ record c { out = c.out ++ tabs n }
unfolding indent
indent-tabs zero c = rw append-nil refl
indent-tabs (suc n) c = indent-tabs n (dump (b'\t' ∷ []) c) ∙ rw append_assoc refl

module _ {F : Type 0} (atof : Bytes → F) (format_double : F → Bytes) (loc : Location) where
  -- A floating point number that is written with digits, a decimal mark and digits, and that
  -- `atof` reads back.
  abbrev pub IsKept : F → Type 0
  IsKept x =
      (a : Bytes) × ((w : Bytes) × ((format_double x ≡ a ++ b'.' ∷ w)
          × (All (λ c. char_type c ≡ digit) a
              × ((0 < length a)
                  × (All (λ c. char_type c ≡ digit) w × (atof (format_double x) ≡ x))))))

  -- The text `w` stands for the tokens `ts`, before whatever ends a simple string.
  abbrev pub Stands : Bytes → (List (Token F) → List (Token F)) → Type 0
  Stands w ts =
      (r : Bytes) (us : List (Token F)) → Opens r → Tokens atof r us → Tokens atof (w ++ r) (ts us)

  Reads-Stands :
      (w : Bytes) (t : Token F)
      → GoesOn t
      → ((d : ℕ) (r : Bytes) → EndsSimple (char_type d) → Reads atof (w ++ d ∷ r) t (d ∷ r))
      → Stands w (λ us. t ∷ us)
  Reads-Stands w t g h [] us o k = absurd o
  Reads-Stands w t g h (d ∷ r) us o k = (d ∷ r, (h d r o, (g, k)))

  pub float-Stands : (x : F) → IsKept x → Stands (format_double x) (λ us. Token.float_number x ∷ us)
  float-Stands x (a, (w, (e, (p, (n, (q, k)))))) =
      Reads-Stands (format_double x) (Token.float_number x) tt (λ d r g l.
        let (l', y) = Reads-float atof a w d r p n q g l in
        let same : format_double x ++ d ∷ r ≡ a ++ b'.' ∷ (w ++ d ∷ r) =
          rw e (append_assoc a (b'.' ∷ w) (d ∷ r)) in
        (
          l',
          ap (yylex atof l) same
              ∙ y
              ∙ ap (λ z. lexed (Token.float_number z) l' (d ∷ r)) (ap atof (sym e) ∙ k),
        ))

  pub integer-Stands : (i : ℤ) → Stands (format_int i) (λ us. Token.integer i ∷ us)
  integer-Stands i =
      Reads-Stands (format_int i) (Token.integer i) tt (λ d r e. Reads-format_int atof i d r e)

  pub quoted-Stands :
      (s w : Bytes)
      → All IsText s
      → quoted atof format_double loc s ≡ some w
      → Stands w (λ us. Token.string s ∷ us)
  quoted-Stands s w h q =
      Reads-Stands w (Token.string s) tt
        (λ d r e l. yylex-quoted atof format_double loc s w r d l h e q)

  pub tabs-Tokens :
      (n : ℕ) (r : Bytes) (us : List (Token F)) → Tokens atof r us → Tokens atof (tabs n ++ r) us
  unfolding char_type
  tabs-Tokens zero r us k = k
  tabs-Tokens (suc n) r us k = Tokens-space atof b'\t' (tabs n ++ r) us refl (tabs-Tokens n r us k)
