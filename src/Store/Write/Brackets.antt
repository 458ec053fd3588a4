-- ===== src/Store/Write/Brackets.antt =====
-- What is written of a list stands for its tokens.
use kalisko.Base.{
  ℕ, ◌≡◌, refl, sym, ◌∙◌, ap, some, false, Bool, List, [], ◌∷◌, ◌++◌, append_assoc, Bytes, All,
}
use kalisko.Store.Value.{
  Store, Items, Nodes, string, integer, float_number, list, array, nil, cons, empty, node,
}
use kalisko.Store.Lexer.{char_type}
use kalisko.Store.Lexer.Steps.{IsText}
use kalisko.Store.Lexer.Yylex.{Token, Location}
use kalisko.Store.Lexer.Reads.{Tokens, Opens, Tokens-space, Tokens-delimiter}
use kalisko.Store.Parse.Stored.{store_tokens, items_tokens, nodes_tokens}
use kalisko.Store.Write.{Context, dump, quoted, dump_text}
use kalisko.Store.Write.Reads.{Stands, IsKept, quoted-Stands}
use kalisko.Store.Write.Contexts.{ctx, text-some}

module _ {F : Type 0} (atof : Bytes → F) (format_double : F → Bytes) (loc : Location) where
  -- The strings and keys of a store are text, and its floating point numbers are kept.
  abbrev mutual
    pub IsWritable : Store F → Type 0
    IsWritable (string s) = All IsText s
    IsWritable (integer i) = Unit
    IsWritable (float_number x) = IsKept atof format_double loc x
    IsWritable (list vs) = AreWritable vs
    IsWritable (array ns) = AreWritableNodes ns

    pub AreWritable : Items F → Type 0
    AreWritable nil = Unit
    AreWritable (cons v vs) = IsWritable v × AreWritable vs

    pub AreWritableNodes : Nodes F → Type 0
    AreWritableNodes empty = Unit
    AreWritableNodes (node k v ns) = All IsText k × (IsWritable v × AreWritableNodes ns)

  abbrev pub StoreStands : Bytes → Store F → Type 0
  StoreStands w s = Stands atof format_double loc w (store_tokens s)

  -- The values of a list with the bracket that closes it.
  abbrev pub ItemsStand : Bytes → Items F → Type 0
  ItemsStand w vs =
      (r : Bytes) (us : List (Token F))
      → Tokens atof r us
      → Tokens atof (w ++ r) (items_tokens vs (Token.char b')' ∷ us))

  abbrev pub NodesStand : Bool → Bytes → Nodes F → Type 0
  NodesStand b w ns =
      (r : Bytes) (us : List (Token F))
      → Opens r
      → Tokens atof r us
      → (b ≡ false → Opens (w ++ r)) × Tokens atof (w ++ r) (nodes_tokens ns us)

  -- What was written at an inner level stands for the store.
  abbrev pub Writes : Bytes → ℕ → Context → (Bytes → Type 0) → Type 0
  Writes o l c P = (w : Bytes) × ((c ≡ ctx (o ++ w) l) × P w)

  pub string-Writes :
      (s o : Bytes) (l : ℕ) {c : Context}
      → All IsText s
      → dump_text (quoted atof format_double loc s) (ctx o l) ≡ some c
      → Writes o l c (λ w. StoreStands w (string s))
  unfolding store_tokens
  string-Writes s o l h e =
      let (w, (q, d)) = text-some (quoted atof format_double loc s) (ctx o l) e in
      (w, (sym d, quoted-Stands atof format_double loc s w h q))

  pub list-Writes :
      (vs : Items F) (o : Bytes) (l : ℕ) {c : Context}
      → Writes (o ++ b'(' ∷ []) l c (λ w. ItemsStand w vs)
      → Writes o l c (λ w. StoreStands w (list vs))
  unfolding store_tokens char_type
  list-Writes vs o l (w, (e, st)) = (
    b'(' ∷ w,
    (
      e ∙ ap (λ x. ctx x l) (append_assoc o (b'(' ∷ []) w),
      λ r us k m. Tokens-delimiter atof b'(' (w ++ r) _ refl (st r us m),
    ),
  )

  -- The last value of a list.
  pub last-Writes :
      (v : Store F) (o : Bytes) (l : ℕ) {d c : Context}
      → Writes o l d (λ w. StoreStands w v)
      → dump (b')' ∷ []) d ≡ c
      → Writes o l c (λ w. ItemsStand w (cons v nil))
  unfolding store_tokens char_type
  last-Writes v o l (w, (e, st)) q = (
    w ++ b')' ∷ [],
    (
      sym q ∙ rw e (ap (λ x. ctx x l) (append_assoc o w (b')' ∷ []))),
      λ r us k.
          rw (append_assoc w (b')' ∷ []) r)
            (st (b')' ∷ r) _ tt (Tokens-delimiter atof b')' r us refl k)),
    ),
  )

  pub more-Writes :
      (v u : Store F) (vs : Items F) (o w : Bytes) (l : ℕ) {c : Context}
      → StoreStands w v
      → Writes ((o ++ w) ++ b',' ∷ b' ' ∷ []) l c (λ x. ItemsStand x (cons u vs))
      → Writes o l c (λ x. ItemsStand x (cons v (cons u vs)))
  unfolding store_tokens char_type
  more-Writes v u vs o w l st (x, (e, sx)) = (
    w ++ b',' ∷ b' ' ∷ x,
    (
      e
          ∙ ap (λ y. ctx y l)
              (append_assoc (o ++ w) (b',' ∷ b' ' ∷ []) x ∙ append_assoc o w (b',' ∷ b' ' ∷ x)),
      λ r us k. rw (append_assoc w (b',' ∷ b' ' ∷ x) r) (
          st (b',' ∷ b' ' ∷ (x ++ r)) _ tt (
            Tokens-space atof b',' (b' ' ∷ (x ++ r)) _ refl
              (Tokens-space atof b' ' (x ++ r) _ refl (sx r us k)))),
    ),
  )
