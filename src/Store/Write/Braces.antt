-- ===== src/Store/Write/Braces.antt =====
-- What is written of an array stands for its tokens.
use kalisko.Base.{
  ℕ, suc, ◌≡◌, refl, sym, ◌∙◌, ap, some, true, false, Bool, List, [], ◌∷◌, ◌++◌, append_assoc,
  Bytes, All, arith,
}
use kalisko.Store.Value.{Store, Nodes, array, empty, node}
use kalisko.Store.Lexer.{char_type}
use kalisko.Store.Lexer.Steps.{IsText}
use kalisko.Store.Lexer.Yylex.{Token, Location}
use kalisko.Store.Lexer.Reads.{Tokens, Opens, Tokens-space, Tokens-delimiter}
use kalisko.Store.Parse.Stored.{store_tokens, nodes_tokens}
use kalisko.Store.Write.{Context, dump, quoted, dump_store, dump_nodes, close_array}
use kalisko.Store.Write.Reads.{tabs, tabs-Tokens, quoted-Stands}
use kalisko.Store.Write.Contexts.{
  nctx, ctx, separator, bind-some, text-some, open_node-ctx, close_array-ctx,
}
use kalisko.Store.Write.Brackets.{StoreStands, NodesStand, Writes}

-- What stands before a value: where the last node ends, the indentation, the key and ` = `.
abbrev pub before : Bool → ℕ → Bytes → Bytes
before b l key = (separator b ++ tabs l) ++ (key ++ b' ' ∷ b'=' ∷ b' ' ∷ [])

module _ {F : Type 0} (atof : Bytes → F) (format_double : F → Bytes) (loc : Location) where
  -- A node is written as its key, its value and the nodes behind it.
  pub node_parts :
      (k : Bytes) (v : Store F) (ns : Nodes F) (o : Bytes) (l : ℕ) (b : Bool) {c : Context}
      → dump_nodes atof format_double loc (node k v ns) (nctx o l b) ≡ some c
      → (key : Bytes) × ((d : Context) × ((quoted atof format_double loc k ≡ some key)
            × ((dump_store atof format_double loc v (ctx (o ++ before b l key) l) ≡ some d)
                × (dump_nodes atof format_double loc ns d ≡ some c))))
  unfolding dump_store
  node_parts k v ns o l b e =
      let (d, (m, e')) = bind-some _ _ e in
      let (d', (m', e'')) = bind-some _ _ m in
      let (key, (q, t)) = text-some _ _ m' in
      let written : dump (b' ' ∷ b'=' ∷ b' ' ∷ []) d' ≡ ctx (o ++ before b l key) l =
        ap (dump (b' ' ∷ b'=' ∷ b' ' ∷ [])) (sym t ∙ ap (dump key) (open_node-ctx o l b))
        ∙ ap (λ x. ctx x l)
            (append_assoc (o ++ (separator b ++ tabs l)) key (b' ' ∷ b'=' ∷ b' ' ∷ [])
              ∙ append_assoc o (separator b ++ tabs l) (key ++ b' ' ∷ b'=' ∷ b' ' ∷ [])) in
      (key, (d, (q, (ap (dump_store atof format_double loc v) (sym written) ∙ e'', e'))))

  pub nodes_end : (b : Bool) → NodesStand atof format_double loc b [] empty
  unfolding store_tokens
  nodes_end b r us o k = ((λ e. o), k)

  separator-Tokens :
      (b : Bool) (l : ℕ) (r : Bytes) (us : List (Token F))
      → Tokens atof r us
      → Tokens atof ((separator b ++ tabs l) ++ r) us
  unfolding char_type
  separator-Tokens true l r us k = tabs-Tokens atof format_double loc l r us k
  separator-Tokens false l r us k =
      Tokens-space atof b'\n' (tabs l ++ r) us refl (tabs-Tokens atof format_double loc l r us k)

  separator-Opens :
      (b : Bool) (l : ℕ) (r : Bytes) → b ≡ false → Opens ((separator b ++ tabs l) ++ r)
  unfolding char_type
  separator-Opens true l r e = absurd (ground arith)
  separator-Opens false l r e = tt

  before-Tokens :
      (b : Bool) (l : ℕ) (k key r : Bytes) (us : List (Token F))
      → All IsText k
      → quoted atof format_double loc k ≡ some key
      → Tokens atof r us
      → Tokens atof (before b l key ++ r) (Token.string k ∷ Token.char b'=' ∷ us)
  unfolding char_type
  before-Tokens b l k key r us h q m =
      let key_read : Tokens atof (key ++ b' ' ∷ b'=' ∷ b' ' ∷ r)
          (Token.string k ∷ Token.char b'=' ∷ us) =
        quoted-Stands atof format_double loc k key h q (b' ' ∷ b'=' ∷ b' ' ∷ r)
          (Token.char b'=' ∷ us) tt
          (Tokens-space atof b' ' (b'=' ∷ b' ' ∷ r) (Token.char b'=' ∷ us) refl
            (Tokens-delimiter atof b'=' (b' ' ∷ r) us refl (Tokens-space atof b' ' r us refl m))) in
      rw
        (
          append_assoc (separator b ++ tabs l) (key ++ b' ' ∷ b'=' ∷ b' ' ∷ []) r,
          append_assoc key (b' ' ∷ b'=' ∷ b' ' ∷ []) r,
        )
        (separator-Tokens b l (key ++ b' ' ∷ b'=' ∷ b' ' ∷ r)
          (Token.string k ∷ Token.char b'=' ∷ us) key_read)

  pub node-Stand :
      (b : Bool) (l : ℕ) (k key w x : Bytes) (v : Store F) (ns : Nodes F)
      → All IsText k
      → quoted atof format_double loc k ≡ some key
      → StoreStands atof format_double loc w v
      → NodesStand atof format_double loc false x ns
      → NodesStand atof format_double loc b (before b l key ++ (w ++ x)) (node k v ns)
  unfolding store_tokens
  node-Stand b l k key w x v ns h q sv sn r us o m =
      let (ox, mx) = sn r us o m in
      let tail : List (Token F) = store_tokens v (nodes_tokens ns us) in
      let read : Tokens atof (w ++ (x ++ r)) tail = sv (x ++ r) (nodes_tokens ns us) (ox refl) mx in
      (
        λ e.
            rw (append_assoc (before b l key) (w ++ x) r, append_assoc (separator b ++ tabs l))
              (separator-Opens b l _ e),
        rw (append_assoc (before b l key) (w ++ x) r, append_assoc w x r)
            (before-Tokens b l k key (w ++ (x ++ r)) tail h q read),
      )

  -- The nodes of an array at an inner level, in their braces.
  pub array-Writes :
      (ns : Nodes F) (o w : Bytes) (l : ℕ) (d : Context)
      → d.out ≡ (o ++ b'{' ∷ b'\n' ∷ []) ++ w
      → NodesStand atof format_double loc true w ns
      → Writes atof format_double loc o l
          (close_array (suc l) d)
          (λ x. StoreStands atof format_double loc x (array ns))
  unfolding store_tokens char_type
  array-Writes ns o w l d e sn =
      let close = b'\n' ∷ (tabs l ++ b'}' ∷ []) in
      (
        b'{' ∷ b'\n' ∷ (w ++ close),
        (
          close_array-ctx d l
              ∙ ap (λ x. ctx x l)
                  (ap (λ y. y ++ close) e
                    ∙ append_assoc (o ++ b'{' ∷ b'\n' ∷ []) w close
                    ∙ append_assoc o (b'{' ∷ b'\n' ∷ []) (w ++ close)),
          λ r us k m.
              let rest : List (Token F) = nodes_tokens ns (Token.char b'}' ∷ us) in
              let closed : Tokens atof (tabs l ++ b'}' ∷ r) (Token.char b'}' ∷ us) =
                tabs-Tokens atof format_double loc l (b'}' ∷ r) (Token.char b'}' ∷ us)
                  (Tokens-delimiter atof b'}' r us refl m) in
              let ended : Tokens atof (close ++ r) (Token.char b'}' ∷ us) =
                Tokens-space atof b'\n' ((tabs l ++ b'}' ∷ []) ++ r) (Token.char b'}' ∷ us) refl
                  (rw (append_assoc (tabs l) (b'}' ∷ []) r) closed) in
              let inner : Tokens atof ((w ++ close) ++ r) rest =
                rw (append_assoc w close r) (sn (close ++ r) (Token.char b'}' ∷ us) tt ended).1 in
              Tokens-delimiter atof b'{' (b'\n' ∷ ((w ++ close) ++ r)) rest refl
                (Tokens-space atof b'\n' ((w ++ close) ++ r) rest refl inner),
        ),
      )
