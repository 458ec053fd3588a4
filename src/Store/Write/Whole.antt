-- ===== src/Store/Write/Whole.antt =====
-- What `dumpStore` writes below the top level stands for the tokens of the store.
use kalisko.Store.Lexer.{char_type}
use kalisko.Base.{
  ℕ, suc, ◌≡◌, refl, sym, ◌∙◌, ap, some, true, false, Bool, [], ◌∷◌, ◌++◌, append_assoc, append-nil,
  Bytes, arith,
}
use kalisko.Base.Clib.{format_int}
use kalisko.Store.Value.{
  Store, Items, Nodes, string, integer, float_number, list, array, nil, cons, empty, node,
}
use kalisko.Store.Lexer.Yylex.{Location}
use kalisko.Store.Lexer.Reads.{Tokens-delimiter}
use kalisko.Store.Parse.Stored.{store_tokens}
use kalisko.Store.Write.{Context, dump, dump_store, dump_items, dump_nodes, open_array}
use kalisko.Store.Write.Reads.{float-Stands, integer-Stands}
use kalisko.Store.Write.Contexts.{nctx, ctx, bind-some, open_array-ctx}
use kalisko.Store.Write.Brackets.{
  IsWritable, AreWritable, AreWritableNodes, StoreStands, ItemsStand, NodesStand, Writes,
  string-Writes, list-Writes, last-Writes, more-Writes,
}
use kalisko.Store.Write.Braces.{node_parts, before, nodes_end, node-Stand, array-Writes}

pub some_same : {c d : Context} → some c ≡ some d → c ≡ d
some_same e = ground arith

out_same :
    (o : Bytes) (l : ℕ) (b : Bool) {c : Context} → some (nctx o l b) ≡ some c → c.out ≡ o ++ []
out_same o l b e = ground (arith, append-nil o)

module _ {F : Type 0} (atof : Bytes → F) (format_double : F → Bytes) (loc : Location) where
  no_items-Writes :
      (o : Bytes) (l : ℕ) {c : Context}
      → some (dump (b')' ∷ []) (ctx o l)) ≡ some c
      → Writes atof format_double loc o l c (λ w. ItemsStand atof format_double loc w nil)
  unfolding store_tokens char_type
  no_items-Writes o l e =
      (b')' ∷ [], (ground arith, λ r us k. Tokens-delimiter atof b')' r us refl k))

  mutual
    unfolding dump_store store_tokens

    store-Writes :
        (s : Store F) (o : Bytes) (l : ℕ) {c : Context}
        → IsWritable atof format_double loc s
        → dump_store atof format_double loc s (ctx o l) ≡ some c
        → Writes atof format_double loc o l c (λ w. StoreStands atof format_double loc w s)
    store-Writes (string s) o l h e = string-Writes atof format_double loc s o l h e
    store-Writes (integer i) o l h e =
        (format_int i, (ground (arith, e), integer-Stands atof format_double loc i))
    store-Writes (float_number x) o l h e =
        (format_double x, (ground (arith, e), float-Stands atof format_double loc x h))
    store-Writes (list vs) o l h e =
        list-Writes atof format_double loc vs o l (items-Writes vs (o ++ b'(' ∷ []) l h e)
    store-Writes (array ns) o l h e =
        let (d, (m, q)) =
          bind-some (dump_nodes atof format_double loc ns (open_array (ctx o l))) _ e in
        let (w, (p, st)) =
          nodes-Writes ns (o ++ b'{' ∷ b'\n' ∷ []) (suc l) true h
            (ap (dump_nodes atof format_double loc ns) (sym (open_array-ctx o l)) ∙ m) in
        let (x, (r, sx)) = array-Writes atof format_double loc ns o w l d p st in
        (x, (sym (some_same q) ∙ r, sx))

    items-Writes :
        (vs : Items F) (o : Bytes) (l : ℕ) {c : Context}
        → AreWritable atof format_double loc vs
        → dump_items atof format_double loc vs (ctx o l) ≡ some c
        → Writes atof format_double loc o l c (λ w. ItemsStand atof format_double loc w vs)
    items-Writes nil o l h e = no_items-Writes o l e
    items-Writes (cons v nil) o l h e =
        let (d, (m, q)) = bind-some (dump_store atof format_double loc v (ctx o l)) _ e in
        last-Writes atof format_double loc v o l (store-Writes v o l h.0 m) (ground (arith, q))
    items-Writes (cons v (cons u vs)) o l h e =
        let (d, (m, q)) = bind-some (dump_store atof format_double loc v (ctx o l)) _ e in
        let (w, (p, st)) = store-Writes v o l h.0 m in
        more-Writes atof format_double loc v u vs o w l st (
          items-Writes (cons u vs) ((o ++ w) ++ b',' ∷ b' ' ∷ []) l h.1 (
            ap (λ x. dump_items atof format_double loc (cons u vs) (dump (b',' ∷ b' ' ∷ []) x))
              (sym p)
            ∙ q))

    pub nodes-Writes :
        (ns : Nodes F) (o : Bytes) (l : ℕ) (b : Bool) {c : Context}
        → AreWritableNodes atof format_double loc ns
        → dump_nodes atof format_double loc ns (nctx o l b) ≡ some c
        → (w : Bytes) × ((c.out ≡ o ++ w) × NodesStand atof format_double loc b w ns)
    nodes-Writes empty o l b h e = ([], (out_same o l b e, nodes_end atof format_double loc b))
    nodes-Writes (node k v ns) o l b h e =
        let (key, (d, (q, (m, n)))) = node_parts atof format_double loc k v ns o l b e in
        let (w, (p, st)) = store-Writes v (o ++ before b l key) l h.1.0 m in
        let (x, (out, sx)) =
          nodes-Writes ns ((o ++ before b l key) ++ w) l false h.1.1
            (ap (dump_nodes atof format_double loc ns) (sym p) ∙ n) in
        (
          before b l key ++ (w ++ x),
          (
            out ∙ append_assoc (o ++ before b l key) w x ∙ append_assoc o (before b l key) (w ++ x),
            node-Stand atof format_double loc b l k key w x v ns h.0 q st sx,
          ),
        )
