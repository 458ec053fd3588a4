-- ===== src/Store/Write/Contexts.antt =====
-- The contexts in which `dumpStore` writes below the top level.
use kalisko.Base.{
  ℕ, suc, ◌+◌, ◌≡◌, refl, ◌∙◌, ap, Option, none, some, true, false, Bool, [], ◌∷◌, ◌++◌,
  append_assoc, Bytes, arith,
}
use kalisko.Store.Write.{Context, dump, dump_text, ◌>>=◌, open_node, open_array, close_array}
use kalisko.Store.Write.Reads.{tabs, indent-tabs}

abbrev pub nctx : Bytes → ℕ → Bool → Context
nctx o l b = record { out = o; level = suc l; skip_newline = b }

abbrev pub ctx : Bytes → ℕ → Context
ctx o l = nctx o l false

abbrev pub separator : Bool → Bytes
separator true = []
separator false = b'\n' ∷ []

pub bind-some :
    (m : Option Context) (f : Context → Option Context) {c : Context}
    → (m >>= f) ≡ some c
    → (d : Context) × ((m ≡ some d) × (f d ≡ some c))
bind-some none f e = absurd (ground arith)
bind-some (some d) f e = (d, (refl, e))

pub text-some :
    (m : Option Bytes) (c : Context) {d : Context}
    → dump_text m c ≡ some d
    → (w : Bytes) × ((m ≡ some w) × (dump w c ≡ d))
text-some none c e = absurd (ground arith)
text-some (some w) c e = (w, (refl, ground arith))

pub open_node-ctx :
    (o : Bytes) (l : ℕ) (b : Bool) → open_node (nctx o l b) ≡ ctx (o ++ (separator b ++ tabs l)) l
open_node-ctx o l true = indent-tabs l (ctx o l)
open_node-ctx o l false = indent-tabs l (ctx (o ++ b'\n' ∷ []) l) ∙ rw append_assoc refl

plus_one : (n : ℕ) → n + 1 ≡ suc n
plus_one n = omega arith

pub open_array-ctx :
    (o : Bytes) (l : ℕ) → open_array (ctx o l) ≡ nctx (o ++ b'{' ∷ b'\n' ∷ []) (suc l) true
open_array-ctx o l = ap (λ m. the_context (o ++ b'{' ∷ b'\n' ∷ []) m) (plus_one (suc l))
  where
    the_context : Bytes → ℕ → Context
    the_context x m = record { out = x; level = m; skip_newline = true }

pub close_array-ctx :
    (c : Context) (l : ℕ) → close_array (suc l) c ≡ ctx (c.out ++ b'\n' ∷ (tabs l ++ b'}' ∷ [])) l
close_array-ctx c l = rw (indent-tabs l (ctx (c.out ++ b'\n' ∷ []) l)) (
    ap (λ w. ctx w l)
      (append_assoc (c.out ++ b'\n' ∷ []) (tabs l) (b'}' ∷ [])
        ∙ append_assoc c.out (b'\n' ∷ []) (tabs l ++ b'}' ∷ [])))
