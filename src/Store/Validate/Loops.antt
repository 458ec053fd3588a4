-- ===== src/Store/Validate/Loops.antt =====
-- The loops of validation decide what they should if their bodies do.
use mathlib.Core.Path.{subst}
use kalisko.Base.{
  ◌≡◌, ◌⊎◌, inl, inr, ◌↔◌, refl, sym, Bool, true, false, Option, none, some, List, [], ◌∷◌, Bytes,
  bytes_eq_iff, arith, Answer, Answer-yes, Answer-no, Answer-iff,
}
use kalisko.Base.Int.{ℤ}
use kalisko.Store.Value.{Store, Items, Nodes, nil, cons, empty, node}
use kalisko.Store.Validate.{
  and_then, or_else, is_constant, every_node, every_item, on_array, on_list, on_string, is_integer,
  is_float, at_element,
}
use kalisko.Store.Validate.Conforms.{InNodes, InItems, InList}

pub Answer-and_then :
    {P Q : Type 0} (a b : Option Bool) → Answer a P → Answer b Q → Answer (and_then a b) (P × Q)
Answer-and_then a b (true, e, i) (d, f, j) =
    (d, rw (e, f) refl, ((λ t. (i.0 refl, j.0 t)), λ p. j.1 p.1))
Answer-and_then a b (false, e, i) (d, f, j) =
    (false, rw e refl, ((λ t. absurd (ground arith)), λ p. i.1 p.0))

pub Answer-or_else :
    {P Q : Type 0} (a b : Option Bool) → Answer a P → Answer b Q → Answer (or_else a b) (P ⊎ Q)
Answer-or_else a b (true, e, i) (d, f, j) = (true, rw e refl, ((λ t. inl (i.0 refl)), λ p. refl))
Answer-or_else a b (false, e, i) (d, f, j) = (
  d,
  rw (e, f) refl,
  ((λ t. inr (j.0 t)), λ p. elim p [ inl x ↦ absurd (ground (arith, i.1 x)) | inr y ↦ j.1 y ]),
)

pub is_constant-InList : (s : Bytes) (cs : List Bytes) → (is_constant s cs ≡ true) ↔ InList s cs
unfolding is_constant
is_constant-InList s [] = ((λ e. absurd (ground arith)), λ m. absurd m)
is_constant-InList s (c ∷ cs) =
    let ih = is_constant-InList s cs in
    let same = bytes_eq_iff s c in
    (
      (λ e. ground (arith, ih.0)),
      λ m. elim m [ inl e ↦ ground arith | inr r ↦ ground (arith, ih.1 r) ],
    )

module _ {F : Type 0} where
  pub array_injective :
      (ns ms : Nodes F) → ◌≡◌ {A = Store F} (Store.array ns) (Store.array ms) → ns ≡ ms
  array_injective ns ms e = ground arith

  pub string_injective : (s t : Bytes) → ◌≡◌ {A = Store F} (Store.string s) (Store.string t) → s ≡ t
  string_injective s t e = ground arith

  pub some_injective : (v w : Store F) → some v ≡ some w → v ≡ w
  some_injective v w e = ground arith

  pub cons_injective :
      (v w : Store F) (vs ws : Items F) → cons v vs ≡ cons w ws → (v ≡ w) × (vs ≡ ws)
  cons_injective v w vs ws e = ground arith

  pub list_injective :
      (ns ms : Items F) → ◌≡◌ {A = Store F} (Store.list ns) (Store.list ms) → ns ≡ ms
  list_injective ns ms e = ground arith

  pub on_array-Answer :
      (f : Nodes F → Option Bool) (P : Nodes F → Type 0)
      → ((ns : Nodes F) → Answer (f ns) (P ns))
      → (s : Store F) → Answer (on_array f s) ((ns : Nodes F) × (s ≡ Store.array ns) × P ns)
  on_array-Answer f P h (Store.array ns) =
      Answer-iff _ (h ns)
        ((λ p. (ns, refl, p)), λ (ms, e, p). subst P (sym (array_injective ns ms e)) p)
  on_array-Answer f P h (Store.string t) = Answer-no (λ (ns, e, p). ground arith)
  on_array-Answer f P h (Store.integer i) = Answer-no (λ (ns, e, p). ground arith)
  on_array-Answer f P h (Store.float_number x) = Answer-no (λ (ns, e, p). ground arith)
  on_array-Answer f P h (Store.list vs) = Answer-no (λ (ns, e, p). ground arith)

  pub on_list-Answer :
      (f : Items F → Option Bool) (P : Items F → Type 0)
      → ((vs : Items F) → Answer (f vs) (P vs))
      → (s : Store F) → Answer (on_list f s) ((vs : Items F) × (s ≡ Store.list vs) × P vs)
  on_list-Answer f P h (Store.list vs) =
      Answer-iff _ (h vs)
        ((λ p. (vs, refl, p)), λ (ws, e, p). subst P (sym (list_injective vs ws e)) p)
  on_list-Answer f P h (Store.string t) = Answer-no (λ (ns, e, p). ground arith)
  on_list-Answer f P h (Store.integer i) = Answer-no (λ (ns, e, p). ground arith)
  on_list-Answer f P h (Store.float_number x) = Answer-no (λ (ns, e, p). ground arith)
  on_list-Answer f P h (Store.array ns) = Answer-no (λ (ms, e, p). ground arith)

  pub every_node-Answer :
      (valid : Store F → Option Bool) (P : Store F → Type 0)
      → ((v : Store F) → Answer (valid v) (P v))
      → (ns : Nodes F) → Answer (every_node valid ns) ((v : Store F) → InNodes v ns → P v)
  unfolding every_node
  every_node-Answer valid P h empty = Answer-yes (λ v m. absurd m)
  every_node-Answer valid P h (node k w ns) =
      Answer-iff _ (Answer-and_then _ _ (h w) (every_node-Answer valid P h ns)) (
        (λ p v m. elim m [ inl e ↦ subst P (sym e) p.0 | inr r ↦ p.1 v r ]),
        λ p. (p w (inl refl), λ v r. p v (inr r)),
      )

  pub every_item-Answer :
      (valid : Store F → Option Bool) (P : Store F → Type 0)
      → ((v : Store F) → Answer (valid v) (P v))
      → (vs : Items F) → Answer (every_item valid vs) ((v : Store F) → InItems v vs → P v)
  unfolding every_item
  every_item-Answer valid P h nil = Answer-yes (λ v m. absurd m)
  every_item-Answer valid P h (cons w vs) =
      Answer-iff _ (Answer-and_then _ _ (h w) (every_item-Answer valid P h vs)) (
        (λ p v m. elim m [ inl e ↦ subst P (sym e) p.0 | inr r ↦ p.1 v r ]),
        λ p. (p w (inl refl), λ v r. p v (inr r)),
      )

  pub is_integer-Answer :
      (s : Store F) → Answer (some (is_integer s)) ((i : ℤ) × (s ≡ Store.integer i))
  is_integer-Answer (Store.integer i) = Answer-yes (i, refl)
  is_integer-Answer (Store.string t) = Answer-no (λ (i, e). ground arith)
  is_integer-Answer (Store.float_number x) = Answer-no (λ (i, e). ground arith)
  is_integer-Answer (Store.list vs) = Answer-no (λ (i, e). ground arith)
  is_integer-Answer (Store.array ns) = Answer-no (λ (i, e). ground arith)

  pub is_float-Answer :
      (s : Store F) → Answer (some (is_float s)) ((x : F) × (s ≡ Store.float_number x))
  is_float-Answer (Store.float_number x) = Answer-yes (x, refl)
  is_float-Answer (Store.string t) = Answer-no (λ (i, e). ground arith)
  is_float-Answer (Store.integer x) = Answer-no (λ (i, e). ground arith)
  is_float-Answer (Store.list vs) = Answer-no (λ (i, e). ground arith)
  is_float-Answer (Store.array ns) = Answer-no (λ (i, e). ground arith)

  pub is_string-Answer :
      (s : Store F) → Answer (on_string (λ t. true) s) ((t : Bytes) × (s ≡ Store.string t))
  is_string-Answer (Store.string t) = Answer-yes (t, refl)
  is_string-Answer (Store.float_number x) = Answer-no (λ (i, e). ground arith)
  is_string-Answer (Store.integer x) = Answer-no (λ (i, e). ground arith)
  is_string-Answer (Store.list vs) = Answer-no (λ (i, e). ground arith)
  is_string-Answer (Store.array ns) = Answer-no (λ (i, e). ground arith)

  pub constant-Answer :
      (cs : List Bytes) (s : Store F)
      → Answer
          (on_string (λ t. is_constant t cs) s)
          ((c : Bytes) × (s ≡ Store.string c) × InList c cs)
  constant-Answer cs (Store.string t) =
      let i = is_constant-InList t cs in
      (
        is_constant t cs,
        refl,
        (
          (λ e. (t, refl, i.0 e)),
          λ (c, e, m). i.1 (subst (λ x. InList x cs) (sym (string_injective t c e)) m),
        ),
      )
  constant-Answer cs (Store.float_number x) = Answer-no (λ (i, e, p). ground arith)
  constant-Answer cs (Store.integer x) = Answer-no (λ (i, e, p). ground arith)
  constant-Answer cs (Store.list vs) = Answer-no (λ (i, e, p). ground arith)
  constant-Answer cs (Store.array ns) = Answer-no (λ (i, e, p). ground arith)

  pub at_element-Answer :
      (required : Bool) (valid : Store F → Option Bool) (P : Store F → Type 0)
      (o : Option (Store F))
      → ((v : Store F) → Answer (valid v) (P v))
      → Answer
          (at_element required valid o)
          (((o ≡ none) × (required ≡ false)) ⊎ ((v : Store F) × (o ≡ some v) × P v))
  at_element-Answer true valid P none h =
      Answer-no (λ x. elim x [ inl (e, f) ↦ ground arith | inr (v, e, p) ↦ ground arith ])
  at_element-Answer false valid P none h = Answer-yes (inl (refl, refl))
  at_element-Answer required valid P (some v) h = Answer-iff _ (h v) (
    (λ p. inr (v, refl, p)),
    λ x. elim x [
      | inl (e, f) ↦ absurd (ground arith)
      | inr (w, e, p) ↦ subst P (sym (some_injective v w e)) p
    ],
  )
