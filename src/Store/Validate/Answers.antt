-- ===== src/Store/Validate/Answers.antt =====
-- Validation ends and decides whether a store conforms.
use mathlib.Core.Path.{subst}
use kalisko.Base.{
  ℕ, zero, suc, ◌≡◌, ◌<◌, inl, inr, ◌↔◌, refl, sym, Bool, true, Option, none, some, Bytes, arith,
  Answer, Answer-yes, Answer-no, Answer-iff, Option-cases,
}
use kalisko.Base.Table.{Table, get}
use kalisko.Store.Value.{Store, Items, Nodes, nil, cons}
use kalisko.Store.Value.Tables.{lookup}
use kalisko.Store.Schema.{
  Schema, SchemaType, Types, Elements, struct, tuple, variant, alias, enum, no_types, subtype,
  no_elements, element, sequence,
}
use kalisko.Store.Validate.{
  every_node, every_item, validate_schema_type, validate_elements, validate_tuple, validate_variant,
  validate_alias, validate_store,
}
use kalisko.Store.Validate.Conforms.{
  InNodes, InItems, Conforms, HasElements, Begins, IsOneOf, ConformsTo, Below, TypesBelow,
  ElementsBelow,
}
use kalisko.Store.Validate.Loops.{
  Answer-and_then, Answer-or_else, cons_injective, on_array-Answer, on_list-Answer,
  every_node-Answer, every_item-Answer, is_integer-Answer, is_float-Answer, is_string-Answer,
  constant-Answer, at_element-Answer,
}

module _ {F : Type 0} where
  module _ (resolve : Bytes → Store F → Option Bool) (Named : Bytes → Store F → Type 0)
      (rank : Bytes → ℕ) (n : ℕ)
      (known : (a : Bytes) → rank a < n → (s : Store F) → Answer (resolve a s) (Named a s)) where
    mutual
      unfolding validate_schema_type

      type-Answer :
          (t : SchemaType)
          → Below rank n t
          → (s : Store F) → Answer (validate_schema_type resolve t s) (Conforms Named t s)
      type-Answer SchemaType.integer b s = is_integer-Answer s
      type-Answer SchemaType.float_number b s = is_float-Answer s
      type-Answer SchemaType.string b s = is_string-Answer s
      type-Answer (struct es) b s =
          on_array-Answer (validate_elements resolve es) (HasElements Named es)
            (elements-Answer es b) s
      type-Answer (SchemaType.array t) b s =
          on_array-Answer (every_node (validate_schema_type resolve t))
            (λ ns. (v : Store F) → InNodes v ns → Conforms Named t v)
            (every_node-Answer (validate_schema_type resolve t) (Conforms Named t)
              (type-Answer t b))
            s
      type-Answer (sequence t) b s =
          on_list-Answer (every_item (validate_schema_type resolve t))
            (λ vs. (v : Store F) → InItems v vs → Conforms Named t v)
            (every_item-Answer (validate_schema_type resolve t) (Conforms Named t)
              (type-Answer t b))
            s
      type-Answer (tuple ts) b s =
          on_list-Answer (validate_tuple resolve ts) (Begins Named ts) (tuple-Answer ts b) s
      type-Answer (variant ts) b s = variant-Answer ts b s
      type-Answer (alias a) b s = known a b s
      type-Answer (enum cs) b s = constant-Answer cs s

      elements-Answer :
          (es : Elements)
          → ElementsBelow rank n es
          → (ns : Nodes F) → Answer (validate_elements resolve es ns) (HasElements Named es ns)
      elements-Answer no_elements b ns = Answer-yes tt
      elements-Answer (element key required t es) b ns =
          Answer-and_then _ _
            (at_element-Answer required (validate_schema_type resolve t) (Conforms Named t)
              (lookup key ns) (type-Answer t b.0))
            (elements-Answer es b.1 ns)

      tuple-Answer :
          (ts : Types)
          → TypesBelow rank n ts
          → (vs : Items F) → Answer (validate_tuple resolve ts vs) (Begins Named ts vs)
      tuple-Answer no_types b vs = Answer-yes tt
      tuple-Answer (subtype t ts) b nil = Answer-no (λ (v, ws, e, p, q). ground arith)
      tuple-Answer (subtype t ts) b (cons v vs) =
          Answer-iff _ (Answer-and_then _ _ (type-Answer t b.0 v) (tuple-Answer ts b.1 vs)) (
            (λ p. (v, vs, refl, p.0, p.1)),
            λ (w, ws, e, p, q). (
              subst (Conforms Named t) (sym (cons_injective v w vs ws e).0) p,
              subst (Begins Named ts) (sym (cons_injective v w vs ws e).1) q,
            ),
          )

      variant-Answer :
          (ts : Types)
          → TypesBelow rank n ts
          → (s : Store F) → Answer (validate_variant resolve ts s) (IsOneOf Named ts s)
      variant-Answer no_types b s = Answer-no (λ m. m)
      variant-Answer (subtype t ts) b s =
          Answer-or_else _ _ (type-Answer t b.0 s) (variant-Answer ts b.1 s)

  module _ (named : Table SchemaType) (rank : Bytes → ℕ)
      (falls : (a : Bytes) (t : SchemaType) → get a named ≡ some t → Below rank (rank a) t) where
    alias_free :
        (n : ℕ) (a : Bytes) (s : Store F)
        → get a named ≡ none
        → Answer (validate_alias (suc n) named a s) (ConformsTo (suc n) named a s)
    unfolding validate_alias
    alias_free n a s e = rw (e, validate_alias, ConformsTo) (Answer-yes tt)

    alias_named :
        (n : ℕ) (a : Bytes) (s : Store F) (t : SchemaType)
        → get a named ≡ some t
        → Answer
            (validate_schema_type (validate_alias n named) t s)
            (Conforms (ConformsTo n named) t s)
        → Answer (validate_alias (suc n) named a s) (ConformsTo (suc n) named a s)
    unfolding validate_alias
    alias_named n a s t e r = rw (e, validate_alias, ConformsTo) r

    alias-Answer :
        (n : ℕ) (a : Bytes)
        → rank a < n
        → (s : Store F) → Answer (validate_alias n named a s) (ConformsTo n named a s)
    alias-Answer zero a h s = elim h [ ]
    alias-Answer (suc n) a h s = elim (Option-cases (get a named)) [
      | inl e ↦ alias_free n a s e
      | inr (t, e) ↦ alias_named n a s t e (
          type-Answer (validate_alias n named) (ConformsTo n named) rank (rank a)
            (λ c k. alias-Answer n c (omega (arith, h, k))) t (falls a t e) s)
    ]

    store-Answer :
        (n : ℕ) (s : Store F) (layout : Elements)
        → ElementsBelow rank n layout
        → Answer
            (validate_store n s (record { named_types = named; layout_elements = layout }))
            (Conforms (ConformsTo n named) (struct layout) s)
    unfolding validate_store
    store-Answer n s layout b =
        on_array-Answer (validate_elements (validate_alias n named) layout)
          (HasElements (ConformsTo n named) layout)
          (elements-Answer (validate_alias n named) (ConformsTo n named) rank n (alias-Answer n)
            layout b)
          s

  -- When the aliases of a schema do not lead in circles (a rank of the names falls along them)
  -- and the fuel is above the ranks that the layout uses, validateStore ends, and its answer is
  -- true exactly when the store conforms to the layout: an array with every element that is
  -- required, whose elements each conform to their types.
  pub validate_store-Conforms :
      (schema : Schema) (rank : Bytes → ℕ) (n : ℕ) (s : Store F)
      → ((a : Bytes) (t : SchemaType) → get a schema.named_types ≡ some t → Below rank (rank a) t)
      → ElementsBelow rank n schema.layout_elements
      → (b : Bool) × (validate_store n s schema ≡ some b)
        × ((b ≡ true)
            ↔ Conforms (ConformsTo n schema.named_types) (struct schema.layout_elements) s)
  validate_store-Conforms schema rank n s falls below =
      store-Answer schema.named_types rank falls n s schema.layout_elements below
