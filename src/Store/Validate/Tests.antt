-- ===== src/Store/Validate/Tests.antt =====
-- Runs of the parser of schemas and of validation.
use mathlib.Core.Path.{subst}
use kalisko.Base.{
  ◌≡◌, ◌↔◌, refl, ℕ, Bool, true, false, none, some, [], ◌∷◌, Bytes, bytes_eq, codes, arith,
  bytes_eq_iff, ◌<◌, zero, suc, inl, inr, Bool-cases,
}
use kalisko.Base.Int.{pos}
use kalisko.Base.Table.{Table, get}
use kalisko.Store.Value.{Store, Nodes, nil, cons, empty, node}
use kalisko.Store.Value.Tables.{lookup}
use kalisko.Store.Schema.{Schema, SchemaType, no_elements, element, alias, struct, sequence}
use kalisko.Store.Validate.{validate_store, validate_alias}
use kalisko.Store.Validate.Conforms.{Conforms, ConformsTo, Below}
use kalisko.Store.Validate.Answers.{validate_store-Conforms}

-- `point` is a sequence of integers, `p` an alias of it.
abbrev types : Nodes ℕ
types =
    node (codes "point")
      (Store.list (cons (Store.string (codes "sequence")) (cons (Store.string (codes "int")) nil)))
      (node (codes "p") (Store.string (codes "point")) empty)

abbrev schema : Schema
schema = record {
  named_types =
      (codes "point", sequence SchemaType.integer) ∷ (codes "p", alias (codes "point")) ∷ [];
  layout_elements = element (codes "at") true (alias (codes "p")) no_elements;
}

abbrev rank : Bytes → ℕ
rank [] = 0
rank (c ∷ []) = 1
rank (c ∷ _ ∷ cs) = 0

is_point :
    (a : Bytes) (t : SchemaType)
    → bytes_eq (codes "point") a ≡ true
    → get a schema.named_types ≡ some t
    → sequence SchemaType.integer ≡ t
unfolding get
is_point a t e h = ground arith

is_p :
    (a : Bytes) (t : SchemaType)
    → bytes_eq (codes "point") a ≡ false
    → bytes_eq (codes "p") a ≡ true
    → get a schema.named_types ≡ some t
    → alias (codes "point") ≡ t
unfolding get
is_p a t e f h = ground arith

no_other :
    (a : Bytes) (t : SchemaType)
    → bytes_eq (codes "point") a ≡ false
    → bytes_eq (codes "p") a ≡ false
    → ¬ (get a schema.named_types ≡ some t)
unfolding get
no_other a t e f h = ground arith

ranked : (a : Bytes) (t : SchemaType) → get a schema.named_types ≡ some t → Below rank (rank a) t
ranked a t h = elim (Bool-cases (bytes_eq (codes "point") a)) [
  | inl e ↦
      let same : sequence SchemaType.integer ≡ t = is_point a t e h in
      subst (Below rank (rank a)) same tt
  | inr e ↦ elim (Bool-cases (bytes_eq (codes "p") a)) [
    | inl f ↦
        let same : alias (codes "point") ≡ t = is_p a t e f h in
        let name : codes "p" ≡ a = (bytes_eq_iff _ a).0 f in
        subst (Below rank (rank a)) same (subst (λ x. 0 < rank x) name (omega arith))
    | inr f ↦ absurd (no_other a t e f h)
  ]
]

abbrev a_point : Store ℕ
a_point = Store.array (node (codes "at") (Store.list (cons (Store.integer (pos 3)) nil)) empty)

validate_store-Conforms_example :
    (b : Bool) × (validate_store 2 a_point schema ≡ some b)
    × ((b ≡ true)
        ↔ Conforms (ConformsTo 2 schema.named_types) (struct schema.layout_elements) a_point)
validate_store-Conforms_example =
    validate_store-Conforms schema rank 2 a_point ranked (omega arith, tt)

valid_point : validate_store 2 a_point schema ≡ some true
unfolding validate_store lookup get bytes_eq
valid_point = refl

-- An alias of itself is parsed, and never ends to be validated.
abbrev endless : Table SchemaType
endless = (codes "a", alias (codes "a")) ∷ []

validate_alias-endless : (n : ℕ) (s : Store ℕ) → validate_alias n endless (codes "a") s ≡ none
unfolding validate_alias get bytes_eq
validate_alias-endless zero s = refl
validate_alias-endless (suc n) s = validate_alias-endless n s
