-- ===== src/Store/Validate/Conforms.antt =====
-- What it means that a store conforms to a type of a schema.
use kalisko.Base.{ℕ, zero, suc, ◌≡◌, ◌<◌, ◌⊎◌, false, none, some, List, ◌∷◌, Bytes, []}
use kalisko.Base.Table.{Table, get}
use kalisko.Base.Int.{ℤ}
use kalisko.Store.Value.{Store, Items, Nodes, cons, node, nil, empty}
use kalisko.Store.Value.Tables.{lookup}
use kalisko.Store.Schema.{
  SchemaType, Types, Elements, struct, tuple, variant, alias, enum, no_types, subtype, no_elements,
  element, sequence,
}

-- A value of the array, or of the list.
abbrev pub InNodes : {F : Type 0} → Store F → Nodes F → Type 0
InNodes v empty = ⊥
InNodes v (node k w ns) = (v ≡ w) ⊎ InNodes v ns

abbrev pub InItems : {F : Type 0} → Store F → Items F → Type 0
InItems v nil = ⊥
InItems v (cons w vs) = (v ≡ w) ⊎ InItems v vs

abbrev pub InList : Bytes → List Bytes → Type 0
InList c [] = ⊥
InList c (d ∷ cs) = (c ≡ d) ⊎ InList c cs

module _ {F : Type 0} (Named : Bytes → Store F → Type 0) where
  -- `Named` is what the aliases stand for.
  abbrev mutual
    pub Conforms : SchemaType → Store F → Type 0
    Conforms SchemaType.integer s = (i : ℤ) × (s ≡ Store.integer i)
    Conforms SchemaType.float_number s = (x : F) × (s ≡ Store.float_number x)
    Conforms SchemaType.string s = (t : Bytes) × (s ≡ Store.string t)
    Conforms (struct es) s = (ns : Nodes F) × (s ≡ Store.array ns) × HasElements es ns
    Conforms (SchemaType.array t) s =
        (ns : Nodes F) × (s ≡ Store.array ns) × ((v : Store F) → InNodes v ns → Conforms t v)
    Conforms (sequence t) s =
        (vs : Items F) × (s ≡ Store.list vs) × ((v : Store F) → InItems v vs → Conforms t v)
    Conforms (tuple ts) s = (vs : Items F) × (s ≡ Store.list vs) × Begins ts vs
    Conforms (variant ts) s = IsOneOf ts s
    Conforms (alias a) s = Named a s
    Conforms (enum cs) s = (c : Bytes) × (s ≡ Store.string c) × InList c cs

    -- Elements that are there conform, and those required are there.
    pub HasElements : Elements → Nodes F → Type 0
    HasElements no_elements ns = Unit
    HasElements (element key required t es) ns =
        (((lookup key ns ≡ none) × (required ≡ false))
          ⊎ ((v : Store F) × (lookup key ns ≡ some v) × Conforms t v))
        × HasElements es ns

    -- The first values conform to the types one by one.
    pub Begins : Types → Items F → Type 0
    Begins no_types vs = Unit
    Begins (subtype t ts) vs =
        (v : Store F) × (ws : Items F) × (vs ≡ cons v ws) × Conforms t v × Begins ts ws

    pub IsOneOf : Types → Store F → Type 0
    IsOneOf no_types s = ⊥
    IsOneOf (subtype t ts) s = Conforms t s ⊎ IsOneOf ts s

-- What an alias stands for, over at most `n` aliases in a row; one of no type allows everything.
abbrev pub ConformsTo : {F : Type 0} → ℕ → Table SchemaType → Bytes → Store F → Type 0
ConformsTo zero named a s = ⊥
ConformsTo (suc n) named a s = elim (get a named) [
  | none ↦ Unit {0}
  | some t ↦ Conforms (ConformsTo n named) t s
]

-- The aliases in a type have a rank below `n`.
abbrev mutual
  pub Below : (Bytes → ℕ) → ℕ → SchemaType → Type 0
  Below rank n SchemaType.integer = Unit
  Below rank n SchemaType.float_number = Unit
  Below rank n SchemaType.string = Unit
  Below rank n (struct es) = ElementsBelow rank n es
  Below rank n (SchemaType.array t) = Below rank n t
  Below rank n (sequence t) = Below rank n t
  Below rank n (tuple ts) = TypesBelow rank n ts
  Below rank n (variant ts) = TypesBelow rank n ts
  Below rank n (alias a) = rank a < n
  Below rank n (enum cs) = Unit

  pub TypesBelow : (Bytes → ℕ) → ℕ → Types → Type 0
  TypesBelow rank n no_types = Unit
  TypesBelow rank n (subtype t ts) = Below rank n t × TypesBelow rank n ts

  pub ElementsBelow : (Bytes → ℕ) → ℕ → Elements → Type 0
  ElementsBelow rank n no_elements = Unit
  ElementsBelow rank n (element key required t es) = Below rank n t × ElementsBelow rank n es
