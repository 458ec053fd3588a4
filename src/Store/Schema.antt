-- ===== src/Store/Schema.antt =====
-- src/modules/store/schema.c: schemas and their parser. The names of types stand only in messages
-- and are left out; so are the anonymous types, which the schema holds to free them, and the text
-- that is written of each as its name.
use kalisko.Base.{
  ℕ, zero, suc, ◌+◌, Bool, true, false, if◌then◌else◌, Option, none, some, List, [], ◌∷◌, ◌==◌,
  Bytes, bytes_eq, codes,
}
use kalisko.Base.Table.{Table, get, put}
use kalisko.Store.Value.{Store, Items, Nodes, nil, cons, empty, node}
use kalisko.Store.Value.Tables.{lookup}

-- `SchemaType`, with its `mode` as the constructor and its `data` as the argument, and the table of
-- the `SchemaStructElement`s of a struct with their `required` flags.
mutual
  pub data SchemaType : Type 0 where
    integer : SchemaType
    float_number : SchemaType
    string : SchemaType
    struct : Elements → SchemaType
    array : SchemaType → SchemaType
    sequence : SchemaType → SchemaType
    tuple : Types → SchemaType
    variant : Types → SchemaType
    alias : Bytes → SchemaType
    enum : List Bytes → SchemaType

  pub data Types : Type 0 where
    no_types : Types
    subtype : SchemaType → Types → Types

  pub data Elements : Type 0 where
    no_elements : Elements
    element : Bytes → Bool → SchemaType → Elements → Elements

-- `Schema`
pub record Schema : Type 0 where
  pub named_types : Table SchemaType
  pub layout_elements : Elements

-- The identifiers at the head of a list.
pub data ListMode : Type 0 where
  array_mode sequence_mode tuple_mode variant_mode enum_mode : ListMode

unfoldable pub list_mode : Bytes → Option ListMode
list_mode name =
    if bytes_eq name (codes "array")
    then some array_mode
    else if bytes_eq name (codes "sequence")
    then some sequence_mode
    else if bytes_eq name (codes "tuple")
    then some tuple_mode
    else if bytes_eq name (codes "variant")
    then some variant_mode
    else if bytes_eq name (codes "enum")
    then some enum_mode
    else none

abbrev pub map_type {ℓ κ} : {A : Type ℓ} {B : Type κ} → (A → B) → Option A → Option B
map_type f none = none
map_type f (some t) = some (f t)

abbrev add_type : Option SchemaType → Option Types → Option Types
add_type (some t) (some ts) = some (subtype t ts)
add_type _ _ = none

abbrev add_constant : Bytes → Option (List Bytes) → Option (List Bytes)
add_constant c none = none
add_constant c (some cs) = some (c ∷ cs)

abbrev add_element : Bytes → Option (Bool × SchemaType) → Option Elements → Option Elements
add_element key (some (required, t)) (some es) = some (element key required t es)
add_element key _ _ = none

-- `schema->namedTypes`, `stuck` and `parsed` in the loop over the types.
pub record Round : Type 0 where
  pub named : Table SchemaType
  pub stuck : Bool
  pub parsed : ℕ

-- What the loop over the types comes to.
pub data ParsedTypes : Type 0 where
  parsed : Table SchemaType → ParsedTypes
  failed out_of_fuel : ParsedTypes

-- The default types.
abbrev pub default_types : Table SchemaType
default_types =
    (codes "int", integer) ∷ (codes "float", float_number) ∷ (codes "string", string) ∷ []

abbrev pub with_layout : Table SchemaType → Option Elements → Option Schema
with_layout named none = none
with_layout named (some es) = some (record { named_types = named; layout_elements = es })

module _ {F : Type 0} where
  -- `parseSchemaTypeEnum`
  unfoldable pub parse_schema_type_enum : Items F → Option (List Bytes)
  parse_schema_type_enum nil = some []
  parse_schema_type_enum (cons (Store.string c) vs) = add_constant c (parse_schema_type_enum vs)
  parse_schema_type_enum (cons _ vs) = none

  -- `parseSchemaType`; its `case STORE_LIST` on the elements; the subtype of an array or a
  -- sequence; the subtypes of a tuple or a variant; `parseSchemaTypeStruct`;
  -- `parseSchemaStructElement`. Elements behind those that are read are not looked at. The
  -- name of an anonymous type is not written, so that a read beyond a string there is not seen.
  unfoldable mutual
    unfolding list_mode parse_schema_type_enum

    pub parse_schema_type : Store F → Option SchemaType
    parse_schema_type (Store.string s) = some (alias s)
    parse_schema_type (Store.list vs) = parse_schema_type_list vs
    parse_schema_type (Store.array ns) = map_type struct (parse_schema_type_struct ns)
    parse_schema_type (Store.integer i) = none
    parse_schema_type (Store.float_number x) = none

    pub parse_schema_type_list : Items F → Option SchemaType
    parse_schema_type_list nil = none
    parse_schema_type_list (cons (Store.string name) vs) = elim (list_mode name) [
      | none ↦ none
      | some array_mode ↦ map_type array (parse_subtype vs)
      | some sequence_mode ↦ map_type sequence (parse_subtype vs)
      | some tuple_mode ↦ map_type tuple (parse_subtypes vs)
      | some variant_mode ↦ map_type variant (parse_subtypes vs)
      | some enum_mode ↦ map_type enum (parse_schema_type_enum vs)
    ]
    parse_schema_type_list (cons _ vs) = none

    pub parse_subtype : Items F → Option SchemaType
    parse_subtype nil = none
    parse_subtype (cons v vs) = parse_schema_type v

    pub parse_subtypes : Items F → Option Types
    parse_subtypes nil = some no_types
    parse_subtypes (cons v vs) = add_type (parse_schema_type v) (parse_subtypes vs)

    pub parse_schema_type_struct : Nodes F → Option Elements
    parse_schema_type_struct empty = some no_elements
    parse_schema_type_struct (node key (Store.list vs) ns) =
        add_element key (parse_schema_struct_element vs) (parse_schema_type_struct ns)
    parse_schema_type_struct (node key _ ns) = none

    pub parse_schema_struct_element : Items F → Option (Bool × SchemaType)
    parse_schema_struct_element nil = none
    parse_schema_struct_element (cons (Store.string flag) vs) =
        map_type (λ t. (bytes_eq flag (codes "required"), t)) (parse_subtype vs)
    parse_schema_struct_element (cons _ vs) = none

  -- One run of the inner loop of `parseSchema`.
  unfoldable pub parse_round : Nodes F → Round → Round
  unfolding parse_schema_type
  parse_round empty r = r
  parse_round (node name v ns) r = parse_round ns (elim (get name r.named) [
    | some t ↦ r
    | none ↦ elim (parse_schema_type v) [
      | some t ↦ record r { named = put name t r.named; parsed = r.parsed + 1 }
      | none ↦ record r { stuck = true }
    ]
  ])

  -- The loop of `parseSchema` over the types.
  unfoldable pub parse_types : ℕ → Nodes F → Table SchemaType → ParsedTypes
  unfolding parse_round
  parse_types zero types named = out_of_fuel
  parse_types (suc n) types named =
      let r = parse_round types (record { named = named; stuck = false; parsed = 0 }) in
      let rest = parse_types n types r.named in
      if r.stuck then if r.parsed == 0 then failed else rest else parsed r.named

  -- The end of `parseSchema`, on the layout.
  unfoldable pub parse_layout : ParsedTypes → Option (Store F) → Option Schema
  unfolding parse_schema_type
  parse_layout (parsed named) (some (Store.array layout)) =
      with_layout named (parse_schema_type_struct layout)
  parse_layout _ _ = none

  abbrev types_section : Option (Store F) → ParsedTypes
  types_section none = parsed default_types
  types_section (some (Store.array types)) = parse_types 2 types default_types
  types_section (some _) = failed

  -- `parseSchema`. A type that fails once fails always, so that two rounds are enough.
  unfoldable pub parse_schema : Store F → Option Schema
  unfolding parse_types parse_layout lookup
  parse_schema (Store.array ns) =
      parse_layout (types_section (lookup (codes "types") ns)) (lookup (codes "layout") ns)
  parse_schema _ = none
