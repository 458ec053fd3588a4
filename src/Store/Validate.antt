-- ===== src/Store/Validate.antt =====
-- src/modules/store/validate.c. The messages and the paths in them are left out. A result `none` is
-- fuel that ran out: an alias may lead to itself, and the source then recurses without end.
pub mod Loops
pub mod Answers
pub mod Conforms
mod Tests
use kalisko.Base.{
  ℕ, zero, suc, Bool, true, false, ◌&&◌, ◌||◌, if◌then◌else◌, Option, none, some, List, [], ◌∷◌,
  Bytes, bytes_eq,
}
use kalisko.Base.Table.{Table, get}
use kalisko.Store.Value.{Store, Items, Nodes, nil, cons, empty, node}
use kalisko.Store.Value.Tables.{lookup}
use kalisko.Store.Schema.{
  Schema, SchemaType, Types, Elements, struct, tuple, variant, alias, enum, no_types, subtype,
  no_elements, element, parse_schema, sequence,
}

-- `a() && b()`, where `b` is not called if `a` fails.
abbrev pub and_then : Option Bool → Option Bool → Option Bool
and_then none b = none
and_then (some true) b = b
and_then (some false) b = some false

-- `if(a()) return true;` before `b`.
abbrev pub or_else : Option Bool → Option Bool → Option Bool
or_else none b = none
or_else (some true) b = some true
or_else (some false) b = b

-- The loop of `validateSchemaTypeEnum`.
unfoldable pub is_constant : Bytes → List Bytes → Bool
is_constant s [] = false
is_constant s (c ∷ cs) = bytes_eq s c || is_constant s cs

module _ {F : Type 0} where
  -- The loops of `validateSchemaTypeArray` and `validateSchemaTypeSequence`.
  unfoldable pub every_node : (Store F → Option Bool) → Nodes F → Option Bool
  every_node valid empty = some true
  every_node valid (node k v ns) = and_then (valid v) (every_node valid ns)

  unfoldable pub every_item : (Store F → Option Bool) → Items F → Option Bool
  every_item valid nil = some true
  every_item valid (cons v vs) = and_then (valid v) (every_item valid vs)

  abbrev pub on_array : (Nodes F → Option Bool) → Store F → Option Bool
  on_array f (Store.array ns) = f ns
  on_array f _ = some false

  abbrev pub on_list : (Items F → Option Bool) → Store F → Option Bool
  on_list f (Store.list vs) = f vs
  on_list f _ = some false

  abbrev pub on_string : (Bytes → Bool) → Store F → Option Bool
  on_string f (Store.string s) = some (f s)
  on_string f _ = some false

  abbrev pub is_integer : Store F → Bool
  is_integer (Store.integer i) = true
  is_integer _ = false

  abbrev pub is_float : Store F → Bool
  is_float (Store.float_number x) = true
  is_float _ = false

  -- An element of a struct that is looked up in the array, `required` or not.
  abbrev pub at_element : Bool → (Store F → Option Bool) → Option (Store F) → Option Bool
  at_element required valid none = some (if required then false else true)
  at_element required valid (some v) = valid v

  -- `validateSchemaType` and the functions for its modes; `resolve` is `validateSchemaTypeAlias`.
  -- The last two are the loops over the subtypes of a tuple and a variant, the third that over the
  -- elements of a struct.
  module _ (resolve : Bytes → Store F → Option Bool) where
    unfoldable mutual
      unfolding every_node every_item is_constant

      pub validate_schema_type : SchemaType → Store F → Option Bool
      validate_schema_type SchemaType.integer s = some (is_integer s)
      validate_schema_type SchemaType.float_number s = some (is_float s)
      validate_schema_type SchemaType.string s = on_string (λ t. true) s
      validate_schema_type (struct es) s = on_array (validate_elements es) s
      validate_schema_type (SchemaType.array t) s = on_array (every_node (validate_schema_type t)) s
      validate_schema_type (sequence t) s = on_list (every_item (validate_schema_type t)) s
      validate_schema_type (tuple ts) s = on_list (validate_tuple ts) s
      validate_schema_type (variant ts) s = validate_variant ts s
      validate_schema_type (alias a) s = resolve a s
      validate_schema_type (enum cs) s = on_string (λ t. is_constant t cs) s

      pub validate_elements : Elements → Nodes F → Option Bool
      validate_elements no_elements ns = some true
      validate_elements (element key required t es) ns =
          and_then (at_element required (validate_schema_type t) (lookup key ns))
            (validate_elements es ns)

      pub validate_tuple : Types → Items F → Option Bool
      validate_tuple no_types vs = some true
      validate_tuple (subtype t ts) nil = some false
      validate_tuple (subtype t ts) (cons v vs) =
          and_then (validate_schema_type t v) (validate_tuple ts vs)

      pub validate_variant : Types → Store F → Option Bool
      validate_variant no_types s = some false
      validate_variant (subtype t ts) s = or_else (validate_schema_type t s) (validate_variant ts s)

  -- `validateSchemaTypeAlias`: an alias of no type is valid.
  unfoldable pub validate_alias : ℕ → Table SchemaType → Bytes → Store F → Option Bool
  unfolding validate_schema_type
  validate_alias zero named a s = none
  validate_alias (suc n) named a s = elim (get a named) [
    | none ↦ some true
    | some t ↦ validate_schema_type (validate_alias n named) t s
  ]

  -- `validateStore`
  unfoldable pub validate_store : ℕ → Store F → Schema → Option Bool
  unfolding validate_alias
  validate_store n s schema =
      on_array (validate_elements (validate_alias n schema.named_types) schema.layout_elements) s

  abbrev by_schema : ℕ → Store F → Option Schema → Option Bool
  by_schema n s none = some false
  by_schema n s (some schema) = validate_store n s schema

  -- `validateStoreByStoreSchema`
  unfoldable pub validate_store_by_store_schema : ℕ → Store F → Store F → Option Bool
  unfolding validate_store parse_schema
  validate_store_by_store_schema n s schema = by_schema n s (parse_schema schema)
