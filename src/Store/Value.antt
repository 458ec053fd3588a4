-- ===== src/Store/Value.antt =====
-- src/modules/store/store.c, store.i: the store, a tree of values.
pub mod Tables
use kalisko.Base.{Bytes}
use kalisko.Base.Int.{ℤ}

-- `Store`, with its `type` as the constructor and its `content` as the argument. `F` is `double`.
-- A `GQueue` is the sequence of its elements, and a `GHashTable` the sequence of its nodes in the
-- order in which `g_hash_table_foreach` meets them.
mutual
  pub data Store (F : Type 0) : Type 0 where
    string : Bytes → Store F
    integer : ℤ → Store F
    float_number : F → Store F
    list : Items F → Store F
    array : Nodes F → Store F

  pub data Items (F : Type 0) : Type 0 where
    nil : Items F
    cons : Store F → Items F → Items F

  pub data Nodes (F : Type 0) : Type 0 where
    empty : Nodes F
    node : Bytes → Store F → Nodes F → Nodes F

-- `createStore`
unfoldable pub create_store : {F : Type 0} → Store F
create_store = array empty
