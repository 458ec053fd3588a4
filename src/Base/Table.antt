-- ===== src/Base/Table.antt =====
-- A `GHashTable` from strings as the list of its entries, and a set of strings, whose removals take
-- out every occurrence.
use kalisko.Base.Lists.{Bytes, bytes_eq, bytes_eq_iff}
use kalisko.Base.Tests.{if◌then◌else◌}
use mathlib.Core.Bool.{Bool, false, ◌||◌, ◌&&◌, not}
use mathlib.Core.Path.{◌≡◌, refl}
use mathlib.Core.Option.{Option, none, some}
use mathlib.Core.List.{List, [], ◌∷◌}
use native.Mathlib.Omega.{arith}

abbrev pub Table : Type 0 → Type 0
Table V = List (Bytes × V)

module _ {V : Type 0} where
  unfoldable pub get : Bytes → Table V → Option V
  get k [] = none
  get k ((j, v) ∷ t) = if bytes_eq j k then some v else get k t

  unfoldable pub put : Bytes → V → Table V → Table V
  put k v [] = (k, v) ∷ []
  put k v ((j, w) ∷ t) = if bytes_eq j k then (k, v) ∷ t else (j, w) ∷ put k v t

  unfoldable pub drop : Bytes → Table V → Table V
  drop k [] = []
  drop k ((j, v) ∷ t) = let rest = drop k t in if bytes_eq j k then rest else (j, v) ∷ rest

  pub get-put :
      (k j : Bytes) (v : V) (t : Table V)
      → get j (put k v t) ≡ (if bytes_eq k j then some v else get j t)
  unfolding get put
  get-put k j v [] = refl
  get-put k j v ((i, w) ∷ t) =
      ground (arith, bytes_eq_iff k j, bytes_eq_iff i k, bytes_eq_iff i j, get-put k j v t)

  pub get-drop :
      (k j : Bytes) (t : Table V) → get j (drop k t) ≡ (if bytes_eq k j then none else get j t)
  unfolding get drop
  get-drop k j [] = ground arith
  get-drop k j ((i, w) ∷ t) =
      ground (arith, bytes_eq_iff k j, bytes_eq_iff i k, bytes_eq_iff i j, get-drop k j t)

  pub drop-put : (k : Bytes) (v : V) (t : Table V) → drop k (put k v t) ≡ drop k t
  unfolding put drop
  drop-put k v [] = ground (arith, bytes_eq_iff k k)
  drop-put k v ((j, w) ∷ t) = ground (arith, drop-put k v t, bytes_eq_iff k k)

unfoldable pub has : Bytes → List Bytes → Bool
has k [] = false
has k (j ∷ t) = bytes_eq j k || has k t

unfoldable pub add_name : Bytes → List Bytes → List Bytes
add_name k [] = k ∷ []
add_name k (j ∷ t) = if bytes_eq j k then k ∷ t else j ∷ add_name k t

unfoldable pub drop_name : Bytes → List Bytes → List Bytes
drop_name k [] = []
drop_name k (j ∷ t) = let rest = drop_name k t in if bytes_eq j k then rest else j ∷ rest

pub has-add_name : (k j : Bytes) (t : List Bytes) → has j (add_name k t) ≡ bytes_eq k j || has j t
unfolding has add_name
has-add_name k j [] = refl
has-add_name k j (i ∷ t) =
    ground (arith, bytes_eq_iff k j, bytes_eq_iff i k, bytes_eq_iff i j, has-add_name k j t)

pub has-drop_name :
    (k j : Bytes) (t : List Bytes) → has j (drop_name k t) ≡ not (bytes_eq k j) && has j t
unfolding has drop_name
has-drop_name k j [] = ground arith
has-drop_name k j (i ∷ t) =
    ground (arith, bytes_eq_iff k j, bytes_eq_iff i k, bytes_eq_iff i j, has-drop_name k j t)

-- A name added that was not there and taken out again leaves the set as it was.
pub drop_name-add_name :
    (k : Bytes) (t : List Bytes) → has k t ≡ false → drop_name k (add_name k t) ≡ t
unfolding has add_name drop_name
drop_name-add_name k [] h = ground (arith, bytes_eq_iff k k)
drop_name-add_name k (i ∷ t) h = ground (arith, drop_name-add_name k t)
