-- ===== src/Base/Names.antt =====
-- Sets of names without repetition, and their size.
use kalisko.Base.Lists.{Bytes, bytes_eq, bytes_eq_iff, length}
use kalisko.Base.Table.{
  has, add_name, drop_name, has-add_name, has-drop_name, Table, get, put, drop,
}
use mathlib.Core.Bool.{true, false}
use mathlib.Core.Path.{◌≡◌, refl}
use mathlib.Core.Option.{some}
use mathlib.Core.List.{List, [], ◌∷◌}
use Prim.Native.Nat.{◌+◌, ◌≤◌, ◌<◌}
use native.Mathlib.Omega.{arith}

-- No name stands twice.
abbrev pub Once : List Bytes → Type 0
Once [] = Unit
Once (k ∷ t) = (has k t ≡ false) × Once t

pub drop_name-absent : (k : Bytes) (t : List Bytes) → has k t ≡ false → drop_name k t ≡ t
unfolding has drop_name
drop_name-absent k [] h = refl
drop_name-absent k (j ∷ t) h = ground (arith, drop_name-absent k t)

pub length-drop_name :
    (k : Bytes) (t : List Bytes) → Once t → has k t ≡ true → length (drop_name k t) + 1 ≡ length t
unfolding has drop_name
length-drop_name k [] o h = ground arith
length-drop_name k (j ∷ t) o h =
    ground (arith, bytes_eq_iff j k, drop_name-absent k t, length-drop_name k t o.1)

pub drop_name-Once : (k : Bytes) (t : List Bytes) → Once t → Once (drop_name k t)
unfolding drop_name
drop_name-Once k [] o = tt
drop_name-Once k (j ∷ t) o =
    ground (arith, bytes_eq_iff k j, has-drop_name k j t, drop_name-Once k t o.1)

pub length-add_name :
    (k : Bytes) (t : List Bytes) → has k t ≡ false → length (add_name k t) ≡ length t + 1
unfolding has add_name
length-add_name k [] h = refl
length-add_name k (j ∷ t) h = ground (arith, length-add_name k t)

pub add_name-Once : (k : Bytes) (t : List Bytes) → Once t → Once (add_name k t)
unfolding has add_name
add_name-Once k [] o = (refl, tt)
add_name-Once k (j ∷ t) o =
    ground (arith, bytes_eq_iff j k, bytes_eq_iff k j, has-add_name k j t, add_name-Once k t o.1)

pub has-length : (k : Bytes) (t : List Bytes) → has k t ≡ true → 0 < length t
unfolding has
has-length k [] h = ground arith
has-length k (j ∷ t) h = omega arith

-- A set of one name has no other.
pub has-single :
    (k j : Bytes) (t : List Bytes) → length t ≡ 1 → has k t ≡ true → has j t ≡ bytes_eq k j
unfolding has
has-single k j [] n h = ground arith
has-single k j (i ∷ []) n h = ground (arith, bytes_eq_iff i k, bytes_eq_iff i j, bytes_eq_iff k j)
has-single k j (i ∷ (x ∷ t)) n h = absurd (omega (arith, n))

module _ {V : Type 0} where
  pub length-drop : (k : Bytes) (t : Table V) → length (drop k t) ≤ length t
  unfolding drop
  length-drop k [] = omega arith
  length-drop k ((j, v) ∷ t) = ground (arith, length-drop k t)

  pub length-drop_found :
      (k : Bytes) (t : Table V) (v : V) → get k t ≡ some v → length (drop k t) < length t
  unfolding get drop
  length-drop_found k [] v h = ground arith
  length-drop_found k ((j, w) ∷ t) v h = ground (arith, length-drop k t, length-drop_found k t v)

  pub length-put_found :
      (k : Bytes) (t : Table V) (v w : V) → get k t ≡ some v → length (put k w t) ≡ length t
  unfolding get put
  length-put_found k [] v w h = ground arith
  length-put_found k ((j, x) ∷ t) v w h = ground (arith, length-put_found k t v w)

  pub length-put : (k : Bytes) (t : Table V) (v : V) → length (put k v t) ≤ length t + 1
  unfolding put
  length-put k [] v = omega arith
  length-put k ((j, x) ∷ t) v = ground (arith, length-put k t v)
