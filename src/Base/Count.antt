-- ===== src/Base/Count.antt =====
-- How many names of a list pass a test.
use kalisko.Base.Lists.{Bytes, bytes_eq, bytes_eq_iff, length}
use kalisko.Base.Tests.{if◌then◌else◌}
use kalisko.Base.Table.{has, Table, get, put, drop, get-put, get-drop}
use kalisko.Base.Names.{Once}
use mathlib.Core.Bool.{Bool, true, false, not}
use mathlib.Core.Path.{◌≡◌}
use mathlib.Core.Option.{Option, none, some}
use mathlib.Core.List.{List, [], ◌∷◌}
use Prim.Native.Nat.{ℕ, ◌+◌, ◌≤◌, ◌<◌}
use native.Mathlib.Omega.{arith}

unfoldable pub count : (Bytes → Bool) → List Bytes → ℕ
count p [] = 0
count p (u ∷ us) = (if p u then 1 else 0) + count p us

pub count_le :
    (p q : Bytes → Bool) (us : List Bytes)
    → ((u : Bytes) → p u ≡ true → q u ≡ true)
    → count p us ≤ count q us
unfolding count
count_le p q [] h = omega arith
count_le p q (u ∷ us) h = ground (arith, h u, count_le p q us h)

-- A test that fails for one name more passes for fewer.
pub count_fewer :
    (p q : Bytes → Bool) (k : Bytes) (us : List Bytes)
    → ((u : Bytes) → p u ≡ true → q u ≡ true)
    → has k us ≡ true
    → p k ≡ false
    → q k ≡ true
    → count p us < count q us
unfolding count has
count_fewer p q k [] h m f t = ground arith
count_fewer p q k (u ∷ us) h m f t =
    ground (arith, h u, count_le p q us h, count_fewer p q k us h, bytes_eq_iff u k)

count_absent :
    (p q : Bytes → Bool) (k : Bytes) (us : List Bytes)
    → ((u : Bytes) → bytes_eq k u ≡ false → p u ≡ true → q u ≡ true)
    → has k us ≡ false
    → count p us ≤ count q us
unfolding count has
count_absent p q k [] h m = omega arith
count_absent p q k (u ∷ us) h m =
    ground (arith, h u, count_absent p q k us h, bytes_eq_iff u k, bytes_eq_iff k u)

-- A test that differs at one name counts at most one more.
pub count_one_more :
    (p q : Bytes → Bool) (k : Bytes) (us : List Bytes)
    → Once us
    → ((u : Bytes) → bytes_eq k u ≡ false → p u ≡ true → q u ≡ true)
    → count p us ≤ count q us + 1
unfolding count
count_one_more p q k [] o h = omega arith
count_one_more p q k (u ∷ us) o h =
    ground
      (arith, h u, count_absent p q k us h, count_one_more p q k us o.1 h, bytes_eq_iff k u, o.0)

abbrev pub missing : {V : Type 0} → Option V → Bool
missing none = true
missing (some v) = false

-- The names that are in no entry of a table.
abbrev pub absent : {V : Type 0} → List Bytes → Table V → ℕ
absent us t = count (λ u. missing (get u t)) us

-- The names that are not in a list.
abbrev pub outside : List Bytes → List Bytes → ℕ
outside ks us = count (λ u. not (has u ks)) us

pub outside-push :
    (k : Bytes) (ks us : List Bytes)
    → has k us ≡ true
    → has k ks ≡ false
    → outside (k ∷ ks) us < outside ks us
unfolding has
outside-push k ks us h n =
    count_fewer (λ u. not (has u (k ∷ ks))) (λ u. not (has u ks)) k us (λ u e. ground (arith, e)) h
      (ground (arith, bytes_eq_iff k k)) (ground (arith, n))

module _ {V : Type 0} where
  pub absent-put_found :
      (k : Bytes) (t : Table V) (v w : V) (us : List Bytes)
      → get k t ≡ some v
      → absent us (put k w t) ≤ absent us t
  absent-put_found k t v w us g =
      count_le (λ u. missing (get u (put k w t))) (λ u. missing (get u t)) us
        (λ u e. ground (arith, e, get-put k u w t))

  pub absent-put_new :
      (k : Bytes) (t : Table V) (w : V) (us : List Bytes)
      → get k t ≡ none
      → has k us ≡ true
      → absent us (put k w t) < absent us t
  absent-put_new k t w us g h =
      count_fewer (λ u. missing (get u (put k w t))) (λ u. missing (get u t)) k us
        (λ u e. ground (arith, e, get-put k u w t)) h
        (ground (arith, get-put k k w t, bytes_eq_iff k k)) (ground (arith, g))

  pub absent-drop :
      (k : Bytes) (t : Table V) (us : List Bytes) → Once us → absent us (drop k t) ≤ absent us t + 1
  absent-drop k t us o =
      count_one_more (λ u. missing (get u (drop k t))) (λ u. missing (get u t)) k us o
        (λ u n e. ground (arith, n, e, get-drop k u t))

pub count-length : (p : Bytes → Bool) (us : List Bytes) → count p us ≤ length us
unfolding count
count-length p [] = omega arith
count-length p (u ∷ us) = ground (arith, count-length p us)
