-- ===== src/Base/Pointers.antt =====
-- A `GHashTable` from pointers, which are numbers here, as the list of its entries.
use kalisko.Base.Tests.{◌==◌, if◌then◌else◌, ==_iff}
use mathlib.Core.Path.{◌≡◌, refl}
use mathlib.Core.Option.{Option, none, some}
use mathlib.Core.List.{List, [], ◌∷◌}
use native.Mathlib.Omega.{arith}
use Prim.Native.Nat.{ℕ}

module _ {V : Type 0} where
  unfoldable pub get_subject : ℕ → List (ℕ × V) → Option V
  get_subject s [] = none
  get_subject s ((t, value) ∷ subjects) = if t == s then some value else get_subject s subjects

  unfoldable pub put_subject : ℕ → V → List (ℕ × V) → List (ℕ × V)
  put_subject s value [] = (s, value) ∷ []
  put_subject s value ((t, old) ∷ subjects) =
      if t == s then (s, value) ∷ subjects else (t, old) ∷ put_subject s value subjects

  unfoldable pub drop_subject : ℕ → List (ℕ × V) → List (ℕ × V)
  drop_subject s [] = []
  drop_subject s ((t, value) ∷ subjects) =
      let rest = drop_subject s subjects in if t == s then rest else (t, value) ∷ rest

  pub get_subject-put_subject :
      (s t : ℕ) (value : V) (subjects : List (ℕ × V))
      → get_subject t (put_subject s value subjects)
        ≡ (if s == t then some value else get_subject t subjects)
  unfolding get_subject put_subject
  get_subject-put_subject s t value [] = refl
  get_subject-put_subject s t value ((u, old) ∷ subjects) =
      ground (arith, ==_iff s t, ==_iff u s, ==_iff u t, get_subject-put_subject s t value subjects)

  pub get_subject-drop_subject :
      (s t : ℕ) (subjects : List (ℕ × V))
      → get_subject t (drop_subject s subjects) ≡ (if s == t then none else get_subject t subjects)
  unfolding get_subject drop_subject
  get_subject-drop_subject s t [] = ground arith
  get_subject-drop_subject s t ((u, old) ∷ subjects) =
      ground (arith, ==_iff s t, ==_iff u s, ==_iff u t, get_subject-drop_subject s t subjects)
