-- ===== src/Version.antt =====
-- src/version.c.
use kalisko.Base.{
  ◌≡◌, ℕ, Bytes, ltb, Bool, if◌then◌else◌, true, false, arith, ◌<◌, ◌≤◌, ◌-◌, suc, ◌==◌, ◌⊎◌, ◌↔◌,
}
use kalisko.Base.Int.{ℤ, pos, negsuc}

-- `Version`, as `createVersion` makes it from numbers that are not negative.
pub record Version : Type 0 where
  pub major : ℕ
  pub minor : ℕ
  pub patch : ℕ
  pub revision : Bytes

-- The difference of two `int`s that are not negative.
unfoldable pub difference : ℕ → ℕ → ℤ
difference a b = if ltb a b then negsuc (b - suc a) else pos (a - b)

-- `compareVersions`
unfoldable pub compare_versions : Version → Version → ℤ
unfolding difference
compare_versions a b =
    if a.major == b.major
    then if a.minor == b.minor
      then if a.patch == b.patch then pos 0 else difference a.patch b.patch
      else difference a.minor b.minor
    else difference a.major b.major

abbrev pub is_negative : ℤ → Bool
is_negative (pos n) = false
is_negative (negsuc n) = true

abbrev pub is_positive : ℤ → Bool
is_positive (pos n) = ltb 0 n
is_positive (negsuc n) = false

-- The lexicographic order.
abbrev pub AtMost : Version → Version → Type 0
AtMost a b =
    (a.major < b.major)
    ⊎ ((a.major ≡ b.major) × ((a.minor < b.minor) ⊎ ((a.minor ≡ b.minor) × (a.patch ≤ b.patch))))

pub compare_versions-AtMost :
    (a b : Version) → (is_positive (compare_versions a b) ≡ false) ↔ AtMost a b
unfolding compare_versions difference
compare_versions-AtMost a b = (λ h. ground arith, λ h. ground arith)

pub compare_versions-swap :
    (a b : Version) → is_negative (compare_versions a b) ≡ is_positive (compare_versions b a)
unfolding compare_versions difference
compare_versions-swap a b = ground arith
