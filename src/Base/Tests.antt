-- ===== src/Base/Tests.antt =====
-- Boolean tests on the native numbers, the conditional, and splits on a computed value.
use Prim.Native.Nat.{ℕ, compare, Ordering}
use mathlib.Core.Path.{◌≡◌, refl}
use mathlib.Core.Logic.{◌↔◌, ◌⊎◌, inl, inr}
use mathlib.Core.Bool.{Bool, true, false}
use mathlib.Core.Option.{Option, none, some}
use native.Mathlib.Omega.{arith}

abbrev pub ltb : ℕ → ℕ → Bool
ltb a b = elim (compare a b) [ Ordering.lt ↦ true | _ ↦ false ]

abbrev pub leb : ℕ → ℕ → Bool
leb a b = elim (compare a b) [ Ordering.gt ↦ false | _ ↦ true ]

infix 50 ◌==◌
abbrev pub ◌==◌ : ℕ → ℕ → Bool
a == b = elim (compare a b) [ Ordering.eq ↦ true | _ ↦ false ]

infix 1 if◌then◌else◌
abbrev pub if◌then◌else◌ {ℓ} : {A : Type ℓ} → Bool → A → A → A
if true then x else y = x
if false then x else y = y

pub ==_iff : (a b : ℕ) → ((a == b) ≡ true) ↔ (a ≡ b)
==_iff a b = ground arith

pub ==-refl : (a : ℕ) → (a == a) ≡ true
==-refl a = ground arith

pub Bool-cases : (b : Bool) → (b ≡ true) ⊎ (b ≡ false)
Bool-cases true = inl refl
Bool-cases false = inr refl

pub Option-cases {ℓ} : {A : Type ℓ} (o : Option A) → (o ≡ none) ⊎ ((a : A) × (o ≡ some a))
Option-cases none = inl refl
Option-cases (some a) = inr (a, refl)

-- A test that may run out of fuel does not, and decides `P`.
abbrev pub Answer {ℓ} : Option Bool → Type ℓ → Type ℓ
Answer o P = (b : Bool) × (o ≡ some b) × ((b ≡ true) ↔ P)

module _ {ℓ} {P : Type ℓ} where
  pub Answer-yes : P → Answer (some true) P
  Answer-yes p = (true, refl, ((λ e. p), λ q. refl))

  pub Answer-no : ¬ P → Answer (some false) P
  Answer-no n = (false, refl, ((λ e. absurd (ground arith)), λ q. absurd (n q)))

  pub Answer-iff {κ} : {Q : Type κ} (o : Option Bool) → Answer o P → (P ↔ Q) → Answer o Q
  Answer-iff o (b, e, i) j = (b, e, ((λ t. j.0 (i.0 t)), λ q. i.1 (j.1 q)))
