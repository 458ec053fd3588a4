-- ===== src/Module/Counts.antt =====
-- The reference counts and the two directions of the dependencies, as an invariant of the loader.
use mathlib.Core.Path.{subst}
use kalisko.Base.{
  ℕ, ◌+◌, ◌≡◌, Bytes, bytes_eq, Bool, true, false, ◌&&◌, ◌||◌, if◌then◌else◌, Option, none, some,
  List, [], ◌∷◌, length, arith, bytes_eq_iff, sym, refl,
}
use kalisko.Base.Table.{has, get, put, get-put}
use kalisko.Base.Names.{Once}
use kalisko.Module.{Module, Loader, core_name, write}
use kalisko.Module.Load.{dependencies_of}

-- References that are still counted, while the module that holds them has given them up: the
-- holder and the module.
abbrev pub Debts : Type 0
Debts = List (Bytes × Bytes)

unfoldable pub owes : Debts → Bytes → Bytes → Bool
owes [] r k = false
owes ((q, j) ∷ ds) r k = (bytes_eq q r && bytes_eq j k) || owes ds r k

abbrev pub Single : Debts → Type 0
Single [] = Unit
Single ((r, k) ∷ ds) = (owes ds r k ≡ false) × Single ds

abbrev pub rdeps_of : Option Module → List Bytes
rdeps_of none = []
rdeps_of (some m) = m.rdeps

-- A module that is being loaded counts one reference that nobody holds yet.
abbrev pub loading : Bytes → List Bytes → ℕ
loading k pending = if has k pending then 1 else 0

-- The count of a module is the number of its holders.
abbrev pub IsCounted : List Bytes → Bytes → Option Module → Type 0
IsCounted pending k none = Unit
IsCounted pending k (some m) =
    (m.rc ≡ length m.rdeps + loading k pending) × (Once m.rdeps × Once m.dependencies)

-- What both branches of a test have.
pub on_branches :
    {A : Type 0} (P : A → Type 0) (b : Bool) (x y : A)
    → (b ≡ true → P x)
    → (b ≡ false → P y)
    → P (if b then x else y)
on_branches P true x y f g = f refl
on_branches P false x y f g = g refl

module _ {C S : Type 0} where
  -- The dependencies of a module or of the core.
  unfoldable pub deps_in : Loader C S → Bytes → List Bytes
  deps_in l r =
      if bytes_eq r core_name then l.core.dependencies else dependencies_of (get r l.modules)

  -- `k` has `r` among its reverse dependencies.
  unfoldable pub listed : Loader C S → Bytes → Bytes → Bool
  listed l r k = has r (rdeps_of (get k l.modules))

  -- `pending` are the modules that are being loaded, the last one first, and `debts` the references
  -- that are being given up.
  pub record IsConsistent (pending : List Bytes) (debts : Debts) (l : Loader C S) : Type 0 where
    pub apart : get core_name l.modules ≡ none
    pub counted : (k : Bytes) → IsCounted pending k (get k l.modules)
    pub mutual_edges : (r k : Bytes) → listed l r k ≡ has k (deps_in l r) || owes debts r k
    pub disjoint : (r k : Bytes) → has k (deps_in l r) && owes debts r k ≡ false
    pub single : Single debts
    pub unheld : (k r : Bytes) → has k pending ≡ true → listed l r k ≡ false

module _ {C S : Type 0} where
  pub listed-write :
      (l : Loader C S) (k : Bytes) (m : Module) (r j : Bytes)
      → listed (write k m l) r j ≡ (if bytes_eq k j then has r m.rdeps else listed l r j)
  unfolding listed
  listed-write l k m r j = ground (arith, get-put k j m l.modules)

  pub deps_in-write :
      (l : Loader C S) (k : Bytes) (m : Module) (r : Bytes)
      → bytes_eq k core_name ≡ false
      → deps_in (write k m l) r ≡ (if bytes_eq k r then m.dependencies else deps_in l r)
  unfolding deps_in
  deps_in-write l k m r a =
      ground (arith, bytes_eq_iff k r, bytes_eq_iff r core_name, get-put k r m l.modules)

  -- What the counts say of a module that is there.
  pub IsCounted-at :
      (pending : List Bytes) (debts : Debts) (l : Loader C S) (k : Bytes) (m : Module)
      → IsConsistent pending debts l
      → get k l.modules ≡ some m
      → IsCounted pending k (some m)
  IsCounted-at pending debts l k m c g = subst (IsCounted pending k) g (c.counted k)

  pub IsCounted-write :
      (pending : List Bytes) (debts : Debts) (l : Loader C S) (k : Bytes) (m : Module)
      → IsConsistent pending debts l
      → IsCounted pending k (some m)
      → (j : Bytes) → IsCounted pending j (get j (put k m l.modules))
  IsCounted-write pending debts l k m c h j =
      subst (IsCounted pending j) (sym (get-put k j m l.modules)) (
        on_branches (IsCounted pending j) (bytes_eq k j) (some m) (get j l.modules)
          (λ e. subst (λ i. IsCounted pending i (some m)) ((bytes_eq_iff k j).0 e) h)
          (λ e. c.counted j))
