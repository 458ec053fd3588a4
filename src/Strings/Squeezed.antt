-- ===== src/Strings/Squeezed.antt =====
-- What the functions that strip repeated separators leave.
use kalisko.Base.{
  ◌≡◌, refl, ℕ, Bool, true, false, [], ◌∷◌, ◌++◌, Bytes, arith, All, Bool-cases, inl, inr, ap, sym,
}
use mathlib.Core.Path.{subst}
use kalisko.Strings.{
  is_white, is_newline, squeeze, strip_duplicate_whitespace, strip_duplicate_newlines,
}

-- A string does not start with a separator.
abbrev pub StartsPlain : (ℕ → Bool) → Bytes → Type 0
StartsPlain separates [] = Unit
StartsPlain separates (c ∷ cs) = separates c ≡ false

-- The second string has one `kept` for each longest run of separators of the first, and the other
-- characters of it.
pub data IsSqueezed (separates : ℕ → Bool) (kept : ℕ) : Bytes → Bytes → Type 0 where
  at_end : IsSqueezed separates kept [] []
  plain :
      {s t : Bytes} (c : ℕ)
      → separates c ≡ false
      → IsSqueezed separates kept s t
      → IsSqueezed separates kept (c ∷ s) (c ∷ t)
  run :
      {s t : Bytes} (c : ℕ) (cs : Bytes)
      → separates c ≡ true
      → All (λ x. separates x ≡ true) cs
      → StartsPlain separates s
      → IsSqueezed separates kept s t
      → IsSqueezed separates kept (c ∷ (cs ++ s)) (kept ∷ t)

-- A string cut behind the separators that it starts with.
record Cut (separates : ℕ → Bool) (kept : ℕ) (s : Bytes) : Type 0 where
  first : Bytes
  rest : Bytes
  joined : s ≡ first ++ rest
  separators : All (λ x. separates x ≡ true) first
  starts : StartsPlain separates rest
  squeezed : IsSqueezed separates kept rest (squeeze separates kept true s)

module _ (separates : ℕ → Bool) (kept : ℕ) where
  squeeze-run :
      (c : ℕ) (cs : Bytes)
      → separates c ≡ true
      → squeeze separates kept true (c ∷ cs) ≡ squeeze separates kept true cs
  unfolding squeeze
  squeeze-run c cs h = ground (arith, h)

  squeeze-first :
      (c : ℕ) (cs : Bytes)
      → separates c ≡ true
      → squeeze separates kept false (c ∷ cs) ≡ kept ∷ squeeze separates kept true cs
  unfolding squeeze
  squeeze-first c cs h = ground (arith, h)

  squeeze-plain :
      (after : Bool) (c : ℕ) (cs : Bytes)
      → separates c ≡ false
      → squeeze separates kept after (c ∷ cs) ≡ c ∷ squeeze separates kept false cs
  unfolding squeeze
  squeeze-plain after c cs h = ground (arith, h)

  mutual
    unfolding squeeze

    squeeze-IsSqueezed : (s : Bytes) → IsSqueezed separates kept s (squeeze separates kept false s)
    squeeze-IsSqueezed [] = at_end
    squeeze-IsSqueezed (c ∷ cs) = elim (Bool-cases (separates c)) [
      | inl h ↦
          let k = squeeze-Cut cs in
          let long : IsSqueezed separates kept (c ∷ cs) (kept ∷ squeeze separates kept true cs) =
            subst (λ x. IsSqueezed separates kept (c ∷ x) (kept ∷ squeeze separates kept true cs))
              (sym k.joined) (run c k.first h k.separators k.starts k.squeezed) in
          subst (IsSqueezed separates kept (c ∷ cs)) (sym (squeeze-first c cs h)) long
      | inr h ↦
          subst (IsSqueezed separates kept (c ∷ cs)) (sym (squeeze-plain false c cs h))
            (plain c h (squeeze-IsSqueezed cs))
    ]

    squeeze-Cut : (s : Bytes) → Cut separates kept s
    squeeze-Cut [] = record {
      first = [];
      rest = [];
      joined = refl;
      separators = tt;
      starts = tt;
      squeezed = at_end;
    }
    squeeze-Cut (c ∷ cs) = elim (Bool-cases (separates c)) [
      | inl h ↦
          let k = squeeze-Cut cs in
          record {
            first = c ∷ k.first;
            rest = k.rest;
            joined = ap (◌∷◌ c) k.joined;
            separators = (h, k.separators);
            starts = k.starts;
            squeezed =
                subst (IsSqueezed separates kept k.rest) (sym (squeeze-run c cs h)) k.squeezed;
          }
      | inr h ↦ record {
        first = [];
        rest = c ∷ cs;
        joined = refl;
        separators = tt;
        starts = h;
        squeezed =
            subst (IsSqueezed separates kept (c ∷ cs)) (sym (squeeze-plain true c cs h))
              (plain c h (squeeze-IsSqueezed cs));
      }
    ]

-- stripDuplicateWhitespace leaves one space for each longest run of white characters and all
-- other characters as they are, in their order; stripDuplicateNewlines does so for line ends,
-- with line feeds.
pub strip_duplicates_lem :
    (s : Bytes)
    → IsSqueezed is_white b' ' s (strip_duplicate_whitespace s)
      × IsSqueezed is_newline 10 s (strip_duplicate_newlines s)
unfolding strip_duplicate_whitespace strip_duplicate_newlines
strip_duplicates_lem s = (squeeze-IsSqueezed is_white b' ' s, squeeze-IsSqueezed is_newline 10 s)
