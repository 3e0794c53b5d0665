-- ===== src/Common/Text/Strip.antt =====
-- `str.strip` leaves a stripped text as it is.
use Prim.Native.Nat.{ℕ, ◌≤◌}
use mathlib.Core.Path.{◌≡◌, refl, sym, ap, subst, ◌∙◌}
use mathlib.Core.Logic.{inl, inr}
use mathlib.Core.Bool.{Bool, true, false, not}
use mathlib.Core.List.{[], ◌∷◌, ◌++◌, reverse, reverse-append, reverse-reverse}
use native.Mathlib.Omega.{arith}
use research_os.Common.Tests.{Bool-cases}
use research_os.Common.Lists.{length}
use research_os.Common.Text.{Text, lstrip, strip, is_space, is_blank, is_nonempty}

module _ (p : ℕ → Bool) where
  lstrip-suffix : (s : Text) → (w : Text) × (s ≡ w ++ lstrip p s)
  unfolding lstrip
  lstrip-suffix [] = ([], refl)
  lstrip-suffix (c ∷ s) =
      let (w, e) = lstrip-suffix s in
      elim (Bool-cases (p c)) [
        | inl stripped ↦ (c ∷ w, rw stripped (ap (λ t. c ∷ t) e))
        | inr kept ↦ ([], rw kept refl)
      ]

  lstrip_kept : (c : ℕ) (s : Text) → p c ≡ false → lstrip p (c ∷ s) ≡ c ∷ s
  unfolding lstrip
  lstrip_kept c s h = rw h refl

  lstrip_stripped : (c : ℕ) (s : Text) → p c ≡ true → lstrip p (c ∷ s) ≡ lstrip p s
  unfolding lstrip
  lstrip_stripped c s h = rw h refl

  lstrip-lstrip : (s : Text) → lstrip p (lstrip p s) ≡ lstrip p s
  unfolding lstrip
  lstrip-lstrip [] = refl
  lstrip-lstrip (c ∷ s) = elim (Bool-cases (p c)) [
    | inl stripped ↦ rw stripped (lstrip-lstrip s)
    | inr kept ↦ ap (lstrip p) (lstrip_kept c s kept)
  ]

  length-lstrip : (s : Text) → length (lstrip p s) ≤ length s
  unfolding lstrip
  length-lstrip [] = omega arith
  length-lstrip (c ∷ s) = ground (arith, length-lstrip s)

  lstrip_prefix : (s t : Text) → lstrip p (s ++ t) ≡ s ++ t → lstrip p s ≡ s
  unfolding lstrip
  lstrip_prefix [] t h = refl
  lstrip_prefix (c ∷ s) t h = elim (Bool-cases (p c)) [
    | inl stripped ↦
        let shorter = sym (lstrip_stripped c (s ++ t) stripped) ∙ h in
        let lengths = ap length shorter in absurd (omega (arith, lengths, length-lstrip (s ++ t)))
    | inr kept ↦ rw kept refl
  ]

  pub strip-strip : (s : Text) → strip p (strip p s) ≡ strip p s
  unfolding strip
  strip-strip s =
      let u = lstrip p s in
      let v = lstrip p (reverse u) in
      let (w, e) = lstrip-suffix (reverse u) in
      let parts : u ≡ reverse v ++ reverse w =
        sym (reverse-reverse u) ∙ ap reverse e ∙ reverse-append w v in
      let left =
        lstrip_prefix (reverse v) (reverse w)
          (subst (λ x. lstrip p x ≡ x) parts (lstrip-lstrip s)) in
      ap (λ x. reverse (lstrip p (reverse x))) left
      ∙ ap (λ x. reverse (lstrip p x)) (reverse-reverse v)
      ∙ ap reverse (lstrip-lstrip (reverse u))

pub is_blank-strip : (s : Text) → is_blank (strip is_space s) ≡ is_blank s
unfolding is_blank
is_blank-strip s = ap (λ t. not (is_nonempty t)) (strip-strip is_space s)
