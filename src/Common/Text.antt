-- ===== src/Common/Text.antt =====
-- Python's `str` as its code points, with the methods that the program calls. `lower` is
-- modelled on ASCII letters: another letter stays as it is.
pub mod Strip
use Prim.Native.Char.{code}
use Prim.Native.String.{String}
use research_os.Common.Tests.{leb, ◌==◌, if◌then◌else◌}
use Prim.Native.Nat.{ℕ, zero, suc, ◌+◌}
use mathlib.Core.Path.{◌≡◌, refl, sym, ap, ◌∙◌}
use mathlib.Core.Logic.{◌↔◌, ◌≢◌}
use mathlib.Core.Bool.{Bool, true, false, not, ◌&&◌, ◌||◌}
use mathlib.Core.List.{
  List, [], ◌∷◌, ◌++◌, map, reverse, reverse-append, reverse-reverse, tail-eq_of_cons-eq,
}
use native.Mathlib.Omega.{arith}

abbrev pub Text : Type 0
Text = List ℕ

abbrev pub codes : String → Text
codes String.[] = []
codes (String.◌∷◌ c s) = code c ∷ codes s

abbrev pub text_eq : Text → Text → Bool
text_eq [] [] = true
text_eq (a ∷ s) (b ∷ t) = a == b && text_eq s t
text_eq _ _ = false

pub text_eq_refl : (s : Text) → text_eq s s ≡ true
text_eq_refl [] = refl
text_eq_refl (a ∷ s) = ground (arith, text_eq_refl s)

pub eq_of_text_eq : (s t : Text) → text_eq s t ≡ true → s ≡ t
eq_of_text_eq [] [] h = refl
eq_of_text_eq (a ∷ s) (b ∷ t) h = ground (arith, eq_of_text_eq s t)
eq_of_text_eq [] (b ∷ t) h = cc
eq_of_text_eq (a ∷ s) [] h = cc

pub text_eq_iff : (s t : Text) → (text_eq s t ≡ true) ↔ (s ≡ t)
text_eq_iff s t = (eq_of_text_eq s t, λ e. rw e (text_eq_refl t))

pub text_neq : (s t : Text) → text_eq s t ≡ false → s ≢ t
text_neq s t h e = ground (arith, text_eq_iff s t)

-- `c.isspace()`, for every code point of Unicode
unfoldable pub is_space : ℕ → Bool
is_space c =
    (leb 9 c && leb c 13)
    || (leb 28 c && leb c 32)
    || c == 133
    || c == 160
    || c == 5760
    || (leb 8192 c && leb c 8202)
    || c == 8232
    || c == 8233
    || c == 8239
    || c == 8287
    || c == 12288

-- `s.lstrip(cs)`, `s.strip(cs)`, with the stripped characters given by a test
unfoldable pub lstrip : (ℕ → Bool) → Text → Text
lstrip p [] = []
lstrip p (c ∷ s) = if p c then lstrip p s else c ∷ s

unfoldable pub strip : (ℕ → Bool) → Text → Text
unfolding lstrip
strip p s = reverse (lstrip p (reverse (lstrip p s)))

-- `bool(s)`
abbrev pub is_nonempty : Text → Bool
is_nonempty [] = false
is_nonempty (c ∷ s) = true

-- `not s.strip()`
unfoldable pub is_blank : Text → Bool
unfolding strip is_space
is_blank s = not (is_nonempty (strip is_space s))

unfoldable pub lower_char : ℕ → ℕ
lower_char c = if leb 65 c && leb c 90 then c + 32 else c

unfoldable pub lower : Text → Text
unfolding lower_char
lower s = map lower_char s

unfoldable pub starts_with : Text → Text → Bool
starts_with s [] = true
starts_with [] (c ∷ t) = false
starts_with (a ∷ s) (c ∷ t) = a == c && starts_with s t

unfoldable pub ends_with : Text → Text → Bool
unfolding starts_with
ends_with s t = starts_with (reverse s) (reverse t)

-- `c in s`
unfoldable pub has_char : ℕ → Text → Bool
has_char c [] = false
has_char c (a ∷ s) = a == c || has_char c s

pub starts_with_iff : (s t : Text) → (starts_with s t ≡ true) ↔ ((u : Text) × (s ≡ t ++ u))
unfolding starts_with
starts_with_iff s [] = (λ h. (s, refl), λ h. refl)
starts_with_iff [] (c ∷ t) = (λ h. cc, λ (u, h). cc)
starts_with_iff (a ∷ s) (c ∷ t) = (
  λ h. let (u, e) = (starts_with_iff s t).0 (ground arith) in (u, ground arith),
  λ (u, h). ground (arith, (starts_with_iff s t).1 (u, tail-eq_of_cons-eq h)),
)

pub ends_with_iff : (s t : Text) → (ends_with s t ≡ true) ↔ ((u : Text) × (s ≡ u ++ t))
unfolding ends_with
ends_with_iff s t = (
  λ h.
      let (u, e) = (starts_with_iff (reverse s) (reverse t)).0 h in
      (
        reverse u,
        sym (reverse-reverse s)
            ∙ ap reverse e
            ∙ reverse-append (reverse t) u
            ∙ ap (λ z. reverse u ++ z) (reverse-reverse t),
      ),
  λ (u, h).
      (starts_with_iff (reverse s) (reverse t)).1 (reverse u, ap reverse h ∙ reverse-append u t),
)

-- `s[n:]`
abbrev pub drop : ℕ → Text → Text
drop zero s = s
drop (suc n) [] = []
drop (suc n) (c ∷ s) = drop n s
