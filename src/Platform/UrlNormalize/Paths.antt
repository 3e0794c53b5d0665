-- ===== src/Platform/UrlNormalize/Paths.antt =====
-- Which paths platform/url_normalize.py takes for unambiguous.
use mathlib.Core.Path.{subst}
use mathlib.Core.List.{tail-eq_of_cons-eq}
use research_os.Common.{
  Bool, true, false, not, ◌&&◌, ◌||◌, Option, none, some, List, [], ◌∷◌, ◌++◌, any, Every, ◌≡◌, ◌≢◌,
  refl, sym, ap, ◌↔◌, inl, inr, arith, Bool-cases, ||_elim, if◌then◌else◌, eq_of_some-eq,
}
use research_os.Common.Text.{
  Text, is_nonempty, codes, text_eq, starts_with, starts_with_iff, has_char, text_neq,
}
use research_os.Platform.UrlNormalize.{
  contains, has_bad_percent, has_encoded_separator, segments_of, is_dots, is_ascii, is_rejected,
  is_unambiguous_segment, is_ambiguous_text, scope_match_path_of,
}

-- The text stands somewhere in the other.
abbrev pub HasInfix : Text → Text → Type 0
HasInfix t s = (u v : Text) × (s ≡ u ++ (t ++ v))

pub contains_iff : (t s : Text) → (contains t s ≡ true) ↔ HasInfix t s
unfolding contains
contains_iff t [] =
    (λ h. let (v, e) = (starts_with_iff [] t).0 h in ([], v, e), λ (u, v, e). in_empty u v e)
  where
    in_empty : (u v : Text) → [] ≡ u ++ (t ++ v) → starts_with [] t ≡ true
    in_empty [] v e = (starts_with_iff [] t).1 (v, e)
    in_empty (c ∷ u) v e = cc
contains_iff t (c ∷ s) =
    let rest = contains_iff t s in
    (
      λ h. elim (||_elim (starts_with (c ∷ s) t) (contains t s) h) [
        | inl here ↦ let (v, e) = (starts_with_iff (c ∷ s) t).0 here in ([], v, e)
        | inr later ↦ let (u, v, e) = rest.0 later in (c ∷ u, v, ap (λ x. c ∷ x) e)
      ],
      λ (u, v, e). in_cons rest u v e,
    )
  where
    in_cons :
        (contains t s ≡ true) ↔ HasInfix t s
        → (u v : Text) → c ∷ s ≡ u ++ (t ++ v)
        → (starts_with (c ∷ s) t || contains t s) ≡ true
    in_cons rest [] v e = rw ((starts_with_iff (c ∷ s) t).1 (v, e)) refl
    in_cons rest (d ∷ u) v e =
        let later = rest.1 (u, v, tail-eq_of_cons-eq e) in ground (arith, later)

-- It begins with a slash; it has no backslash, no empty segment before another one and no encoded slash
-- or dot; and no segment is `.` or `..` or has a character that is not ASCII.
pub record IsPlain (path : Text) : Type 0 where
  pub rooted : starts_with path (codes "/") ≡ true
  pub no_backslash : has_char 92 path ≡ false
  pub no_empty_segment : ¬ HasInfix (codes "//") path
  pub no_encoded_slash : ¬ HasInfix (codes "%2f") path × ¬ HasInfix (codes "%2F") path
  pub no_encoded_dot : ¬ HasInfix (codes "%2e") path × ¬ HasInfix (codes "%2E") path
  pub segments :
      Every (λ s. (s ≢ codes ".") × (s ≢ codes "..") × (is_ascii s ≡ true)) (segments_of path)

no_infix : (t s : Text) → contains t s ≡ false → ¬ HasInfix t s
no_infix t s h found = let present = (contains_iff t s).1 found in cc

||_none : (a b : Bool) → (a || b) ≡ false → (a ≡ false) × (b ≡ false)
||_none a b h = (ground (arith, h), ground (arith, h))

IsProper : Text → Type 0
IsProper s = (s ≢ codes ".") × (s ≢ codes "..") × (is_ascii s ≡ true)

segments-IsProper : (ss : List Text) → any is_rejected ss ≡ false → Every IsProper ss
unfolding is_rejected IsProper
segments-IsProper [] h = tt
segments-IsProper (s ∷ ss) h =
    let (this, rest) = ||_none (is_rejected s) (any is_rejected ss) h in
    let (dots, ascii) = ||_none (is_dots s) (not (is_ascii s)) this in
    let (one, two) = ||_none (text_eq s (codes ".")) (text_eq s (codes "..")) dots in
    (
      (text_neq s (codes ".") one, text_neq s (codes "..") two, ground (arith, ascii)),
      segments-IsProper ss rest,
    )

not-false : (b : Bool) → not b ≡ false → b ≡ true
not-false b h = ground (arith, h)

-- A chain of tests, each of which refuses
refused_if :
    (b : Bool) (rest : Option Text) (path : Text)
    → b ≡ true
    → (if b then none else rest) ≢ some path
refused_if true rest path h e = cc
refused_if false rest path h e = cc

passed_if :
    (b : Bool) (rest : Option Text) (path : Text)
    → b ≡ false
    → (if b then none else rest) ≡ some path
    → rest ≡ some path
passed_if true rest path h e = cc
passed_if false rest path h e = e

last_if : (b : Bool) (raw path : Text) → (if b then none else some raw) ≡ some path → path ≡ raw
last_if true raw path e = cc
last_if false raw path e = sym (eq_of_some-eq e)

text-IsPlain :
    (path : Text)
    → is_ambiguous_text path ≡ false
    → any is_rejected (segments_of path) ≡ false
    → IsPlain path
unfolding is_ambiguous_text has_encoded_separator IsProper
text-IsPlain path h k =
    let (more3, empty_segment) = ||_none _ (contains (codes "//") path) h in
    let (more2, rooted) = ||_none _ (not (starts_with path (codes "/"))) more3 in
    let (more1, encoded) = ||_none _ (has_encoded_separator path) more2 in
    let (backslash, bad) = ||_none (has_char 92 path) (has_bad_percent path) more1 in
    let (slashes, dots) =
      ||_none (contains (codes "%2f") path || contains (codes "%2F") path)
        (contains (codes "%2e") path || contains (codes "%2E") path) encoded in
    let (slash, slash') =
      ||_none (contains (codes "%2f") path) (contains (codes "%2F") path) slashes in
    let (dot, dot') = ||_none (contains (codes "%2e") path) (contains (codes "%2E") path) dots in
    record {
      rooted = not-false (starts_with path (codes "/")) rooted;
      no_backslash = backslash;
      no_empty_segment = no_infix (codes "//") path empty_segment;
      no_encoded_slash = (no_infix (codes "%2f") path slash, no_infix (codes "%2F") path slash');
      no_encoded_dot = (no_infix (codes "%2e") path dot, no_infix (codes "%2E") path dot');
      segments = segments-IsProper (segments_of path) k;
    }

-- A path that is not ambiguous is given back as it is, and it is plain.
pub scope_match_path_of_lem :
    (raw path : Text) → scope_match_path_of raw ≡ some path → (path ≡ raw) × IsPlain path
unfolding scope_match_path_of
scope_match_path_of_lem raw path h = elim (Bool-cases (is_ambiguous_text raw)) [
  | inl ambiguous ↦ absurd (refused_if (is_ambiguous_text raw) _ path ambiguous h)
  | inr clear ↦
      let kept = passed_if (is_ambiguous_text raw) _ path clear h in
      elim (Bool-cases (any is_rejected (segments_of raw))) [
        | inl rejected ↦
            absurd (refused_if (any is_rejected (segments_of raw)) _ path rejected kept)
        | inr proper ↦
            let last = passed_if (any is_rejected (segments_of raw)) _ path proper kept in
            let same =
              last_if (any (λ s. is_nonempty s && not (is_unambiguous_segment s)) (segments_of raw))
                raw path last in
            (same, subst IsPlain (sym same) (text-IsPlain raw clear proper))
      ]
]
