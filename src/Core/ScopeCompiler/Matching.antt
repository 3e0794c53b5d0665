-- ===== src/Core/ScopeCompiler/Matching.antt =====
-- What a wildcard host and a path prefix match (core/scope_compiler.py).
mod Examples
use mathlib.Core.List.{append-nil, append_assoc}
use research_os.Common.{
  ℕ, suc, ◌+◌, ◌<◌, Bool, true, false, not, ◌&&◌, none, some, List, [], ◌∷◌, ◌++◌, length,
  length-append, ◌≡◌, refl, sym, ap, ◌↔◌, ◌⊎◌, inl, inr, ◌∙◌, arith, Bool-cases, &&_elim,
  if◌then◌else◌,
}
use research_os.Common.Text.{
  Text, codes, text_eq, text_eq_iff, text_eq_refl, starts_with, starts_with_iff, ends_with,
  ends_with_iff,
}
use research_os.Core.ScopeCompiler.{match_pattern, host_matches, path_prefix_matches}

append-ne_self : (u s : Text) (c : ℕ) → ¬ (s ≡ u ++ c ∷ s)
append-ne_self u s c h = absurd (omega (arith, ap length h, length-append {0} u (c ∷ s)))

-- A wildcard rule `*.apex` matches exactly the hosts that end in `.apex`; so it does not match the
-- apex itself, nor a host that only ends in the letters of the apex.
pub host_matches-wildcard_iff :
    (host apex : Text)
    → (host_matches (some host) none (some (codes "*." ++ apex)) ≡ true)
      ↔ ((label : Text) × (host ≡ label ++ (codes "." ++ apex)))
unfolding host_matches
host_matches-wildcard_iff host apex = (
  λ h. (ends_with_iff host (codes "." ++ apex)).0 (&&_elim _ _ h).1,
  λ (label, e). elim (Bool-cases (text_eq host apex)) [
    | inl same ↦ absurd (append-ne_self label apex b'.' (sym ((text_eq_iff host apex).0 same) ∙ e))
    | inr other ↦ rw (other, (ends_with_iff host (codes "." ++ apex)).1 (label, e))
  ],
)

-- `path` is `prefix`, or goes on behind it at the border of a segment.
abbrev pub IsUnder : Text → Text → Type 0
IsUnder path prefix =
    (path ≡ prefix)
    ⊎ ((rest : Text) × (path ≡ prefix ++ rest)
        × ((ends_with prefix (codes "/") ≡ true) ⊎ (starts_with rest (codes "/") ≡ true)))

module _ (path prefix : Text) where
  to_under :
      (b : Bool)
      → ends_with prefix (codes "/") ≡ b
      → starts_with path (if not b then prefix ++ codes "/" else prefix) ≡ true
      → IsUnder path prefix
  unfolding starts_with
  to_under true e h = let (u, p) = (starts_with_iff path prefix).0 h in inr (u, p, inl e)
  to_under false e h =
      let (u, p) = (starts_with_iff path (prefix ++ codes "/")).0 h in
      inr (b'/' ∷ u, p ∙ append_assoc prefix (codes "/") u, inr refl)

  from_under :
      (b : Bool) (rest : Text)
      → ends_with prefix (codes "/") ≡ b
      → path ≡ prefix ++ rest
      → (ends_with prefix (codes "/") ≡ true) ⊎ (starts_with rest (codes "/") ≡ true)
      → starts_with path (if not b then prefix ++ codes "/" else prefix) ≡ true
  from_under true rest e p h = (starts_with_iff path prefix).1 (rest, p)
  from_under false rest e p (inl ends) = cc
  from_under false rest e p (inr starts) =
      let (u, q) = (starts_with_iff rest (codes "/")).0 starts in
      (starts_with_iff path (prefix ++ codes "/")).1
        (u, p ∙ ap (λ z. prefix ++ z) q ∙ sym (append_assoc prefix (codes "/") u))

-- A path prefix matches exactly the prefix itself and the paths that continue it at the border of a
-- segment: `/admin` matches `/admin/x` and does not match `/administrator`.
pub path_prefix_matches_iff :
    (path prefix : Text) → (path_prefix_matches path prefix ≡ true) ↔ IsUnder path prefix
unfolding path_prefix_matches
path_prefix_matches_iff path prefix = elim (Bool-cases (text_eq path prefix)) [
  | inl same ↦ (λ _. inl ((text_eq_iff path prefix).0 same), λ _. rw same)
  | inr other ↦ (
    λ h. to_under path prefix _ refl (rw other at h),
    λ h. rw other (elim h [
      | inl e ↦ cc (other, (text_eq_iff path prefix).1 e)
      | inr (rest, p, border) ↦ from_under path prefix _ rest refl p border
    ]),
  )
]
