-- ===== src/Research/TierGate/Entries.antt =====
-- What the entries of a validation say of a tier, and how the gate reads them
-- (research/validation/tier_gate.py).
use mathlib.Core.Path.{subst}
use research_os.Common.{
  Bool, true, false, some, none, Option, ok, List, [], ◌∷◌, ◌≡◌, ◌≢◌, refl, sym, ap, ◌∙◌, ◌↔◌, ◌⊎◌,
  inl, inr, Every, arith, >>=-eq-ok, ok-eq-ok, Bool-cases, if◌then◌else◌,
}
use research_os.Common.Text.{Text, codes, text_eq, text_eq_iff, eq_of_text_eq}
use research_os.Research.TierGate.{
  ValidationTier, v1, v2, v3, ValidationTierOutcome, TierArgument, OutcomeArgument, passed,
  coerce_tier, coerce_outcome, normalize, observed, same_tier,
}

pub tier_text : ValidationTier → Text
tier_text v1 = codes "V1"
tier_text v2 = codes "V2"
tier_text v3 = codes "V3"

-- An argument is a tier, or the text of it.
pub IsTier : TierArgument → ValidationTier → Type 0
IsTier (TierArgument.tier u) t = u ≡ t
IsTier (TierArgument.text s) t = s ≡ tier_text t

pub SaysPassed : OutcomeArgument → Type 0
SaysPassed (OutcomeArgument.outcome o) = o ≡ passed
SaysPassed (OutcomeArgument.text s) = s ≡ codes "PASSED"

-- The last entry of the tier says that it passed.
pub data LastPassed (t : ValidationTier) : List (TierArgument × OutcomeArgument) → Type 0 where
  last :
      {key : TierArgument} {value : OutcomeArgument} {rest : List (TierArgument × OutcomeArgument)}
      → IsTier key t
      → SaysPassed value
      → Every (λ e. ¬ IsTier e.0 t) rest
      → LastPassed t ((key, value) ∷ rest)
  earlier :
      {e : TierArgument × OutcomeArgument} {rest : List (TierArgument × OutcomeArgument)}
      → LastPassed t rest
      → LastPassed t (e ∷ rest)

coerce_tier-tier_text : (t : ValidationTier) → coerce_tier (TierArgument.text (tier_text t)) ≡ ok t
unfolding coerce_tier tier_text
coerce_tier-tier_text v1 = refl
coerce_tier-tier_text v2 = refl
coerce_tier-tier_text v3 = refl

read_back :
    (s : Text) (t : ValidationTier) → coerce_tier (TierArgument.text s) ≡ ok t → s ≡ tier_text t
unfolding coerce_tier tier_text
read_back s t h = elim (Bool-cases (text_eq s (codes "V1"))) [
  | inl e ↦ eq_of_text_eq s (codes "V1") e ∙ ap tier_text (ok-eq-ok (rw e at h))
  | inr n ↦ elim (Bool-cases (text_eq s (codes "V2"))) [
    | inl e ↦ eq_of_text_eq s (codes "V2") e ∙ ap tier_text (ok-eq-ok (rw (n, e) at h))
    | inr m ↦ elim (Bool-cases (text_eq s (codes "V3"))) [
      | inl e ↦ eq_of_text_eq s (codes "V3") e ∙ ap tier_text (ok-eq-ok (rw (n, m, e) at h))
      | inr k ↦ ground arith
    ]
  ]
]

-- An argument that was read is that tier and no other.
pub coerce_tier-IsTier :
    (key : TierArgument) (t : ValidationTier)
    → coerce_tier key ≡ ok t
    → (u : ValidationTier) → IsTier key u ↔ (t ≡ u)
unfolding coerce_tier IsTier
coerce_tier-IsTier (TierArgument.tier v) t h u = (λ e. sym (ok-eq-ok h) ∙ e, λ e. ok-eq-ok h ∙ e)
coerce_tier-IsTier (TierArgument.text s) t h u = (
  λ e. ok-eq-ok (sym h ∙ ap (λ s. coerce_tier (TierArgument.text s)) e ∙ coerce_tier-tier_text u),
  λ e. read_back s t h ∙ ap tier_text e,
)

coerce_outcome-passed :
    (value : OutcomeArgument) (o : ValidationTierOutcome)
    → coerce_outcome value ≡ ok o
    → SaysPassed value ↔ (o ≡ passed)
unfolding coerce_outcome SaysPassed
coerce_outcome-passed (OutcomeArgument.outcome v) o h =
    (λ e. sym (ok-eq-ok h) ∙ e, λ e. ok-eq-ok h ∙ e)
coerce_outcome-passed (OutcomeArgument.text s) o h = (
  λ e. ground (arith, h, text_eq_iff s (codes "PASSED")),
  λ e. eq_of_text_eq s (codes "PASSED") (ground (arith, h, e)),
)

same_tier_iff : (t u : ValidationTier) → (same_tier t u ≡ true) ↔ (t ≡ u)
same_tier_iff v1 v1 = (λ h. refl, λ h. refl)
same_tier_iff v1 v2 = (λ h. cc, λ h. cc)
same_tier_iff v1 v3 = (λ h. cc, λ h. cc)
same_tier_iff v2 v1 = (λ h. cc, λ h. cc)
same_tier_iff v2 v2 = (λ h. refl, λ h. refl)
same_tier_iff v2 v3 = (λ h. cc, λ h. cc)
same_tier_iff v3 v1 = (λ h. cc, λ h. cc)
same_tier_iff v3 v2 = (λ h. cc, λ h. cc)
same_tier_iff v3 v3 = (λ h. refl, λ h. refl)

-- A read list of entries, and the first of them
normalize-cons :
    (key : TierArgument) (value : OutcomeArgument) (rest : List (TierArgument × OutcomeArgument))
    {all : List (ValidationTier × ValidationTierOutcome)}
    → normalize ((key, value) ∷ rest) ≡ ok all
    → (t : ValidationTier) × (o : ValidationTierOutcome) × (later : List
        (ValidationTier × ValidationTierOutcome))
      × (coerce_tier key ≡ ok t)
      × (coerce_outcome value ≡ ok o)
      × (normalize rest ≡ ok later)
      × (all ≡ (t, o) ∷ later)
unfolding normalize
normalize-cons key value rest h =
    let (t, key_read, h) = >>=-eq-ok (coerce_tier key) _ h in
    let (o, value_read, h) = >>=-eq-ok (coerce_outcome value) _ h in
    let (later, rest_read, h) = >>=-eq-ok (normalize rest) _ h in
    (t, o, later, key_read, value_read, rest_read, sym (ok-eq-ok h))

-- What an entry shows of a tier, from what the later ones show
abbrev shown :
    Option ValidationTierOutcome → Bool → ValidationTierOutcome → Option ValidationTierOutcome
shown later here o = elim later [ some l ↦ some l | none ↦ if here then some o else none ]

shown-none_iff :
    (later : Option ValidationTierOutcome) (here : Bool) (o : ValidationTierOutcome)
    → (shown later here o ≡ none) ↔ ((here ≡ false) × (later ≡ none))
shown-none_iff none true o = (λ h. cc, λ h. cc)
shown-none_iff none false o = (λ h. (refl, refl), λ h. refl)
shown-none_iff (some l) here o = (λ h. cc, λ h. cc)

shown-passed :
    (later : Option ValidationTierOutcome) (here : Bool) (o : ValidationTierOutcome)
    → shown later here o ≡ some passed
    → (later ≡ some passed) ⊎ ((later ≡ none) × (here ≡ true) × (o ≡ passed))
shown-passed none true o h = inr (refl, refl, cc)
shown-passed none false o h = cc
shown-passed (some l) here o h = inl h

shown-later :
    (later : Option ValidationTierOutcome) (here : Bool) (o : ValidationTierOutcome)
    → later ≡ some passed
    → shown later here o ≡ some passed
shown-later none here o h = cc
shown-later (some l) here o h = h

shown-here :
    (later : Option ValidationTierOutcome) (here : Bool) (o : ValidationTierOutcome)
    → later ≡ none
    → here ≡ true
    → o ≡ passed
    → shown later here o ≡ some passed
shown-here none true o a h e = ap some e
shown-here none false o a h e = cc
shown-here (some l) here o a h e = cc

same_tier-false_iff : (t u : ValidationTier) → (same_tier t u ≡ false) ↔ (t ≢ u)
same_tier-false_iff t u = (
  λ h e. let same = (same_tier_iff t u).1 e in cc,
  λ n. elim (Bool-cases (same_tier t u)) [
    | inl e ↦ absurd (n ((same_tier_iff t u).0 e))
    | inr e ↦ e
  ],
)

-- A tier is not observed exactly if no entry is one of it.
observed-none_iff :
    (entries : List (TierArgument × OutcomeArgument))
    (normalized : List (ValidationTier × ValidationTierOutcome)) (t : ValidationTier)
    → normalize entries ≡ ok normalized
    → (observed normalized t ≡ none) ↔ Every (λ e. ¬ IsTier e.0 t) entries
unfolding observed normalize
observed-none_iff [] normalized t h =
    subst (λ n. (observed n t ≡ none) ↔ Unit) (ok-eq-ok h) (λ e. tt, λ e. refl)
observed-none_iff ((key, value) ∷ rest) normalized t h =
    let (u, o, later, key_read, value_read, rest_read, same) = normalize-cons key value rest h in
    let named = coerce_tier-IsTier key u key_read t in
    let ih = observed-none_iff rest later t rest_read in
    let step = shown-none_iff (observed later t) (same_tier u t) o in
    subst (λ n. (observed n t ≡ none) ↔ ((¬ IsTier key t) × Every (λ e. ¬ IsTier e.0 t) rest))
      (sym same)
      (
        λ e.
            let (other, absent) = step.0 e in
            (λ k. (same_tier-false_iff u t).0 other (named.0 k), ih.0 absent),
        λ (n, ns). step.1 ((same_tier-false_iff u t).1 (λ k. n (named.1 k)), ih.1 ns),
      )

pub observed-LastPassed :
    (entries : List (TierArgument × OutcomeArgument))
    (normalized : List (ValidationTier × ValidationTierOutcome)) (t : ValidationTier)
    → normalize entries ≡ ok normalized
    → observed normalized t ≡ some passed
    → LastPassed t entries
unfolding observed normalize
observed-LastPassed [] normalized t h e =
    let e = subst (λ n. observed n t ≡ some passed) (sym (ok-eq-ok h)) e in cc
observed-LastPassed ((key, value) ∷ rest) normalized t h e =
    let (u, o, later, key_read, value_read, rest_read, same) = normalize-cons key value rest h in
    let e = subst (λ n. observed n t ≡ some passed) same e in
    elim (shown-passed (observed later t) (same_tier u t) o e) [
      | inl passed_later ↦ earlier (observed-LastPassed rest later t rest_read passed_later)
      | inr (absent, here, said) ↦
          last ((coerce_tier-IsTier key u key_read t).1 ((same_tier_iff u t).0 here))
            ((coerce_outcome-passed value o value_read).1 said)
            ((observed-none_iff rest later t rest_read).0 absent)
    ]

pub LastPassed-observed :
    (entries : List (TierArgument × OutcomeArgument))
    (normalized : List (ValidationTier × ValidationTierOutcome)) (t : ValidationTier)
    → normalize entries ≡ ok normalized
    → LastPassed t entries
    → observed normalized t ≡ some passed
unfolding observed
LastPassed-observed [] normalized t h p = elim p [ ]
LastPassed-observed (e ∷ rest) normalized t h (earlier p) =
    let (u, o, later, key_read, value_read, rest_read, same) = normalize-cons e.0 e.1 rest h in
    subst (λ n. observed n t ≡ some passed) (sym same)
      (shown-later (observed later t) (same_tier u t) o
        (LastPassed-observed rest later t rest_read p))
LastPassed-observed ((key, value) ∷ rest) normalized t h (last mine says others) =
    let (u, o, later, key_read, value_read, rest_read, same) = normalize-cons key value rest h in
    let here = (same_tier_iff u t).1 ((coerce_tier-IsTier key u key_read t).0 mine) in
    let absent = (observed-none_iff rest later t rest_read).1 others in
    let said = (coerce_outcome-passed value o value_read).0 says in
    subst (λ n. observed n t ≡ some passed) (sym same)
      (shown-here (observed later t) (same_tier u t) o absent here said)
