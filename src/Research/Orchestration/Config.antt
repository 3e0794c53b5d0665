-- ===== src/Research/Orchestration/Config.antt =====
-- The payload whose fingerprint is taken, against the keys that control a run (research/orchestration.py).
mod Examples
use mathlib.Core.Path.{subst, ap, sym, ◌∙◌}
use research_os.Common.{
  Bool, true, false, Option, none, some, Result, ok, err, List, [], ◌∷◌, map, ◌≡◌, refl, ◌↔◌, Every,
  >>=-eq-ok, ok-eq-ok, ◌++◌, ◌≢◌, Some, inl, inr, Bool-cases, eq_of_some-eq,
}
use research_os.Common.Text.{Text, codes, text_eq, text_eq_iff, eq_of_text_eq, text_neq}
use research_os.Common.Json.{Json}
use research_os.Research.Errors.{ResearchError}
use research_os.Research.Orchestration.{
  find, immutable_config_keys, canonical_entries, with_value, canonical_orchestration_config,
}

-- A payload that was built has a value for its first key.
with_value-eq-ok :
    (key : Text) (found : Option Json) (r : Result ResearchError (List (Text × Json)))
    {out : List (Text × Json)}
    → with_value key found r ≡ ok out
    → (v : Json) × (rest : List (Text × Json)) × (found ≡ some v)
      × (r ≡ ok rest)
      × (out ≡ (key, v) ∷ rest)
with_value-eq-ok key none r h = cc
with_value-eq-ok key (some v) r h =
    let (rest, returned, h) = >>=-eq-ok r _ h in (v, rest, refl, returned, sym (ok-eq-ok h))

canonical_entries-keys :
    (keys : List Text) (p : List (Text × Json)) {out : List (Text × Json)}
    → canonical_entries keys p ≡ ok out
    → map (λ e. e.0) out ≡ keys
unfolding canonical_entries
canonical_entries-keys [] p h = ap (map (λ e. e.0)) (sym (ok-eq-ok h))
canonical_entries-keys (key ∷ keys) p h =
    let (v, rest, found, returned, same) =
      with_value-eq-ok key (find key p) (canonical_entries keys p) h in
    ap (map (λ e. e.0)) same ∙ ap (λ t. key ∷ t) (canonical_entries-keys keys p returned)

-- A canonical configuration holds the immutable keys alone, in their fixed order.
pub canonical_orchestration_config-keys :
    (p : List (Text × Json)) {out : List (Text × Json)}
    → canonical_orchestration_config p ≡ ok out
    → map (λ e. e.0) out ≡ immutable_config_keys
unfolding canonical_orchestration_config
canonical_orchestration_config-keys p h = canonical_entries-keys immutable_config_keys p h

-- The first entry of the key has the value.
pub data HasEntry (key : Text) (v : Json) : List (Text × Json) → Type 0 where
  here :
      {k : Text} {w : Json} {rest : List (Text × Json)}
      → k ≡ key
      → w ≡ v
      → HasEntry key v ((k, w) ∷ rest)
  there :
      {k : Text} {w : Json} {rest : List (Text × Json)}
      → k ≢ key
      → HasEntry key v rest
      → HasEntry key v ((k, w) ∷ rest)

-- What controls a run: what it is about, the policies it follows, and its bounds.
abbrev pub control_keys : List Text
control_keys =
    (codes "research_run_id"
      ∷ codes "budget_id"
      ∷ codes "target_reference"
      ∷ codes "research_question"
      ∷ [])
    ++ (codes "policy_version" ∷ codes "routing_policy_version" ∷ codes "scope_fingerprint" ∷ [])
    ++ (codes "max_cycles"
        ∷ codes "max_experiments"
        ∷ codes "max_model_calls"
        ∷ codes "max_worker_invocations"
        ∷ codes "max_elapsed_ms"
        ∷ codes "max_selected_opportunities"
        ∷ codes "max_runtime_fallback"
        ∷ codes "side_effect_ceiling"
        ∷ codes "allow_repeated_control_experiments"
        ∷ [])

find-HasEntry :
    (key : Text) (v : Json) (p : List (Text × Json)) → find key p ≡ some v → HasEntry key v p
unfolding find
find-HasEntry key v [] h = cc
find-HasEntry key v ((k, w) ∷ rest) h = elim (Bool-cases (text_eq k key)) [
  | inl same ↦ here (eq_of_text_eq k key same) (eq_of_some-eq (rw same at h))
  | inr other ↦ there (text_neq k key other) (find-HasEntry key v rest (rw other at h))
]

HasEntry-find :
    (key : Text) (v : Json) (p : List (Text × Json)) → HasEntry key v p → find key p ≡ some v
unfolding find
HasEntry-find key v [] h = elim h [ ]
HasEntry-find key v ((k, w) ∷ rest) (here same e) = rw ((text_eq_iff k key).1 same) (ap some e)
HasEntry-find key v ((k, w) ∷ rest) (there other h) = elim (Bool-cases (text_eq k key)) [
  | inl same ↦ absurd (other (eq_of_text_eq k key same))
  | inr e ↦ rw e (HasEntry-find key v rest h)
]

canonical_entries-ok :
    (keys : List Text) (p : List (Text × Json))
    → Every (λ key. (v : Json) × HasEntry key v p) keys
    → (out : List (Text × Json)) × (canonical_entries keys p ≡ ok out)
unfolding canonical_entries
canonical_entries-ok [] p h = ([], refl)
canonical_entries-ok (key ∷ keys) p ((v, given), h) =
    let (rest, returned) = canonical_entries-ok keys p h in
    ((key, v) ∷ rest, rw (HasEntry-find key v p given, returned) refl)

canonical_entries-given :
    (keys : List Text) (p : List (Text × Json)) {out : List (Text × Json)}
    → canonical_entries keys p ≡ ok out
    → Every (λ key. (v : Json) × HasEntry key v p) keys
unfolding canonical_entries
canonical_entries-given [] p h = tt
canonical_entries-given (key ∷ keys) p h =
    let (v, rest, found, returned, same) =
      with_value-eq-ok key (find key p) (canonical_entries keys p) h in
    ((v, find-HasEntry key v p found), canonical_entries-given keys p returned)

entries_sound :
    (keys : List Text) (p : List (Text × Json)) {out : List (Text × Json)}
    → canonical_entries keys p ≡ ok out
    → (key : Text) (v : Json) → HasEntry key v out
    → Some (λ k. k ≡ key) keys × HasEntry key v p
unfolding canonical_entries
entries_sound [] p h key v e = elim (subst (HasEntry key v) (sym (ok-eq-ok h)) e) [ ]
entries_sound (k ∷ keys) p h key v e =
    let (w, rest, found, returned, same) =
      with_value-eq-ok k (find k p) (canonical_entries keys p) h in
    first w rest found (entries_sound keys p returned key v) (subst (HasEntry key v) same e)
  where
    first :
        (w : Json) (rest : List (Text × Json))
        → find k p ≡ some w
        → (HasEntry key v rest → Some (λ k. k ≡ key) keys × HasEntry key v p)
        → HasEntry key v ((k, w) ∷ rest)
        → Some (λ k. k ≡ key) (k ∷ keys) × HasEntry key v p
    first w rest found ih (here e d) =
        (inl e, find-HasEntry key v p (ap (λ t. find t p) (sym e) ∙ found ∙ ap some d))
    first w rest found ih (there n r) = let (a, b) = ih r in (inr a, b)

entries_complete :
    (keys : List Text) (p : List (Text × Json)) {out : List (Text × Json)}
    → canonical_entries keys p ≡ ok out
    → (key : Text) (v : Json) → Some (λ k. k ≡ key) keys
    → HasEntry key v p
    → HasEntry key v out
unfolding canonical_entries
entries_complete [] p h key v m e = absurd m
entries_complete (k ∷ keys) p h key v m e =
    let (w, rest, found, returned, same) =
      with_value-eq-ok k (find k p) (canonical_entries keys p) h in
    subst (HasEntry key v) (sym same) (elim (Bool-cases (text_eq k key)) [
      | inl mine ↦
          let eq = eq_of_text_eq k key mine in
          here eq (eq_of_some-eq (sym found ∙ ap (λ t. find t p) eq ∙ HasEntry-find key v p e))
      | inr other ↦
          let n = text_neq k key other in
          there n (entries_complete keys p returned key v (later n m) e)
    ])
  where
    later : k ≢ key → Some (λ k. k ≡ key) (k ∷ keys) → Some (λ k. k ≡ key) keys
    later n (inl e) = absurd (n e)
    later n (inr m) = m

-- A configuration has a canonical payload exactly if it gives each of the sixteen control keys. The payload then has
-- the entries that the configuration has at the control keys, and no other.
pub canonical_orchestration_config_iff :
    (p : List (Text × Json))
    → (((out : List (Text × Json)) × (canonical_orchestration_config p ≡ ok out))
        ↔ Every (λ key. (v : Json) × HasEntry key v p) control_keys)
      × ((out : List (Text × Json))
          → canonical_orchestration_config p ≡ ok out
          → (key : Text) (v : Json)
          → HasEntry key v out ↔ (Some (λ k. k ≡ key) control_keys × HasEntry key v p))
unfolding canonical_orchestration_config
canonical_orchestration_config_iff p = (
  (λ (out, h). canonical_entries-given control_keys p h, canonical_entries-ok control_keys p),
  λ out h key v.
      (entries_sound control_keys p h key v, λ (m, e). entries_complete control_keys p h key v m e),
)
