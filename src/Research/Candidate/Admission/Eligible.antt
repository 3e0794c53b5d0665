-- ===== src/Research/Candidate/Admission/Eligible.antt =====
-- Which proposals become candidates (research/candidate.py, `admit_candidate`).
use mathlib.Core.Path.{◌∙◌, sym, ap}
use research_os.Common.{
  Bool, true, false, not, ◌&&◌, ◌||◌, Option, none, some, List, [], ◌∷◌, any, keep, is_empty, ◌≡◌,
  ◌≢◌, refl, ◌↔◌, ◌⊎◌, inl, inr, arith, Every, &&_elim,
}
use research_os.Common.Text.{Text, text_eq, text_eq_iff}
use research_os.Research.Candidate.{
  CandidateProposal, CandidateAdmissionContext, AdmissionCode, authorization_differential_claim,
  state_transition_claim, authorization_differential_classification,
  state_transition_classification,
}
use research_os.Research.Candidate.Admission.{
  evidence_ids, is_unsupported, collect_codes, is_allowed_classification, is_cross_class,
  expected_claim, is_supporting, exceeds, is_unknown_duplicate, decide, decide_claim,
  decide_support, decide_duplicate, admit_candidate, is_broken, is_hallucinated, same_id,
}
use research_os.Research.Candidate.Admission.Support.{
  OfContext, Among, Cites, IsSupported, IsClaimOf, is_in_iff, claim_iff, evidence_codes-empty_iff,
  cites_claim_iff, support_iff, exceeds-keep,
}

is_empty-keep {ℓ} :
    {A : Type ℓ} (p : A → Bool) (xs : List A) → is_empty (keep p xs) ≡ not (any p xs)
is_empty-keep p [] = refl
is_empty-keep p (x ∷ xs) = ground (arith, is_empty-keep p xs)

is_empty_iff {ℓ} : {A : Type ℓ} (xs : List A) → (is_empty xs ≡ true) ↔ (xs ≡ [])
is_empty_iff [] = (λ h. refl, λ h. refl)
is_empty_iff (x ∷ xs) = (λ h. cc, λ h. cc)

any-not_iff {ℓ} :
    {A : Type ℓ} (P : A → Type 0) (p : A → Bool)
    → ((x : A) → (p x ≡ true) ↔ P x)
    → (xs : List A) → (any (λ x. not (p x)) xs ≡ false) ↔ Every P xs
any-not_iff P p h [] = (λ e. tt, λ e. refl)
any-not_iff P p h (x ∷ xs) =
    (λ e. ground (arith, h x, any-not_iff P p h xs), λ e. ground (arith, h x, any-not_iff P p h xs))

-- Evidence of the other one of two classes of claims is cited.
pub IsCrossClass : CandidateProposal → CandidateAdmissionContext → Type 0
IsCrossClass p c =
    ((p.classification ≡ state_transition_classification)
      × Cites p c authorization_differential_claim)
    ⊎ ((p.classification ≡ authorization_differential_classification)
        × Cites p c state_transition_claim)

both_iff :
    {a b c d : Bool} {A B C D : Type 0}
    → ((a ≡ true) ↔ A)
    → ((b ≡ true) ↔ B)
    → ((c ≡ true) ↔ C)
    → ((d ≡ true) ↔ D)
    → (((a && b) || (c && d)) ≡ false) ↔ (¬ ((A × B) ⊎ (C × D)))
both_iff f g h k = (λ t. ground (arith, f, g, h, k), λ t. ground (arith, f, g, h, k))

cross_iff :
    (p : CandidateProposal) (c : CandidateAdmissionContext)
    → (is_cross_class p c ≡ false) ↔ (¬ IsCrossClass p c)
unfolding is_cross_class IsCrossClass
cross_iff p c =
    both_iff (text_eq_iff p.classification state_transition_classification)
      (cites_claim_iff p c authorization_differential_claim)
      (text_eq_iff p.classification authorization_differential_classification)
      (cites_claim_iff p c state_transition_claim)

same_duplicate_iff :
    (d k : Option Text)
    → (elim d [ none ↦ false | some i ↦ not (same_id i k) ] ≡ false) ↔ ((d ≡ none) ⊎ (d ≡ k))
same_duplicate_iff none k = (λ h. inl refl, λ h. refl)
same_duplicate_iff (some d) none = (λ h. cc, λ h. ground arith)
same_duplicate_iff (some d) (some k) =
    (λ h. inr (ap some ((text_eq_iff d k).0 (ground arith))), λ h. ground (arith, text_eq_iff d k))

duplicate_iff :
    (p : CandidateProposal) (c : CandidateAdmissionContext)
    → (is_unknown_duplicate p c ≡ false) ↔ (
        (p.duplicate_of_candidate_id ≡ none)
        ⊎ (p.duplicate_of_candidate_id ≡ c.known_duplicate_candidate_id))
duplicate_iff p c = same_duplicate_iff p.duplicate_of_candidate_id c.known_duplicate_candidate_id

-- Every identifier that the proposal cites was loaded, and there is one.
known_iff :
    (p : CandidateProposal) (c : CandidateAdmissionContext)
    → (is_unsupported p c ≡ false)
      ↔ (Every (λ id. Among id (evidence_ids c)) p.evidence_ids × (p.evidence_ids ≢ []))
unfolding is_unsupported
known_iff p c =
    let loaded = any-not_iff _ _ (λ id. is_in_iff id (evidence_ids c)) p.evidence_ids in
    let empty = is_empty_iff p.evidence_ids in
    (λ h. ground (arith, loaded, empty), λ h. ground (arith, loaded, empty))

-- No code is collected exactly if the provenance is in order.
codes_iff :
    (p : CandidateProposal) (c : CandidateAdmissionContext)
    → (is_empty (collect_codes p c) ≡ true) ↔ (
        (p.research_run_id ≡ c.research_run_id)
        × (p.hypothesis_id ≡ c.hypothesis_id)
        × (c.missing_evidence_ids ≡ [])
        × (is_unsupported p c ≡ false)
        × Every (OfContext c) c.evidence)
unfolding collect_codes
codes_iff p c =
    let run = text_eq_iff p.research_run_id c.research_run_id in
    let hypothesis = text_eq_iff p.hypothesis_id c.hypothesis_id in
    let missing = is_empty_iff c.missing_evidence_ids in
    let loop = evidence_codes-empty_iff c c.evidence in
    (
      λ h. ground (arith, run, hypothesis, missing, loop),
      λ h. ground (arith, run, hypothesis, missing, loop),
    )

decide_duplicate_iff :
    (codes : List AdmissionCode) (p : CandidateProposal) (c : CandidateAdmissionContext)
    → ((decide_duplicate codes p c).admitted ≡ true)
      ↔ ((is_unknown_duplicate p c ≡ false) × (not (is_empty codes) ≡ false) × (true ≡ true))
unfolding decide_duplicate
decide_duplicate_iff codes p c = (λ h. ground arith, λ h. ground arith)

decide_support_iff :
    (codes : List AdmissionCode) (p : CandidateProposal) (c : CandidateAdmissionContext)
    → ((decide_support codes p c).admitted ≡ true) ↔ (
        (is_empty (keep (is_supporting p) c.evidence) ≡ false)
        × (exceeds p (keep (is_supporting p) c.evidence) ≡ false)
        × ((decide_duplicate codes p c).admitted ≡ true))
unfolding decide_support
decide_support_iff codes p c = (λ h. ground arith, λ h. ground arith)

decide_claim_iff :
    (codes : List AdmissionCode) (p : CandidateProposal) (c : CandidateAdmissionContext)
    → ((decide_claim codes p c).admitted ≡ true) ↔ (
        (not (is_allowed_classification p.classification) ≡ false)
        × (is_cross_class p c ≡ false)
        × (not (text_eq p.claim (expected_claim p.classification)) ≡ false)
        × ((decide_support codes p c).admitted ≡ true))
unfolding decide_claim
decide_claim_iff codes p c = (λ h. ground arith, λ h. ground arith)

decide_iff :
    (codes : List AdmissionCode) (p : CandidateProposal) (c : CandidateAdmissionContext)
    → ((decide codes p c).admitted ≡ true) ↔ (
        (c.authoritative_out_of_scope ≡ false)
        × (any is_broken codes ≡ false)
        × (any is_hallucinated codes ≡ false)
        × ((decide_claim codes p c).admitted ≡ true))
unfolding decide
decide_iff codes p c = (λ h. ground arith, λ h. ground arith)

-- A proposal that the context fully supports.
pub record IsAdmissible (p : CandidateProposal) (c : CandidateAdmissionContext) : Type 0 where
  pub in_scope : c.authoritative_out_of_scope ≡ false
  pub same_run : p.research_run_id ≡ c.research_run_id
  pub same_hypothesis : p.hypothesis_id ≡ c.hypothesis_id
  pub none_missing : c.missing_evidence_ids ≡ []
  pub cites_some : p.evidence_ids ≢ []
  pub loaded : Every (λ id. Among id (evidence_ids c)) p.evidence_ids
  pub provenance : Every (OfContext c) c.evidence
  pub claim_of_class : IsClaimOf p.claim p.classification
  pub one_class : ¬ IsCrossClass p c
  pub supported : IsSupported p c
  pub known_duplicate :
      (p.duplicate_of_candidate_id ≡ none)
      ⊎ (p.duplicate_of_candidate_id ≡ c.known_duplicate_candidate_id)

and_true : {a b : Bool} → a ≡ true → b ≡ true → (a && b) ≡ true
and_true h k = ground arith

no_code : (P : AdmissionCode → Bool) (codes : List AdmissionCode) → codes ≡ [] → any P codes ≡ false
no_code P codes h = rw h refl

not_iff : (b : Bool) → (not b ≡ false) ↔ (b ≡ true)
not_iff b = (λ h. ground arith, λ h. ground arith)

-- A proposal is admitted exactly if it is admissible: nothing says that its context is out of scope,
-- its run and hypothesis are the context's and those of every loaded evidence, it cites evidence, all
-- that it cites was loaded and nothing is missing, its claim is the one claim of its classification,
-- a cited evidence supports that claim and none makes the claim of the other class, and a duplicate
-- that it names is the known one.
pub admit_candidate-admitted_iff :
    (p : CandidateProposal) (c : CandidateAdmissionContext)
    → ((admit_candidate p c).admitted ≡ true) ↔ IsAdmissible p c
unfolding admit_candidate
admit_candidate-admitted_iff p c = (admissible, admitted_of)
  where
    admissible : (decide (collect_codes p c) p c).admitted ≡ true → IsAdmissible p c
    admissible h =
        let (scope, _, _, claimed) = (decide_iff _ p c).0 h in
        let (class, cross, claim, rest) = (decide_claim_iff _ p c).0 claimed in
        let (cited, _, last) = (decide_support_iff _ p c).0 rest in
        let (duplicate, codes, _) = (decide_duplicate_iff _ p c).0 last in
        let (run, hypothesis, missing, supported, loop) = (codes_iff p c).0 ((not_iff _).0 codes) in
        let (known, some_id) = (known_iff p c).0 supported in
        let same = (text_eq_iff _ _).0 ((not_iff _).0 claim) in
        record {
          in_scope = scope;
          same_run = run;
          same_hypothesis = hypothesis;
          none_missing = missing;
          cites_some = some_id;
          loaded = known;
          provenance = loop;
          claim_of_class = (claim_iff _ _).0 (and_true ((not_iff _).0 class) ((not_iff _).0 claim));
          one_class = (cross_iff p c).0 cross;
          supported =
              (support_iff p c same).0
                ((not_iff _).0 (sym (is_empty-keep (is_supporting p) c.evidence) ∙ cited));
          known_duplicate = (duplicate_iff p c).0 duplicate;
        }

    admitted_of : IsAdmissible p c → (decide (collect_codes p c) p c).admitted ≡ true
    admitted_of a =
        let empty = (codes_iff p c).1 (
          a.same_run,
          a.same_hypothesis,
          a.none_missing,
          (known_iff p c).1 (a.loaded, a.cites_some),
          a.provenance,
        ) in
        let nil = (is_empty_iff _).0 empty in
        let (class, claim) =
          &&_elim _ _ ((claim_iff p.claim p.classification).1 a.claim_of_class) in
        let same = (text_eq_iff _ _).0 claim in
        let codes = collect_codes p c in
        let last =
          (decide_duplicate_iff codes p c).1
            ((duplicate_iff p c).1 a.known_duplicate, (not_iff _).1 empty, refl) in
        let rest = (decide_support_iff codes p c).1 (
          is_empty-keep (is_supporting p) c.evidence
              ∙ (not_iff _).1 ((support_iff p c same).1 a.supported),
          exceeds-keep p c.evidence same,
          last,
        ) in
        let claimed =
          (decide_claim_iff codes p c).1
            ((not_iff _).1 class, (cross_iff p c).1 a.one_class, (not_iff _).1 claim, rest) in
        (decide_iff codes p c).1 (a.in_scope, no_code _ _ nil, no_code _ _ nil, claimed)
