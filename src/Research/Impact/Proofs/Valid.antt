-- ===== src/Research/Impact/Proofs/Valid.antt =====
-- What a validated impact chain is (research/impact/validator.py, research/impact/capability_map.py).
use mathlib.Core.Path.{subst, sym, ap, ◌∙◌}
use mathlib.Core.List.{append-nil, append_assoc}
use research_os.Common.{
  is_empty-append_iff, true, false, Option, none, some, Result, ok, err, List, [], ◌∷◌, ◌++◌,
  is_empty, ◌≡◌, refl, ◌↔◌, Every, arith, ◌⊎◌, inl, inr, Bool-cases, eq_of_some-eq,
}
use research_os.Common.Text.{Text, text_eq, text_eq_iff, text_neq}
use research_os.Research.Severity.{ImpactKind}
use research_os.Research.Impact.Capabilities.Demonstrated.{demonstrated, allowed_kinds_lem}
use research_os.Research.Impact.Capabilities.{allowed_kinds}
use research_os.Research.Impact.Kinds.{impact_value}
use research_os.Research.Impact.Cycle.{is_in}
use research_os.Research.Impact.Chain.{ImpactNode, ImpactChain}
use research_os.Research.Impact.Proofs.{
  ProofRecord, ReasonCode, impact_scope_validated, impact_chain_proofs_resolved,
  hallucinated_or_absent_proof, cross_run_proof, in_run, judge, extend_invalid, ChainValidation,
  conclude, collect, validate_impact_scope, scope_codes, validate_chain_impact_scope, proof_codes,
  chain_codes, validate_chain,
}

conclude_iff :
    (codes : List ReasonCode) (success : ReasonCode)
    → ((conclude codes success).valid ≡ true) ↔ (is_empty codes ≡ true)
conclude_iff [] success = (λ h. refl, λ h. refl)
conclude_iff (c ∷ cs) success = (λ h. cc, λ h. cc)

judge_iff :
    (kind : ImpactKind) (capabilities : List Text)
    → ((judge kind (ok capabilities)).valid ≡ true) ↔ (demonstrated kind capabilities ≡ true)
judge_iff kind capabilities =
    let same = sym (allowed_kinds_lem kind capabilities) in
    elim (Bool-cases (is_in (allowed_kinds capabilities) (impact_value kind))) [
      | inl allowed ↦ rw allowed (λ h. same ∙ allowed, λ h. refl)
      | inr refused ↦ let shown = same ∙ refused in rw refused (λ h. cc, λ h. cc)
    ]

judge-has_code :
    (kind : ImpactKind) (collected : Result ReasonCode (List Text))
    → is_empty (judge kind collected).reason_codes ≡ false
judge-has_code kind (err code) = refl
judge-has_code kind (ok capabilities) =
    elim (Bool-cases (is_in (allowed_kinds capabilities) (impact_value kind))) [
      | inl allowed ↦ rw allowed refl
      | inr refused ↦ rw refused refl
    ]

extend_invalid_iff :
    (result : ChainValidation) (rest : List ReasonCode)
    → is_empty result.reason_codes ≡ false
    → (is_empty (extend_invalid result rest) ≡ true)
      ↔ ((result.valid ≡ true) × (is_empty rest ≡ true))
extend_invalid_iff result rest h =
    let both = is_empty-append_iff result.reason_codes rest in
    (λ e. ground (arith, both, h, e), λ e. ground (arith, both, h, e))

abbrev pub capabilities_of : Option ProofRecord → List Text
capabilities_of none = []
capabilities_of (some r) = r.demonstrated_capabilities

in_run-cases :
    (run : Text) (o : Option ProofRecord)
    → ((r : ProofRecord) × (o ≡ some r) × (r.research_run_id ≡ run) × (in_run run o ≡ ok r))
      ⊎ (((code : ReasonCode) × (in_run run o ≡ err code))
          × ¬ ((r : ProofRecord) × (o ≡ some r) × (r.research_run_id ≡ run)))
in_run-cases run none = inr ((hallucinated_or_absent_proof, refl), λ (r, h, k). cc)
in_run-cases run (some r) = elim (Bool-cases (text_eq r.research_run_id run)) [
  | inl same ↦ inl (r, refl, (text_eq_iff r.research_run_id run).0 same, rw same refl)
  | inr differ ↦ inr (
    (cross_run_proof, rw differ refl),
    λ (s, h, k).
        text_neq r.research_run_id run differ
          (subst (λ x. x.research_run_id ≡ run) (sym (eq_of_some-eq h)) k),
  )
]

module _ (resolve : Text → Text → Option ProofRecord) (expected_run_id : Text) where
  -- The proof resolves to one of the run.
  abbrev pub IsOfRun : Text → Type 0
  IsOfRun proof_id =
      (r : ProofRecord) × (resolve proof_id expected_run_id ≡ some r)
      × (r.research_run_id ≡ expected_run_id)

  -- The capabilities that the proofs show together.
  unfoldable pub shown_by : List Text → List Text
  shown_by [] = []
  shown_by (proof_id ∷ proof_ids) =
      capabilities_of (resolve proof_id expected_run_id) ++ shown_by proof_ids

  collect-cases :
      (proof_ids capabilities : List Text)
      → (Every IsOfRun proof_ids
          × (collect resolve expected_run_id proof_ids capabilities
              ≡ ok (capabilities ++ shown_by proof_ids)))
        ⊎ (((code : ReasonCode) × (collect resolve expected_run_id proof_ids capabilities
                ≡ err code))
            × ¬ Every IsOfRun proof_ids)
  unfolding collect shown_by
  collect-cases [] capabilities = inl (tt, ap ok (sym (append-nil capabilities)))
  collect-cases (proof_id ∷ proof_ids) capabilities =
      elim (in_run-cases expected_run_id (resolve proof_id expected_run_id)) [
        | inl (r, found, same, passed) ↦
            let more = capabilities ++ r.demonstrated_capabilities in
            elim (collect-cases proof_ids more) [
              | inl (every, value) ↦ inl (
                ((r, found, same), every),
                rw (passed, found)
                    (value
                      ∙ ap ok (
                          append_assoc capabilities r.demonstrated_capabilities
                            (shown_by proof_ids))),
              )
              | inr ((code, failed), not_every) ↦ inr ((code, rw passed failed), λ h. not_every h.1)
            ]
        | inr ((code, failed), bad) ↦ inr ((code, rw failed refl), λ h. bad h.0)
      ]

  -- The proofs are of the run and show the kind of impact that the node claims.
  abbrev pub IsWithinProofs : ImpactNode → Type 0
  IsWithinProofs node =
      Every IsOfRun node.proof_refs
      × (demonstrated node.impact_kind (shown_by node.proof_refs) ≡ true)

  validate_impact_scope-valid_iff :
      (node : ImpactNode)
      → ((validate_impact_scope resolve expected_run_id node).valid ≡ true) ↔ IsWithinProofs node
  unfolding validate_impact_scope
  validate_impact_scope-valid_iff node = elim (collect-cases node.proof_refs []) [
    | inl (every, value) ↦
        let judged = judge_iff node.impact_kind (shown_by node.proof_refs) in
        rw value (λ h. (every, judged.0 h), λ h. judged.1 h.1)
    | inr ((code, failed), not_every) ↦ rw failed (λ h. cc, λ h. absurd (not_every h.0))
  ]

  scope_codes_iff :
      (nodes : List ImpactNode)
      → (is_empty (scope_codes resolve expected_run_id nodes) ≡ true) ↔ Every IsWithinProofs nodes
  unfolding scope_codes validate_impact_scope
  scope_codes_iff [] = (λ h. tt, λ h. refl)
  scope_codes_iff (node ∷ nodes) =
      let result = validate_impact_scope resolve expected_run_id node in
      let rest = scope_codes_iff nodes in
      let this = validate_impact_scope-valid_iff node in
      let both =
        extend_invalid_iff result (scope_codes resolve expected_run_id nodes)
          (judge-has_code node.impact_kind (collect resolve expected_run_id node.proof_refs [])) in
      (λ h. let (a, b) = both.0 h in (this.0 a, rest.0 b), λ h. both.1 (this.1 h.0, rest.1 h.1))

  -- In any run and with any proofs, a chain passes exactly if each of its nodes cites proofs of that run only, and
  -- these together show the capabilities that the node's kind of impact asks for; for the path to an account takeover,
  -- that is an authentication as a user with either evidence of an escalation or a session of another account.
  pub validate_chain_impact_scope_iff :
      (chain : ImpactChain)
      → ((validate_chain_impact_scope resolve expected_run_id chain).valid ≡ true)
        ↔ Every IsWithinProofs chain.nodes
  unfolding validate_chain_impact_scope
  validate_chain_impact_scope_iff chain =
      let empty =
        conclude_iff (scope_codes resolve expected_run_id chain.nodes) impact_scope_validated in
      let nodes = scope_codes_iff chain.nodes in
      (λ h. nodes.0 (empty.0 h), λ h. empty.1 (nodes.1 h))

  proof_codes_iff :
      (proof_ids : List Text)
      → (is_empty (proof_codes resolve expected_run_id proof_ids) ≡ true) ↔ Every IsOfRun proof_ids
  unfolding proof_codes
  proof_codes_iff [] = (λ h. tt, λ h. refl)
  proof_codes_iff (p ∷ ps) =
      let rest = proof_codes_iff ps in
      elim (in_run-cases expected_run_id (resolve p expected_run_id)) [
        | inl (r, found, same, passed) ↦
            rw passed (λ h. ((r, found, same), rest.0 h), λ h. rest.1 h.1)
        | inr ((code, failed), bad) ↦ rw failed (λ h. cc, λ h. absurd (bad h.0))
      ]

  chain_codes_iff :
      (nodes : List ImpactNode)
      → (is_empty (chain_codes resolve expected_run_id nodes) ≡ true)
        ↔ Every (λ n. (is_empty n.proof_refs ≡ false) × Every IsOfRun n.proof_refs) nodes
  unfolding chain_codes
  chain_codes_iff [] = (λ h. tt, λ h. refl)
  chain_codes_iff (node ∷ nodes) =
      let rest = chain_codes_iff nodes in
      let proofs = proof_codes_iff node.proof_refs in
      let both =
        is_empty-append_iff (proof_codes resolve expected_run_id node.proof_refs)
          (chain_codes resolve expected_run_id nodes) in
      elim (Bool-cases (is_empty node.proof_refs)) [
        | inl none_cited ↦ rw none_cited (λ h. cc, λ h. cc)
        | inr some_cited ↦ rw some_cited (
          λ h. let (a, b) = both.0 h in ((refl, proofs.0 a), rest.0 b),
          λ ((c, a), b). both.1 (proofs.1 a, rest.1 b),
        )
      ]

  -- A chain's proofs are resolved exactly if each of its nodes cites a proof, and cites proofs of the
  -- given run only.
  pub validate_chain_iff :
      (chain : ImpactChain)
      → ((validate_chain resolve expected_run_id chain).valid ≡ true)
        ↔ Every (λ n. (is_empty n.proof_refs ≡ false) × Every IsOfRun n.proof_refs) chain.nodes
  unfolding validate_chain
  validate_chain_iff chain =
      let empty =
        conclude_iff (chain_codes resolve expected_run_id chain.nodes)
          impact_chain_proofs_resolved in
      let nodes = chain_codes_iff chain.nodes in
      (λ h. nodes.0 (empty.0 h), λ h. empty.1 (nodes.1 h))
