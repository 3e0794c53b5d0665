-- ===== src/Application/ImpactChains/Claims.antt =====
-- What a chain can claim on the proofs of the ledger (application/impact/proof_resolver.py,
-- research/impact/capability_map.py).
use mathlib.Core.Path.{subst}
use research_os.Application.ImpactChains.Rows.{every_map}
use research_os.Research.Candidate.{require_text}
use research_os.Application.ImpactChains.Resolver.{
  EvidenceRecord, ObservationRecord, WorkerResultRecord, ExperimentRecord, Ledger, get,
  account_read, workflow_transition, claim_scope_capabilities, as_some, resolve_experiment,
  resolve_observation, resolve_evidence, resolve_other, resolve_found, resolve_proof,
}
use research_os.Common.{
  Bool, true, false, Option, none, some, Result, ok, err, List, [], ◌∷◌, ◌++◌, if◌then◌else◌, ◌≡◌,
  refl, sym, ap, Every, >>=-eq-ok, ok-eq-ok, inl, inr, ◌⊎◌, all, ◌||◌, &&_elim, ||_elim,
}
use research_os.Common.Text.{Text, codes, text_eq, eq_of_text_eq}
use research_os.Research.Severity.{
  ImpactKind, data_read, data_write, account_takeover_path, external_callback, auth_bypass,
  state_corruption,
}
use research_os.Research.Impact.Cycle.{is_in}
use research_os.Research.Impact.Chain.{ImpactError, lift, ImpactChain}
use research_os.Research.Impact.Capabilities.Demonstrated.{demonstrated}
use research_os.Research.Impact.Proofs.{ProofRecord, new_proof_record, validate_chain_impact_scope}
use research_os.Research.Impact.Proofs.Valid.{
  capabilities_of, shown_by, validate_chain_impact_scope_iff,
}

-- What the ledger shows: reading another's object, or a transition without authorization.
abbrev shows_only : List Text → Bool
shows_only cs =
    all
      (λ c.
        text_eq c (codes "READ_OTHER_OBJECT")
        || text_eq c (codes "WORKFLOW_TRANSITION_WITHOUT_AUTH"))
      cs

claim_scope_lem : (s : Text) → shows_only (claim_scope_capabilities s) ≡ true
unfolding claim_scope_capabilities
claim_scope_lem s = three_ways (text_eq s account_read) (text_eq s workflow_transition)
  where
    three_ways :
        (a b : Bool)
        → shows_only (
            if a
            then codes "READ_OTHER_OBJECT" ∷ []
            else if b
            then codes "WORKFLOW_TRANSITION_WITHOUT_AUTH" ∷ []
            else [])
          ≡ true
    three_ways true b = refl
    three_ways false true = refl
    three_ways false false = refl

proof_record-capabilities :
    (id run target : Text) (cs : List Text) (r : ProofRecord)
    → new_proof_record id run target cs ≡ ok r
    → cs ≡ r.demonstrated_capabilities
unfolding new_proof_record
proof_record-capabilities id run target cs r h =
    let (i, first, more1) = >>=-eq-ok (lift (require_text id)) _ h in
    let (s, second, more2) = >>=-eq-ok (lift (require_text run)) _ more1 in
    let (t, third, built) = >>=-eq-ok (lift (require_text target)) _ more2 in
    ap (λ x. x.demonstrated_capabilities) (ok-eq-ok built)

as_some-shows :
    (call : Result ImpactError ProofRecord) (cs : List Text) (o : Option ProofRecord)
    → ((r : ProofRecord) → call ≡ ok r → cs ≡ r.demonstrated_capabilities)
    → shows_only cs ≡ true
    → as_some call ≡ ok o
    → shows_only (capabilities_of o) ≡ true
as_some-shows (ok r) cs o f k h =
    subst (λ x. shows_only (capabilities_of x) ≡ true) (ok-eq-ok h)
      (subst (λ x. shows_only x ≡ true) (f r refl) k)
as_some-shows (err e) cs o f k h = cc

none_shows :
    (o : Option ProofRecord)
    → ◌≡◌ {A = Result ImpactError (Option ProofRecord)} (ok none) (ok o)
    → shows_only (capabilities_of o) ≡ true
none_shows o h = subst (λ x. shows_only (capabilities_of x) ≡ true) (ok-eq-ok h) refl

experiment_shows :
    (p : Text) (found : Option ExperimentRecord) (o : Option ProofRecord)
    → resolve_experiment p found ≡ ok o
    → shows_only (capabilities_of o) ≡ true
unfolding resolve_experiment
experiment_shows p none o h = none_shows o h
experiment_shows p (some x) o h =
    as_some-shows _ [] o (proof_record-capabilities p x.research_run_id x.experiment_id []) refl h

observation_shows :
    (p : Text) (seen : ObservationRecord) (found : Option WorkerResultRecord)
    (o : Option ProofRecord)
    → resolve_observation p seen found ≡ ok o
    → shows_only (capabilities_of o) ≡ true
unfolding resolve_observation
observation_shows p seen none o h = none_shows o h
observation_shows p seen (some w) o h =
    as_some-shows _ [] o (proof_record-capabilities p w.research_run_id seen.observation_kind [])
      refl h

other_shows :
    (ledger : Ledger) (p : Text) (found : Option ObservationRecord) (o : Option ProofRecord)
    → resolve_other ledger p found ≡ ok o
    → shows_only (capabilities_of o) ≡ true
unfolding resolve_other
other_shows ledger p (some seen) o h = observation_shows p seen _ o h
other_shows ledger p none o h = experiment_shows p _ o h

found_shows :
    (ledger : Ledger) (p : Text) (found : Option EvidenceRecord) (o : Option ProofRecord)
    → resolve_found ledger p found ≡ ok o
    → shows_only (capabilities_of o) ≡ true
unfolding resolve_found resolve_evidence
found_shows ledger p (some e) o h =
    as_some-shows _ (claim_scope_capabilities e.claim_scope) o
      (proof_record-capabilities e.evidence_id e.research_run_id e.experiment_id
        (claim_scope_capabilities e.claim_scope))
      (claim_scope_lem e.claim_scope) h
found_shows ledger p none o h = other_shows ledger p _ o h

not_shown :
    (key : Text) (cs : List Text)
    → text_eq key (codes "READ_OTHER_OBJECT") ≡ false
    → text_eq key (codes "WORKFLOW_TRANSITION_WITHOUT_AUTH") ≡ false
    → shows_only cs ≡ true
    → is_in cs key ≡ false
not_shown key [] a b h = refl
not_shown key (c ∷ cs) a b h =
    let (this, rest) = &&_elim _ (shows_only cs) h in
    let others = not_shown key cs a b rest in
    elim (||_elim (text_eq c (codes "READ_OTHER_OBJECT")) _ this) [
      | inl read ↦ rw (subst (λ x. text_eq key x ≡ false) (sym (eq_of_text_eq c _ read)) a) others
      | inr moved ↦ rw (subst (λ x. text_eq key x ≡ false) (sym (eq_of_text_eq c _ moved)) b) others
    ]

all-append :
    (cs ds : List Text) → shows_only cs ≡ true → shows_only ds ≡ true → shows_only (cs ++ ds) ≡ true
all-append [] ds h k = k
all-append (c ∷ cs) ds h k =
    let (this, rest) = &&_elim _ (shows_only cs) h in rw (this, all-append cs ds rest k) refl

-- The kinds that the ledger can support
abbrev pub IsSupportedKind : ImpactKind → Type 0
IsSupportedKind kind = (kind ≡ data_read) ⊎ (kind ≡ auth_bypass) ⊎ (kind ≡ state_corruption)

kind_lem :
    (kind : ImpactKind) (cs : List Text)
    → shows_only cs ≡ true
    → demonstrated kind cs ≡ true
    → IsSupportedKind kind
unfolding demonstrated
kind_lem data_read cs h k = inl refl
kind_lem auth_bypass cs h k = inr (inl refl)
kind_lem state_corruption cs h k = inr (inr refl)
kind_lem data_write cs h k =
    let missing = not_shown (codes "WRITE_OTHER_OBJECT") cs refl refl h in cc
kind_lem account_takeover_path cs h k =
    let missing = not_shown (codes "AUTHENTICATED_AS_USER") cs refl refl h in
    let (user, more) = &&_elim (is_in cs (codes "AUTHENTICATED_AS_USER")) _ k in cc
kind_lem external_callback cs h k =
    let missing = not_shown (codes "OAST_CALLBACK_RECEIVED") cs refl refl h in cc

module _ (ledger : Ledger) (resolve : Text → Text → Option ProofRecord)
    (answers : (proof_id run : Text) → resolve_proof ledger proof_id ≡ ok (resolve proof_id run))
    (run : Text) where
  shown_lem : (proof_ids : List Text) → shows_only (shown_by resolve run proof_ids) ≡ true
  unfolding shown_by resolve_proof
  shown_lem [] = refl
  shown_lem (p ∷ ps) =
      all-append (capabilities_of (resolve p run)) (shown_by resolve run ps)
        (found_shows ledger p (get (λ e. e.evidence_id) ledger.evidence p) (resolve p run)
          (answers p run))
        (shown_lem ps)

  -- With the proofs that the ledger resolves, raising for none of them, a chain that passes claims only reading data, bypassing
  -- authorization or corrupting state: never writing data, taking over an account or an external
  -- callback.
  pub validate_chain_impact_scope-resolve_proof :
      (chain : ImpactChain)
      → (validate_chain_impact_scope resolve run chain).valid ≡ true
      → Every (λ n. IsSupportedKind n.impact_kind) chain.nodes
  validate_chain_impact_scope-resolve_proof chain h =
      every_map
        (λ n w.
          kind_lem n.impact_kind (shown_by resolve run n.proof_refs) (shown_lem n.proof_refs) w.1)
        chain.nodes ((validate_chain_impact_scope_iff resolve run chain).0 h)
