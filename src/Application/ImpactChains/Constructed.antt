-- ===== src/Application/ImpactChains/Constructed.antt =====
-- What the constructors of research/impact/chain.py have built, they build again as it is.
use mathlib.Core.Path.{subst}
use research_os.Common.{
  true, false, not, Result, ok, err, List, [], ◌∷◌, ◌≡◌, ◌≢◌, arith, refl, sym, ap, ◌∙◌, >>=-eq-ok,
  ok-eq-ok, Bool-cases, inl, inr, is_empty, guard,
}
use research_os.Common.Text.{Text, strip, is_space, is_blank}
use research_os.Common.Text.Strip.{strip-strip, is_blank-strip}
use research_os.Common.Json.{Json}
use research_os.Research.Errors.{ResearchError}
use research_os.Research.Impact.Kinds.{ImpactRelation}
use research_os.Research.Candidate.{require_text, require_ids}
use research_os.Research.Impact.Chain.{
  lift, ImpactScopeRef, new_impact_scope_ref, ImpactNode, new_impact_node, ImpactEdge,
  new_impact_edge, empty_proof_refs,
}

pub lift-eq-ok :
    {A : Type 0} (call : Result ResearchError A) {a : A} → lift call ≡ ok a → call ≡ ok a
lift-eq-ok (ok b) h = ap ok (ok-eq-ok h)
lift-eq-ok (err e) h = cc

require_text_written : (v : Text) → is_blank v ≡ false → require_text v ≡ ok (strip is_space v)
unfolding require_text
require_text_written v h = rw h refl

pub require_text_blank : (v t : Text) → is_blank v ≡ true → require_text v ≢ ok t
unfolding require_text
require_text_blank v t h e = ground (arith, h, e)

pub require_text_again : (v t : Text) → require_text v ≡ ok t → require_text t ≡ ok t
require_text_again v t h = elim (Bool-cases (is_blank v)) [
  | inl blank ↦ absurd (require_text_blank v t blank h)
  | inr written ↦
      let value = ok-eq-ok (sym (require_text_written v written) ∙ h) in
      subst (λ x. require_text x ≡ ok x) value
        (require_text_written (strip is_space v) (is_blank-strip v ∙ written)
          ∙ ap ok (strip-strip is_space v))
]

require_ids_again : (vs ts : List Text) → require_ids vs ≡ ok ts → require_ids ts ≡ ok ts
unfolding require_ids
require_ids_again [] ts h = subst (λ x. require_ids x ≡ ok x) (ok-eq-ok h) refl
require_ids_again (v ∷ vs) ts h =
    let (t, first, more) = >>=-eq-ok (require_text v) _ h in
    let (us, others, built) = >>=-eq-ok (require_ids vs) _ more in
    let again = require_text_again v t first in
    let rest = require_ids_again vs us others in
    subst (λ x. require_ids x ≡ ok x) (ok-eq-ok built) (rw (again, rest) refl)

-- A scope that the constructor built
abbrev pub IsScope : ImpactScopeRef → Type 0
IsScope s = (run program target : Text) × (new_impact_scope_ref run program target ≡ ok s)

-- A node that the constructor built, and whose scope is so too
abbrev pub IsNode : ImpactNode → Type 0
IsNode n = ((given : ImpactNode) × (new_impact_node given ≡ ok n)) × IsScope n.scope_ref

abbrev pub IsEdge : ImpactEdge → Type 0
IsEdge e =
    (source target : Text) × (relation : ImpactRelation) × (new_impact_edge source target relation
      ≡ ok e)

pub scope_again :
    (s : ImpactScopeRef)
    → IsScope s
    → new_impact_scope_ref s.research_run_id s.program_id s.target_reference ≡ ok s
unfolding new_impact_scope_ref
scope_again s (run, program, target, h) =
    let (r, first, more) = >>=-eq-ok (lift (require_text run)) _ h in
    let (p, second, rest) = >>=-eq-ok (lift (require_text program)) _ more in
    let (t, third, built) = >>=-eq-ok (lift (require_text target)) _ rest in
    let again_r = require_text_again run r (lift-eq-ok (require_text run) first) in
    let again_p = require_text_again program p (lift-eq-ok (require_text program) second) in
    let again_t = require_text_again target t (lift-eq-ok (require_text target) third) in
    subst (λ x. new_impact_scope_ref x.research_run_id x.program_id x.target_reference ≡ ok x)
      (ok-eq-ok built) (rw (again_r, again_p, again_t) refl)

pub node_again :
    (n : ImpactNode) (provenance : List (Text × Json))
    → IsNode n
    → new_impact_node (record n { provenance = provenance })
      ≡ ok (record n { provenance = provenance })
unfolding new_impact_node
node_again n provenance ((given, h), scope) =
    let (i, first, more) = >>=-eq-ok (lift (require_text given.node_id)) _ h in
    let (refs, second, more2) = >>=-eq-ok (lift (require_ids given.proof_refs)) _ more in
    let (u, third, more3) = >>=-eq-ok (guard (not (is_empty refs)) empty_proof_refs) _ more2 in
    let (c, fourth, built) = >>=-eq-ok (lift (require_text given.claim_text)) _ more3 in
    let again_i =
      require_text_again given.node_id i (lift-eq-ok (require_text given.node_id) first) in
    let again_refs =
      require_ids_again given.proof_refs refs (lift-eq-ok (require_ids given.proof_refs) second) in
    let again_c =
      require_text_again given.claim_text c (lift-eq-ok (require_text given.claim_text) fourth) in
    subst
      (λ x.
        new_impact_node (record x { provenance = provenance })
        ≡ ok (record x { provenance = provenance }))
      (ok-eq-ok built) (rw (again_i, again_refs, third, again_c) refl)

pub edge_again :
    (e : ImpactEdge) → IsEdge e → new_impact_edge e.from_node_id e.to_node_id e.relation ≡ ok e
unfolding new_impact_edge
edge_again e (source, target, relation, h) =
    let (f, first, more) = >>=-eq-ok (lift (require_text source)) _ h in
    let (t, second, built) = >>=-eq-ok (lift (require_text target)) _ more in
    let again_f = require_text_again source f (lift-eq-ok (require_text source) first) in
    let again_t = require_text_again target t (lift-eq-ok (require_text target) second) in
    subst (λ x. new_impact_edge x.from_node_id x.to_node_id x.relation ≡ ok x) (ok-eq-ok built)
      (rw (again_f, again_t) refl)
