-- ===== src/Research/Impact/Examples.antt =====
-- Runs of research/impact on a chain of two nodes.
use research_os.Common.{
  Bool, true, false, Option, some, ok, err, List, [], ◌∷◌, map, is_empty, Every, ◌≡◌, ◌≢◌, refl,
  ◌↔◌, inl, inr,
}
use research_os.Common.Text.{Text, codes, is_blank}
use research_os.Research.Severity.{ImpactKind, data_read, auth_bypass}
use research_os.Research.Impact.Kinds.{enables}
use research_os.Research.Impact.Cycle.{Arc, has_cycle}
use research_os.Research.Impact.Cycle.Walks.{Among}
use research_os.Research.Impact.Cycle.Correct.{HasEnds, Trail, has_cycle_iff}
use research_os.Research.Impact.Chain.{
  search_cut_off, ImpactScopeRef, ImpactNode, ImpactEdge, ImpactChain, arc, new_impact_chain,
}
use research_os.Research.Impact.Chain.Built.{HasProperEdges, new_impact_chain-ok_iff}
use research_os.Research.Impact.Kinds.{impact_value}
use research_os.Research.Impact.Proofs.{ProofRecord, validate_chain, validate_chain_impact_scope}
use research_os.Research.Impact.Proofs.Valid.{
  IsOfRun, IsWithinProofs, validate_chain_iff, validate_chain_impact_scope_iff,
}

abbrev pub unsorted : List Text → List Text
unsorted xs = xs

pub same_elements : (xs : List Text) (x : Text) → Among x (unsorted xs) ↔ Among x xs
same_elements xs x = (λ h. h, λ h. h)

abbrev a_to_b : List Arc
a_to_b = record { from_node_id = codes "a"; to_node_id = codes "b" } ∷ []

abbrev a_and_b : List Text
a_and_b = codes "a" ∷ codes "b" ∷ []

a_to_b_ends : Every (HasEnds a_and_b) a_to_b
unfolding HasEnds Among
a_to_b_ends = ((inl refl, inr (inl refl)), tt)

cycle_test :
    has_cycle unsorted a_and_b
      (record { from_node_id = codes "b"; to_node_id = codes "a" } ∷ a_to_b)
    ≡ some true
unfolding has_cycle
cycle_test = refl

has_cycle_iff_example :
    (b : Bool) × (has_cycle unsorted a_and_b a_to_b ≡ some b)
    × ((b ≡ true) ↔ ((x : Text) × Trail a_to_b x x))
has_cycle_iff_example = has_cycle_iff unsorted same_elements a_and_b a_to_b a_to_b_ends

abbrev pub scope : ImpactScopeRef
scope = record {
  research_run_id = codes "run";
  program_id = codes "program";
  target_reference = codes "target";
}

abbrev pub node : Text → ImpactKind → ImpactNode
node id kind = record {
  node_id = id;
  proof_refs = codes "proof" ∷ [];
  impact_kind = kind;
  claim_text = codes "claim";
  scope_ref = scope;
  provenance = [];
}

abbrev pub nodes : List ImpactNode
nodes = node (codes "a") data_read ∷ node (codes "b") auth_bypass ∷ []

abbrev pub edges : List ImpactEdge
edges = record { from_node_id = codes "a"; to_node_id = codes "b"; relation = enables } ∷ []

abbrev pub chain : ImpactChain
chain = record { chain_id = codes "chain"; nodes = nodes; edges = edges }

pub chain_test : new_impact_chain unsorted (codes " chain") nodes edges ≡ ok chain
unfolding new_impact_chain has_cycle
chain_test = refl

new_impact_chain-ok_iff_example :
    (((c : ImpactChain) × (new_impact_chain unsorted (codes " chain") nodes edges ≡ ok c)) ↔ (
      (is_blank (codes " chain") ≡ false)
      × (is_empty nodes ≡ false)
      × HasProperEdges nodes edges
      × ¬ ((x : Text) × Trail (map arc edges) x x)))
    × (new_impact_chain unsorted (codes " chain") nodes edges ≢ err search_cut_off)
new_impact_chain-ok_iff_example =
    new_impact_chain-ok_iff unsorted same_elements (codes " chain") nodes edges

-- Each proof of the run shows that another's object was read.
abbrev pub resolve : Text → Text → Option ProofRecord
resolve id run = some (record {
  proof_id = id;
  research_run_id = run;
  target_reference = codes "target";
  demonstrated_capabilities = codes "READ_OTHER_OBJECT" ∷ [];
})

valid_test : (validate_chain_impact_scope resolve (codes "run") chain).valid ≡ true
unfolding validate_chain_impact_scope impact_value
valid_test = refl

validate_chain_impact_scope_iff_example :
    ((validate_chain_impact_scope resolve (codes "run") chain).valid ≡ true)
    ↔ Every (IsWithinProofs resolve (codes "run")) chain.nodes
validate_chain_impact_scope_iff_example =
    validate_chain_impact_scope_iff resolve (codes "run") chain

validate_chain_iff_example :
    ((validate_chain resolve (codes "run") chain).valid ≡ true)
    ↔ Every
        (λ n. (is_empty n.proof_refs ≡ false) × Every (IsOfRun resolve (codes "run")) n.proof_refs)
        chain.nodes
validate_chain_iff_example = validate_chain_iff resolve (codes "run") chain
