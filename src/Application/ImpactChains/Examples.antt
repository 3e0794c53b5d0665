-- ===== src/Application/ImpactChains/Examples.antt =====
-- A chain of two nodes, written to empty tables and built again.
use mathlib.Core.List.{Permᴰ}
use mathlib.Core.List.Permᴰ
use research_os.Common.{
  ℕ, ◌<◌, ◌+◌, Bool, true, false, Option, none, some, Result, ok, err, List, [], ◌∷◌, map, reverse,
  Every, ltb, if◌then◌else◌, ◌≡◌, refl, arith,
}
use research_os.Common.Text.{Text, codes, text_eq}
use research_os.Research.Impact.Chain.{
  ImpactChain, new_impact_node, new_impact_scope_ref, new_impact_edge,
}
use research_os.Research.Severity.{data_read, auth_bypass}
use research_os.Research.Impact.Kinds.{enables, impact_value}
use research_os.Research.Impact.Examples.{
  unsorted, same_elements, chain, chain_test, resolve, nodes, edges, node,
}
use research_os.Research.Impact.Proofs.{ProofRecord, validate_chain_impact_scope}
use research_os.Data.ImpactChains.{ImpactChainNodeRecord, Tables, Queries}
use research_os.Data.ImpactChains.Written.{IsReferring}
use research_os.Application.ImpactChains.{
  RegisterImpactChainCommand, execute, rebuild_impact_chain, chain_record,
}
use research_os.Application.ImpactChains.Constructed.{IsNode, IsEdge}
use research_os.Application.ImpactChains.Rows.{IsAscending, again}
use research_os.Application.ImpactChains.Resolver.{
  EvidenceRecord, Ledger, account_read, resolve_proof, resolve_found,
}
use research_os.Application.ImpactChains.Claims.{
  IsSupportedKind, validate_chain_impact_scope-resolve_proof,
}
use research_os.Application.ImpactChains.RoundTrip.{rebuild_impact_chain-execute}

-- ORDER BY as an insertion sort
abbrev add_row : ImpactChainNodeRecord → List ImpactChainNodeRecord → List ImpactChainNodeRecord
add_row r [] = r ∷ []
add_row r (s ∷ rows) =
    let rest = add_row r rows in if ltb s.ordering r.ordering then s ∷ rest else r ∷ s ∷ rows

abbrev sort_rows : List ImpactChainNodeRecord → List ImpactChainNodeRecord
sort_rows [] = []
sort_rows (r ∷ rows) = add_row r (sort_rows rows)

add_row_lem :
    (r : ImpactChainNodeRecord) (rows : List ImpactChainNodeRecord)
    → Every (λ s. r.ordering < s.ordering) rows
    → add_row r rows ≡ r ∷ rows
add_row_lem r [] h = refl
add_row_lem r (s ∷ rows) h = ground (arith, h.0)

sort_rows_lem : (rows : List ImpactChainNodeRecord) → IsAscending rows → sort_rows rows ≡ rows
unfolding IsAscending
sort_rows_lem [] h = refl
sort_rows_lem (r ∷ rows) h = rw (sort_rows_lem rows h.1) (add_row_lem r rows h.0)

abbrev queries : Queries
queries = record { refers = λ r. true; order_by_ordering = sort_rows; in_any_order = reverse }

abbrev empty : Tables
empty = record { impact_chain = []; impact_chain_node = []; impact_chain_edge = [] }

abbrev command : RegisterImpactChainCommand
command = record {
  chain_id = codes "chain";
  research_run_id = codes "run";
  program_id = codes "program";
  chain = chain;
  graph_hash = none;
}

abbrev value_or : {A E : Type 0} → A → Result E A → A
value_or a (ok b) = b
value_or a (err e) = a

abbrev new_id : ℕ → Text
new_id n = 101 ∷ (48 + n) ∷ []

unfoldable written : Tables
unfolding execute
written = value_or empty (execute queries new_id 7 resolve empty command)

written_test : execute queries new_id 7 resolve empty command ≡ ok written
unfolding execute written
written_test = refl

nodes_built : Every IsNode nodes
unfolding new_impact_node new_impact_scope_ref
nodes_built = (
  ((node (codes "a") data_read, refl), (codes "run", codes "program", codes "target", refl)),
  (
    ((node (codes "b") auth_bypass, refl), (codes "run", codes "program", codes "target", refl)),
    tt,
  ),
)

edges_built : Every IsEdge edges
unfolding new_impact_edge
edges_built = ((codes "a", codes "b", enables, refl), tt)

empty-IsReferring : IsReferring empty
unfolding IsReferring
empty-IsReferring = (tt, tt)

rebuild_impact_chain-execute_example :
    (c : ImpactChain) × (rebuild_impact_chain unsorted queries written (chain_record 7 command)
      ≡ ok c)
    × ((c.chain_id ≡ codes "chain")
        × (c.nodes ≡ map (again (codes "chain")) nodes)
        × Permᴰ c.edges edges)
rebuild_impact_chain-execute_example =
    rebuild_impact_chain-execute unsorted unsorted same_elements same_elements queries sort_rows_lem
      Permᴰ.reverse new_id 7 resolve empty written command
      (codes " chain", nodes, edges, chain_test) nodes_built edges_built empty-IsReferring
      written_test

-- A ledger with one admitted evidence
abbrev evidence : EvidenceRecord
evidence = record {
  evidence_id = codes "proof";
  research_run_id = codes "run";
  experiment_id = codes "experiment";
  claim_scope = account_read;
}

abbrev ledger : Ledger
ledger = record {
  evidence = evidence ∷ [];
  observations = [];
  worker_results = [];
  experiments = [];
}

unfoldable ledger_resolve : Text → Text → Option ProofRecord
unfolding resolve_proof
ledger_resolve id run = value_or none (resolve_proof ledger id)

ledger_answers : (id run : Text) → resolve_proof ledger id ≡ ok (ledger_resolve id run)
unfolding resolve_proof ledger_resolve
ledger_answers id run = found_or_not (text_eq evidence.evidence_id id)
  where
    found_or_not :
        (b : Bool)
        → resolve_found ledger id (if b then some evidence else none)
          ≡ ok (value_or none (resolve_found ledger id (if b then some evidence else none)))
    found_or_not true = refl
    found_or_not false = refl

supported_test : (validate_chain_impact_scope ledger_resolve (codes "run") chain).valid ≡ true
unfolding validate_chain_impact_scope impact_value ledger_resolve
supported_test = refl

validate_chain_impact_scope-resolve_proof_example :
    Every (λ n. IsSupportedKind n.impact_kind) chain.nodes
validate_chain_impact_scope-resolve_proof_example =
    validate_chain_impact_scope-resolve_proof ledger ledger_resolve ledger_answers (codes "run")
      chain supported_test
