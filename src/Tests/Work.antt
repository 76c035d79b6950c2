-- ===== src/Tests/Work.antt =====
-- Work coordination at concrete inputs.
use noema_agent_sdk.Common.{String, List, [], ◌∷◌, string_eq, ok, err, type_error, ◌≡◌, refl}
use noema_agent_sdk.Common.Int.{pos, ◌+ℤ◌}
use noema_agent_sdk.Common.Text.{is_blank}
use noema_agent_sdk.Event.{Event}
use noema_agent_sdk.Work.Values.{require_text, require_aware, unique_text}
use noema_agent_sdk.Work.Decode.{canonical_id}
use noema_agent_sdk.Work.Graphs.{WorkGraph}
use noema_agent_sdk.Work.Graphs
use noema_agent_sdk.Common.{map, All, ◌↔◌}
use noema_agent_sdk.Work.Planning.{node_ids}
use noema_agent_sdk.Work.Planning.Legal.{
  validate-IsAcyclic, validate-targets, order_nodes_iff, IsVerifiedAfter,
}
use noema_agent_sdk.Work.Planning.Current.{validate-current, IsHarmless, IsAscending}
use noema_agent_sdk.Event.{sequence_or_zero}
use noema_agent_sdk.Work.Topology.Positions.{In}
use noema_agent_sdk.Work.Topology.Exhaustive.{IsAcyclic}
use noema_agent_sdk.Work.Topology.{release_successor, visit, start, visit_order, ancestors_along}
use noema_agent_sdk.Work.Planning.{
  validate, check_window, check_references, order_nodes, check_targets,
}
use noema_agent_sdk.Tests.Plans.{platform, order, proposal, graph, at, canonical}

abbrev between : List Event
between = canonical 3 (err (type_error "none")) ∷ []

validated :
    validate platform "validator" proposal order
      (pos 2)
      (pos 3)
      (pos 0)
      ("sense" ∷ [])
      between
      (at 2)
    ≡ ok graph
unfolding validate require_aware check_window check_references order_nodes visit_order start visit
    release_successor check_targets ancestors_along Graphs.create Graphs.post_init canonical_id
    require_text is_blank unique_text ◌+ℤ◌
validated = refl

references : check_references proposal ("sense" ∷ []) ≡ ok tt
unfolding check_references
references = refl

validate-IsAcyclic_example : IsAcyclic graph.dependencies (map (λ n. n.node_id) graph.nodes)
validate-IsAcyclic_example =
    validate-IsAcyclic platform "validator" proposal order (pos 2) (pos 3) (pos 0) ("sense" ∷ [])
      between (at 2) graph validated

validate-targets_example : All (IsVerifiedAfter graph.dependencies) graph.nodes
validate-targets_example =
    validate-targets platform "validator" proposal order (pos 2) (pos 3) (pos 0) ("sense" ∷ [])
      between (at 2) graph validated

validate-current_example :
    (proposal.based_on_graph_version ≡ pos 0)
    × (graph.version ≡ pos 0 +ℤ pos 1)
    × All (IsHarmless proposal (pos 2) (pos 3)) between
    × IsAscending (map sequence_or_zero between)
    × ((c : String) → In c order.success_criteria → In c graph.done_conditions)
validate-current_example =
    validate-current platform "validator" proposal order (pos 2) (pos 3) (pos 0) ("sense" ∷ [])
      between (at 2) graph validated

order_nodes_iff_example :
    (order_nodes proposal ≡ ok (visit_order proposal.dependencies (node_ids proposal)))
    ↔ IsAcyclic proposal.dependencies (node_ids proposal)
order_nodes_iff_example = order_nodes_iff proposal ("sense" ∷ []) references
