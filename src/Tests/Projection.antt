-- ===== src/Tests/Projection.antt =====
-- The projection of a plan's life at concrete events.
use noema_agent_sdk.Common.{Bool, false, none, some, List, [], ◌∷◌, ◌++◌, string_eq, ok, ◌≡◌, refl}
use noema_agent_sdk.Common.Int.{pos, ◌+ℤ◌}
use noema_agent_sdk.Common.Text.{is_blank}
use noema_agent_sdk.Event.{Event}
use noema_agent_sdk.Work.Values.{require_text, require_aware, unique_text}
use noema_agent_sdk.Work.Decode.{canonical_id}
use noema_agent_sdk.Work.Graphs.{WorkGraph}
use noema_agent_sdk.Work.Graphs
use noema_agent_sdk.Work.Orders
use noema_agent_sdk.Work.Proposals
use noema_agent_sdk.Work.Presences
use noema_agent_sdk.Work.Manifests
use noema_agent_sdk.Work.Estimates
use noema_agent_sdk.Work.Leases
use noema_agent_sdk.Work.Nodes
use noema_agent_sdk.Work.Nodes.{dependency_from_dict, dependency_init, nodes_at, dependencies_at}
use noema_agent_sdk.Event
use noema_agent_sdk.Event.{get_field}
use noema_agent_sdk.Event.Codec.{parse_datetime}
use noema_agent_sdk.Common.{◌⊎◌, pair_eq, pair_beq}
use noema_agent_sdk.Common.Dict.{lookup, insert, has_key}
use noema_agent_sdk.Common.Int.{◌-ℤ◌, ◌<ℤ◌}
use noema_agent_sdk.Work.Values.{iterate, kind_of, status_of, basis_of, authority_of}
use noema_agent_sdk.Work.Decode.{
  datetime_at, strings_at, prerequisites_at, prerequisite, prerequisite_init, bounded, make_event,
}
use noema_agent_sdk.Work.Planning.{new_validator}
use noema_agent_sdk.Work.Projection.{latest_graph, events_after, available_capability_types}
use noema_agent_sdk.Work.Projection.Facts.{
  record_order, record_manifest, record_proposal, record_graph, record_presence, record_estimate,
}
use noema_agent_sdk.Work.Projection.Apply.{apply_new, next_facts, next_book}
use noema_agent_sdk.Work.Topology.{release_successor, visit, start, visit_order, ancestors_along}
use noema_agent_sdk.Work.Planning.{
  validate, check_window, check_references, order_nodes, check_targets,
}
use noema_agent_sdk.Work.Projection.{WorkProjection, new_projection}
use noema_agent_sdk.Work.Projection.Apply.{rebuild, apply}
use noema_agent_sdk.Common.{err, type_error, true, false}
use noema_agent_sdk.Tests.Plans.{
  order, proposal, graph, canonical, platform, governance, lease, at, value_or, planned,
  grant_event, completion_event,
}
use noema_agent_sdk.Work.Terminations
use noema_agent_sdk.Work.Leases.{WorkLease}
use noema_agent_sdk.Work.Presences.{is_valid_at}
use noema_agent_sdk.Work.Graphs.{node, predecessors}
use noema_agent_sdk.Work.Projection.{
  NodeCompletion, LeaseBook, leases, active_leases, is_active, active_lease_for_node, is_completed,
  worker_for_node, highest_token, next_fencing_token, active_lease_count, graph_is_active,
}
use noema_agent_sdk.Work.Projection.Access.{validate_information_access}
use noema_agent_sdk.Work.Projection.Grants.{validate_lease_grant}
use noema_agent_sdk.Work.Projection.Ends.{
  apply_lease_expiration, apply_completion, check_expiration, read_completion,
}
use noema_agent_sdk.Work.Projection.Apply.{grant_lease}
use noema_agent_sdk.Work.Projection.Consistent.{IsConsistent, node_key}
use noema_agent_sdk.Work.Projection.Replay.{rebuild-IsConsistent}
use noema_agent_sdk.Work.Projection.Lawful.{apply-cases, apply-completion}
use noema_agent_sdk.Work.Projection.Granting.{IsLawful, grant_lease-IsLawful}
use noema_agent_sdk.Work.LeaseEvents.{from_event-to_event_lease}
use noema_agent_sdk.Work.Frontier.{ReadyFrontier, empty_frontier, derive, classify, requirements}
use noema_agent_sdk.Work.Frontier.Progress.{is_stuck, derive-moves}
use noema_agent_sdk.Tests.Fixtures.{event_one}

-- the plan's events, the grant of a lease and the completion of its node
abbrev life : List Event
life = planned ++ grant_event ∷ completion_event ∷ []

abbrev state_after : List Event → WorkProjection
state_after events = value_or new_projection (rebuild platform governance none events)

abbrev late_event : Event
late_event = record event_one { sequence = some (pos 9) }

abbrev end_of : WorkProjection → Event → WorkProjection × Bool
end_of s e = value_or (s, false) (apply platform governance s e)

abbrev granted_book : LeaseBook
granted_book =
    value_or (state_after planned).book
      (grant_lease platform governance (state_after planned) grant_event)

abbrev completion_after : WorkProjection → NodeCompletion
completion_after s = elim (lookup (node_key "work-graph:digest" "a") s.book.completions) [
  | some c ↦ c
  | none ↦ record {
    graph_id = "";
    node_id = "";
    agent_id = "";
    lease_id = "";
    fencing_token = pos 0;
    accepted_at = at 0;
    reported_finished_at = none;
    artifact_refs = [];
    verification_passed = none;
  }
]

abbrev between : List Event
between = canonical 3 (err (type_error "none")) ∷ []

abbrev frontier : ReadyFrontier
frontier =
    value_or (empty_frontier graph.graph_id) (derive platform graph (state_after planned) none)

-- The two histories are replayed, the lease is granted after the first, and after the second one
-- node is completed and an event of another kind is applied.
runs :
    (rebuild platform governance none planned ≡ ok (state_after planned))
    × (rebuild platform governance none life ≡ ok (state_after life))
    × (grant_lease platform governance (state_after planned) grant_event ≡ ok granted_book)
    × (lookup (node_key "work-graph:digest" "a") (state_after life).book.completions
        ≡ some (completion_after (state_after life)))
    × (apply platform governance (state_after life) late_event
        ≡ ok (end_of (state_after life) late_event))
    × (Leases.to_event platform lease "source" "cause"
        ≡ ok (value_or event_one (Leases.to_event platform lease "source" "cause")))
    × (Leases.post_init platform lease ≡ ok lease)
    × (derive platform graph (state_after planned) none ≡ ok frontier)
    × (graph_is_active (state_after planned).facts graph.graph_id ≡ true)
    × (is_completed (state_after planned).book graph.graph_id "b" ≡ false)
    × (validate platform "validator" proposal order
          (pos 2)
          (pos 3)
          (pos 0)
          ("sense" ∷ [])
          between
          (at 2)
        ≡ ok graph)
unfolding derive classify requirements rebuild apply apply_new next_facts next_book record_order
    record_manifest record_proposal record_graph record_presence record_estimate Orders.from_event
    Orders.from_dict Orders.to_dict Orders.to_event Orders.create Orders.post_init Orders.order_eqb
    Proposals.from_event Proposals.from_dict Proposals.to_dict Proposals.to_event Proposals.create
    Proposals.post_init Proposals.proposal_eqb Graphs.from_event Graphs.from_dict Graphs.to_dict
    Graphs.to_event Graphs.graph_eqb Presences.from_event Presences.from_dict Presences.to_dict
    Presences.to_event Presences.post_init Manifests.from_event Manifests.from_dict
    Manifests.to_dict Manifests.to_event Manifests.create Manifests.post_init Manifests.manifest_eqb
    Estimates.from_event Estimates.from_dict Estimates.to_dict Estimates.to_event Estimates.create
    Estimates.post_init Nodes.from_dict Nodes.to_dict Nodes.post_init dependency_from_dict
    dependency_init nodes_at dependencies_at make_event Event.post_init lookup insert has_key
    get_field iterate datetime_at strings_at prerequisites_at prerequisite prerequisite_init bounded
    canonical_id require_text require_aware unique_text is_blank kind_of status_of basis_of
    authority_of parse_datetime latest_graph events_after available_capability_types new_validator
    validate check_window check_references order_nodes visit_order start visit release_successor
    check_targets ancestors_along Graphs.create Graphs.post_init ◌+ℤ◌ ◌-ℤ◌ grant_lease
    apply_lease_expiration apply_completion check_expiration read_completion validate_lease_grant
    validate_information_access is_valid_at node predecessors leases active_leases is_active
    active_lease_for_node is_completed worker_for_node highest_token next_fencing_token
    active_lease_count graph_is_active Leases.from_event Leases.from_dict Leases.to_dict
    Leases.to_event Leases.post_init Terminations.completion_event pair_eq pair_beq
runs = (refl, refl, refl, refl, refl, refl, refl, refl, refl, refl, refl)

planned-IsConsistent : IsConsistent (state_after planned).book
planned-IsConsistent =
    rebuild-IsConsistent platform governance none planned (state_after planned) runs.0

life-IsConsistent : IsConsistent (state_after life).book
life-IsConsistent = rebuild-IsConsistent platform governance none life (state_after life) runs.1

rebuild-IsConsistent_example : IsConsistent (state_after life).book
rebuild-IsConsistent_example =
    rebuild-IsConsistent platform governance none life (state_after life) runs.1

grant_lease-IsLawful_example :
    (l : WorkLease) × (Leases.from_event platform grant_event ≡ ok l)
    × IsLawful (state_after planned) l
grant_lease-IsLawful_example =
    grant_lease-IsLawful platform governance (state_after planned) grant_event granted_book
      planned-IsConsistent runs.2

apply-completion_example :
    lookup
      (node_key "work-graph:digest" "a")
      (end_of (state_after life) late_event).0.book.completions
    ≡ some (completion_after (state_after life))
apply-completion_example =
    apply-completion platform governance (state_after life) late_event
      (end_of (state_after life) late_event) "work-graph:digest" "a"
      (completion_after (state_after life)) life-IsConsistent runs.4 runs.3

apply-cases_example :
    (((known : Event) × (lookup late_event.id (state_after life).events ≡ some known))
      × ((end_of (state_after life) late_event).0 ≡ state_after life)
      × ((end_of (state_after life) late_event).1 ≡ false))
    ⊎ ((lookup late_event.id (state_after life).events ≡ none)
        × (late_event.sequence ≡ some (end_of (state_after life) late_event).0.last_sequence)
        × ((state_after life).last_sequence
            <ℤ (end_of (state_after life) late_event).0.last_sequence)
        × (lookup late_event.id (end_of (state_after life) late_event).0.events ≡ some late_event))
apply-cases_example =
    apply-cases platform governance (state_after life) late_event
      (end_of (state_after life) late_event) runs.4

from_event-to_event_lease_example :
    Leases.from_event platform
      (value_or event_one (Leases.to_event platform lease "source" "cause"))
    ≡ ok lease
from_event-to_event_lease_example =
    from_event-to_event_lease platform lease "source" "cause"
      (value_or event_one (Leases.to_event platform lease "source" "cause")) runs.6 runs.5

derive-moves_example : is_stuck frontier ≡ false
derive-moves_example =
    derive-moves platform "validator" proposal order (pos 2) (pos 3) (pos 0) ("sense" ∷ []) between
      (at 2) graph (state_after planned) none frontier "b" runs.10 runs.8 runs.7 refl runs.9
