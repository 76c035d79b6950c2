-- ===== src/Work/Projection/Facts.antt =====
-- src/noema/work/coordination.py, `WorkProjection.apply`: the events that record planning facts.
use Prim.Native.String.{◌++◌}
use noema_agent_sdk.Common.{
  String, Bool, false, not, Option, none, some, string_eq, nat_eq, Result, ok, ◌>>=◌, ◌>>◌,
  raise_if, or_raise, value_error,
}
use noema_agent_sdk.Common.Int.{ℤ, pos, int_eq}
use noema_agent_sdk.Event.{DateTime, Event}
use noema_agent_sdk.Work.Values.{Platform, is_before}
use noema_agent_sdk.Common.Dict.{lookup, insert, has_key}
use noema_agent_sdk.Common.{pair_eq, or_raise}
use noema_agent_sdk.Common.Int.{◌-ℤ◌}
use noema_agent_sdk.Work.Orders.{WorkOrder}
use noema_agent_sdk.Work.Proposals.{PlanProposal}
use noema_agent_sdk.Work.Graphs.{WorkGraph, node, predecessors}
use noema_agent_sdk.Work.Presences.{AgentPresence, is_valid_at}
use noema_agent_sdk.Work.Manifests.{CapabilityManifest}
use noema_agent_sdk.Work.Estimates.{CompetenceEstimate, is_seeded}
use noema_agent_sdk.Work.Orders
use noema_agent_sdk.Work.Proposals
use noema_agent_sdk.Work.Graphs
use noema_agent_sdk.Work.Presences
use noema_agent_sdk.Work.Manifests
use noema_agent_sdk.Work.Estimates
use noema_agent_sdk.Work.Projection.{
  PlanningFacts, WorkProjection, latest_graph, events_after, available_capability_types,
}
use noema_agent_sdk.Work.Planning.{validate, new_validator}
use noema_agent_sdk.Work.Projection.Ends.{is_cause}

-- `existing is not None and existing != value`
abbrev is_changed : {A : Type 0} → (A → A → Bool) → Option A → A → Bool
is_changed eqb none value = false
is_changed eqb (some existing) value = not (eqb existing value)

-- `current is not None and value.time < current.time`
abbrev is_regressed : {A : Type 0} → (A → DateTime) → Option A → A → Bool
is_regressed time none value = false
is_regressed time (some current) value = is_before (time value) (time current)

module _ (world : Platform) where
  unfoldable pub record_order : PlanningFacts → Event → Result PlanningFacts
  record_order f e = do
    o ← Orders.from_event world e
    raise_if (is_changed (Orders.order_eqb world) (lookup o.work_order_id f.orders) o)
        (value_error "work order changed")
    ok (record f { orders = insert o.work_order_id o f.orders })

  unfoldable pub record_proposal : PlanningFacts → Event → Result PlanningFacts
  record_proposal f e = do
    p ← Proposals.from_event world e
    raise_if (not (has_key p.work_order_id f.orders))
        (value_error "plan proposal references an unknown work order")
    raise_if (not (is_cause e ("work-order-recorded:" ++ p.work_order_id)))
        (value_error "plan proposal causation is inconsistent")
    raise_if (is_changed (Proposals.proposal_eqb world) (lookup p.proposal_id f.proposals) p)
        (value_error "plan proposal changed")
    ok (record f { proposals = insert p.proposal_id p f.proposals })

  -- `current_graph.version if current_graph is not None else 0`
  abbrev current_version : PlanningFacts → String → ℤ
  current_version f work_order_id = elim (latest_graph f work_order_id) [
    | none ↦ pos 0
    | some g ↦ g.version
  ]

  unfoldable pub record_graph : WorkProjection → Event → ℤ → Result PlanningFacts
  record_graph s e sequence = do
    g ← Graphs.from_event world e
    p ←
        or_raise (lookup g.proposal_id s.facts.proposals)
          (value_error "work graph references unknown planning state")
    order ←
        or_raise (lookup g.work_order_id s.facts.orders)
          (value_error "work graph references unknown planning state")
    raise_if (not (is_cause e ("plan-proposed:" ++ g.proposal_id)))
        (value_error "work graph causation is inconsistent")
    validator_id ← new_validator g.validator_id
    capabilities ← available_capability_types world s (some p.based_on_event_cursor)
    expected ←
        validate world validator_id p order p.based_on_event_cursor s.last_sequence
          (current_version s.facts g.work_order_id) capabilities
          (events_after s p.based_on_event_cursor (some (sequence -ℤ pos 1))) g.accepted_at
    raise_if (not (Graphs.graph_eqb world g expected))
        (value_error "accepted work graph differs from deterministic validation")
    ok (record (s.facts) {
      graphs = insert g.graph_id g s.facts.graphs;
      latest_graph_by_order = insert g.work_order_id g.graph_id s.facts.latest_graph_by_order;
    })

  unfoldable pub record_presence : PlanningFacts → Event → Result PlanningFacts
  record_presence f e = do
    p ← Presences.from_event world e
    raise_if (is_regressed (λ x. x.observed_at) (lookup p.agent_id f.presence) p)
        (value_error "agent presence regressed")
    ok (record f { presence = insert p.agent_id p f.presence })

  unfoldable pub record_manifest : PlanningFacts → Event → Result PlanningFacts
  record_manifest f e = do
    m ← Manifests.from_event world e
    raise_if (is_regressed (λ x. x.recorded_at) (lookup m.agent_id f.manifests) m)
        (value_error "capability manifest regressed")
    ok (record f { manifests = insert m.agent_id m f.manifests })

  unfoldable pub record_estimate : PlanningFacts → Event → Result PlanningFacts
  record_estimate f e = do
    c ← Estimates.from_event world e
    raise_if (not (is_seeded c.basis))
        (value_error "evidence-based competence is non-operational in v0.5")
    raise_if (is_regressed (λ x. x.estimated_at) (lookup (c.agent_id, c.capability) f.competence) c)
        (value_error "competence estimate regressed")
    ok (record f { competence = insert (c.agent_id, c.capability) c f.competence })
