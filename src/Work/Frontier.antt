-- ===== src/Work/Frontier.antt =====
-- src/noema/work/coordination.py, `ReadyFrontier`, and src/noema/continuity/reconcile.py,
-- `OrientationBarrier`. The awareness coverage is a function from a source to its entry.
pub mod Progress
use Prim.Native.String.{◌++◌}
use noema_agent_sdk.Common.{
  ℕ, ◌+◌, String, Bool, true, false, not, Option, none, some, List, [], ◌∷◌, map, ◌&&◌, ◌||◌,
  if◌then◌else◌, ◌==◌, string_eq, nat_eq, Eq, any, all, filter, find, contains, ltb, leb, nat_beq,
  Result, ok, err, ◌>>=◌, ◌>>◌, raise_if, or_raise, value_error, key_error, runtime_error,
}
use noema_agent_sdk.Common.Int.{ℤ, pos, negsuc, ltb_ℤ, leb_ℤ, int_eq, ◌+ℤ◌}
use noema_agent_sdk.Common.Sort.{is_unique, sort, str_leb, pair_leb}
use noema_agent_sdk.Event.{DateTime, JsonValue, JsonObject, Event}
use noema_agent_sdk.Event.Codec.{opt_str}
use noema_agent_sdk.Authority.{AuthorityLevel, authority_value}
use noema_agent_sdk.Work.Values.{
  Platform, ActionPrerequisite, WorkNodeKind, PresenceStatus, CompetenceBasis, kind_value,
  is_verify, status_value, basis_value, is_nil, require_text, require_aware, unique_text, is_before,
  same_time, iterate_at, traverse, to_items, str_list, object, extend, mapping, kind_of, status_of,
  basis_of, authority_of, authority_json,
}
use noema_agent_sdk.Work.Decode.{
  validate_opaque_governance_id, bounded, prerequisite_init, canonical_id, str_at, int_at, float_at,
  optional_datetime, datetime_at, strings_at, optional_iso, iso, show_int, prerequisites_at,
  prerequisite_list, make_event, is_subject,
}
use noema_agent_sdk.Work.Nodes.{
  WorkNode, WorkDependency, nodes_at, dependencies_at, node_list, dependency_list, list_eqb,
  texts_eqb, node_eqb, dependency_eqb, validate_opaque_ids,
}
use noema_agent_sdk.Common.Dict.{Dict, lookup, insert, has_key}
use noema_agent_sdk.Common.{length, pair_eq, is_subset, or_raise}
use noema_agent_sdk.Common.Int.{min_ℤ, max_ℤ, ◌-ℤ◌}
use noema_agent_sdk.Event.{get_field, sequence_or_zero}
use noema_agent_sdk.Event.Codec.{is_truthy, py_str, parse_datetime}
use noema_agent_sdk.Work.Orders.{WorkOrder}
use noema_agent_sdk.Work.Proposals.{PlanProposal}
use noema_agent_sdk.Work.Graphs.{WorkGraph, node, predecessors}
use noema_agent_sdk.Work.Presences.{AgentPresence, is_valid_at}
use noema_agent_sdk.Work.Manifests.{CapabilityManifest}
use noema_agent_sdk.Work.Estimates.{CompetenceEstimate, is_seeded}
use noema_agent_sdk.Work.Leases.{WorkLease, grant_id}
use noema_agent_sdk.Work.Orders
use noema_agent_sdk.Work.Proposals
use noema_agent_sdk.Work.Graphs
use noema_agent_sdk.Work.Presences
use noema_agent_sdk.Work.Manifests
use noema_agent_sdk.Work.Estimates
use noema_agent_sdk.Work.Leases
use noema_agent_sdk.Work.Planning
use noema_agent_sdk.Work.Projection.{
  NodeCompletion, PlanInvalidation, Outcome, PlanningFacts, LeaseBook, WorkProjection,
  new_projection, values, is_active, active_leases, latest_graph, graph_is_active,
  active_lease_for_node, active_lease, is_completed, worker_for_node, highest_token,
  next_fencing_token, active_lease_count, events_after, available_capability_types,
}
use noema_agent_sdk.Work.Projection.{sorted_values}
use noema_agent_sdk.Work.Projection.Grants.{is_some}
use noema_agent_sdk.Common.Text.{is_blank}

-- the entry of a source in an `AwarenessCoverage`, as far as it is used
pub record CoverageEntry : Type 0 where
  pub freshness : String
  pub confidence : String

pub record ReadyFrontier : Type 0 where
  pub graph_id : String
  pub ready : List WorkNode
  pub dependency_blocked : List String
  pub epistemic_blocked : List String
  pub leased : List String
  pub completed : List String
  pub invalidated : Bool

-- the list that a node is appended to
pub data Place : Type 0 where
  at_done at_leased at_dependency_blocked at_epistemic_blocked at_ready : Place

abbrev pub empty_frontier : String → ReadyFrontier
empty_frontier graph_id = record {
  graph_id = graph_id;
  ready = [];
  dependency_blocked = [];
  epistemic_blocked = [];
  leased = [];
  completed = [];
  invalidated = false;
}

-- A node is put before those that come after it.
abbrev pub place_node : Place → WorkNode → ReadyFrontier → ReadyFrontier
place_node at_done n f = record f { completed = n.node_id ∷ f.completed }
place_node at_leased n f = record f { leased = n.node_id ∷ f.leased }
place_node at_dependency_blocked n f = record f {
  dependency_blocked = n.node_id ∷ f.dependency_blocked;
}
place_node at_epistemic_blocked n f = record f {
  epistemic_blocked = n.node_id ∷ f.epistemic_blocked;
}
place_node at_ready n f = record f { ready = n ∷ f.ready }

-- the predecessors of a node that are not completed
abbrev pub waits_for : WorkGraph → LeaseBook → String → Bool
waits_for g b node_id = any (λ p. not (is_completed b g.graph_id p)) (predecessors g node_id)

module _ (world : Platform) where
  -- Python's `max` of two numbers: the first one, on a tie.
  abbrev max_float : String → String → String
  max_float x y = if world.float_leb y x then x else y

  -- the requirements of an order and a node, the stricter ones where both name a source
  abbrev merge_requirements :
      List ActionPrerequisite
      → Dict String ActionPrerequisite
      → Result (Dict String ActionPrerequisite)
  merge_requirements [] found = ok found
  merge_requirements (p ∷ ps) found = elim (lookup p.source_id found) [
    | none ↦ merge_requirements ps (insert p.source_id p found)
    | some current ↦ do
      strict ← prerequisite_init world (record {
        source_id = p.source_id;
        minimum_freshness = max_float current.minimum_freshness p.minimum_freshness;
        minimum_confidence = max_float current.minimum_confidence p.minimum_confidence;
      })
      merge_requirements ps (insert p.source_id strict found)
  ]

  abbrev by_source :
      List ActionPrerequisite → Dict String ActionPrerequisite → Dict String ActionPrerequisite
  by_source [] found = found
  by_source (p ∷ ps) found = by_source ps (insert p.source_id p found)

  unfoldable pub requirements : WorkOrder → WorkNode → Result (List ActionPrerequisite)
  requirements order n = do
    found ←
        merge_requirements n.epistemic_prerequisites (by_source order.epistemic_prerequisites [])
    ok (sorted_values found)

  -- `OrientationBarrier._satisfies`
  unfoldable pub satisfies : (String → Option CoverageEntry) → ActionPrerequisite → Bool
  satisfies coverage p = elim (coverage p.source_id) [
    | none ↦ false
    | some entry ↦
        world.float_leb p.minimum_freshness entry.freshness
        && world.float_leb p.minimum_confidence entry.confidence
  ]

  -- `OrientationBarrier.evaluate(...).would_block`
  unfoldable pub would_block :
      String → List ActionPrerequisite → (String → Option CoverageEntry) → Result Bool
  would_block action_id prerequisites coverage = do
    raise_if (is_blank action_id) (value_error "orientation barrier action id must be non-empty")
    ok (not (is_nil (filter (λ p. not (satisfies coverage p)) prerequisites)))

  abbrev pub is_blocked :
      Option (String → Option CoverageEntry) → String → List ActionPrerequisite → Result Bool
  is_blocked coverage node_id [] = ok false
  is_blocked none node_id (p ∷ ps) = ok true
  is_blocked (some coverage) node_id (p ∷ ps) = would_block node_id (p ∷ ps) coverage

  abbrev pub epistemic_place :
      WorkOrder → Option (String → Option CoverageEntry) → WorkNode → Result Place
  epistemic_place order coverage n = do
    needed ← requirements order n
    blocked ← is_blocked coverage n.node_id needed
    ok (if blocked then at_epistemic_blocked else at_ready)

  unfoldable pub classify :
      WorkGraph
      → LeaseBook
      → WorkOrder
      → Option (String → Option CoverageEntry)
      → WorkNode
      → Result Place
  classify g b order coverage n =
      if is_completed b g.graph_id n.node_id
      then ok at_done
      else if is_some (active_lease_for_node b g.graph_id n.node_id)
      then ok at_leased
      else if waits_for g b n.node_id
      then ok at_dependency_blocked
      else epistemic_place order coverage n

  abbrev pub derive_nodes :
      WorkGraph
      → LeaseBook
      → WorkOrder
      → Option (String → Option CoverageEntry)
      → List WorkNode
      → Result ReadyFrontier
  derive_nodes g b order coverage [] = ok (empty_frontier g.graph_id)
  derive_nodes g b order coverage (n ∷ ns) = do
    place ← classify g b order coverage n
    rest ← derive_nodes g b order coverage ns
    ok (place_node place n rest)

  unfoldable pub derive :
      WorkGraph → WorkProjection → Option (String → Option CoverageEntry) → Result ReadyFrontier
  derive g s coverage = elim (graph_is_active s.facts g.graph_id) [
    | false ↦ ok (record (empty_frontier g.graph_id) {
      completed = filter (λ i. is_completed s.book g.graph_id i) (map (λ n. n.node_id) g.nodes);
      invalidated = true;
    })
    | true ↦ do
      order ←
          or_raise (lookup g.work_order_id s.facts.orders)
            (value_error "ready frontier requires the graph work order")
      derive_nodes g s.book order coverage g.nodes
  ]
