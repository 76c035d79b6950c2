-- ===== src/Work/Projection.antt =====
-- src/noema/work/coordination.py, the class `WorkProjection`: its state and its queries.
-- The planning facts, which lease events leave as they are, are one record, and what lease events
-- change is another. Every lease has an outcome from its grant on.
pub mod Access
pub mod Grants
pub mod Ends
pub mod Facts
pub mod Apply
mod Lookups
pub mod Consistent
pub mod Outcomes
pub mod Steps
pub mod Replay
pub mod Lawful
pub mod Granting
use Prim.Native.String.{◌++◌}
use noema_agent_sdk.Common.{
  ℕ, ◌+◌, String, Bool, true, false, not, Option, none, some, List, [], ◌∷◌, map, ◌&&◌, ◌||◌,
  if◌then◌else◌, ◌==◌, string_eq, nat_eq, Eq, any, all, filter, find, contains, ltb, leb, nat_beq,
  Result, ok, err, ◌>>=◌, ◌>>◌, raise_if, or_raise, value_error, key_error, runtime_error,
}
use noema_agent_sdk.Common.Int.{ℤ, pos, negsuc, ltb_ℤ, leb_ℤ, int_eq, ◌+ℤ◌}
use noema_agent_sdk.Common.Sort.{is_unique, sort, str_leb, pair_leb}
use noema_agent_sdk.Event.{DateTime, JsonValue, JsonObject, Event}
use noema_agent_sdk.Event.Codec.{opt_str}
use noema_agent_sdk.Authority.{AuthorityLevel, authority_value}
use noema_agent_sdk.Work.Values.{
  Platform, ActionPrerequisite, WorkNodeKind, PresenceStatus, CompetenceBasis, kind_value,
  is_verify, status_value, basis_value, is_nil, require_text, require_aware, unique_text, is_before,
  same_time, iterate_at, traverse, to_items, str_list, object, extend, mapping, kind_of, status_of,
  basis_of, authority_of, authority_json,
}
use noema_agent_sdk.Work.Decode.{
  validate_opaque_governance_id, bounded, prerequisite_init, canonical_id, str_at, int_at, float_at,
  optional_datetime, datetime_at, strings_at, optional_iso, iso, show_int, prerequisites_at,
  prerequisite_list, make_event, is_subject,
}
use noema_agent_sdk.Work.Nodes.{
  WorkNode, WorkDependency, nodes_at, dependencies_at, node_list, dependency_list, list_eqb,
  texts_eqb, node_eqb, dependency_eqb, validate_opaque_ids,
}
use noema_agent_sdk.Common.Dict.{Dict, lookup, insert, has_key}
use noema_agent_sdk.Common.Members.{discard}
use noema_agent_sdk.Common.{length, pair_eq, is_subset}
use noema_agent_sdk.Event.{get_field, sequence_or_zero}
use noema_agent_sdk.Event.Codec.{is_truthy}
use noema_agent_sdk.Work.Orders.{WorkOrder}
use noema_agent_sdk.Work.Proposals.{PlanProposal}
use noema_agent_sdk.Work.Graphs.{WorkGraph, node, predecessors}
use noema_agent_sdk.Work.Presences.{AgentPresence, is_valid_at}
use noema_agent_sdk.Work.Manifests.{CapabilityManifest}
use noema_agent_sdk.Work.Estimates.{CompetenceEstimate, is_seeded}
use noema_agent_sdk.Work.Leases.{WorkLease, grant_id}
use noema_agent_sdk.Work.Orders
use noema_agent_sdk.Work.Proposals
use noema_agent_sdk.Work.Graphs
use noema_agent_sdk.Work.Presences
use noema_agent_sdk.Work.Manifests
use noema_agent_sdk.Work.Estimates
use noema_agent_sdk.Work.Leases

pub record NodeCompletion : Type 0 where
  pub graph_id : String
  pub node_id : String
  pub agent_id : String
  pub lease_id : String
  pub fencing_token : ℤ
  pub accepted_at : DateTime
  pub reported_finished_at : Option DateTime
  pub artifact_refs : List String
  pub verification_passed : Option Bool

pub record PlanInvalidation : Type 0 where
  pub graph_id : String
  pub trigger_event_id : String
  pub trigger_event_sequence : ℤ
  pub invalidated_at : DateTime
  pub reason : String

-- the strings that `_lease_outcomes` holds
pub data Outcome : Type 0 where
  active expired completed : Outcome

pub record PlanningFacts : Type 0 where
  pub orders : Dict String WorkOrder
  pub proposals : Dict String PlanProposal
  pub graphs : Dict String WorkGraph
  pub latest_graph_by_order : Dict String String
  pub invalidations : Dict String PlanInvalidation
  pub presence : Dict String AgentPresence
  pub manifests : Dict String CapabilityManifest
  pub competence : Dict (String × String) CompetenceEstimate

pub record LeaseBook : Type 0 where
  pub leases : Dict String WorkLease
  pub lease_outcomes : Dict String Outcome
  pub completions : Dict (String × String) NodeCompletion
  pub highest_fencing_token : Dict (String × String) ℤ

pub record WorkProjection : Type 0 where
  pub events : Dict String Event
  pub last_sequence : ℤ
  pub facts : PlanningFacts
  pub book : LeaseBook

abbrev pub new_projection : WorkProjection
new_projection = record {
  events = [];
  last_sequence = pos 0;
  facts = record {
    orders = [];
    proposals = [];
    graphs = [];
    latest_graph_by_order = [];
    invalidations = [];
    presence = [];
    manifests = [];
    competence = [];
  };
  book = record { leases = []; lease_outcomes = []; completions = []; highest_fencing_token = [] };
}

-- `d.values()`
abbrev pub values {ℓ κ} : {K : Type ℓ} {V : Type κ} → Dict K V → List V
values [] = []
values ((k, v) ∷ d) = v ∷ values d

-- `tuple(d[key] for key in sorted(d))`
abbrev pub sorted_values {ℓ} : {V : Type ℓ} → Dict String V → List V
sorted_values d = values (sort (λ p q. str_leb p.0 q.0) d)

-- the order of the triples that `graphs` and `leases` are sorted by
abbrev graph_leb : WorkGraph → WorkGraph → Bool
graph_leb g h =
    if g.work_order_id == h.work_order_id
    then (if g.version == h.version
        then str_leb g.graph_id h.graph_id
        else leb_ℤ g.version h.version)
    else str_leb g.work_order_id h.work_order_id

abbrev lease_leb : WorkLease → WorkLease → Bool
lease_leb l m =
    if l.graph_id == m.graph_id
    then (if l.node_id == m.node_id
        then leb_ℤ l.fencing_token m.fencing_token
        else str_leb l.node_id m.node_id)
    else str_leb l.graph_id m.graph_id

unfoldable pub graphs : PlanningFacts → List WorkGraph
graphs f = sort graph_leb (values f.graphs)

unfoldable pub leases : LeaseBook → List WorkLease
leases b = sort lease_leb (values b.leases)

-- `outcome == "active"`
abbrev pub is_live : Option Outcome → Bool
is_live none = false
is_live (some Outcome.active) = true
is_live (some _) = false

unfoldable pub is_active : LeaseBook → String → Bool
is_active b lease_id = is_live (lookup lease_id b.lease_outcomes)

unfoldable pub active_leases : LeaseBook → List WorkLease
active_leases b = filter (λ l. is_active b l.lease_id) (leases b)

unfoldable pub latest_graph : PlanningFacts → String → Option WorkGraph
latest_graph f work_order_id = elim (lookup work_order_id f.latest_graph_by_order) [
  | none ↦ none
  | some graph_id ↦ lookup graph_id f.graphs
]

-- `graph_is_active`, of a graph that is known
abbrev pub is_latest : PlanningFacts → WorkGraph → String → Bool
is_latest f g graph_id = elim (lookup g.work_order_id f.latest_graph_by_order) [
  | none ↦ false
  | some latest ↦ latest == graph_id
]

unfoldable pub graph_is_active : PlanningFacts → String → Bool
graph_is_active f graph_id = elim (lookup graph_id f.graphs) [
  | none ↦ false
  | some g ↦ not (has_key graph_id f.invalidations) && is_latest f g graph_id
]

-- `value.graph_id == graph_id and value.node_id == node_id`
abbrev pub is_for : String → String → WorkLease → Bool
is_for graph_id node_id l = l.graph_id == graph_id && l.node_id == node_id

unfoldable pub active_lease_for_node : LeaseBook → String → String → Option WorkLease
active_lease_for_node b graph_id node_id = find (is_for graph_id node_id) (active_leases b)

unfoldable pub active_lease : LeaseBook → String → Option WorkLease
active_lease b lease_id = elim (lookup lease_id b.leases) [
  | none ↦ none
  | some l ↦ if is_active b l.lease_id then some l else none
]

unfoldable pub is_completed : LeaseBook → String → String → Bool
is_completed b graph_id node_id = has_key (graph_id, node_id) b.completions

unfoldable pub worker_for_node : LeaseBook → String → String → Option String
worker_for_node b graph_id node_id = elim (lookup (graph_id, node_id) b.completions) [
  | none ↦ none
  | some c ↦ some c.agent_id
]

abbrev pub or_zero : Option ℤ → ℤ
or_zero none = pos 0
or_zero (some n) = n

-- `_highest_fencing_token.get(key, 0)`
unfoldable pub highest_token : LeaseBook → String → String → ℤ
highest_token b graph_id node_id = or_zero (lookup (graph_id, node_id) b.highest_fencing_token)

unfoldable pub next_fencing_token : LeaseBook → String → String → ℤ
next_fencing_token b graph_id node_id = highest_token b graph_id node_id +ℤ pos 1

unfoldable pub active_lease_count : LeaseBook → String → ℕ
active_lease_count b agent_id = length (filter (λ l. l.agent_id == agent_id) (active_leases b))

abbrev is_through : Option ℤ → ℤ → Bool
is_through none n = true
is_through (some last) n = leb_ℤ n last

unfoldable pub events_after : WorkProjection → ℤ → Option ℤ → List Event
events_after s sequence last =
    filter (λ e. ltb_ℤ sequence (sequence_or_zero e) && is_through last (sequence_or_zero e))
      (values s.events)

abbrev merge : List String → List String → List String
merge [] ys = ys
merge (x ∷ xs) ys = let rest = merge xs ys in if contains x rest then rest else x ∷ rest

abbrev capabilities_of : List CapabilityManifest → List String
capabilities_of [] = []
capabilities_of (m ∷ ms) = merge m.capabilities (capabilities_of ms)

module _ (world : Platform) where
  -- the manifests of the events up to a sequence
  abbrev manifests_through :
      ℤ → List Event → Dict String CapabilityManifest → Result (Dict String CapabilityManifest)
  manifests_through last [] found = ok found
  manifests_through last (e ∷ es) found =
      elim (e.type == "work.capability_manifest_recorded" && leb_ℤ (sequence_or_zero e) last) [
        | false ↦ manifests_through last es found
        | true ↦ do
          m ← Manifests.from_event world e
          manifests_through last es (insert m.agent_id m found)
      ]

  unfoldable pub available_capability_types : WorkProjection → Option ℤ → Result (List String)
  available_capability_types s none = ok (sort str_leb (capabilities_of (values s.facts.manifests)))
  available_capability_types s (some last) = do
    found ← manifests_through last (values s.events) []
    ok (sort str_leb (capabilities_of (values found)))
