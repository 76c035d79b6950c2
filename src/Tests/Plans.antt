-- ===== src/Tests/Plans.antt =====
-- A plan of two nodes, one of which verifies the other, and the events of its life.
use noema_agent_sdk.Common.{
  ℕ, String, Bool, true, none, some, List, [], ◌∷◌, ◌==◌, string_eq, Result, ok, err, type_error,
}
use noema_agent_sdk.Common.Int.{pos, int_eq}
use noema_agent_sdk.Event.{DateTime, JsonValue, Event}
use noema_agent_sdk.Authority.{AuthorityLevel}
use noema_agent_sdk.Work.Values.{Platform, WorkNodeKind, PresenceStatus, CompetenceBasis}
use noema_agent_sdk.Work.Nodes.{WorkNode}
use noema_agent_sdk.Work.Orders.{WorkOrder}
use noema_agent_sdk.Work.Proposals.{PlanProposal}
use noema_agent_sdk.Work.Graphs.{WorkGraph}
use noema_agent_sdk.Work.Presences.{AgentPresence}
use noema_agent_sdk.Work.Manifests.{CapabilityManifest}
use noema_agent_sdk.Work.Estimates.{CompetenceEstimate}
use noema_agent_sdk.Work.Leases.{WorkLease}
use noema_agent_sdk.Work.Orders
use noema_agent_sdk.Work.Proposals
use noema_agent_sdk.Work.Graphs
use noema_agent_sdk.Work.Presences
use noema_agent_sdk.Work.Manifests
use noema_agent_sdk.Work.Estimates
use noema_agent_sdk.Work.Leases
use noema_agent_sdk.Work.Terminations
use noema_agent_sdk.Work.Projection.Access.{Governance}
use noema_agent_sdk.Tests.Fixtures.{python, event_one}

abbrev same_json : JsonValue → JsonValue → Bool
same_json (JsonValue.str s) (JsonValue.str t) = s == t
same_json (JsonValue.int n) (JsonValue.int m) = n == m
same_json _ _ = true

abbrev pub platform : Platform
platform = record {
  py = python;
  is_finite = λ x. true;
  float_leb = λ x y. true;
  float_eqb = λ x y. x == y;
  float_of = λ v. err (type_error "float");
  product = λ x y. x;
  is_close = λ x y. x == y;
  digest = λ d. ok "digest";
  json_eqb = same_json;
}

abbrev pub governance : Governance
governance = record {
  access_from_event = λ e. err (type_error "no decision");
  disclosure_from_event = λ e. err (type_error "no decision");
}

-- the value of a result that is known to be one
abbrev pub value_or {ℓ} : {A : Type ℓ} → A → Result A → A
value_or default (ok value) = value
value_or default (err _) = default

abbrev pub at : ℕ → DateTime
at n = record { instant = n; is_aware = true }

abbrev pub order : WorkOrder
order = record {
  work_order_id = "work-order:digest";
  purpose = "measure";
  governing_goal_refs = "goal" ∷ [];
  created_from = "request" ∷ [];
  priority = "0.5";
  desired_outcome = "a value";
  success_criteria = "measured" ∷ [];
  deadline = none;
  opportunity_window_end = none;
  authority_ceiling = AuthorityLevel.propose;
  epistemic_prerequisites = [];
  created_at = at 0;
}

abbrev pub work_node : String → WorkNodeKind → List String → WorkNode
work_node id kind targets = record {
  node_id = id;
  kind = kind;
  description = "work";
  required_capabilities = "sense" ∷ [];
  completion_criteria = "done" ∷ [];
  epistemic_prerequisites = [];
  verification_of = targets;
  governed_information_refs = [];
}

abbrev pub proposal : PlanProposal
proposal = record {
  proposal_id = "plan-proposal:digest";
  planner_id = "planner";
  work_order_id = "work-order:digest";
  based_on_event_cursor = pos 2;
  based_on_graph_version = pos 0;
  nodes = work_node "a" WorkNodeKind.analyze [] ∷ work_node "b" WorkNodeKind.verify ("a" ∷ []) ∷ [];
  dependencies = record { predecessor_id = "a"; successor_id = "b" } ∷ [];
  assumptions = [];
  done_conditions = "measured" ∷ [];
  replan_event_types = "sensor.failed" ∷ [];
  proposed_at = at 1;
}

abbrev pub graph : WorkGraph
graph = record {
  graph_id = "work-graph:digest";
  work_order_id = "work-order:digest";
  proposal_id = "plan-proposal:digest";
  version = pos 1;
  based_on_event_cursor = pos 2;
  nodes = proposal.nodes;
  dependencies = proposal.dependencies;
  done_conditions = "measured" ∷ [];
  replan_event_types = "sensor.failed" ∷ [];
  validator_id = "validator";
  accepted_at = at 2;
}

abbrev pub presence : AgentPresence
presence = record {
  agent_id = "worker";
  status = PresenceStatus.available;
  max_concurrency = pos 1;
  observed_at = at 2;
  valid_until = at 9;
}

abbrev pub manifest : CapabilityManifest
manifest = record {
  manifest_id = "capability-manifest:digest";
  agent_id = "worker";
  capabilities = "sense" ∷ [];
  recorded_at = at 0;
}

abbrev pub estimate : CompetenceEstimate
estimate = record {
  estimate_id = "competence-estimate:digest";
  agent_id = "worker";
  capability = "sense";
  score = "0.5";
  evidence_confidence = "1.0";
  basis = CompetenceBasis.seeded;
  evidence_refs = [];
  estimated_at = at 2;
}

abbrev pub lease : WorkLease
lease = record {
  lease_id = "work-lease:work-graph:digest:a:value";
  graph_id = "work-graph:digest";
  node_id = "a";
  agent_id = "worker";
  fencing_token = pos 1;
  granted_at = at 3;
  expires_at = at 6;
  match_score = "0.5";
  competence_estimate_refs = "competence-estimate:digest" ∷ [];
  information_access_decision_refs = [];
  information_disclosure_decision_refs = [];
}

abbrev pub canonical : ℕ → Result Event → Event
canonical n e = record (value_or event_one e) { sequence = some (pos n) }

abbrev pub planned : List Event
planned =
    canonical 1 (Orders.to_event platform order "source")
    ∷ canonical 2 (Manifests.to_event platform manifest "source")
    ∷ canonical 3
        (Proposals.to_event platform proposal "source" "work-order-recorded:work-order:digest")
    ∷ canonical 4 (Graphs.to_event platform graph "source" "plan-proposed:plan-proposal:digest")
    ∷ canonical 5 (Presences.to_event platform presence "source")
    ∷ canonical 6 (Estimates.to_event platform estimate "source")
    ∷ []

abbrev pub grant_event : Event
grant_event =
    canonical 7 (Leases.to_event platform lease "source" "work-graph-accepted:work-graph:digest")

abbrev pub completion_event : Event
completion_event =
    canonical 8
      (Terminations.completion_event platform lease "source" (at 4) ("artifact" ∷ []) none none)
