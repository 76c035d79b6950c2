-- ===== src/Tests/Matcher.antt =====
-- The matcher of workers at a concrete input.
use noema_agent_sdk.Common.{none, some, [], ◌∷◌, ok, string_eq, pair_eq, pair_beq, ◌≡◌, refl}
use noema_agent_sdk.Common.Dict.{lookup, insert}
use noema_agent_sdk.Work.Values.{WorkNodeKind, require_aware}
use noema_agent_sdk.Work.Nodes.{WorkNode}
use noema_agent_sdk.Work.Presences.{is_valid_at}
use noema_agent_sdk.Work.Projection.{
  WorkProjection, new_projection, sorted_values, active_leases, active_lease_count, is_active,
  leases, worker_for_node,
}
use noema_agent_sdk.Work.Matcher.{WorkerMatch, match_with_access_evidence}
use noema_agent_sdk.Work.Matcher.Eligible.{Any, IsEligible, match-IsEligible}
use noema_agent_sdk.Tests.Plans.{platform, graph, presence, manifest, estimate, at, work_node}

abbrev state : WorkProjection
state = record new_projection {
  facts = record new_projection.facts {
    presence = insert presence.agent_id presence [];
    manifests = insert manifest.agent_id manifest [];
    competence = insert (estimate.agent_id, estimate.capability) estimate [];
  };
}

abbrev first_node : WorkNode
first_node = work_node "a" WorkNodeKind.analyze []

abbrev found : WorkerMatch
found = record {
  node_id = "a";
  agent_id = "worker";
  score = "0.5";
  competence_estimate_refs = "competence-estimate:digest" ∷ [];
  information_access_decisions = [];
  information_disclosure_decisions = [];
}

matched :
    match_with_access_evidence platform none graph first_node state (at 3) ≡ ok (some found, [])
unfolding match_with_access_evidence require_aware is_valid_at active_lease_count active_leases
    leases is_active worker_for_node lookup insert pair_eq pair_beq
matched = refl

match-IsEligible_example :
    Any (IsEligible graph first_node state (at 3) found) (sorted_values state.facts.presence)
match-IsEligible_example =
    match-IsEligible platform none graph first_node state (at 3) found [] matched
