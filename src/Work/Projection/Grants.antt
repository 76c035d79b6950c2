-- ===== src/Work/Projection/Grants.antt =====
-- src/noema/work/coordination.py, the checks of a lease that is granted: `_validate_lease_grant`.
use noema_agent_sdk.Common.{
  String, Bool, true, false, not, Option, none, some, List, [], ◌∷◌, map, if◌then◌else◌, ◌==◌,
  string_eq, nat_eq, any, contains, Result, ok, err, ◌>>=◌, ◌>>◌, raise_if, or_raise, value_error,
}
use noema_agent_sdk.Common.Int.{pos, leb_ℤ, int_eq}
use noema_agent_sdk.Work.Values.{Platform, PresenceStatus, traverse}
use noema_agent_sdk.Work.Nodes.{WorkNode, texts_eqb}
use noema_agent_sdk.Common.Dict.{Dict, lookup}
use noema_agent_sdk.Common.{pair_eq, is_subset}
use noema_agent_sdk.Work.Graphs.{node, predecessors}
use noema_agent_sdk.Work.Presences.{is_valid_at}
use noema_agent_sdk.Work.Estimates.{CompetenceEstimate, is_seeded}
use noema_agent_sdk.Work.Leases.{WorkLease}
use noema_agent_sdk.Work.Projection.{
  PlanningFacts, LeaseBook, WorkProjection, graph_is_active, active_lease_for_node, is_completed,
  worker_for_node, next_fencing_token, active_lease_count,
}
use noema_agent_sdk.Work.Projection.Access.{Governance, validate_information_access}

abbrev pub is_some {ℓ} : {A : Type ℓ} → Option A → Bool
is_some none = false
is_some (some _) = true

abbrev pub is_available : PresenceStatus → Bool
is_available PresenceStatus.available = true
is_available _ = false

-- the estimates of an agent for some capabilities, if it has them all
abbrev estimates_of :
    Dict (String × String) CompetenceEstimate
    → String
    → List String
    → Result (List CompetenceEstimate)
estimates_of competence agent_id = traverse λ capability.
    or_raise (lookup (agent_id, capability) competence)
      (value_error "work lease requires competence estimates for every capability")

abbrev check_presence : PlanningFacts → LeaseBook → WorkLease → Result (Unit {0})
check_presence f b l = do
  p ← or_raise (lookup l.agent_id f.presence) (value_error "work lease requires an available agent")
  raise_if (not (is_available p.status)) (value_error "work lease requires an available agent")
  valid ← is_valid_at p l.granted_at
  raise_if (not valid) (value_error "work lease requires an available agent")
  raise_if (leb_ℤ p.max_concurrency (pos (active_lease_count b l.agent_id)))
      (value_error "work lease exceeds agent concurrency capacity")

-- The workers that completed what a node verifies.
abbrev pub excluded_workers : LeaseBook → String → List String → List String
excluded_workers b graph_id [] = []
excluded_workers b graph_id (t ∷ ts) = elim (worker_for_node b graph_id t) [
  | none ↦ excluded_workers b graph_id ts
  | some worker ↦ worker ∷ excluded_workers b graph_id ts
]

module _ (world : Platform) where
  -- `min` of the products, the first of equal ones
  abbrev least_score : String → List CompetenceEstimate → String
  least_score least [] = least
  least_score least (c ∷ cs) =
      let score = world.product c.score c.evidence_confidence in
      least_score (if world.float_leb least score then least else score) cs

  abbrev pub expected_score : List CompetenceEstimate → Result String
  expected_score [] = err (value_error "min() arg is an empty sequence")
  expected_score (c ∷ cs) = ok (least_score (world.product c.score c.evidence_confidence) cs)

  abbrev check_competence : PlanningFacts → WorkLease → WorkNode → Result (Unit {0})
  check_competence f l n = do
    m ←
        or_raise (lookup l.agent_id f.manifests)
          (value_error "work lease agent lacks a declared capability")
    raise_if (not (is_subset n.required_capabilities m.capabilities))
        (value_error "work lease agent lacks a declared capability")
    estimates ← estimates_of f.competence l.agent_id n.required_capabilities
    raise_if (any (λ c. not (is_seeded c.basis)) estimates)
        (value_error "v0.5 work leases require seeded competence estimates")
    raise_if (not (texts_eqb l.competence_estimate_refs (map (λ c. c.estimate_id) estimates)))
        (value_error "work lease competence evidence is not the current estimate set")
    score ← expected_score estimates
    raise_if (not (world.is_close l.match_score score))
        (value_error "work lease match score is inconsistent with competence evidence")

  -- `_validate_lease_grant`; a graph is stored under its identity, and the node that is found has
  -- the identity that was looked for, so the lease's own are used.
  unfoldable pub validate_lease_grant : Governance → WorkProjection → WorkLease → Result (Unit {0})
  validate_lease_grant governance s l = do
    g ←
        or_raise (lookup l.graph_id s.facts.graphs)
          (value_error "work lease requires an active work graph")
    raise_if (not (graph_is_active s.facts l.graph_id))
        (value_error "work lease requires an active work graph")
    n ← node g l.node_id
    raise_if (is_completed s.book l.graph_id l.node_id)
        (value_error "completed work cannot receive another lease")
    raise_if (is_some (active_lease_for_node s.book l.graph_id l.node_id))
        (value_error "work node already has an active lease")
    raise_if (any (λ p. not (is_completed s.book l.graph_id p)) (predecessors g l.node_id))
        (value_error "work node dependencies are not complete")
    raise_if (not (l.fencing_token == next_fencing_token s.book l.graph_id l.node_id))
        (value_error "work lease fencing token is not the next token")
    check_presence s.facts s.book l
    check_competence s.facts l n
    raise_if (contains l.agent_id (excluded_workers s.book l.graph_id n.verification_of))
        (value_error "verification work must use a worker independent of its target")
    validate_information_access governance s.events l n
