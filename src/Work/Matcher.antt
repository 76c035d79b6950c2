-- ===== src/Work/Matcher.antt =====
-- src/noema/work/coordination.py, the class `WorkerMatcher`. The evaluator of information access
-- is a parameter, with the fields of its decisions that are used.
pub mod Eligible
pub mod Able
use noema_agent_sdk.Common.{
  String, Bool, true, false, not, Option, none, some, List, [], ◌∷◌, ◌++◌, map, ◌&&◌, ◌||◌,
  if◌then◌else◌, ◌==◌, string_eq, nat_eq, any, all, filter, contains, length, pair_eq, is_subset,
  Result, ok, err, ◌>>=◌, ◌>>◌, raise_if, or_raise, value_error,
}
use noema_agent_sdk.Common.Int.{pos, leb_ℤ}
use noema_agent_sdk.Common.Sort.{sort, str_leb}
use noema_agent_sdk.Common.Dict.{Dict, lookup}
use noema_agent_sdk.Event.{DateTime}
use noema_agent_sdk.Work.Values.{Platform, is_nil, require_aware, same_time}
use noema_agent_sdk.Work.Nodes.{WorkNode}
use noema_agent_sdk.Work.Graphs.{WorkGraph}
use noema_agent_sdk.Work.Presences.{AgentPresence, is_valid_at}
use noema_agent_sdk.Work.Estimates.{CompetenceEstimate, is_seeded}
use noema_agent_sdk.Work.Projection.{
  WorkProjection, PlanningFacts, active_lease_count, sorted_values,
}
use noema_agent_sdk.Work.Projection.Access.{
  Decision, same_elements, distinct, is_crossing, is_agent,
}
use noema_agent_sdk.Work.Projection.Grants.{is_available, expected_score, excluded_workers}

pub record WorkerMatch : Type 0 where
  pub node_id : String
  pub agent_id : String
  pub score : String
  pub competence_estimate_refs : List String
  pub information_access_decisions : List Decision
  pub information_disclosure_decisions : List Decision

-- `InformationAccessDecision | DisclosureDecision`
pub data Evaluated : Type 0 where
  access disclosure : Decision → Evaluated

-- `evaluate` of a `WorkerAccessEvaluator`
abbrev pub Evaluator : Type 0
Evaluator = WorkGraph → WorkNode → String → DateTime → Result (List Evaluated)

abbrev pub access_of : List Evaluated → List Decision
access_of [] = []
access_of (Evaluated.access d ∷ es) = d ∷ access_of es
access_of (Evaluated.disclosure d ∷ es) = access_of es

abbrev pub disclosures_of : List Evaluated → List Decision
disclosures_of [] = []
disclosures_of (Evaluated.access d ∷ es) = disclosures_of es
disclosures_of (Evaluated.disclosure d ∷ es) = d ∷ disclosures_of es

-- The decision allows the assignment of work to an agent at a time.
abbrev pub is_assignment : String → DateTime → Decision → Bool
is_assignment agent_id at d =
    d.allowed
    && d.is_work_assign
    && d.principal_id == agent_id
    && is_agent d.recipient agent_id
    && same_time d.decided_at at

-- Some decisions are as many as some identities, and are about all of them.
abbrev covers : List String → List Decision → Bool
covers ids ds = length ds == length ids && same_elements (map (λ d. d.information_id) ds) ids

unfoldable pub access_is_feasible :
    WorkNode → String → DateTime → List Decision → List Decision → Bool
access_is_feasible n agent_id at accesses disclosures =
    covers (distinct n.governed_information_refs) accesses
    && all (is_assignment agent_id at) accesses
    && covers (distinct (map (λ d. d.information_id) (filter is_crossing accesses))) disclosures
    && all (λ d. is_assignment agent_id at d && is_crossing d) disclosures

-- the estimates of an agent for some capabilities, if it has them all
abbrev pub known_estimates :
    Dict (String × String) CompetenceEstimate
    → String
    → List String
    → Option (List CompetenceEstimate)
known_estimates competence agent_id [] = some []
known_estimates competence agent_id (c ∷ cs) =
    let rest = known_estimates competence agent_id cs in
    elim (lookup (agent_id, c) competence) [
      | none ↦ none
      | some e ↦ elim rest [ none ↦ none | some es ↦ some (e ∷ es) ]
    ]

-- the seeded estimates of a worker that declares all the capabilities of a node
abbrev pub usable_estimates : PlanningFacts → WorkNode → String → Option (List CompetenceEstimate)
usable_estimates f n agent_id = elim (lookup agent_id f.manifests) [
  | none ↦ none
  | some m ↦ elim (is_subset n.required_capabilities m.capabilities) [
    | false ↦ none
    | true ↦ elim (known_estimates f.competence agent_id n.required_capabilities) [
      | none ↦ none
      | some es ↦ elim (any (λ c. not (is_seeded c.basis)) es) [ true ↦ none | false ↦ some es ]
    ]
  ]
]

-- The worker is present, is not excluded and has capacity.
abbrev pub is_free : WorkGraph → WorkNode → WorkProjection → AgentPresence → Bool
is_free g n s p =
    not (contains p.agent_id (excluded_workers s.book g.graph_id n.verification_of))
    && not (leb_ℤ p.max_concurrency (pos (active_lease_count s.book p.agent_id)))

abbrev pub with_found : Option WorkerMatch → List WorkerMatch → List WorkerMatch
with_found none ms = ms
with_found (some m) ms = m ∷ ms

abbrev pub head : List WorkerMatch → Option WorkerMatch
head [] = none
head (m ∷ ms) = some m

module _ (world : Platform) where
  abbrev pub candidate :
      WorkNode
      → String
      → List CompetenceEstimate
      → List Decision
      → List Decision
      → Result (Option WorkerMatch)
  candidate n agent_id estimates accesses disclosures = do
    score ← expected_score world estimates
    ok (
        some (record {
          node_id = n.node_id;
          agent_id = agent_id;
          score = score;
          competence_estimate_refs = map (λ c. c.estimate_id) estimates;
          information_access_decisions = accesses;
          information_disclosure_decisions = disclosures;
        }))

  -- the candidate, if its access is feasible, and what the evaluator found
  abbrev pub governed_candidate :
      WorkNode
      → String
      → DateTime
      → List CompetenceEstimate
      → List Evaluated
      → Result (Option WorkerMatch × List Evaluated)
  governed_candidate n agent_id at estimates es =
      elim (access_is_feasible n agent_id at (access_of es) (disclosures_of es)) [
        | false ↦ ok (none, es)
        | true ↦ do
          found ← candidate n agent_id estimates (access_of es) (disclosures_of es)
          ok (found, es)
      ]

  abbrev pub assess :
      Option Evaluator
      → WorkGraph
      → WorkNode
      → DateTime
      → String
      → List CompetenceEstimate
      → Result (Option WorkerMatch × List Evaluated)
  assess evaluator g n at agent_id estimates = elim (is_nil n.governed_information_refs) [
    | true ↦ do found ← candidate n agent_id estimates [] []; ok (found, [])
    | false ↦ elim evaluator [
      | none ↦ ok (none, [])
      | some evaluate ↦ do
        es ← evaluate g n agent_id at
        governed_candidate n agent_id at estimates es
    ]
  ]

  abbrev pub consider :
      Option Evaluator
      → WorkGraph
      → WorkNode
      → WorkProjection
      → DateTime
      → AgentPresence
      → Result (Option WorkerMatch × List Evaluated)
  consider evaluator g n s at p = elim (is_available p.status) [
    | false ↦ ok (none, [])
    | true ↦ do
      valid ← is_valid_at p at
      elim (valid && is_free g n s p) [
        | false ↦ ok (none, [])
        | true ↦ elim (usable_estimates s.facts n p.agent_id) [
          | none ↦ ok (none, [])
          | some estimates ↦ assess evaluator g n at p.agent_id estimates
        ]
      ]
  ]

  abbrev pub candidates :
      Option Evaluator
      → WorkGraph
      → WorkNode
      → WorkProjection
      → DateTime
      → List AgentPresence
      → Result (List WorkerMatch × List Evaluated)
  candidates evaluator g n s at [] = ok ([], [])
  candidates evaluator g n s at (p ∷ ps) = do
    first ← consider evaluator g n s at p
    rest ← candidates evaluator g n s at ps
    ok (with_found first.0 rest.0, first.1 ++ rest.1)

  -- the order of the keys `(-score, agent_id)`
  abbrev pub match_leb : WorkerMatch → WorkerMatch → Bool
  match_leb m k =
      if world.float_eqb m.score k.score
      then str_leb m.agent_id k.agent_id
      else world.float_leb k.score m.score

  unfoldable pub match_with_access_evidence :
      Option Evaluator
      → WorkGraph
      → WorkNode
      → WorkProjection
      → DateTime
      → Result (Option WorkerMatch × List Evaluated)
  match_with_access_evidence evaluator g n s at = do
    require_aware at "worker matching time"
    found ← candidates evaluator g n s at (sorted_values s.facts.presence)
    ok (head (sort match_leb found.0), found.1)
