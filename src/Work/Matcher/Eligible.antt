-- ===== src/Work/Matcher/Eligible.antt =====
-- src/noema/work/coordination.py, the worker that `WorkerMatcher` chooses.
use noema_agent_sdk.Common.{
  String, true, false, Option, none, some, List, [], ◌∷◌, All, ◌&&◌, Result, ok, >>=-eq-ok,
  ok_injective, Bool-cases, Option-cases, Result-cases, ◌≡◌, ◌≢◌, ◌⊎◌, inl, inr, refl, subst, arith,
  ap, string_eq, ◌>>=◌, ◌∙◌,
}
use noema_agent_sdk.Common.Sort.{sort}
use noema_agent_sdk.Event.{DateTime}
use noema_agent_sdk.Work.Values.{Platform, is_nil, require_aware}
use noema_agent_sdk.Work.Nodes.{WorkNode}
use noema_agent_sdk.Work.Graphs.{WorkGraph}
use noema_agent_sdk.Work.Presences.{AgentPresence, is_valid_at}
use noema_agent_sdk.Work.Estimates.{CompetenceEstimate}
use noema_agent_sdk.Common.{pair_eq, string_eq}
use noema_agent_sdk.Common.Members.{All-map, All-sort}
use noema_agent_sdk.Common.Int.{pos, leb_ℤ}
use noema_agent_sdk.Work.Topology.Positions.{In}
use noema_agent_sdk.Work.Projection.{
  WorkProjection, sorted_values, worker_for_node, active_lease_count,
}
use noema_agent_sdk.Work.Projection.Granting.{excluded_workers-In}
use noema_agent_sdk.Work.Projection.Access.{Decision}
use noema_agent_sdk.Work.Projection.Grants.{is_available, expected_score}
use noema_agent_sdk.Work.Matcher.{
  WorkerMatch, Evaluated, Evaluator, access_of, disclosures_of, access_is_feasible, is_free,
  usable_estimates, candidate, governed_candidate, assess, consider, with_found, candidates,
  match_leb, head, match_with_access_evidence,
}
use noema_agent_sdk.Work.Matcher.Able.{Able, usable_estimates-Able}

-- Some element satisfies a predicate.
abbrev pub Any : {A : Type 0} → (A → Type 0) → List A → Type 0
Any P [] = ⊥
Any P (x ∷ xs) = P x ⊎ Any P xs

-- The match is of a worker that is present at the time, is available, is independent of what the
-- node verifies, has capacity, and is able to do what the node requires.
pub record IsEligible (g : WorkGraph) (n : WorkNode) (s : WorkProjection) (at : DateTime)
    (m : WorkerMatch) (p : AgentPresence) : Type 0 where
  pub agent : p.agent_id ≡ m.agent_id
  pub available : is_available p.status ≡ true
  pub valid : is_valid_at p at ≡ ok true
  pub independent :
      (t : String) → In t n.verification_of → worker_for_node s.book g.graph_id t ≢ some p.agent_id
  pub capacity : leb_ℤ p.max_concurrency (pos (active_lease_count s.book p.agent_id)) ≡ false
  pub able : Able s.facts n p.agent_id

head-All :
    (P : WorkerMatch → Type 0) (ms : List WorkerMatch) (m : WorkerMatch)
    → All P ms
    → head ms ≡ some m
    → P m
head-All P [] m h first = absurd (ground (arith, first))
head-All P (k ∷ ms) m h first = subst P (ap (λ o. elim o [ none ↦ k | some i ↦ i ]) first) h.0

found-All :
    (P : WorkerMatch → Type 0) (o : Option WorkerMatch) (ms : List WorkerMatch)
    → ((k : WorkerMatch) → o ≡ some k → P k)
    → All P ms
    → All P (with_found o ms)
found-All P none ms f h = h
found-All P (some k) ms f h = (f k refl, h)

module _ (world : Platform) (evaluator : Option Evaluator) (g : WorkGraph) (n : WorkNode)
    (s : WorkProjection) (at : DateTime) where
  candidate-agent :
      (a : String) (es : List CompetenceEstimate) (ds ts : List Decision) (m : WorkerMatch)
      → candidate world n a es ds ts ≡ ok (some m)
      → a ≡ m.agent_id
  candidate-agent a es ds ts m h =
      let (score, _, made) = >>=-eq-ok (expected_score world es) _ h in
      ap (λ o. elim o [ none ↦ a | some k ↦ k.agent_id ]) (ok_injective _ _ made)

  -- What is found with some evidence is what is found.
  found-agent :
      (a : String) (r : Result (Option WorkerMatch)) (es fs : List Evaluated) (m : WorkerMatch)
      → ((k : WorkerMatch) → r ≡ ok (some k) → a ≡ k.agent_id)
      → ◌>>=◌ {B = Option WorkerMatch × List Evaluated} r (λ found. ok (found, es))
        ≡ ok (some m, fs)
      → a ≡ m.agent_id
  found-agent a r es fs m agent h =
      let (found, made, same) = >>=-eq-ok r _ h in
      agent m (made ∙ ap ok (ap (λ x. x.0) (ok_injective _ _ same)))

  governed-agent :
      (a : String) (es : List CompetenceEstimate) (evidence : List Evaluated) (m : WorkerMatch)
      → (fs : List Evaluated) → governed_candidate world n a at es evidence ≡ ok (some m, fs)
      → a ≡ m.agent_id
  governed-agent a es evidence m fs h =
      let ds = access_of evidence in
      let ts = disclosures_of evidence in
      elim (Bool-cases (access_is_feasible n a at ds ts)) [
        | inr fails ↦ absurd (ground (arith, h, fails))
        | inl there ↦
            found-agent a (candidate world n a es ds ts) evidence fs m
              (λ k. candidate-agent a es ds ts k) (ground (arith, h, there))
      ]

  assess-agent :
      (a : String) (es : List CompetenceEstimate) (m : WorkerMatch) (fs : List Evaluated)
      → assess world evaluator g n at a es ≡ ok (some m, fs)
      → a ≡ m.agent_id
  assess-agent a es m fs h = elim (Bool-cases (is_nil n.governed_information_refs)) [
    | inl plain ↦
        found-agent a (candidate world n a es [] []) [] fs m (λ k. candidate-agent a es [] [] k)
          (ground (arith, h, plain))
    | inr governed ↦ elim (Option-cases evaluator) [
      | inl missing ↦ absurd (ground (arith, h, governed, missing))
      | inr (evaluate, there) ↦
          let (evidence, _, h1) =
            >>=-eq-ok (evaluate g n a at) (governed_candidate world n a at es)
              (ground (arith, h, governed, there)) in
          governed-agent a es evidence m fs h1
    ]
  ]

  consider-IsEligible :
      (p : AgentPresence) (m : WorkerMatch) (fs : List Evaluated)
      → consider world evaluator g n s at p ≡ ok (some m, fs)
      → IsEligible g n s at m p
  consider-IsEligible p m fs h = elim (Bool-cases (is_available p.status)) [
    | inr fails ↦ absurd (ground (arith, h, fails))
    | inl there ↦ elim (Result-cases (is_valid_at p at)) [
      | inr (x, failed) ↦ absurd (ground (arith, h, there, failed))
      | inl (valid, checked) ↦ elim (Bool-cases (valid && is_free g n s p)) [
        | inr fails ↦ absurd (ground (arith, h, there, checked, fails))
        | inl both ↦ elim (Option-cases (usable_estimates s.facts n p.agent_id)) [
          | inl missing ↦ absurd (ground (arith, h, there, checked, both, missing))
          | inr (es, known) ↦ record {
            agent =
                assess-agent p.agent_id es m fs (ground (arith, h, there, checked, both, known));
            available = there;
            valid = ground (arith, checked, both);
            independent = λ t inside worker.
                let excluded =
                  excluded_workers-In s.book g.graph_id t p.agent_id n.verification_of inside
                    worker in
                ground (arith, both, excluded);
            capacity = ground (arith, both);
            able = usable_estimates-Able s.facts n p.agent_id es known;
          }
        ]
      ]
    ]
  ]

  candidates-IsEligible :
      (ps : List AgentPresence) (ms : List WorkerMatch) (fs : List Evaluated)
      → candidates world evaluator g n s at ps ≡ ok (ms, fs)
      → All (λ m. Any (IsEligible g n s at m) ps) ms
  candidates-IsEligible [] ms fs h =
      subst (λ l. All (λ m. Any (IsEligible g n s at m) []) l) (ap (λ x. x.0) (ok_injective _ _ h))
        tt
  candidates-IsEligible (p ∷ ps) ms fs h =
      let (first, ran, h1) = >>=-eq-ok (consider world evaluator g n s at p) _ h in
      let (rest, others, h2) = >>=-eq-ok (candidates world evaluator g n s at ps) _ h1 in
      let later =
        All-map _ (λ m. Any (IsEligible g n s at m) (p ∷ ps)) rest.0 (λ m e. inr e)
          (candidates-IsEligible ps rest.0 rest.1 others) in
      subst (All (λ m. Any (IsEligible g n s at m) (p ∷ ps))) (ap (λ x. x.0) (ok_injective _ _ h2))
        (found-All (λ m. Any (IsEligible g n s at m) (p ∷ ps)) first.0 rest.0
          (λ k same. inl (consider-IsEligible p k first.1 (ran ∙ ap (λ o. ok (o, first.1)) same)))
          later)

  -- A worker that is matched is present and available at the time, completed none of the nodes that
  -- the node verifies, has fewer active leases than it may have, declares every capability that the
  -- node requires, and has a seeded estimate for each of them.
  pub match-IsEligible :
      (m : WorkerMatch) (fs : List Evaluated)
      → match_with_access_evidence world evaluator g n s at ≡ ok (some m, fs)
      → Any (IsEligible g n s at m) (sorted_values s.facts.presence)
  unfolding match_with_access_evidence
  match-IsEligible m fs h =
      let ps = sorted_values s.facts.presence in
      let (_, _, h1) = >>=-eq-ok (require_aware at "worker matching time") _ h in
      let (found, ran, h2) = >>=-eq-ok (candidates world evaluator g n s at ps) _ h1 in
      let P : WorkerMatch → Type 0 = λ k. Any (IsEligible g n s at k) ps in
      head-All P (sort (match_leb world) found.0) m
        (All-sort P (match_leb world) found.0 (candidates-IsEligible ps found.0 found.1 ran))
        (ap (λ x. x.0) (ok_injective _ _ h2))
