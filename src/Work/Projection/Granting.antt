-- ===== src/Work/Projection/Granting.antt =====
-- src/noema/work/coordination.py, `WorkProjection.apply` of a granted lease: who gets which work.
use noema_agent_sdk.Common.{
  String, Bool, true, false, not, some, List, [], ◌∷◌, ◌==◌, string_eq, pair_eq, any, ok, >>=-eq-ok,
  Result-cases, ◌≡◌, ◌≢◌, inl, inr, sym, subst, arith, Bool-cases, Option-cases, beq_self,
}
use noema_agent_sdk.Common.Int.{int_eq, pos, ◌<ℤ◌, ◌≤ℤ◌, +ℤ_parts}
use noema_agent_sdk.Common.Dict.{lookup}
use noema_agent_sdk.Event.{Event}
use noema_agent_sdk.Work.Values.{Platform}
use noema_agent_sdk.Work.Nodes.{WorkNode}
use noema_agent_sdk.Work.Graphs.{WorkGraph, node, predecessors}
use noema_agent_sdk.Work.Leases.{WorkLease}
use noema_agent_sdk.Work.Leases
use noema_agent_sdk.Work.Topology.Positions.{In}
use noema_agent_sdk.Work.Projection.{
  LeaseBook, WorkProjection, is_active, is_completed, highest_token, next_fencing_token,
  graph_is_active, worker_for_node,
}
use noema_agent_sdk.Work.Projection.Access.{Governance}
use noema_agent_sdk.Work.Projection.Grants.{validate_lease_grant, excluded_workers}
use noema_agent_sdk.Work.Projection.Apply.{grant_lease}
use noema_agent_sdk.Work.Projection.Consistent.{IsConsistent, active_lease_for_node-none}
use noema_agent_sdk.Work.Projection.Steps.{IsGrantable, grant-IsGrantable}

-- A worker of a node that is to be verified is excluded.
pub excluded_workers-In :
    (b : LeaseBook) (graph_id t worker : String) (ts : List String)
    → In t ts
    → worker_for_node b graph_id t ≡ some worker
    → In worker (excluded_workers b graph_id ts)
excluded_workers-In b graph_id t worker [] h known = absurd (ground (arith, h))
excluded_workers-In b graph_id t worker (u ∷ ts) h known = elim (Bool-cases (t == u)) [
  | inl same ↦
      let here =
        subst (λ v. worker_for_node b graph_id v ≡ some worker) ((string_eq.beq_iff t u).0 same)
          known in
      ground (arith, here, beq_self worker)
  | inr other ↦
      let rest = excluded_workers-In b graph_id t worker ts (ground (arith, h, other)) known in
      elim (Option-cases (worker_for_node b graph_id u)) [
        | inl nobody ↦ ground (arith, nobody, rest)
        | inr (first, somebody) ↦ ground (arith, somebody, rest)
      ]
]

-- Each element satisfies a test that none fails.
passes_all :
    (test : String → Bool) (p : String) (ps : List String)
    → any (λ x. not (test x)) ps ≡ false
    → In p ps
    → test p ≡ true
passes_all test p [] h inside = absurd (ground (arith, inside))
passes_all test p (x ∷ ps) h inside = elim (Bool-cases (p == x)) [
  | inl same ↦ subst (λ y. test y ≡ true) (sym ((string_eq.beq_iff p x).0 same)) (ground (arith, h))
  | inr other ↦ passes_all test p ps (ground (arith, h)) (ground (arith, inside, other))
]

-- A lease that may be granted: its graph is the active one of its order; what its node depends on
-- is completed; its worker completed nothing that the node verifies; and every earlier lease of
-- the node has ended and has a smaller fencing token.
pub record IsLawful (s : WorkProjection) (l : WorkLease) : Type 0 where
  pub graph : WorkGraph
  pub known : lookup l.graph_id s.facts.graphs ≡ some graph
  pub active_graph : graph_is_active s.facts l.graph_id ≡ true
  pub work : WorkNode
  pub of_graph : node graph l.node_id ≡ ok work
  pub predecessors_done :
      (p : String) → In p (predecessors graph l.node_id) → is_completed s.book l.graph_id p ≡ true
  pub independent :
      (t : String)
      → In t work.verification_of
      → worker_for_node s.book l.graph_id t ≢ some l.agent_id
  pub successive :
      (k : String) (m : WorkLease)
      → lookup k s.book.leases ≡ some m
      → m.graph_id ≡ l.graph_id
      → m.node_id ≡ l.node_id
      → (is_active s.book k ≡ false) × (m.fencing_token <ℤ l.fencing_token)

successive-IsGrantable :
    (b : LeaseBook) (l m : WorkLease) (k : String)
    → IsConsistent b
    → IsGrantable b l
    → lookup k b.leases ≡ some m
    → m.graph_id ≡ l.graph_id
    → m.node_id ≡ l.node_id
    → (is_active b k ≡ false) × (m.fencing_token <ℤ l.fencing_token)
unfolding next_fencing_token
successive-IsGrantable b l m k sound grantable found graph_id node_id =
    let least : m.fencing_token ≤ℤ highest_token b l.graph_id l.node_id =
      subst (λ n. m.fencing_token ≤ℤ highest_token b l.graph_id n) node_id
        (subst (λ g. m.fencing_token ≤ℤ highest_token b g m.node_id) graph_id
          (sound.bounded k m found)) in
    (
      elim (Bool-cases (is_active b k)) [
        | inr ended ↦ ended
        | inl live ↦ absurd (
            ground (
              arith,
              active_lease_for_node-none b l.graph_id l.node_id k m sound grantable.vacant found
                  live,
              string_eq.beq_iff m.graph_id l.graph_id,
              string_eq.beq_iff m.node_id l.node_id,
            ))
      ],
      ground
          (arith, least, grantable.next, +ℤ_parts (highest_token b l.graph_id l.node_id) (pos 1)),
    )

module _ (world : Platform) (governance : Governance) where
  validate-IsLawful :
      (s : WorkProjection) (l : WorkLease)
      → IsConsistent s.book
      → validate_lease_grant world governance s l ≡ ok tt
      → IsLawful s l
  unfolding validate_lease_grant
  validate-IsLawful s l sound h =
      let grantable = grant-IsGrantable world governance s l h in
      elim (Option-cases (lookup l.graph_id s.facts.graphs)) [
        | inl missing ↦ absurd (ground (arith, h, missing))
        | inr (g, known) ↦ elim (Result-cases (node g l.node_id)) [
          | inr (x, failed) ↦ absurd (ground (arith, h, known, failed))
          | inl (n, there) ↦ record {
            graph = g;
            known = known;
            active_graph = ground (arith, h, known, there);
            work = n;
            of_graph = there;
            predecessors_done = λ p inside.
                passes_all (λ x. is_completed s.book l.graph_id x) p (predecessors g l.node_id)
                  (ground (arith, h, known, there)) inside;
            independent = λ t inside worker.
                let excluded =
                  excluded_workers-In s.book l.graph_id t l.agent_id n.verification_of inside
                    worker in
                ground (arith, h, known, there, excluded);
            successive = λ k m. successive-IsGrantable s.book l m k sound grantable;
          }
        ]
      ]

  -- In a consistent projection, a lease that is granted is of the active graph of its order, every
  -- predecessor of its node is completed, its worker completed none of the nodes that the node
  -- verifies, and every earlier lease of the node has ended and has a smaller fencing token.
  pub grant_lease-IsLawful :
      (s : WorkProjection) (e : Event) (b : LeaseBook)
      → IsConsistent s.book
      → grant_lease world governance s e ≡ ok b
      → (l : WorkLease) × (Leases.from_event world e ≡ ok l) × IsLawful s l
  unfolding grant_lease
  grant_lease-IsLawful s e b sound h =
      let (l, read, h1) = >>=-eq-ok (Leases.from_event world e) _ h in
      (l, read, validate-IsLawful s l sound (ground (arith, h1)))
