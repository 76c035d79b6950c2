-- ===== src/Work/Planning/Legal.antt =====
-- src/noema/work/planning.py: the plans that `PlanValidator.validate` accepts.
use noema_agent_sdk.Common.{
  String, Bool, true, false, not, List, [], ◌∷◌, map, ◌&&◌, ◌==◌, string_eq, nat_eq, length, any,
  contains, is_subset, All, ok, >>=-eq-ok, ◌≡◌, ◌↔◌, refl, sym, ap, subst, arith, Bool-cases,
  Result-cases, inl, inr,
}
use noema_agent_sdk.Common.Int.{ℤ, pos, ◌+ℤ◌, int_eq}
use noema_agent_sdk.Common.Sort.{is_unique}
use noema_agent_sdk.Event.{DateTime, Event}
use noema_agent_sdk.Work.Values.{Platform, is_nil}
use noema_agent_sdk.Work.Decode.{canonical_id}
use noema_agent_sdk.Work.Nodes.{WorkNode, WorkDependency}
use noema_agent_sdk.Work.Orders.{WorkOrder}
use noema_agent_sdk.Work.Proposals.{PlanProposal}
use noema_agent_sdk.Work.Graphs.{WorkGraph}
use noema_agent_sdk.Work.Graphs
use noema_agent_sdk.Work.Topology.{predecessors_of, successors_of, visit_order, ancestors_along}
use noema_agent_sdk.Work.Topology.Positions.{In, index_of}
use noema_agent_sdk.Work.Topology.Complete.{visit_order-increasing}
use noema_agent_sdk.Work.Topology.Exhaustive.{IsAcyclic, visit_order-full}
use noema_agent_sdk.Work.Topology.Ancestry.{Leads, ancestors_along-Leads}
use noema_agent_sdk.Work.Planning.{
  stale_events, node_ids, check_window, check_references, order_nodes, check_targets, validate,
}

length-node_ids : (ns : List WorkNode) → length (map (λ n. n.node_id) ns) ≡ length ns
length-node_ids [] = refl
length-node_ids (n ∷ ns) = ground (arith, length-node_ids ns)

pub is_subset-In : (x : String) (xs ys : List String) → is_subset xs ys ≡ true → In x xs → In x ys
is_subset-In x [] ys h inside = absurd (ground arith)
is_subset-In x (y ∷ xs) ys h inside = elim (Bool-cases (x == y)) [
  | inl same ↦ subst (λ w. In w ys) (sym ((string_eq.beq_iff x y).0 same)) (ground arith)
  | inr other ↦ is_subset-In x xs ys (ground arith) (ground arith)
]

-- What a node verifies leads to it.
abbrev pub IsVerifiedAfter : List WorkDependency → WorkNode → Type 0
IsVerifiedAfter deps n = (t : String) → In t n.verification_of → Leads deps t n.node_id

targets_lead :
    (deps : List WorkDependency) (visited : List String) (ns : List WorkNode)
    → any (λ n. not (is_subset n.verification_of (ancestors_along deps visited n.node_id))) ns
      ≡ false
    → All (IsVerifiedAfter deps) ns
targets_lead deps visited [] h = tt
targets_lead deps visited (n ∷ ns) h = (
  λ t inside. ancestors_along-Leads deps visited n.node_id t (
      is_subset-In t n.verification_of (ancestors_along deps visited n.node_id) (ground (arith, h))
        inside),
  targets_lead deps visited ns (ground (arith, h)),
)

-- `validate`'s test of the ends of a dependency
abbrev has_unknown_end : List String → WorkDependency → Bool
has_unknown_end ids d = not (contains d.predecessor_id ids && contains d.successor_id ids)

successors_known :
    (ids : List String) (deps : List WorkDependency) (n y : String)
    → any (has_unknown_end ids) deps ≡ false
    → In y (successors_of deps n)
    → In y ids
successors_known ids [] n y h inside = absurd (ground arith)
successors_known ids (d ∷ deps) n y h inside = elim (Bool-cases (y == d.successor_id)) [
  | inl same ↦
      subst (λ w. In w ids) (sym ((string_eq.beq_iff y d.successor_id).0 same)) (ground arith)
  | inr other ↦ successors_known ids deps n y (ground arith) (ground arith)
]

predecessors_known :
    (ids : List String) (deps : List WorkDependency) (n y : String)
    → any (has_unknown_end ids) deps ≡ false
    → In y (predecessors_of deps n)
    → In y ids
predecessors_known ids [] n y h inside = absurd (ground arith)
predecessors_known ids (d ∷ deps) n y h inside = elim (Bool-cases (y == d.predecessor_id)) [
  | inl same ↦
      subst (λ w. In w ids) (sym ((string_eq.beq_iff y d.predecessor_id).0 same)) (ground arith)
  | inr other ↦ predecessors_known ids deps n y (ground arith) (ground arith)
]

check_references_lem :
    (p : PlanProposal) (capabilities : List String)
    → check_references p capabilities ≡ ok tt
    → (is_unique (node_ids p) ≡ true) × (any (has_unknown_end (node_ids p)) p.dependencies ≡ false)
unfolding check_references
check_references_lem p capabilities h = (ground (arith, h), ground (arith, h))

-- When the references of a plan are sound, the loop visits all of its nodes exactly if the
-- dependencies form no cycle.
pub order_nodes_iff :
    (p : PlanProposal) (capabilities : List String)
    → check_references p capabilities ≡ ok tt
    → (order_nodes p ≡ ok (visit_order p.dependencies (node_ids p)))
      ↔ IsAcyclic p.dependencies (node_ids p)
unfolding order_nodes
order_nodes_iff p capabilities references =
    let (unique, known) = check_references_lem p capabilities references in
    let ids = node_ids p in
    let visited = visit_order p.dependencies ids in
    (
      λ passed. (
        λ x. index_of x visited,
        λ x q inside before.
            visit_order-increasing p.dependencies ids
              (λ n y. successors_known ids p.dependencies n y known) unique
              (ground (arith, passed, length-node_ids p.nodes)) q x inside before,
      ),
      λ acyclic.
          let full =
            visit_order-full p.dependencies ids
              (λ n y. successors_known ids p.dependencies n y known) unique
              (λ x q. predecessors_known ids p.dependencies x q known) acyclic in
          ground (arith, full, length-node_ids p.nodes),
    )

-- What `validate` has made sure of when it returns a graph.
pub record IsAdmitted (p : PlanProposal) (order : WorkOrder) (causal acceptance current : ℤ)
    (capabilities : List String) (events : List Event) (g : WorkGraph) : Type 0 where
  pub same_cut : p.based_on_event_cursor ≡ causal
  pub window : check_window events causal acceptance ≡ ok tt
  pub current_version : p.based_on_graph_version ≡ current
  pub next_version : g.version ≡ current +ℤ pos 1
  same_nodes : g.nodes ≡ p.nodes
  same_dependencies : g.dependencies ≡ p.dependencies
  pub same_conditions : g.done_conditions ≡ p.done_conditions
  pub not_stale : is_nil (stale_events p events) ≡ true
  pub covered : is_subset order.success_criteria p.done_conditions ≡ true
  references : check_references p capabilities ≡ ok tt
  visited : List String
  in_order : order_nodes p ≡ ok visited
  targets : check_targets p visited ≡ ok tt

module _ (world : Platform) where
  post_init-eq-ok : (g h : WorkGraph) → Graphs.post_init g ≡ ok h → h ≡ g
  unfolding Graphs.post_init
  post_init-eq-ok g h eq = ground (arith, eq)

  create-eq-ok :
      (p : PlanProposal) (version : ℤ) (validator_id : String) (accepted_at : DateTime)
      (g : WorkGraph)
      → Graphs.create world p version validator_id accepted_at ≡ ok g
      → (g.version ≡ version)
        × (g.nodes ≡ p.nodes)
        × (g.dependencies ≡ p.dependencies)
        × (g.done_conditions ≡ p.done_conditions)
  unfolding Graphs.create
  create-eq-ok p version validator_id accepted_at g h =
      let (identity, _, made) = >>=-eq-ok (canonical_id world "work-graph" _) _ h in
      let same = post_init-eq-ok _ g made in
      (
        ap (λ x. x.version) same,
        ap (λ x. x.nodes) same,
        ap (λ x. x.dependencies) same,
        ap (λ x. x.done_conditions) same,
      )

  module _ (validator_id : String) (p : PlanProposal) (order : WorkOrder)
      (causal acceptance current : ℤ) (capabilities : List String) (events : List Event)
      (accepted_at : DateTime) (g : WorkGraph) where
    pub validate-IsAdmitted :
        validate world validator_id p order causal acceptance current capabilities events
            accepted_at
          ≡ ok g
        → IsAdmitted p order causal acceptance current capabilities events g
    unfolding validate
    validate-IsAdmitted h = elim (Result-cases (order_nodes p)) [
      | inr (e, failed) ↦ absurd (ground (arith, h, failed))
      | inl (visited, passed) ↦
          let created : Graphs.create world p (current +ℤ pos 1) validator_id accepted_at ≡ ok g =
            ground (arith, h, passed) in
          let (version, nodes, dependencies, conditions) = create-eq-ok p _ _ _ g created in
          record {
            same_cut = ground (arith, h, int_eq.beq_iff p.based_on_event_cursor causal);
            window = ground (arith, h);
            current_version = ground (arith, h, int_eq.beq_iff p.based_on_graph_version current);
            next_version = version;
            same_nodes = nodes;
            same_dependencies = dependencies;
            same_conditions = conditions;
            not_stale = ground (arith, h);
            covered = ground (arith, h);
            references = ground (arith, h);
            visited = visited;
            in_order = passed;
            targets = ground (arith, h, passed);
          }
    ]

    -- The dependencies of a graph that `validate` returns form no cycle.
    pub validate-IsAcyclic :
        validate world validator_id p order causal acceptance current capabilities events
            accepted_at
          ≡ ok g
        → IsAcyclic g.dependencies (map (λ n. n.node_id) g.nodes)
    unfolding order_nodes
    validate-IsAcyclic h =
        let admitted = validate-IsAdmitted h in
        subst (λ deps. IsAcyclic deps (map (λ n. n.node_id) g.nodes))
          (sym admitted.same_dependencies)
          (subst (λ ns. IsAcyclic p.dependencies (map (λ n. n.node_id) ns))
            (sym admitted.same_nodes)
            ((order_nodes_iff p capabilities admitted.references).0
              (ground (arith, admitted.in_order))))

    -- The predecessors of a node are nodes of the graph.
    pub validate-known :
        validate world validator_id p order causal acceptance current capabilities events
            accepted_at
          ≡ ok g
        → (x q : String) → In q (predecessors_of g.dependencies x)
        → In q (map (λ n. n.node_id) g.nodes)
    validate-known h x q before =
        let admitted = validate-IsAdmitted h in
        let (_, known) = check_references_lem p capabilities admitted.references in
        subst (λ ns. In q (map (λ n. n.node_id) ns)) (sym admitted.same_nodes)
          (predecessors_known (node_ids p) p.dependencies x q known
            (subst (λ deps. In q (predecessors_of deps x)) admitted.same_dependencies before))

    -- In a graph that `validate` returns, every node that a node verifies leads to it through
    -- dependencies.
    pub validate-targets :
        validate world validator_id p order causal acceptance current capabilities events
            accepted_at
          ≡ ok g
        → All (IsVerifiedAfter g.dependencies) g.nodes
    unfolding check_targets
    validate-targets h =
        let admitted = validate-IsAdmitted h in
        subst (λ deps. All (IsVerifiedAfter deps) g.nodes) (sym admitted.same_dependencies)
          (subst (All (IsVerifiedAfter p.dependencies)) (sym admitted.same_nodes) (
            targets_lead p.dependencies admitted.visited p.nodes
              (ground (arith, admitted.targets))))
