-- ===== src/Work/Frontier/Progress.antt =====
-- src/noema/work/coordination.py, `ReadyFrontier.derive` of a plan that is not done.
use noema_agent_sdk.Common.{
  ℕ, zero, suc, ◌<◌, String, Bool, true, false, not, Option, List, [], ◌∷◌, map, ◌&&◌,
  if◌then◌else◌, ◌==◌, string_eq, any, ok, >>=-eq-ok, ok_injective, Bool-cases, Option-cases,
  beq_self, ◌≡◌, inl, inr, refl, subst, arith,
}
use noema_agent_sdk.Common.Int.{ℤ}
use noema_agent_sdk.Common.Dict.{lookup}
use noema_agent_sdk.Event.{DateTime, Event}
use noema_agent_sdk.Work.Values.{Platform, is_nil}
use noema_agent_sdk.Work.Nodes.{WorkNode}
use noema_agent_sdk.Work.Orders.{WorkOrder}
use noema_agent_sdk.Work.Proposals.{PlanProposal}
use noema_agent_sdk.Work.Graphs.{WorkGraph, predecessors}
use noema_agent_sdk.Work.Topology.{predecessors_of}
use noema_agent_sdk.Work.Topology.Positions.{In}
use noema_agent_sdk.Work.Topology.Exhaustive.{IsAcyclic}
use noema_agent_sdk.Work.Planning.{validate}
use noema_agent_sdk.Work.Planning.Legal.{validate-IsAcyclic, validate-known}
use noema_agent_sdk.Work.Projection.{
  LeaseBook, WorkProjection, graph_is_active, is_completed, active_lease_for_node,
}
use noema_agent_sdk.Work.Projection.Grants.{is_some}
use noema_agent_sdk.Work.Frontier.{
  CoverageEntry, ReadyFrontier, Place, place_node, waits_for, classify, epistemic_place,
  derive_nodes, derive, requirements, is_blocked,
}

-- Nothing is ready, under lease or waiting for awareness.
abbrev pub is_stuck : ReadyFrontier → Bool
is_stuck f = is_nil f.ready && is_nil f.leased && is_nil f.epistemic_blocked

-- Some element satisfies a test that not all fail.
any-In :
    (test : String → Bool) (ps : List String)
    → any test ps ≡ true
    → (p : String) × In p ps × (test p ≡ true)
any-In test [] h = absurd (ground (arith, h))
any-In test (p ∷ ps) h = elim (Bool-cases (test p)) [
  | inl passes ↦ (p, ground (arith, beq_self p), passes)
  | inr fails ↦
      let (q, inside, passes) = any-In test ps (ground (arith, h, fails)) in
      (q, ground (arith, inside), passes)
]

module _ (world : Platform) where
  module _ (g : WorkGraph) (b : LeaseBook) (order : WorkOrder)
      (coverage : Option (String → Option CoverageEntry)) where
    chosen-moves :
        (n : WorkNode) (f : ReadyFrontier) (blocked : Bool)
        → is_stuck (place_node (if blocked then Place.at_epistemic_blocked else Place.at_ready) n f)
          ≡ false
    chosen-moves n f true = ground arith
    chosen-moves n f false = refl

    -- A node that is not completed and waits for none is put where the frontier is not stuck.
    classify-moves :
        (n : WorkNode) (place : Place) (f : ReadyFrontier)
        → is_completed b g.graph_id n.node_id ≡ false
        → waits_for g b n.node_id ≡ false
        → classify world g b order coverage n ≡ ok place
        → is_stuck (place_node place n f) ≡ false
    unfolding classify
    classify-moves n place f open_node free h =
        elim (Bool-cases (is_some (active_lease_for_node b g.graph_id n.node_id))) [
          | inl taken ↦
              let leased : Place.at_leased ≡ place =
                ok_injective Place.at_leased place (ground (arith, h, open_node, taken)) in
              subst (λ q. is_stuck (place_node q n f) ≡ false) leased (ground arith)
          | inr vacant ↦
              let last : epistemic_place world order coverage n ≡ ok place =
                ground (arith, h, open_node, vacant, free) in
              let (needed, _, h1) = >>=-eq-ok (requirements world order n) _ last in
              let (blocked, _, h2) = >>=-eq-ok (is_blocked world coverage n.node_id needed) _ h1 in
              subst (λ q. is_stuck (place_node q n f) ≡ false)
                (ok_injective (if blocked then Place.at_epistemic_blocked else Place.at_ready) place
                  h2)
                (chosen-moves n f blocked)
        ]

    place-moves :
        (n : WorkNode) (place : Place) (f : ReadyFrontier)
        → is_stuck f ≡ false
        → is_stuck (place_node place n f) ≡ false
    place-moves n Place.at_done f h = h
    place-moves n Place.at_leased f h = ground (arith, h)
    place-moves n Place.at_dependency_blocked f h = h
    place-moves n Place.at_epistemic_blocked f h = ground (arith, h)
    place-moves n Place.at_ready f h = refl

    derive_nodes-moves :
        (ns : List WorkNode) (f : ReadyFrontier) (x : String)
        → derive_nodes world g b order coverage ns ≡ ok f
        → In x (map (λ n. n.node_id) ns)
        → is_completed b g.graph_id x ≡ false
        → waits_for g b x ≡ false
        → is_stuck f ≡ false
    derive_nodes-moves [] f x h inside open_node free = absurd (ground (arith, inside))
    derive_nodes-moves (n ∷ ns) f x h inside open_node free =
        let (place, put, h1) = >>=-eq-ok (classify world g b order coverage n) _ h in
        let (rest, others, h2) = >>=-eq-ok (derive_nodes world g b order coverage ns) _ h1 in
        subst (λ e. is_stuck e ≡ false) (ok_injective (place_node place n rest) f h2)
          (elim (Bool-cases (x == n.node_id)) [
            | inl same ↦
                let equal = (string_eq.beq_iff x n.node_id).0 same in
                classify-moves n place rest
                  (subst (λ i. is_completed b g.graph_id i ≡ false) equal open_node)
                  (subst (λ i. waits_for g b i ≡ false) equal free) put
            | inr other ↦
                place-moves n place rest (
                  derive_nodes-moves ns rest x others (ground (arith, inside, other)) open_node
                    free)
          ])

  -- Below an open node there is one that waits for none.
  first_open :
      (g : WorkGraph) (b : LeaseBook) (ids : List String)
      → (acyclic : IsAcyclic g.dependencies ids)
      → ((x p : String) → In p (predecessors_of g.dependencies x) → In p ids)
      → (bound : ℕ) (x : String) → acyclic.0 x < bound
      → In x ids
      → is_completed b g.graph_id x ≡ false
      → (y : String) × In y ids × (is_completed b g.graph_id y ≡ false) × (waits_for g b y ≡ false)
  unfolding predecessors
  first_open g b ids acyclic known zero x less inside open_node = absurd (omega (arith, less))
  first_open g b ids acyclic known (suc bound) x less inside open_node =
      elim (Bool-cases (waits_for g b x)) [
        | inr free ↦ (x, inside, open_node, free)
        | inl waits ↦
            let (p, before, missing) =
              any-In (λ q. not (is_completed b g.graph_id q)) (predecessors_of g.dependencies x)
                waits in
            first_open g b ids acyclic known bound p
              (omega (arith, less, acyclic.1 x p inside before)) (known x p before)
              (ground (arith, missing))
      ]

  -- While the graph that `validate` returned for a plan is the active one of its order and one of
  -- its nodes is not completed, a frontier that is derived has a node that is ready, under lease, or
  -- waits only for awareness.
  pub derive-moves :
      (validator_id : String) (p : PlanProposal) (order : WorkOrder) (causal acceptance current : ℤ)
      (capabilities : List String) (events : List Event) (accepted_at : DateTime) (g : WorkGraph)
      (s : WorkProjection) (coverage : Option (String → Option CoverageEntry)) (f : ReadyFrontier)
      (x : String)
      → validate world validator_id p order causal acceptance current capabilities events
          accepted_at
        ≡ ok g
      → graph_is_active s.facts g.graph_id ≡ true
      → derive world g s coverage ≡ ok f
      → In x (map (λ n. n.node_id) g.nodes)
      → is_completed s.book g.graph_id x ≡ false
      → is_stuck f ≡ false
  unfolding derive
  derive-moves validator_id p order causal acceptance current capabilities events accepted_at g s
        coverage f x accepted live derived inside open_node =
      let acyclic =
        validate-IsAcyclic world validator_id p order causal acceptance current capabilities events
          accepted_at g accepted in
      let known =
        validate-known world validator_id p order causal acceptance current capabilities events
          accepted_at g accepted in
      let (y, member, unfinished, free) =
        first_open g s.book (map (λ n. n.node_id) g.nodes) acyclic known (suc (acyclic.0 x)) x
          (omega arith) inside open_node in
      elim (Option-cases (lookup g.work_order_id s.facts.orders)) [
        | inl missing ↦ absurd (ground (arith, derived, live, missing))
        | inr (current_order, found) ↦
            derive_nodes-moves g s.book current_order coverage g.nodes f y
              (ground (arith, derived, live, found)) member unfinished free
      ]
