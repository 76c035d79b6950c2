-- ===== src/Work/Projection/Steps.antt =====
-- src/noema/work/coordination.py, `WorkProjection.apply`: what the handlers do to the leases, as a
-- step relation.
use noema_agent_sdk.Common.{
  String, true, false, not, none, some, string_eq, pair_eq, Result, ok, >>=-eq-ok, Result-cases,
  ok_injective, or_raise, raise_if, ◌≡◌, inl, inr, subst, arith, Bool-cases, Option-cases,
}
use noema_agent_sdk.Common.Int.{int_eq}
use noema_agent_sdk.Common.Dict.{lookup}
use noema_agent_sdk.Event.{Event}
use noema_agent_sdk.Work.Values.{Platform}
use noema_agent_sdk.Work.Decode.{str_at}
use noema_agent_sdk.Work.Graphs.{node}
use noema_agent_sdk.Work.Leases.{WorkLease}
use noema_agent_sdk.Work.Leases
use noema_agent_sdk.Work.Projection.{
  NodeCompletion, Outcome, PlanningFacts, LeaseBook, WorkProjection, is_active,
  active_lease_for_node, is_completed, next_fencing_token, graph_is_active,
}
use noema_agent_sdk.Work.Projection.Access.{Governance}
use noema_agent_sdk.Work.Projection.Grants.{validate_lease_grant}
use noema_agent_sdk.Work.Projection.Ends.{
  apply_lease_expiration, apply_completion, ended_lease, check_expiration, read_completion,
}
use noema_agent_sdk.Work.Projection.Apply.{WorkEvent, grant_lease, next_book}
use noema_agent_sdk.Work.Projection.Outcomes.{with_outcome, with_completion}
use noema_agent_sdk.Work.Projection.Consistent.{with_grant}

-- What the checks of a grant have made sure of.
pub record IsGrantable (b : LeaseBook) (l : WorkLease) : Type 0 where
  pub unfinished : is_completed b l.graph_id l.node_id ≡ false
  pub vacant : active_lease_for_node b l.graph_id l.node_id ≡ none
  pub next : l.fencing_token ≡ next_fencing_token b l.graph_id l.node_id

-- What an event does to the leases.
pub data BookStep (b : LeaseBook) : LeaseBook → Type 0 where
  kept : BookStep b b
  granted : (l : WorkLease) → IsGrantable b l → BookStep b (with_grant b l)
  expired : (lease_id : String) → BookStep b (with_outcome b lease_id Outcome.expired)
  completed :
      (lease_id : String) (l : WorkLease) (c : NodeCompletion)
      → lookup lease_id b.leases ≡ some l
      → is_active b lease_id ≡ true
      → BookStep b (with_completion b lease_id l c)

module _ (world : Platform) (governance : Governance) where
  pub grant-IsGrantable :
      (s : WorkProjection) (l : WorkLease)
      → validate_lease_grant world governance s l ≡ ok tt
      → IsGrantable s.book l
  unfolding validate_lease_grant
  grant-IsGrantable s l h = elim (Option-cases (lookup l.graph_id s.facts.graphs)) [
    | inl missing ↦ absurd (ground (arith, h, missing))
    | inr (g, known) ↦ elim (Result-cases (node g l.node_id)) [
      | inr (x, failed) ↦ absurd (ground (arith, h, known, failed))
      | inl (n, there) ↦ record {
        unfinished = ground (arith, h, known, there);
        vacant = elim (Option-cases (active_lease_for_node s.book l.graph_id l.node_id)) [
          | inl nothing ↦ nothing
          | inr (m, taken) ↦ absurd (ground (arith, h, known, there, taken))
        ];
        next = ground (
          arith,
          h,
          known,
          there,
          int_eq.beq_iff l.fencing_token (next_fencing_token s.book l.graph_id l.node_id),
        );
      }
    ]
  ]

  -- The lease of an event that ends one is known and active.
  pub ended-live :
      (b : LeaseBook) (e : Event) (message lease_id : String) (l : WorkLease)
      → ended_lease world b e message ≡ ok (lease_id, l)
      → (lookup lease_id b.leases ≡ some l) × (is_active b lease_id ≡ true)
  ended-live b e message lease_id l h =
      let (i, named, h1) = >>=-eq-ok (str_at world "lease_id" e.payload) _ h in
      elim (Option-cases (lookup i b.leases)) [
        | inl missing ↦ absurd (ground (arith, h1, missing))
        | inr (m, found) ↦ elim (Bool-cases (is_active b i)) [
          | inr ended ↦ absurd (ground (arith, h1, found, ended))
          | inl live ↦
              let first : String × WorkLease = (i, m) in
              let last : String × WorkLease = (lease_id, l) in
              let made : first ≡ last = ok_injective first last (ground (arith, h1, found, live)) in
              (
                subst (λ p. lookup p.0 b.leases ≡ some p.1) made found,
                subst (λ p. is_active b p.0 ≡ true) made live,
              )
        ]
      ]

  grant_lease-BookStep :
      (s : WorkProjection) (e : Event) (b : LeaseBook)
      → grant_lease world governance s e ≡ ok b
      → BookStep s.book b
  unfolding grant_lease
  grant_lease-BookStep s e b h =
      let (l, read, h1) = >>=-eq-ok (Leases.from_event world e) _ h in
      let checked : validate_lease_grant world governance s l ≡ ok tt = ground (arith, h1) in
      subst (BookStep s.book) (ok_injective (with_grant s.book l) b (ground (arith, h1, checked)))
        (BookStep.granted l (grant-IsGrantable s l checked))

  expiration-BookStep :
      (b b1 : LeaseBook) (e : Event) → apply_lease_expiration world b e ≡ ok b1 → BookStep b b1
  unfolding apply_lease_expiration
  expiration-BookStep b b1 e h =
      let (ended, found, h1) = >>=-eq-ok (ended_lease world b e _) _ h in
      let (_, checked, h2) = >>=-eq-ok (check_expiration world ended.1 e) _ h1 in
      subst (BookStep b) (ok_injective (with_outcome b ended.0 Outcome.expired) b1 h2)
        (BookStep.expired ended.0)

  completion-BookStep :
      (f : PlanningFacts) (b b1 : LeaseBook) (e : Event)
      → apply_completion world f b e ≡ ok b1
      → BookStep b b1
  unfolding apply_completion
  completion-BookStep f b b1 e h =
      let (ended, found, h1) = >>=-eq-ok (ended_lease world b e _) _ h in
      let (_, known, h2) = >>=-eq-ok (raise_if (not (graph_is_active f ended.1.graph_id)) _) _ h1 in
      let (g, there, h3) = >>=-eq-ok (or_raise (lookup ended.1.graph_id f.graphs) _) _ h2 in
      let (c, completion, h4) = >>=-eq-ok (read_completion world g ended.1 e) _ h3 in
      let (found_l, live) = ended-live b e _ ended.0 ended.1 found in
      subst (BookStep b) (ok_injective (with_completion b ended.0 ended.1 c) b1 h4)
        (BookStep.completed ended.0 ended.1 c found_l live)

  kept-BookStep : (b b1 : LeaseBook) → Result.ok b ≡ ok b1 → BookStep b b1
  kept-BookStep b b1 h = subst (BookStep b) (ok_injective b b1 h) BookStep.kept

  pub next_book-BookStep :
      (w : WorkEvent) (s : WorkProjection) (e : Event) (b : LeaseBook)
      → next_book world governance w s e ≡ ok b
      → BookStep s.book b
  unfolding next_book
  next_book-BookStep WorkEvent.lease_granted s e b h = grant_lease-BookStep s e b h
  next_book-BookStep WorkEvent.lease_expired s e b h = expiration-BookStep s.book b e h
  next_book-BookStep WorkEvent.node_completed s e b h = completion-BookStep s.facts s.book b e h
  next_book-BookStep WorkEvent.order_recorded s e b h = kept-BookStep s.book b h
  next_book-BookStep WorkEvent.plan_proposed s e b h = kept-BookStep s.book b h
  next_book-BookStep WorkEvent.graph_accepted s e b h = kept-BookStep s.book b h
  next_book-BookStep WorkEvent.presence_recorded s e b h = kept-BookStep s.book b h
  next_book-BookStep WorkEvent.manifest_recorded s e b h = kept-BookStep s.book b h
  next_book-BookStep WorkEvent.estimate_recorded s e b h = kept-BookStep s.book b h
  next_book-BookStep WorkEvent.plan_invalidated s e b h = kept-BookStep s.book b h
  next_book-BookStep WorkEvent.other s e b h = kept-BookStep s.book b h
