-- ===== src/Work/Projection/Lawful.antt =====
-- src/noema/work/coordination.py, `WorkProjection.apply`: what an event may change.
use noema_agent_sdk.Common.{
  String, Bool, false, none, some, ◌==◌, string_eq, pair_eq, ok, ok_injective, ◌≡◌, ◌⊎◌, inl, inr,
  sym, ◌∙◌, ap, subst, arith, Bool-cases, Option-cases,
}
use noema_agent_sdk.Common.Int.{int_eq, ◌<ℤ◌}
use noema_agent_sdk.Common.Dict.{lookup, has_key, lookup-insert, lookup-insert_self}
use noema_agent_sdk.Event.{Event}
use noema_agent_sdk.Work.Values.{Platform}
use noema_agent_sdk.Work.Leases.{WorkLease}
use noema_agent_sdk.Work.Projection.{NodeCompletion, LeaseBook, WorkProjection, is_completed}
use noema_agent_sdk.Work.Projection.Access.{Governance}
use noema_agent_sdk.Work.Projection.Apply.{work_event, event_eqb, apply}
use noema_agent_sdk.Work.Projection.Consistent.{IsConsistent, node_key}
use noema_agent_sdk.Work.Projection.Replay.{apply_new-IsStep}
use noema_agent_sdk.Work.Projection.Steps.{BookStep, next_book-BookStep}

not_completed :
    (b : LeaseBook) (l : WorkLease) (c : NodeCompletion)
    → is_completed b l.graph_id l.node_id ≡ false
    → lookup (node_key l.graph_id l.node_id) b.completions ≡ some c
    → ⊥
unfolding is_completed has_key
not_completed b l c h g = ground (arith, h, g)

-- A completion is kept by every step: a completed node has no active lease to complete it again.
BookStep-completions :
    (b b1 : LeaseBook) (graph_id node_id : String) (c : NodeCompletion)
    → BookStep b b1
    → IsConsistent b
    → lookup (node_key graph_id node_id) b.completions ≡ some c
    → lookup (node_key graph_id node_id) b1.completions ≡ some c
BookStep-completions b _ graph_id node_id c BookStep.kept sound before = before
BookStep-completions b _ graph_id node_id c (BookStep.granted l grantable) sound before = before
BookStep-completions b _ graph_id node_id c (BookStep.expired lease_id) sound before = before
BookStep-completions b _ graph_id node_id c (BookStep.completed lease_id l d found live) sound
      before =
    let key = node_key l.graph_id l.node_id in
    elim (Bool-cases (key == node_key graph_id node_id)) [
      | inl same ↦ absurd (
          not_completed b l c (sound.finished lease_id l found live) (
            subst (λ k. lookup k b.completions ≡ some c)
              (sym ((pair_eq.beq_iff key (node_key graph_id node_id)).0 same)) before))
      | inr other ↦
          ground
            (arith, before, other, lookup-insert key (node_key graph_id node_id) d b.completions)
    ]

module _ (world : Platform) (governance : Governance) where
  -- Applying an event whose identity is known changes nothing and is not handled. Any other event
  -- that is applied has a sequence after the last one, which it becomes, and is stored.
  pub apply-cases :
      (s : WorkProjection) (e : Event) (end : WorkProjection × Bool)
      → apply world governance s e ≡ ok end
      → (((known : Event) × (lookup e.id s.events ≡ some known)) × (end.0 ≡ s) × (end.1 ≡ false))
        ⊎ ((lookup e.id s.events ≡ none)
            × (e.sequence ≡ some end.0.last_sequence)
            × (s.last_sequence <ℤ end.0.last_sequence)
            × (lookup e.id end.0.events ≡ some e))
  unfolding apply
  apply-cases s e end h = elim (Option-cases (lookup e.id s.events)) [
    | inr (existing, known) ↦ elim (Bool-cases (event_eqb world governance existing e)) [
      | inl same ↦
          let start : WorkProjection × Bool = (s, false) in
          let kept : start ≡ end = ok_injective start end (ground (arith, h, known, same)) in
          inl ((existing, known), sym (ap (λ p. p.0) kept), sym (ap (λ p. p.1) kept))
      | inr conflict ↦ absurd (ground (arith, h, known, conflict))
    ]
    | inl new ↦
        let step = apply_new-IsStep world governance s e end (ground (arith, h, new)) in
        inr (
          new,
          step.numbered ∙ ap some (sym step.at_sequence),
          subst (λ n. s.last_sequence <ℤ n) (sym step.at_sequence) step.later,
          subst (λ d. lookup e.id d ≡ some e) (sym step.stored)
              (lookup-insert_self e.id e s.events),
        )
  ]

  -- In a consistent projection, a node that is completed stays so, by the same completion,
  -- whatever event is applied.
  pub apply-completion :
      (s : WorkProjection) (e : Event) (end : WorkProjection × Bool) (graph_id node_id : String)
      (c : NodeCompletion)
      → IsConsistent s.book
      → apply world governance s e ≡ ok end
      → lookup (node_key graph_id node_id) s.book.completions ≡ some c
      → lookup (node_key graph_id node_id) end.0.book.completions ≡ some c
  unfolding apply
  apply-completion s e end graph_id node_id c sound h before =
      elim (Option-cases (lookup e.id s.events)) [
        | inr (existing, known) ↦ elim (apply-cases s e end h) [
          | inl (_, same, _) ↦
              subst (λ x. lookup (node_key graph_id node_id) x.book.completions ≡ some c) (sym same)
                before
          | inr (new, _, _, _) ↦ absurd (ground (arith, new, known))
        ]
        | inl new ↦
            let step = apply_new-IsStep world governance s e end (ground (arith, h, new)) in
            BookStep-completions s.book end.0.book graph_id node_id c
              (next_book-BookStep world governance (work_event e.type) s e end.0.book
                step.book_follows)
              sound before
      ]
