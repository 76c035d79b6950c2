-- ===== src/Work/Projection/Replay.antt =====
-- src/noema/work/coordination.py, `WorkProjection.apply` and `rebuild`: what every event leaves
-- true of the leases.
use noema_agent_sdk.Common.{
  Bool, false, Option, some, List, [], ◌∷◌, string_eq, pair_eq, ok, >>=-eq-ok, ok_injective,
  or_raise-eq-ok, raise_if-eq-ok, or_raise, raise_if, ◌≡◌, inl, inr, refl, sym, ◌∙◌, ap, subst,
  arith, Bool-cases, Option-cases,
}
use noema_agent_sdk.Common.Int.{int_eq, leb_ℤ, ℤ, ◌<ℤ◌}
use noema_agent_sdk.Common.Dict.{lookup, insert}
use noema_agent_sdk.Event.{Event}
use noema_agent_sdk.Work.Values.{Platform}
use noema_agent_sdk.Work.Projection.{Outcome, LeaseBook, WorkProjection, new_projection, is_active}
use noema_agent_sdk.Work.Projection.Access.{Governance}
use noema_agent_sdk.Work.Projection.Apply.{
  work_event, next_facts, next_book, event_eqb, apply_new, apply, is_beyond, replay, rebuild,
}
use noema_agent_sdk.Work.Projection.Outcomes.{
  IsConsistent-with_outcome, IsConsistent-with_completion,
}
use noema_agent_sdk.Work.Projection.Steps.{BookStep, next_book-BookStep}
use noema_agent_sdk.Work.Projection.Consistent.{IsConsistent, IsConsistent-with_grant}

BookStep-IsConsistent : (b b1 : LeaseBook) → BookStep b b1 → IsConsistent b → IsConsistent b1
BookStep-IsConsistent b _ BookStep.kept sound = sound
BookStep-IsConsistent b _ (BookStep.granted l grantable) sound =
    IsConsistent-with_grant b l sound grantable.next grantable.vacant grantable.unfinished
BookStep-IsConsistent b _ (BookStep.expired lease_id) sound =
    IsConsistent-with_outcome b lease_id Outcome.expired refl sound
BookStep-IsConsistent b _ (BookStep.completed lease_id l c found live) sound =
    IsConsistent-with_completion b lease_id l c found live sound

module _ (world : Platform) (governance : Governance) where
  -- What an event that is applied for the first time does to the projection.
  pub record IsStep (s : WorkProjection) (e : Event) (end : WorkProjection) : Type 0 where
    pub sequence : ℤ
    pub numbered : e.sequence ≡ some sequence
    pub later : s.last_sequence <ℤ sequence
    pub facts_follow : next_facts world governance (work_event e.type) s e sequence ≡ ok end.facts
    pub book_follows : next_book world governance (work_event e.type) s e ≡ ok end.book
    pub at_sequence : end.last_sequence ≡ sequence
    pub stored : end.events ≡ insert e.id e s.events

  pub apply_new-IsStep :
      (s : WorkProjection) (e : Event) (end : WorkProjection × Bool)
      → apply_new world governance s e ≡ ok end
      → IsStep s e end.0
  unfolding apply_new
  apply_new-IsStep s e end h =
      let (sequence, numbered, h1) = >>=-eq-ok (or_raise e.sequence _) _ h in
      let (_, ordered, h2) = >>=-eq-ok (raise_if (leb_ℤ sequence s.last_sequence) _) _ h1 in
      let (facts, recorded, h3) =
        >>=-eq-ok (next_facts world governance (work_event e.type) s e sequence) _ h2 in
      let (book, kept, h4) = >>=-eq-ok (next_book world governance (work_event e.type) s e) _ h3 in
      let made = ok_injective _ end h4 in
      record {
        sequence = sequence;
        numbered = or_raise-eq-ok e.sequence _ sequence numbered;
        later = ground (arith, raise_if-eq-ok (leb_ℤ sequence s.last_sequence) _ ordered);
        facts_follow = recorded ∙ ap (λ p. ok p.0.facts) made;
        book_follows = kept ∙ ap (λ p. ok p.0.book) made;
        at_sequence = sym (ap (λ p. p.0.last_sequence) made);
        stored = sym (ap (λ p. p.0.events) made);
      }

  pub apply-IsConsistent :
      (s : WorkProjection) (e : Event) (end : WorkProjection × Bool)
      → apply world governance s e ≡ ok end
      → IsConsistent s.book
      → IsConsistent end.0.book
  unfolding apply
  apply-IsConsistent s e end h sound = elim (Option-cases (lookup e.id s.events)) [
    | inl new ↦
        let step = apply_new-IsStep s e end (ground (arith, h, new)) in
        BookStep-IsConsistent s.book end.0.book
          (next_book-BookStep world governance (work_event e.type) s e end.0.book step.book_follows)
          sound
    | inr (existing, known) ↦ elim (Bool-cases (event_eqb world governance existing e)) [
      | inl same ↦
          let start : WorkProjection × Bool = (s, false) in
          let kept : start ≡ end = ok_injective start end (ground (arith, h, known, same)) in
          subst (λ p. IsConsistent p.0.book) kept sound
      | inr conflict ↦ absurd (ground (arith, h, known, conflict))
    ]
  ]

  pub replay-IsConsistent :
      (last : Option ℤ) (es : List Event) (s end : WorkProjection)
      → replay world governance last s es ≡ ok end
      → IsConsistent s.book
      → IsConsistent end.book
  replay-IsConsistent last [] s end h sound =
      subst (λ p. IsConsistent p.book) (ok_injective s end h) sound
  replay-IsConsistent last (e ∷ es) s end h sound = elim (Bool-cases (is_beyond last e)) [
    | inl skipped ↦ replay-IsConsistent last es s end (ground (arith, h, skipped)) sound
    | inr taken ↦
        let (applied, done, h1) =
          >>=-eq-ok (apply world governance s e) (λ a. replay world governance last a.0 es)
            (ground (arith, h, taken)) in
        replay-IsConsistent last es applied.0 end h1 (apply-IsConsistent s e applied done sound)
  ]

  -- After `rebuild` has applied any events, a lease is stored under its identity, two active leases of a node are the
  -- same, no lease has a greater token than the greatest that its node has been granted, and a
  -- completed node has no active lease.
  pub rebuild-IsConsistent :
      (last : Option ℤ) (events : List Event) (end : WorkProjection)
      → rebuild world governance last events ≡ ok end
      → IsConsistent end.book
  unfolding rebuild is_active lookup
  rebuild-IsConsistent last events end h =
      replay-IsConsistent last events new_projection end h (record {
        keyed = λ k l found. absurd (ground (arith, found));
        sole = λ k m l o found _ _ _ _ _. absurd (ground (arith, found));
        bounded = λ k l found. absurd (ground (arith, found));
        finished = λ k l found _. absurd (ground (arith, found));
      })
