-- ===== src/Work/Projection/Apply.antt =====
-- src/noema/work/coordination.py, `WorkProjection.apply` and `WorkProjection.rebuild`.
use Prim.Native.String.{◌++◌}
use noema_agent_sdk.Common.{
  String, Bool, true, false, not, Option, none, some, List, [], ◌∷◌, ◌&&◌, if◌then◌else◌, ◌==◌,
  string_eq, nat_eq, Result, ok, ◌>>=◌, ◌>>◌, raise_if, or_raise, value_error,
}
use noema_agent_sdk.Common.Int.{ℤ, ltb_ℤ, leb_ℤ, int_eq}
use noema_agent_sdk.Event.{JsonValue, Event}
use noema_agent_sdk.Work.Values.{Platform, same_time}
use noema_agent_sdk.Common.Dict.{lookup, insert}
use noema_agent_sdk.Common.{pair_eq, or_raise}
use noema_agent_sdk.Event.{sequence_or_zero}
use noema_agent_sdk.Work.Leases.{WorkLease, grant_id}
use noema_agent_sdk.Work.Leases
use noema_agent_sdk.Work.Projection.{
  Outcome, PlanningFacts, LeaseBook, WorkProjection, new_projection,
}
use noema_agent_sdk.Work.Projection.Access.{Governance}
use noema_agent_sdk.Work.Projection.Grants.{validate_lease_grant}
use noema_agent_sdk.Work.Projection.Ends.{
  is_cause, apply_lease_expiration, apply_completion, apply_invalidation,
}
use noema_agent_sdk.Work.Projection.Facts.{
  record_order, record_proposal, record_graph, record_presence, record_manifest, record_estimate,
}

-- the types of events that the projection tells apart
pub data WorkEvent : Type 0 where
  order_recorded plan_proposed graph_accepted presence_recorded manifest_recorded estimate_recorded
        lease_granted lease_expired node_completed plan_invalidated other :
      WorkEvent

abbrev pub work_event : String → WorkEvent
work_event t =
    if t == "work.order_recorded"
    then WorkEvent.order_recorded
    else if t == "work.plan_proposed"
    then WorkEvent.plan_proposed
    else if t == "work.graph_accepted"
    then WorkEvent.graph_accepted
    else if t == "work.agent_presence_recorded"
    then WorkEvent.presence_recorded
    else if t == "work.capability_manifest_recorded"
    then WorkEvent.manifest_recorded
    else if t == "work.competence_estimate_recorded"
    then WorkEvent.estimate_recorded
    else if t == "work.lease_granted"
    then WorkEvent.lease_granted
    else if t == "work.lease_expired"
    then WorkEvent.lease_expired
    else if t == "work.node_completed"
    then WorkEvent.node_completed
    else if t == "work.plan_invalidated"
    then WorkEvent.plan_invalidated
    else WorkEvent.other

abbrev is_handled : WorkEvent → Bool
is_handled WorkEvent.other = false
is_handled _ = true

-- `==` of two optional values
abbrev opt_eqb {ℓ} : {A : Type ℓ} → (A → A → Bool) → Option A → Option A → Bool
opt_eqb eqb none none = true
opt_eqb eqb none (some _) = false
opt_eqb eqb (some _) none = false
opt_eqb eqb (some a) (some b) = eqb a b

abbrev pub is_beyond : Option ℤ → Event → Bool
is_beyond none e = false
is_beyond (some last) e = ltb_ℤ last (sequence_or_zero e)

module _ (world : Platform) (governance : Governance) where
  -- the equality that the dataclass `Event` generates
  unfoldable pub event_eqb : Event → Event → Bool
  event_eqb e f =
      e.type == f.type
      && e.source == f.source
      && world.json_eqb (JsonValue.dict e.payload) (JsonValue.dict f.payload)
      && opt_eqb (λ a b. a == b) e.subject f.subject
      && e.id == f.id
      && same_time e.timestamp f.timestamp
      && opt_eqb (λ a b. a == b) e.correlation_id f.correlation_id
      && opt_eqb (λ a b. a == b) e.causation_id f.causation_id
      && e.priority == f.priority
      && opt_eqb (λ a b. a == b) e.sequence f.sequence
      && world.json_eqb (JsonValue.dict e.metadata) (JsonValue.dict f.metadata)
      && e.schema_version == f.schema_version

  unfoldable pub grant_lease : WorkProjection → Event → Result LeaseBook
  grant_lease s e = do
    l ← Leases.from_event world e
    raise_if (not (is_cause e ("work-graph-accepted:" ++ l.graph_id)))
        (value_error "work lease causation is inconsistent")
    validate_lease_grant world governance s l
    ok (record (s.book) {
      leases = insert l.lease_id l s.book.leases;
      lease_outcomes = insert l.lease_id Outcome.active s.book.lease_outcomes;
      highest_fencing_token =
          insert (l.graph_id, l.node_id) l.fencing_token s.book.highest_fencing_token;
    })

  -- the planning facts after an event
  unfoldable pub next_facts : WorkEvent → WorkProjection → Event → ℤ → Result PlanningFacts
  next_facts WorkEvent.order_recorded s e n = record_order world s.facts e
  next_facts WorkEvent.plan_proposed s e n = record_proposal world s.facts e
  next_facts WorkEvent.graph_accepted s e n = record_graph world s e n
  next_facts WorkEvent.presence_recorded s e n = record_presence world s.facts e
  next_facts WorkEvent.manifest_recorded s e n = record_manifest world s.facts e
  next_facts WorkEvent.estimate_recorded s e n = record_estimate world s.facts e
  next_facts WorkEvent.plan_invalidated s e n = apply_invalidation world s.events s.facts e
  next_facts _ s e n = ok s.facts

  -- the leases after an event
  unfoldable pub next_book : WorkEvent → WorkProjection → Event → Result LeaseBook
  next_book WorkEvent.lease_granted s e = grant_lease s e
  next_book WorkEvent.lease_expired s e = apply_lease_expiration world s.book e
  next_book WorkEvent.node_completed s e = apply_completion world s.facts s.book e
  next_book _ s e = ok s.book

  -- `apply` of an event whose identity is new
  unfoldable pub apply_new : WorkProjection → Event → Result (WorkProjection × Bool)
  apply_new s e = do
    sequence ←
        or_raise e.sequence (value_error "work projection requires canonical sequenced events")
    raise_if (leb_ℤ sequence s.last_sequence)
        (value_error "work projection events must be applied in canonical sequence order")
    facts ← next_facts (work_event e.type) s e sequence
    book ← next_book (work_event e.type) s e
    ok (
      record {
        events = insert e.id e s.events;
        last_sequence = sequence;
        facts = facts;
        book = book;
      },
      is_handled (work_event e.type),
    )

  -- The state after an event, and whether it was handled.
  unfoldable pub apply : WorkProjection → Event → Result (WorkProjection × Bool)
  apply s e = elim (lookup e.id s.events) [
    | some existing ↦ do
      raise_if (not (event_eqb existing e))
          (value_error "conflicting canonical work event identity")
      ok (s, false)
    | none ↦ apply_new s e
  ]

  abbrev pub replay : Option ℤ → WorkProjection → List Event → Result WorkProjection
  replay last s [] = ok s
  replay last s (e ∷ es) = elim (is_beyond last e) [
    | true ↦ replay last s es
    | false ↦ do applied ← apply s e; replay last (applied.0) es
  ]

  unfoldable pub rebuild : Option ℤ → List Event → Result WorkProjection
  rebuild last events = replay last new_projection events
