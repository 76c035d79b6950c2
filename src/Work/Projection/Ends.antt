-- ===== src/Work/Projection/Ends.antt =====
-- src/noema/work/coordination.py, the events that end a lease or a plan:
-- `_apply_lease_expiration`, `_apply_completion` and `_apply_invalidation`.
use Prim.Native.String.{◌++◌}
use noema_agent_sdk.Common.{
  String, Bool, true, false, not, Option, none, some, [], ◌∷◌, ◌&&◌, ◌||◌, if◌then◌else◌, ◌==◌,
  string_eq, nat_eq, any, contains, Result, ok, ◌>>=◌, ◌>>◌, raise_if, or_raise, value_error,
}
use noema_agent_sdk.Common.Int.{leb_ℤ, int_eq}
use noema_agent_sdk.Common.Sort.{is_unique}
use noema_agent_sdk.Event.{JsonValue, JsonObject, Event}
use noema_agent_sdk.Work.Values.{Platform, is_verify, is_nil, is_before, same_time, object}
use noema_agent_sdk.Work.Decode.{str_at, int_at, optional_datetime, strings_at, is_subject}
use noema_agent_sdk.Common.Dict.{Dict, lookup, insert}
use noema_agent_sdk.Common.{pair_eq, or_raise}
use noema_agent_sdk.Event.{get_field}
use noema_agent_sdk.Event.Codec.{is_truthy, py_str}
use noema_agent_sdk.Work.Graphs.{WorkGraph, node}
use noema_agent_sdk.Work.Leases.{WorkLease, grant_id}
use noema_agent_sdk.Work.Leases
use noema_agent_sdk.Work.Projection.{
  NodeCompletion, Outcome, PlanningFacts, LeaseBook, is_active, graph_is_active,
}
use noema_agent_sdk.Common.Text.{is_blank}
use noema_agent_sdk.Common.{type_error}

-- `data.get(key)`, as a value
abbrev get_or_null : String → JsonObject → JsonValue
get_or_null k d = elim (get_field k d) [ none ↦ JsonValue.null | some v ↦ v ]

abbrev pub is_cause : Event → String → Bool
is_cause e cause = elim e.causation_id [ none ↦ false | some c ↦ c == cause ]

abbrev optional_truth : Option JsonValue → Option Bool
optional_truth none = none
optional_truth (some JsonValue.null) = none
optional_truth (some v) = some (is_truthy v)

-- An optional result that is true, and one that is there.
abbrev is_passed : Option Bool → Bool
is_passed none = false
is_passed (some b) = b

abbrev is_reported : Option Bool → Bool
is_reported none = false
is_reported (some _) = true

module _ (world : Platform) where
  -- The payload has every field of the first mapping, with an equal value.
  abbrev agrees : JsonObject → JsonObject → Bool
  agrees JsonObject.end payload = true
  agrees (JsonObject.field k v d) payload =
      let rest = agrees d payload in
      if world.json_eqb (get_or_null k payload) v then rest else false

  -- the active lease of an event that ends one
  abbrev pub ended_lease : LeaseBook → Event → String → Result (String × WorkLease)
  ended_lease b e message = do
    lease_id ← str_at world "lease_id" e.payload
    l ← or_raise (lookup lease_id b.leases) (value_error message)
    raise_if (not (is_active b lease_id)) (value_error message)
    ok (lease_id, l)

  abbrev reason_or_empty : JsonObject → String
  reason_or_empty d = elim (get_field "reason" d) [ none ↦ "" | some v ↦ py_str world.py v ]

  unfoldable pub check_expiration : WorkLease → Event → Result (Unit {0})
  check_expiration l e = do
    raise_if (not (agrees (Leases.to_dict world l) e.payload))
        (value_error "lease expiration payload differs from the granted lease")
    time ← optional_datetime world "expired_at" e.payload
    expired_at ← or_raise time (value_error "lease expiration time is inconsistent")
    raise_if (not (same_time e.timestamp expired_at) || is_before expired_at l.expires_at)
        (value_error "lease expiration time is inconsistent")
    raise_if (not (e.id == "work-lease-terminal:" ++ l.lease_id))
        (value_error "lease expiration event id is inconsistent")
    raise_if (not (is_subject e l.node_id))
        (value_error "lease expiration event subject is inconsistent")
    raise_if (not (is_cause e (grant_id world l)))
        (value_error "lease expiration event causation is inconsistent")
    raise_if (is_blank (reason_or_empty e.payload))
        (value_error "lease expiration requires a reason")

  unfoldable pub apply_lease_expiration : LeaseBook → Event → Result LeaseBook
  apply_lease_expiration b e = do
    ended ← ended_lease b e "lease expiration references a non-active lease"
    check_expiration ended.1 e
    ok (record b { lease_outcomes = insert ended.0 Outcome.expired b.lease_outcomes })

  -- the fields that a completion repeats
  abbrev fence : WorkLease → JsonObject
  fence l = object (
      ("graph_id", JsonValue.str l.graph_id)
      ∷ ("node_id", JsonValue.str l.node_id)
      ∷ ("agent_id", JsonValue.str l.agent_id)
      ∷ ("fencing_token", JsonValue.int l.fencing_token)
      ∷ [])

  -- The completion that an event reports of a lease, of a graph that is known.
  unfoldable pub read_completion : WorkGraph → WorkLease → Event → Result NodeCompletion
  read_completion g l e = do
    raise_if (not (e.id == "work-lease-terminal:" ++ l.lease_id))
        (value_error "work completion event id is inconsistent")
    raise_if (not (is_subject e l.node_id))
        (value_error "work completion event subject is inconsistent")
    raise_if (not (is_cause e (grant_id world l)))
        (value_error "work completion event causation is inconsistent")
    raise_if (not (agrees (fence l) e.payload))
        (value_error "work completion does not match its fenced lease")
    time ← optional_datetime world "accepted_at" e.payload
    accepted_at ←
        or_raise time (value_error "work completion acceptance time is outside the active lease")
    raise_if
        (not (same_time e.timestamp accepted_at)
          || is_before accepted_at l.granted_at
          || not (is_before accepted_at l.expires_at))
        (value_error "work completion acceptance time is outside the active lease")
    reported ← optional_datetime world "reported_finished_at" e.payload
    artifacts ← strings_at world "artifact_refs" e.payload
    raise_if (is_nil artifacts || any is_blank artifacts || not (is_unique artifacts))
        (value_error "work completion requires unique non-empty artifact refs")
    n ← node g l.node_id
    (let passed = optional_truth (get_field "verification_passed" e.payload) in
        do
          raise_if (is_verify n.kind && not (is_passed passed))
              (value_error "verification work completes only with an explicit passing result")
          raise_if (not (is_verify n.kind) && is_reported passed)
              (value_error "non-verification work cannot claim a verification result")
          ok (record {
            graph_id = l.graph_id;
            node_id = l.node_id;
            agent_id = l.agent_id;
            lease_id = l.lease_id;
            fencing_token = l.fencing_token;
            accepted_at = accepted_at;
            reported_finished_at = reported;
            artifact_refs = artifacts;
            verification_passed = passed;
          }))

  -- what remains of `_apply_completion` when its lease is found
  abbrev pub complete_lease :
      PlanningFacts → LeaseBook → String → WorkLease → Event → Result LeaseBook
  complete_lease f b lease_id l e = do
    raise_if (not (graph_is_active f l.graph_id))
        (value_error "work completion cannot advance an invalidated graph")
    g ← or_raise (lookup l.graph_id f.graphs) (type_error "no graph")
    c ← read_completion g l e
    ok (record b {
      completions = insert (l.graph_id, l.node_id) c b.completions;
      lease_outcomes = insert lease_id Outcome.completed b.lease_outcomes;
    })

  unfoldable pub apply_completion : PlanningFacts → LeaseBook → Event → Result LeaseBook
  apply_completion f b e = do
    ended ← ended_lease b e "work completion requires an active lease"
    complete_lease f b ended.0 ended.1 e

  unfoldable pub apply_invalidation :
      Dict String Event → PlanningFacts → Event → Result PlanningFacts
  apply_invalidation events f e = do
    graph_id ← str_at world "graph_id" e.payload
    g ←
        or_raise (lookup graph_id f.graphs)
          (value_error "plan invalidation requires an active graph")
    raise_if (not (graph_is_active f graph_id))
        (value_error "plan invalidation requires an active graph")
    trigger_id ← str_at world "trigger_event_id" e.payload
    trigger ←
        or_raise (lookup trigger_id events)
          (value_error "plan invalidation references an unknown canonical trigger")
    sequence ←
        or_raise trigger.sequence
          (value_error "plan invalidation references an unknown canonical trigger")
    trigger_sequence ← int_at world "trigger_event_sequence" e.payload
    raise_if (not (sequence == trigger_sequence))
        (value_error "plan invalidation trigger identity is inconsistent")
    type ← str_at world "trigger_event_type" e.payload
    raise_if (not (trigger.type == type))
        (value_error "plan invalidation trigger identity is inconsistent")
    raise_if (leb_ℤ trigger_sequence g.based_on_event_cursor)
        (value_error "plan invalidation trigger does not follow the plan causal cut")
    raise_if (not (contains trigger.type g.replan_event_types))
        (value_error "plan invalidation trigger is not a replan condition")
    time ← optional_datetime world "invalidated_at" e.payload
    invalidated_at ← or_raise time (value_error "plan invalidation time is inconsistent")
    raise_if
        (not (same_time e.timestamp invalidated_at) || is_before invalidated_at trigger.timestamp)
        (value_error "plan invalidation time is inconsistent")
    reason ← str_at world "reason" e.payload
    raise_if (is_blank reason) (value_error "plan invalidation requires a reason")
    raise_if
        (not (e.id == "work-plan-invalidated:" ++ g.graph_id ++ ":" ++ trigger.id)
          || not (is_cause e trigger.id))
        (value_error "plan invalidation event identity is inconsistent")
    ok (record f {
      invalidations =
          insert graph_id
            (record {
              graph_id = graph_id;
              trigger_event_id = trigger.id;
              trigger_event_sequence = trigger_sequence;
              invalidated_at = invalidated_at;
              reason = reason;
            })
            f.invalidations;
    })
