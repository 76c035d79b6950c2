-- ===== src/Work/Terminations.antt =====
-- src/noema/work/models.py, the events that end a lease and a plan: `expiration_event` and
-- `completion_event` of `WorkLease`, and `plan_invalidation_event`.
use Prim.Native.String.{◌++◌}
use noema_agent_sdk.Common.{
  String, Bool, true, not, Option, none, some, List, [], ◌∷◌, ◌||◌, string_eq, nat_eq, contains,
  Result, ok, ◌>>=◌, ◌>>◌, raise_if, or_raise, value_error,
}
use noema_agent_sdk.Common.Int.{leb_ℤ, int_eq}
use noema_agent_sdk.Event.{DateTime, JsonValue, Event}
use noema_agent_sdk.Work.Values.{
  Platform, require_text, require_aware, unique_text, is_before, str_list, object, extend,
}
use noema_agent_sdk.Work.Decode.{optional_iso, iso, make_event}
use noema_agent_sdk.Work.Leases.{WorkLease, to_dict, grant_id}
use noema_agent_sdk.Work.Graphs.{WorkGraph}

module _ (world : Platform) where
  unfoldable pub expiration_event : WorkLease → String → DateTime → String → Result Event
  expiration_event l source expired_at reason = do
    require_aware expired_at "work lease expired_at"
    require_text reason "work lease expiration reason"
    raise_if (is_before expired_at l.expires_at)
        (value_error "a work lease cannot expire before its deadline")
    make_event ("work-lease-terminal:" ++ l.lease_id) "work.lease_expired" source l.node_id
        expired_at
        (extend (to_dict world l)
          (object (("expired_at", iso world expired_at) ∷ ("reason", JsonValue.str reason) ∷ [])))
        (some (grant_id world l))

  abbrev check_reported : Option DateTime → Result (Unit {0})
  check_reported none = ok tt
  check_reported (some t) = require_aware t "reported work finish time"

  abbrev opt_bool : Option Bool → JsonValue
  opt_bool none = JsonValue.null
  opt_bool (some b) = JsonValue.bool b

  unfoldable pub completion_event :
      WorkLease → String → DateTime → List String → Option DateTime → Option Bool → Result Event
  completion_event l source accepted_at artifact_refs reported_finished_at verification_passed = do
    require_aware accepted_at "work completion acceptance time"
    raise_if (is_before accepted_at l.granted_at || not (is_before accepted_at l.expires_at))
        (value_error "work completion must be accepted during its active lease")
    check_reported reported_finished_at
    unique_text artifact_refs "work completion artifact refs" true
    make_event ("work-lease-terminal:" ++ l.lease_id) "work.node_completed" source l.node_id
        accepted_at
        (object (
          ("lease_id", JsonValue.str l.lease_id)
          ∷ ("graph_id", JsonValue.str l.graph_id)
          ∷ ("node_id", JsonValue.str l.node_id)
          ∷ ("agent_id", JsonValue.str l.agent_id)
          ∷ ("fencing_token", JsonValue.int l.fencing_token)
          ∷ ("accepted_at", iso world accepted_at)
          ∷ ("reported_finished_at", optional_iso world reported_finished_at)
          ∷ ("artifact_refs", str_list artifact_refs)
          ∷ ("verification_passed", opt_bool verification_passed)
          ∷ []))
        (some (grant_id world l))

  unfoldable pub plan_invalidation_event :
      WorkGraph → Event → String → DateTime → String → Result Event
  plan_invalidation_event graph trigger source invalidated_at reason = do
    sequence ←
        or_raise trigger.sequence (value_error "plan invalidation requires a canonical trigger")
    raise_if (leb_ℤ sequence graph.based_on_event_cursor)
        (value_error "plan invalidation trigger must follow the plan causal cut")
    raise_if (not (contains trigger.type graph.replan_event_types))
        (value_error "event type is not a declared replan condition")
    require_aware invalidated_at "plan invalidated_at"
    raise_if (is_before invalidated_at trigger.timestamp)
        (value_error "plan invalidation cannot precede its causal trigger")
    require_text reason "plan invalidation reason"
    make_event ("work-plan-invalidated:" ++ graph.graph_id ++ ":" ++ trigger.id)
        "work.plan_invalidated" source graph.work_order_id invalidated_at
        (object (
          ("graph_id", JsonValue.str graph.graph_id)
          ∷ ("work_order_id", JsonValue.str graph.work_order_id)
          ∷ ("trigger_event_id", JsonValue.str trigger.id)
          ∷ ("trigger_event_type", JsonValue.str trigger.type)
          ∷ ("trigger_event_sequence", JsonValue.int sequence)
          ∷ ("invalidated_at", iso world invalidated_at)
          ∷ ("reason", JsonValue.str reason)
          ∷ []))
        (some trigger.id)
