-- ===== src/Work/Presences.antt =====
-- src/noema/work/models.py, the class `AgentPresence`.
use noema_agent_sdk.Common.{
  String, Bool, not, none, [], ◌∷◌, ◌&&◌, ◌||◌, ◌==◌, string_eq, nat_eq, Result, ok, ◌>>=◌, ◌>>◌,
  raise_if, value_error,
}
use noema_agent_sdk.Common.Int.{ℤ, pos, leb_ℤ, int_eq}
use noema_agent_sdk.Event.{DateTime, JsonValue, JsonObject, Event}
use noema_agent_sdk.Work.Values.{
  Platform, PresenceStatus, status_value, require_text, require_aware, is_before, same_time, object,
  status_of,
}
use noema_agent_sdk.Work.Decode.{
  canonical_id, str_at, int_at, datetime_at, iso, make_event, is_subject,
}

pub record AgentPresence : Type 0 where
  pub agent_id : String
  pub status : PresenceStatus
  pub max_concurrency : ℤ
  pub observed_at : DateTime
  pub valid_until : DateTime

unfoldable pub post_init : AgentPresence → Result AgentPresence
post_init p = do
  require_text p.agent_id "agent presence id"
  raise_if (leb_ℤ p.max_concurrency (pos 0)) (value_error "agent max concurrency must be positive")
  require_aware p.observed_at "agent presence observed_at"
  require_aware p.valid_until "agent presence valid_until"
  raise_if (not (is_before p.observed_at p.valid_until))
      (value_error "agent presence validity must end after observation")
  ok p

unfoldable pub is_valid_at : AgentPresence → DateTime → Result Bool
is_valid_at p at = do
  require_aware at "agent presence evaluation time"
  ok (not (is_before at p.observed_at) && is_before at p.valid_until)

module _ (world : Platform) where
  unfoldable pub to_dict : AgentPresence → JsonObject
  to_dict p = object (
      ("agent_id", JsonValue.str p.agent_id)
      ∷ ("status", JsonValue.str (status_value p.status))
      ∷ ("max_concurrency", JsonValue.int p.max_concurrency)
      ∷ ("observed_at", iso world p.observed_at)
      ∷ ("valid_until", iso world p.valid_until)
      ∷ [])

  unfoldable pub from_dict : JsonObject → Result AgentPresence
  from_dict d = do
    agent_id ← str_at world "agent_id" d
    status_text ← str_at world "status" d
    status ← status_of status_text
    max_concurrency ← int_at world "max_concurrency" d
    observed_at ← datetime_at world "observed_at" d
    valid_until ← datetime_at world "valid_until" d
    post_init (record {
      agent_id = agent_id;
      status = status;
      max_concurrency = max_concurrency;
      observed_at = observed_at;
      valid_until = valid_until;
    })

  unfoldable pub to_event : AgentPresence → String → Result Event
  to_event p source = do
    identity ← canonical_id world "agent-presence" (to_dict p)
    make_event identity "work.agent_presence_recorded" source p.agent_id p.observed_at (to_dict p)
        none

  unfoldable pub from_event : Event → Result AgentPresence
  from_event e = do
    raise_if (not (e.type == "work.agent_presence_recorded"))
        (value_error "not an agent presence event")
    value ← from_dict e.payload
    expected_id ← canonical_id world "agent-presence" (to_dict value)
    raise_if (not (e.id == expected_id)) (value_error "agent presence event id is inconsistent")
    raise_if (not (is_subject e value.agent_id) || not (same_time e.timestamp value.observed_at))
        (value_error "agent presence event envelope is inconsistent")
    ok value
