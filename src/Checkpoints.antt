-- ===== src/Checkpoints.antt =====
-- src/noema/checkpoints.py: the durable watermark of a consumer of the event log, its canonical
-- event, and the projection that rebuilds the latest checkpoint of every consumer. The
-- digest of its payload, which `json` and `hashlib` compute, is a parameter.
pub mod Codec
pub mod Monotone
use Prim.Native.String.{◌++◌}
use noema_agent_sdk.Common.{
  String, Bool, true, false, not, Option, none, some, List, [], ◌∷◌, if◌then◌else◌, ◌==◌, string_eq,
  Result, ok, err, ◌>>=◌, ◌>>◌, raise_if, or_raise, value_error, key_error,
}
use noema_agent_sdk.Common.Int.{ℤ, pos, ◌-ℤ◌, ltb_ℤ, leb_ℤ}
use noema_agent_sdk.Common.Text.{is_blank}
use noema_agent_sdk.Common.Dict.{Dict, lookup, insert}
use noema_agent_sdk.Event.{
  DateTime, JsonValue, JsonObject, get_field, Event, post_init, current_event_schema_version,
}
use noema_agent_sdk.Event.Codec.{Builtins, py_str, py_int, opt_str, optional_str}

abbrev pub consumer_checkpoint_event : String
consumer_checkpoint_event = "runtime.consumer_checkpoint_advanced"

pub record ConsumerCheckpoint : Type 0 where
  pub consumer_id : String
  pub last_completed_sequence : ℤ
  pub observed_head_sequence : ℤ
  pub epoch_id : Option String
  pub event_sequence : Option ℤ

abbrev pub is_blank_epoch : Option String → Bool
is_blank_epoch none = false
is_blank_epoch (some e) = is_blank e

abbrev pub is_not_positive : Option ℤ → Bool
is_not_positive none = false
is_not_positive (some n) = leb_ℤ n (pos 0)

-- `__post_init__`
unfoldable pub checkpoint_post_init : ConsumerCheckpoint → Result ConsumerCheckpoint
checkpoint_post_init c = do
  raise_if (is_blank c.consumer_id)
      (value_error "consumer checkpoint requires a non-empty consumer id")
  raise_if (ltb_ℤ c.last_completed_sequence (pos 0))
      (value_error "consumer checkpoint sequence cannot be negative")
  raise_if (ltb_ℤ c.observed_head_sequence c.last_completed_sequence)
      (value_error "observed event-log head cannot precede completed sequence")
  raise_if (is_blank_epoch c.epoch_id)
      (value_error "consumer checkpoint epoch id must be non-empty when supplied")
  raise_if (is_not_positive c.event_sequence)
      (value_error "checkpoint event sequence must be positive when supplied")
  ok c

unfoldable pub processing_lag : ConsumerCheckpoint → ℤ
processing_lag c = c.observed_head_sequence -ℤ c.last_completed_sequence

unfoldable pub to_dict : ConsumerCheckpoint → JsonObject
to_dict c = JsonObject.field "consumer_id" (JsonValue.str c.consumer_id) (
    JsonObject.field "last_completed_sequence" (JsonValue.int c.last_completed_sequence) (
      JsonObject.field "observed_head_sequence" (JsonValue.int c.observed_head_sequence) (
        JsonObject.field "processing_lag" (JsonValue.int (processing_lag c))
          (JsonObject.field "epoch_id" (opt_str c.epoch_id) JsonObject.end))))

-- `to_event`; `digest` is the start of the hash of the payload.
unfoldable pub to_event :
    (JsonObject → String) → ConsumerCheckpoint → String → DateTime → Option String → Result Event
unfolding to_dict
to_event digest c source timestamp causation_id = post_init (record {
  type = consumer_checkpoint_event;
  source = source;
  payload = to_dict c;
  subject = some c.consumer_id;
  id = "consumer-checkpoint:" ++ digest (to_dict c);
  timestamp = timestamp;
  correlation_id = none;
  causation_id = causation_id;
  priority = pos 0;
  sequence = none;
  metadata = JsonObject.end;
  schema_version = current_event_schema_version;
})

-- the latest checkpoint of every consumer
abbrev pub Projection : Type 0
Projection = Dict String ConsumerCheckpoint

-- the two guards of `apply` against the current checkpoint of the consumer
unfoldable pub check_regression : Option ConsumerCheckpoint → ConsumerCheckpoint → Result (Unit {0})
check_regression none c = ok tt
check_regression (some current) c = do
  raise_if (ltb_ℤ c.last_completed_sequence current.last_completed_sequence)
      (value_error "consumer checkpoint regressed")
  raise_if (ltb_ℤ c.observed_head_sequence current.observed_head_sequence)
      (value_error "consumer observed head regressed")
  ok tt

abbrev has_subject : Option String → String → Bool
has_subject none s = false
has_subject (some t) s = t == s

abbrev pub int_beq : ℤ → ℤ → Bool
int_beq a b = if ltb_ℤ a b then false else not (ltb_ℤ b a)

-- what `apply` does with a decoded checkpoint
abbrev pub record_checkpoint : Projection → ConsumerCheckpoint → Result (Bool × Projection)
record_checkpoint p checkpoint = do
  check_regression (lookup checkpoint.consumer_id p) checkpoint
  ok (true, insert checkpoint.consumer_id checkpoint p)

module _ (py : Builtins) where
  -- `from_event`
  unfoldable pub from_event : Event → Result ConsumerCheckpoint
  from_event event = do
    raise_if (not (event.type == consumer_checkpoint_event))
        (value_error "not a consumer checkpoint event")
    sequence ←
        or_raise event.sequence
          (value_error "consumer checkpoint must be restored from a canonical event")
    consumer_id ← or_raise (get_field "consumer_id" event.payload) (key_error "consumer_id")
    last ←
        or_raise (get_field "last_completed_sequence" event.payload)
          (key_error "last_completed_sequence")
    last_completed_sequence ← py_int py last
    head ←
        or_raise (get_field "observed_head_sequence" event.payload)
          (key_error "observed_head_sequence")
    observed_head_sequence ← py_int py head
    checkpoint ← checkpoint_post_init (record {
      consumer_id = py_str py consumer_id;
      last_completed_sequence = last_completed_sequence;
      observed_head_sequence = observed_head_sequence;
      epoch_id = optional_str py (get_field "epoch_id" event.payload);
      event_sequence = some sequence;
    })
    raise_if (not (has_subject event.subject checkpoint.consumer_id))
        (value_error "consumer checkpoint subject does not match its consumer id")
    lag ← or_raise (get_field "processing_lag" event.payload) (key_error "processing_lag")
    processing ← py_int py lag
    raise_if (not (int_beq processing (processing_lag checkpoint)))
        (value_error "consumer checkpoint processing lag is inconsistent")
    ok checkpoint

  -- `apply`: what it returns and the projection after it; an exception leaves the projection as
  -- it was.
  unfoldable pub apply : Projection → Event → Result (Bool × Projection)
  apply p event =
      if event.type == consumer_checkpoint_event
      then (do checkpoint ← from_event event; record_checkpoint p checkpoint)
      else ok (false, p)

  -- the loop of `rebuild`, and `rebuild` on a cleared projection
  unfoldable pub apply_all : Projection → List Event → Result Projection
  apply_all p [] = ok p
  apply_all p (event ∷ events) = do (_, q) ← apply p event; apply_all q events

  unfoldable pub rebuild : List Event → Result Projection
  rebuild events = apply_all [] events
