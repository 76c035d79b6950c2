-- ===== src/Event.antt =====
-- src/noema/events.py, the class `Event`, and src/noema/types.py.
-- A datetime is its instant, in microseconds from a fixed origin, and whether it has a time zone.
-- A float in a payload is the text that `repr` gives it. Python's `str` and `int` of a value that
-- is no text and no integer, and the ISO form of a datetime, are parameters (`Builtins`).
pub mod Codec
use noema_agent_sdk.Common.{
  ℕ, String, Bool, true, false, not, Option, none, some, ◌||◌, if◌then◌else◌, ◌==◌, string_eq,
  Result, ok, err, ◌>>=◌, ◌>>◌, raise_if, Exception, value_error,
}
use noema_agent_sdk.Common.Int.{ℤ, pos, leb_ℤ}
use noema_agent_sdk.Common.Text.{is_blank, is_empty}

pub record DateTime : Type 0 where
  pub instant : ℕ
  pub is_aware : Bool

-- `JSONValue` and `JSONObject`
mutual
  pub data JsonValue : Type 0 where
    null : JsonValue
    bool : Bool → JsonValue
    int : ℤ → JsonValue
    float : String → JsonValue
    str : String → JsonValue
    list : JsonItems → JsonValue
    dict : JsonObject → JsonValue

  pub data JsonItems : Type 0 where
    nil : JsonItems
    cons : JsonValue → JsonItems → JsonItems

  pub data JsonObject : Type 0 where
    end : JsonObject
    field : String → JsonValue → JsonObject → JsonObject

-- `data.get(key)`, for which a missing key and `null` differ
unfoldable pub get_field : String → JsonObject → Option JsonValue
get_field k end = none
get_field k (field j v d) = let rest = get_field k d in if k == j then some v else rest

abbrev pub current_event_schema_version : ℤ
current_event_schema_version = pos 1

pub record Event : Type 0 where
  pub type : String
  pub source : String
  pub payload : JsonObject
  pub subject : Option String
  pub id : String
  pub timestamp : DateTime
  pub correlation_id : Option String
  pub causation_id : Option String
  pub priority : ℤ
  pub sequence : Option ℤ
  pub metadata : JsonObject
  pub schema_version : ℤ

-- `Event.__post_init__`: the event, or the exception that the constructor raises.
unfoldable pub post_init : Event → Result Event
post_init e = do
  raise_if (is_empty e.type || is_blank e.type) (value_error "event type must be non-empty")
  raise_if (is_empty e.source || is_blank e.source) (value_error "event source must be non-empty")
  raise_if (not e.timestamp.is_aware) (value_error "event timestamp must be timezone-aware")
  raise_if (leb_ℤ e.schema_version (pos 0)) (value_error "event schema_version must be positive")
  ok e

-- `replace` runs the constructor again, on fields that it has accepted before.
unfoldable pub with_sequence : Event → ℕ → Event
with_sequence e n = record e { sequence = some (pos n) }

-- `a or b` on optional texts: an empty text is false too.
abbrev pub or_text : Option String → String → String
or_text none b = b
or_text (some a) b = if is_empty a then b else a

unfoldable pub caused_by : Event → Event → Option String → Event
caused_by e parent source = record e {
  source = or_text source e.source;
  correlation_id = some (or_text parent.correlation_id parent.id);
  causation_id = some parent.id;
}

-- `event.sequence or 0`
abbrev pub sequence_or_zero : Event → ℤ
sequence_or_zero e = elim e.sequence [ none ↦ pos 0 | some n ↦ n ]
