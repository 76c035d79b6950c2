-- ===== src/Tests/Fixtures.antt =====
-- Events, and a Python whose ISO form of an instant is a text of that length.
use Prim.Native.Char.{nul}
use noema_agent_sdk.Common.{
  ℕ, zero, suc, ◌≡◌, refl, ap, String, true, none, some, ok, err, arith, type_error,
}
use noema_agent_sdk.Common.Int.{pos}
use noema_agent_sdk.Event.{DateTime, JsonValue, JsonObject, Event, current_event_schema_version}
use noema_agent_sdk.Event.Codec.{Builtins}

abbrev unary : ℕ → String
unary zero = String.[]
unary (suc n) = String.◌∷◌ nul (unary n)

abbrev count : String → ℕ
count String.[] = 0
count (String.◌∷◌ _ s) = suc (count s)

count-unary : (n : ℕ) → count (unary n) ≡ n
count-unary zero = refl
count-unary (suc n) = ap suc (count-unary n)

pub read_back :
    (t : DateTime)
    → t.is_aware ≡ true
    → ok (record { instant = count (unary t.instant); is_aware = true }) ≡ ok t
read_back t h = ground (arith, count-unary t.instant)

abbrev pub python : Builtins
python = record {
  str_of = λ v. "value";
  dict_of = λ v. err (type_error "dict");
  int_of = λ v. err (type_error "int");
  isoformat = λ t. unary t.instant;
  fromisoformat = λ s. ok (record { instant = count s; is_aware = true });
  fromisoformat-isoformat = read_back;
}

abbrev pub noon : DateTime
noon = record { instant = 3; is_aware = true }

abbrev pub event : String → String → Event
event id type = record {
  type = type;
  source = "sensor";
  payload = JsonObject.field "value" (JsonValue.int (pos 7)) JsonObject.end;
  subject = some "room";
  id = id;
  timestamp = noon;
  correlation_id = none;
  causation_id = none;
  priority = pos 0;
  sequence = none;
  metadata = JsonObject.end;
  schema_version = current_event_schema_version;
}

abbrev pub event_one : Event
event_one = event "one" "observation"

abbrev pub event_two : Event
event_two = event "two" "decision"
