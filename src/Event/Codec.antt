-- ===== src/Event/Codec.antt =====
-- src/noema/events.py, `Event.to_dict` and `Event.from_dict`; src/noema/types.py,
-- `parse_datetime`.
use noema_agent_sdk.Common.{
  String, Bool, true, false, Option, none, some, if◌then◌else◌, ◌==◌, string_eq, Result, ok, err,
  ◌≡◌, zero, suc, ◌>>=◌, or_raise, key_error, type_error, refl, sym, ap, arith,
}
use noema_agent_sdk.Common.Int.{ℤ, pos, negsuc}
use noema_agent_sdk.Common.Text.{is_empty}
use noema_agent_sdk.Event.{
  DateTime, JsonValue, JsonObject, JsonItems, Event, post_init, get_field,
  current_event_schema_version,
}

-- What the code takes from Python: `str`, `int` and `dict` of values that are no text, integer and
-- dict, and `datetime.isoformat` with its inverse, which agree on aware datetimes.
pub record Builtins : Type 0 where
  pub str_of : JsonValue → String
  pub dict_of : JsonValue → Result JsonObject
  pub int_of : JsonValue → Result ℤ
  pub isoformat : DateTime → String
  pub fromisoformat : String → Result DateTime
  pub fromisoformat-isoformat :
      (t : DateTime) → t.is_aware ≡ true → fromisoformat (isoformat t) ≡ ok t

abbrev pub opt_str : Option String → JsonValue
opt_str none = JsonValue.null
opt_str (some s) = JsonValue.str s

abbrev opt_int : Option ℤ → JsonValue
opt_int none = JsonValue.null
opt_int (some n) = JsonValue.int n

-- Truth of a value, as `or` and `if` test it.
abbrev pub is_truthy : JsonValue → Bool
is_truthy JsonValue.null = false
is_truthy (JsonValue.bool b) = b
is_truthy (JsonValue.int (pos n)) = elim n [ zero ↦ false | suc _ ↦ true ]
is_truthy (JsonValue.int (negsuc n)) = true
is_truthy (JsonValue.float s) = if s == "0.0" then false else if s == "-0.0" then false else true
is_truthy (JsonValue.str s) = if is_empty s then false else true
is_truthy (JsonValue.list JsonItems.nil) = false
is_truthy (JsonValue.list (JsonItems.cons _ _)) = true
is_truthy (JsonValue.dict JsonObject.end) = false
is_truthy (JsonValue.dict (JsonObject.field _ _ _)) = true

module _ (py : Builtins) where
  unfoldable pub to_dict : Event → JsonObject
  to_dict e = JsonObject.field "id" (JsonValue.str e.id) (
      JsonObject.field "type" (JsonValue.str e.type) (
        JsonObject.field "source" (JsonValue.str e.source) (
          JsonObject.field "subject" (opt_str e.subject) (
            JsonObject.field "timestamp" (JsonValue.str (py.isoformat e.timestamp)) (
              JsonObject.field "correlation_id" (opt_str e.correlation_id) (
                JsonObject.field "causation_id" (opt_str e.causation_id) (
                  JsonObject.field "priority" (JsonValue.int e.priority) (
                    JsonObject.field "sequence" (opt_int e.sequence) (
                      JsonObject.field "payload" (JsonValue.dict e.payload) (
                        JsonObject.field "metadata" (JsonValue.dict e.metadata) (
                          JsonObject.field "schema_version" (JsonValue.int e.schema_version)
                            JsonObject.end)))))))))))

  -- `str(value)` and `int(value)`
  abbrev pub py_str : JsonValue → String
  py_str (JsonValue.str s) = s
  py_str v = py.str_of v

  abbrev pub py_int : JsonValue → Result ℤ
  py_int (JsonValue.int n) = ok n
  py_int v = py.int_of v

  -- `dict(value)`
  abbrev py_dict : JsonValue → Result JsonObject
  py_dict (JsonValue.dict d) = ok d
  py_dict v = py.dict_of v

  -- A naive time is read as UTC, which keeps its instant.
  abbrev as_utc : DateTime → DateTime
  as_utc t = record t { is_aware = true }

  -- `parse_datetime` of a JSON field
  unfoldable pub parse_datetime : Option JsonValue → Result (Option DateTime)
  parse_datetime none = ok none
  parse_datetime (some JsonValue.null) = ok none
  parse_datetime (some (JsonValue.str s)) = do t ← py.fromisoformat s; ok (some (as_utc t))
  parse_datetime (some _) = err (type_error "fromisoformat: argument must be str")

  -- `str(data[key]) if data.get(key) is not None else None`
  abbrev pub optional_str : Option JsonValue → Option String
  optional_str none = none
  optional_str (some JsonValue.null) = none
  optional_str (some v) = some (py_str v)

  abbrev optional_int : Option JsonValue → Result (Option ℤ)
  optional_int none = ok none
  optional_int (some JsonValue.null) = ok none
  optional_int (some v) = do n ← py_int v; ok (some n)

  abbrev int_or : ℤ → Option JsonValue → Result ℤ
  int_or d none = ok d
  int_or d (some v) = py_int v

  abbrev dict_or_empty : Option JsonValue → Result JsonObject
  dict_or_empty none = ok JsonObject.end
  dict_or_empty (some v) = py_dict v

  -- `str(data.get("id") or uuid4())`
  abbrev id_or : String → Option JsonValue → String
  id_or fresh none = fresh
  id_or fresh (some v) = if is_truthy v then py_str v else fresh

  abbrev or_now : DateTime → Option DateTime → DateTime
  or_now now none = now
  or_now now (some t) = t

  -- `Event.from_dict`, with the identity and the time that it falls back on
  unfoldable pub from_dict : String → DateTime → JsonObject → Result Event
  from_dict fresh now d = do
    timestamp ← parse_datetime (get_field "timestamp" d)
    type ← or_raise (get_field "type" d) (key_error "type")
    source ← or_raise (get_field "source" d) (key_error "source")
    priority ← int_or (pos 0) (get_field "priority" d)
    sequence ← optional_int (get_field "sequence" d)
    payload ← dict_or_empty (get_field "payload" d)
    metadata ← dict_or_empty (get_field "metadata" d)
    version ← int_or current_event_schema_version (get_field "schema_version" d)
    post_init (record {
      type = py_str type;
      source = py_str source;
      payload = payload;
      subject = optional_str (get_field "subject" d);
      id = id_or fresh (get_field "id" d);
      timestamp = or_now now timestamp;
      correlation_id = optional_str (get_field "correlation_id" d);
      causation_id = optional_str (get_field "causation_id" d);
      priority = priority;
      sequence = sequence;
      metadata = metadata;
      schema_version = version;
    })

  post_init-is_aware : (e : Event) → post_init e ≡ ok e → e.timestamp.is_aware ≡ true
  unfolding post_init
  post_init-is_aware e h = ground arith

  optional_str-opt_str : (o : Option String) → optional_str (some (opt_str o)) ≡ o
  optional_str-opt_str none = refl
  optional_str-opt_str (some s) = refl

  optional_int-opt_int : (o : Option ℤ) → optional_int (some (opt_int o)) ≡ ok o
  optional_int-opt_int none = refl
  optional_int-opt_int (some n) = refl

  pub parse_datetime-isoformat :
      (t : DateTime)
      → t.is_aware ≡ true
      → parse_datetime (some (JsonValue.str (py.isoformat t))) ≡ ok (some t)
  unfolding parse_datetime
  parse_datetime-isoformat t h =
      rw (py.fromisoformat-isoformat t h) (ap (λ b. ok (some (record t { is_aware = b }))) (sym h))

  -- `from_dict` restores every event that its constructor accepts and that has an identity, and
  -- neither the fallback identity nor the fallback time is used.
  pub from_dict-to_dict :
      (fresh : String) (now : DateTime) (e : Event)
      → post_init e ≡ ok e
      → is_empty e.id ≡ false
      → from_dict fresh now (to_dict e) ≡ ok e
  unfolding from_dict to_dict get_field
  from_dict-to_dict fresh now e valid named =
      rw (parse_datetime-isoformat e.timestamp (post_init-is_aware e valid)) (
        ground (
          arith,
          valid,
          optional_int-opt_int e.sequence,
          optional_str-opt_str e.subject,
          optional_str-opt_str e.correlation_id,
          optional_str-opt_str e.causation_id,
        ))
