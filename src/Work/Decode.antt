-- ===== src/Work/Decode.antt =====
-- src/noema/work/models.py, the readings and checks that need Python's `str`, `int` and floats,
-- the content identities, and `_event`; continuity/reconcile.py, the check of a prerequisite;
-- information/models.py, `validate_opaque_governance_id`.
use Prim.Native.String.{◌++◌}
use Prim.Native.Char.{code}
use noema_agent_sdk.Common.{
  ℕ, ◌-◌, String, Bool, true, false, not, Option, none, some, List, [], ◌∷◌, map, ◌&&◌, ◌||◌, ◌==◌,
  string_eq, leb, nat_beq, length, take, drop, all, Result, ok, ◌>>=◌, ◌>>◌, raise_if, or_raise,
  value_error,
}
use noema_agent_sdk.Common.Int.{ℤ, pos}
use noema_agent_sdk.Common.Text.{is_blank}
use noema_agent_sdk.Event.{
  DateTime, JsonValue, JsonObject, Event, get_field, post_init, current_event_schema_version,
}
use noema_agent_sdk.Event.Codec.{py_str, py_int, parse_datetime}
use noema_agent_sdk.Work.Values.{
  Platform, ActionPrerequisite, iterate_at, traverse, to_items, object, mapping, value_at,
}

abbrev codes : String → List ℕ
codes String.[] = []
codes (String.◌∷◌ c s) = code c ∷ codes s

abbrev is_lower : ℕ → Bool
is_lower c = leb 97 c && leb c 122

abbrev is_digit : ℕ → Bool
is_digit c = leb 48 c && leb c 57

abbrev is_hex : ℕ → Bool
is_hex c = is_digit c || leb 97 c && leb c 102

-- The last 33 characters are `_` and 32 hexadecimal digits.
abbrev is_hex_suffix : List ℕ → Bool
is_hex_suffix [] = false
is_hex_suffix (c ∷ cs) = nat_beq c 95 && all is_hex cs && nat_beq (length cs) 32

-- `_OPAQUE_ID.fullmatch`: the part before the suffix is a letter and 1 to 23 of `[a-z0-9_]`.
abbrev is_opaque : List ℕ → Bool
is_opaque [] = false
is_opaque (c ∷ cs) =
    let n = length cs - 33 in
    leb 34 (length cs)
    && leb n 23
    && is_lower c
    && all (λ d. is_lower d || is_digit d || nat_beq d 95) (take n cs)
    && is_hex_suffix (drop n cs)

unfoldable pub validate_opaque_governance_id : String → String → Result (Unit {0})
validate_opaque_governance_id value name =
    raise_if (not (is_opaque (codes value)))
      (value_error (name ++ " must be an opaque governance identifier"))

module _ (world : Platform) where
  unfoldable pub bounded : String → String → Result (Unit {0})
  bounded value name =
      raise_if
        (not (world.is_finite value)
          || not (world.float_leb "0.0" value && world.float_leb value "1.0"))
        (value_error (name ++ " must be between zero and one"))

  -- `ActionPrerequisite.__post_init__`
  unfoldable pub prerequisite_init : ActionPrerequisite → Result ActionPrerequisite
  prerequisite_init p = do
    raise_if (is_blank p.source_id) (value_error "action prerequisite source id must be non-empty")
    bounded p.minimum_freshness "minimum_freshness"
    bounded p.minimum_confidence "minimum_confidence"
    ok p

  unfoldable pub canonical_id : String → JsonObject → Result String
  canonical_id prefix payload = do digits ← world.digest payload; ok (prefix ++ ":" ++ digits)

  -- `str(data[key])`
  abbrev pub str_at : String → JsonObject → Result String
  str_at k d = do v ← value_at k d; ok (py_str world.py v)

  -- `int(data[key])`
  abbrev pub int_at : String → JsonObject → Result ℤ
  int_at k d = do v ← value_at k d; py_int world.py v

  abbrev pub py_float : JsonValue → Result String
  py_float (JsonValue.float x) = ok x
  py_float v = world.float_of v

  -- `float(data[key])`
  abbrev pub float_at : String → JsonObject → Result String
  float_at k d = do v ← value_at k d; py_float v

  abbrev pub optional_datetime : String → JsonObject → Result (Option DateTime)
  optional_datetime k d = parse_datetime world.py (get_field k d)

  unfoldable pub datetime_at : String → JsonObject → Result DateTime
  datetime_at k d = do
    value ← optional_datetime k d
    or_raise value (value_error (k ++ " is required"))

  unfoldable pub strings_at : String → JsonObject → Result (List String)
  strings_at k d = do values ← iterate_at k d; ok (map (py_str world.py) values)

  -- `value.isoformat() if value else None`
  abbrev pub optional_iso : Option DateTime → JsonValue
  optional_iso none = JsonValue.null
  optional_iso (some t) = JsonValue.str (world.py.isoformat t)

  abbrev pub iso : DateTime → JsonValue
  iso t = JsonValue.str (world.py.isoformat t)

  -- `f"{n}"`
  abbrev pub show_int : ℤ → String
  show_int n = world.py.str_of (JsonValue.int n)

  abbrev pub prerequisite_dict : ActionPrerequisite → JsonValue
  prerequisite_dict p = JsonValue.dict (
      object (
        ("source_id", JsonValue.str p.source_id)
        ∷ ("minimum_freshness", JsonValue.float p.minimum_freshness)
        ∷ ("minimum_confidence", JsonValue.float p.minimum_confidence)
        ∷ []))

  unfoldable pub prerequisite : JsonValue → Result ActionPrerequisite
  prerequisite value = do
    d ← mapping value
    source ← str_at "source_id" d
    freshness ← float_at "minimum_freshness" d
    confidence ← float_at "minimum_confidence" d
    prerequisite_init (record {
      source_id = source;
      minimum_freshness = freshness;
      minimum_confidence = confidence;
    })

  unfoldable pub prerequisites_at : String → JsonObject → Result (List ActionPrerequisite)
  prerequisites_at k d = do values ← iterate_at k d; traverse prerequisite values

  abbrev pub prerequisite_list : List ActionPrerequisite → JsonValue
  prerequisite_list ps = JsonValue.list (to_items prerequisite_dict ps)

-- `_event`, with the fields that it leaves at their defaults
abbrev pub plain_event :
    String → String → String → String → DateTime → JsonObject → Option String → Event
plain_event id type source subject timestamp payload causation_id = record {
  type = type;
  source = source;
  payload = payload;
  subject = some subject;
  id = id;
  timestamp = timestamp;
  correlation_id = none;
  causation_id = causation_id;
  priority = pos 0;
  sequence = none;
  metadata = JsonObject.end;
  schema_version = current_event_schema_version;
}

unfoldable pub make_event :
    String → String → String → String → DateTime → JsonObject → Option String → Result Event
make_event id type source subject timestamp payload causation_id =
    post_init (plain_event id type source subject timestamp payload causation_id)

-- `event.subject == value`
abbrev pub is_subject : Event → String → Bool
is_subject e value = elim e.subject [ none ↦ false | some s ↦ s == value ]

-- `event.causation_id is None`
abbrev pub has_no_cause : Event → Bool
has_no_cause e = elim e.causation_id [ none ↦ true | some _ ↦ false ]
