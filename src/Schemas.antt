-- ===== src/Schemas.antt =====
-- src/noema/events.py, `EventSchemaRegistry`. Validators and upcasters are functions of the caller
-- that may raise. The loop of `normalize` has fuel.
pub mod Normalize
use noema_agent_sdk.Common.{
  ℕ, zero, suc, String, Bool, true, false, not, Option, none, some, List, [], ◌∷◌, ◌&&◌, ◌||◌, ◌==◌,
  if◌then◌else◌, string_eq, pair_eq, Result, ok, err, ◌>>=◌, ◌>>◌, raise_if, or_raise, value_error,
}
use noema_agent_sdk.Common.Int.{ℤ, pos, negsuc, ◌+ℤ◌, ltb_ℤ, leb_ℤ, max_ℤ, int_eq}
use noema_agent_sdk.Common.Dict.{Dict, lookup, has_key, insert}
use noema_agent_sdk.Common.Text.{is_empty}
use noema_agent_sdk.Event.{Event, current_event_schema_version}

pub record EventSchemaRegistry : Type 0 where
  pub current : Dict String ℤ
  pub validators : Dict (String × ℤ) (Event → Result (Unit {0}))
  pub upcasters : Dict (String × ℤ) (Event → Result Event)

abbrev pub new_registry : EventSchemaRegistry
new_registry = record { current = []; validators = []; upcasters = [] }

abbrev or_default : ℤ → Option ℤ → ℤ
or_default d none = d
or_default d (some n) = n

-- `if value is not None: table[key] = value`
abbrev insert_some :
    {V : Type 0} → String × ℤ → Option V → Dict (String × ℤ) V → Dict (String × ℤ) V
insert_some key none d = d
insert_some key (some v) d = insert key v d

-- `register`
unfoldable pub register :
    String
    → ℤ
    → Option (Event → Result (Unit {0}))
    → Option (Event → Result Event)
    → EventSchemaRegistry
    → Result EventSchemaRegistry
register event_type version validator upcast_to_next s = do
  raise_if (is_empty event_type) (value_error "event_type must be non-empty")
  raise_if (leb_ℤ version (pos 0)) (value_error "schema version must be positive")
  raise_if (has_key (event_type, version) s.validators || has_key (event_type, version) s.upcasters)
      (value_error "schema already registered")
  ok (record {
    current =
        insert event_type (max_ℤ version (or_default (pos 0) (lookup event_type s.current)))
          s.current;
    validators = insert_some (event_type, version) validator s.validators;
    upcasters = insert_some (event_type, version) upcast_to_next s.upcasters;
  })

-- `current_version`
unfoldable pub current_version : String → EventSchemaRegistry → ℤ
current_version event_type s = or_default current_event_schema_version (lookup event_type s.current)

abbrev sequence_beq : Option ℤ → Option ℤ → Bool
sequence_beq none none = true
sequence_beq (some a) (some b) = a == b
sequence_beq _ _ = false

-- one round of the loop: the upcaster for the version, and the checks of what it returned
unfoldable pub upcast : EventSchemaRegistry → Event → Result Event
upcast s previous = do
  upcaster ←
      or_raise (lookup (previous.type, previous.schema_version) s.upcasters)
        (value_error "missing upcaster")
  normalized ← upcaster previous
  raise_if (not (normalized.schema_version == previous.schema_version +ℤ pos 1))
      (value_error "upcaster must produce the next version")
  raise_if
      (not (normalized.id == previous.id)
        || not (sequence_beq normalized.sequence previous.sequence))
      (value_error "event upcasters must preserve id and sequence")
  ok normalized

-- the `while` loop; `none` means that the fuel ran out
unfoldable pub upcast_all : ℕ → EventSchemaRegistry → ℤ → Event → Option (Result Event)
unfolding upcast
upcast_all zero s current e = none
upcast_all (suc fuel) s current e =
    if ltb_ℤ e.schema_version current
    then (elim (upcast s e) [ err x ↦ some (err x) | ok next ↦ upcast_all fuel s current next ])
    else some (ok e)

-- the validator of the version reached, if there is one
unfoldable pub validate : EventSchemaRegistry → Event → Result Event
validate s e = elim (lookup (e.type, e.schema_version) s.validators) [
  | none ↦ ok e
  | some validator ↦ do validator e; ok e
]

-- `normalize`
unfoldable pub normalize : ℕ → EventSchemaRegistry → Event → Option (Result Event)
unfolding upcast_all validate current_version
normalize fuel s e =
    if ltb_ℤ (current_version e.type s) e.schema_version
    then some (err (value_error "unsupported future schema"))
    else (elim (upcast_all fuel s (current_version e.type s) e) [
      | none ↦ none
      | some r ↦ some (do next ← r; validate s next)
    ])
