-- ===== src/Store/Sqlite/Events.antt =====
-- src/noema/store.py: the `events` table of `SQLiteEventStore` and the appends.
pub mod Refinement
pub mod Implements
pub mod Transaction
use noema_agent_sdk.Common.{
  ℕ, ◌+◌, String, Bool, true, false, Option, none, some, List, [], ◌∷◌, ◌++◌, ◌&&◌, if◌then◌else◌,
  nat_beq, ltb, ◌==◌, string_eq, find, any, filter, contains, Result, ok, err, ◌>>=◌, ◌>>◌,
  raise_if, value_error, runtime_error, concurrent_append,
}
use noema_agent_sdk.Common.Int.{ℤ, pos, negsuc, ltb_ℤ}
use noema_agent_sdk.Common.Text.{is_empty}
use noema_agent_sdk.Event.{DateTime, JsonValue, JsonObject, Event, with_sequence}
use noema_agent_sdk.Event.Codec.{Builtins, from_dict, to_dict, opt_str}
use noema_agent_sdk.Store.Sqlite.Tables.{EventRow, OutboxRow, Database, sql_limit}

-- What a connection runs returns a result and the database after COMMIT or ROLLBACK.
pub record SqliteStore : Type 0 where
  pub database : Database
  pub closed : Bool

-- the comparison with the expected head, if there is one
abbrev check_head : Option ℕ → ℕ → Result (Unit {0})
check_head none actual = ok tt
check_head (some expected) actual =
    if nat_beq actual expected then ok tt else err (concurrent_append expected actual)

-- `_ensure_open`
abbrev ensure_open : SqliteStore → Result (Unit {0})
ensure_open s = if s.closed then err (runtime_error "event store is closed") else ok tt

abbrev check_topic : String → Result (Unit {0})
check_topic topic = raise_if (is_empty topic) (value_error "outbox topic must be non-empty")

abbrev non_negative : ℤ → Result ℕ
non_negative (pos n) = ok n
non_negative (negsuc _) = err (value_error "expected event head sequence cannot be negative")

-- `close`
unfoldable pub close : SqliteStore → SqliteStore
close s = record s { closed = true }

-- SELECT * FROM events WHERE event_id = ?
abbrev pub find_row : String → List EventRow → Option EventRow
find_row k = find (λ r. k == r.event_id)

-- `_latest_sequence_sync`: COALESCE(MAX(sequence), 0)
abbrev pub latest_sequence_sync : List EventRow → ℕ
latest_sequence_sync [] = 0
latest_sequence_sync (r ∷ rs) =
    let m = latest_sequence_sync rs in if ltb m r.sequence then r.sequence else m

unfoldable pub latest_sequence : SqliteStore → Result ℕ
latest_sequence s = do ensure_open s; ok (latest_sequence_sync s.database.events)

-- `if types:` takes an empty tuple for no filter
abbrev has_type : Option (List String) → EventRow → Bool
has_type none r = true
has_type (some []) r = true
has_type (some (t ∷ ts)) r = contains r.event_type (t ∷ ts)

module _ (py : Builtins) (fallback_id : String) (fallback_time : DateTime) where
  -- the columns of INSERT INTO events, whose integers are within 64 bits
  abbrev pub event_row : ℕ → Event → EventRow
  event_row n e = record {
    sequence = n;
    event_id = e.id;
    event_type = e.type;
    source = e.source;
    subject = e.subject;
    timestamp = py.isoformat e.timestamp;
    correlation_id = e.correlation_id;
    causation_id = e.causation_id;
    priority = e.priority;
    payload_json = e.payload;
    metadata_json = e.metadata;
    schema_version = e.schema_version;
  }

  -- the dict that `_row_to_event` hands to `Event.from_dict`
  abbrev row_dict : EventRow → JsonObject
  row_dict r = JsonObject.field "id" (JsonValue.str r.event_id) (
      JsonObject.field "type" (JsonValue.str r.event_type) (
        JsonObject.field "source" (JsonValue.str r.source) (
          JsonObject.field "subject" (opt_str r.subject) (
            JsonObject.field "timestamp" (JsonValue.str r.timestamp) (
              JsonObject.field "correlation_id" (opt_str r.correlation_id) (
                JsonObject.field "causation_id" (opt_str r.causation_id) (
                  JsonObject.field "priority" (JsonValue.int r.priority) (
                    JsonObject.field "sequence" (JsonValue.int (pos r.sequence)) (
                      JsonObject.field "payload" (JsonValue.dict r.payload_json) (
                        JsonObject.field "metadata" (JsonValue.dict r.metadata_json) (
                          JsonObject.field "schema_version" (JsonValue.int r.schema_version)
                            JsonObject.end)))))))))))

  -- `_row_to_event`
  pub row_to_event : EventRow → Result Event
  row_to_event r = from_dict py fallback_id fallback_time (row_dict r)

  pub rows_to_events : List EventRow → Result (List Event)
  unfolding row_to_event
  rows_to_events [] = ok []
  rows_to_events (r ∷ rs) = do e ← row_to_event r; es ← rows_to_events rs; ok (e ∷ es)

  -- INSERT INTO events: the row gets the next number of AUTOINCREMENT.
  abbrev pub insert_event : Database → Event → Database
  insert_event db e = record db {
    events = db.events ++ event_row (db.events_autoincrement + 1) e ∷ [];
    events_autoincrement = db.events_autoincrement + 1;
  }

  -- the stored event and the database, before the outbox row
  unfoldable pub append_event : Database → Event → Option ℕ → Result (Event × Database)
  append_event db event expected = elim (find_row event.id db.events) [
    | some existing ↦ do stored ← row_to_event existing; ok (stored, db)
    | none ↦ do
      check_head expected (latest_sequence_sync db.events)
      ok (with_sequence event (db.events_autoincrement + 1), insert_event db event)
  ]

  abbrev pub outbox_row : ℕ → Event → String → ℕ → OutboxRow
  outbox_row n stored topic now = record {
    id = n;
    event_id = stored.id;
    topic = topic;
    event_json = to_dict py stored;
    attempts = 0;
    available_at = now;
    lease_owner = none;
    lease_until = none;
    fencing_token = 0;
    last_error = none;
    created_at = now;
    published_at = none;
  }

  -- INSERT INTO outbox … ON CONFLICT(event_id) DO NOTHING, which takes no number on a conflict
  unfoldable pub insert_outbox : Database → Event → String → ℕ → Database
  insert_outbox db stored topic now =
      if any (λ (r : OutboxRow). stored.id == r.event_id) db.outbox then db else record db {
        outbox = db.outbox ++ outbox_row (db.outbox_autoincrement + 1) stored topic now ∷ [];
        outbox_autoincrement = db.outbox_autoincrement + 1;
      }

  abbrev with_outbox : Database → Event → Option String → ℕ → Database
  unfolding insert_outbox
  with_outbox db stored none now = db
  with_outbox db stored (some topic) now = insert_outbox db stored topic now

  -- `_append_sync`; whatever raises rolls the transaction back.
  unfoldable pub append_sync :
      Database → Event → Option String → Option ℕ → ℕ → Result Event × Database
  unfolding append_event insert_outbox
  append_sync db event topic expected now = elim (append_event db event expected) [
    | ok (stored, db') ↦ (ok stored, with_outbox db' stored topic now)
    | err x ↦ (err x, db)
  ]

  -- A method that passes its checks runs one transaction.
  abbrev transact :
      SqliteStore
      → Result (Unit {0})
      → (Database → Result Event × Database)
      → Result Event × SqliteStore
  transact s (err x) run = (err x, s)
  transact s (ok _) run = let (r, db) = run s.database in (r, record s { database = db })

  unfoldable pub append : ℕ → SqliteStore → Event → Result Event × SqliteStore
  unfolding append_sync
  append now s event = transact s (ensure_open s) (λ db. append_sync db event none none now)

  abbrev with_expected :
      SqliteStore → Result ℕ → (ℕ → Database → Result Event × Database) → Result Event × SqliteStore
  with_expected s (err x) run = (err x, s)
  with_expected s (ok n) run = let (r, db) = run n s.database in (r, record s { database = db })

  unfoldable pub append_if_head : ℕ → SqliteStore → Event → ℤ → Result Event × SqliteStore
  unfolding append_sync
  append_if_head now s event expected =
      with_expected s (do ensure_open s; non_negative expected)
        (λ n db. append_sync db event none (some n) now)

  unfoldable pub append_with_outbox : ℕ → SqliteStore → Event → String → Result Event × SqliteStore
  unfolding append_sync
  append_with_outbox now s event topic =
      transact s (do ensure_open s; check_topic topic)
        (λ db. append_sync db event (some topic) none now)

  unfoldable pub append_with_outbox_if_head :
      ℕ → SqliteStore → Event → String → ℤ → Result Event × SqliteStore
  unfolding append_sync
  append_with_outbox_if_head now s event topic expected =
      with_expected s (do ensure_open s; check_topic topic; non_negative expected)
        (λ n db. append_sync db event (some topic) (some n) now)

  unfoldable pub read_sync : Database → ℤ → Option ℤ → Option (List String) → Result (List Event)
  unfolding rows_to_events
  read_sync db after_sequence limit types =
      rows_to_events (elim limit [ none ↦ matching | some n ↦ sql_limit n matching ])
    where
      matching : List EventRow
      matching =
          filter (λ (r : EventRow). ltb_ℤ after_sequence (pos r.sequence) && has_type types r)
            db.events

  unfoldable pub read : SqliteStore → ℤ → Option ℤ → Option (List String) → Result (List Event)
  unfolding read_sync
  read s after_sequence limit types = do
    ensure_open s
    read_sync s.database after_sequence limit types
