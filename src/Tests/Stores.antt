-- ===== src/Tests/Stores.antt =====
-- Stores with one and two events.
use noema_agent_sdk.Common.{
  ◌≡◌, ◌+◌, refl, false, none, some, [], ok, err, concurrent_append, arith, string_eq, ne_of_beq,
  length, take, drop,
}
use noema_agent_sdk.Common.Int.{pos}
use noema_agent_sdk.Common.Text.{is_blank}
use noema_agent_sdk.Common.Dict.{lookup}
use noema_agent_sdk.Event.{post_init, with_sequence}
use noema_agent_sdk.Event.Codec.{from_dict, to_dict, from_dict-to_dict}
use noema_agent_sdk.Store.Canonical.{log_append, log_append_if_head}
use noema_agent_sdk.Store.Memory.{MemoryStore, append, append_if_head, empty, read, latest_sequence}
use noema_agent_sdk.Store.Memory.Log.{
  IsLog, empty-IsLog, append-IsLog, append_if_head-log_append_if_head,
}
use noema_agent_sdk.Store.Memory.Append.{append-append, append_if_head_race}
use noema_agent_sdk.Store.Memory.Read.{read_limit-eq-take}
use noema_agent_sdk.Store.Memory.Implements.{memory_event_store, memory_event_store-IsEventStore}
use noema_agent_sdk.Store.Copy.{copy_events, copy_events_empty}
use noema_agent_sdk.Store.Sqlite.Tables.{empty_database}
use noema_agent_sdk.Store.Sqlite.Events.{SqliteStore, append_sync}
use noema_agent_sdk.Store.Sqlite.Events as Sqlite
use noema_agent_sdk.Store.Sqlite.Events.Refinement.{IsStorable}
use noema_agent_sdk.Store.Sqlite.Events.Refinement as Rows
use noema_agent_sdk.Store.Sqlite.Events.Implements.{
  Refines, append_lem, append_if_head_lem, read_limit_lem, sqlite_event_store,
  sqlite_event_store-IsEventStore,
}
use noema_agent_sdk.Store.Sqlite.Events.Transaction.{append_sync-Committed, Committed}
use noema_agent_sdk.Tests.Fixtures.{python, noon, event_one, event_two}

one-IsStorable : IsStorable event_one
unfolding post_init is_blank
one-IsStorable = (refl, refl)

two-IsStorable : IsStorable event_two
unfolding post_init is_blank
two-IsStorable = (refl, refl)

from_dict-to_dict_example : from_dict python "fresh" noon (to_dict python event_one) ≡ ok event_one
from_dict-to_dict_example =
    from_dict-to_dict python "fresh" noon event_one one-IsStorable.0 one-IsStorable.1

with_one-IsStorable : IsStorable (with_sequence event_one 1)
unfolding post_init is_blank with_sequence
with_one-IsStorable = (refl, refl)

abbrev one : MemoryStore
one = (append empty event_one).1

one-IsLog : IsLog one
one-IsLog = append-IsLog empty event_one empty-IsLog

append-append_example : append (append empty event_one).1 event_one ≡ append empty event_one
append-append_example = append-append empty event_one event_one refl

append_if_head_race_example :
    (append_if_head empty event_one (pos (latest_sequence empty))
      ≡ (ok (with_sequence event_one (latest_sequence empty + 1)), (append empty event_one).1))
    × (append_if_head (append empty event_one).1 event_two (pos (latest_sequence empty)) ≡ (
      err (concurrent_append (latest_sequence empty) (latest_sequence empty + 1)),
      (append empty event_one).1,
    ))
unfolding lookup
append_if_head_race_example =
    append_if_head_race empty event_one event_two refl refl (ne_of_beq "one" "two" refl)

append_if_head-log_append_if_head_example :
    ((append_if_head one event_two (pos 1)).0 ≡ (log_append_if_head one.events event_two (pos 1)).0)
    × ((append_if_head one event_two (pos 1)).1.events
        ≡ (log_append_if_head one.events event_two (pos 1)).1)
append_if_head-log_append_if_head_example =
    append_if_head-log_append_if_head one event_two (pos 1) one-IsLog

read_limit-eq-take_example : read one (pos 0) (some (pos 5)) none ≡ take 5 (drop 0 one.events)
read_limit-eq-take_example = read_limit-eq-take one 0 5 one-IsLog

abbrev new_store : SqliteStore
new_store = record { database = empty_database; closed = false }

new_store-IsLog : Rows.IsLog python "fresh" noon new_store
new_store-IsLog = (Rows.IsLog-of_rows python "fresh" noon new_store [] refl refl refl tt tt tt).0

new_log : Rows.log python "fresh" noon new_store ≡ []
new_log = (Rows.IsLog-of_rows python "fresh" noon new_store [] refl refl refl tt tt tt).1

append_lem_example :
    Refines python "fresh" noon (Sqlite.append python "fresh" noon 7 new_store event_one) (
      ok (log_append (Rows.log python "fresh" noon new_store) event_one).0,
      (log_append (Rows.log python "fresh" noon new_store) event_one).1,
    )
append_lem_example =
    append_lem python "fresh" noon 7 new_store event_one new_store-IsLog one-IsStorable

abbrev store_one : SqliteStore
store_one = (Sqlite.append python "fresh" noon 7 new_store event_one).1

store_one-IsLog : Rows.IsLog python "fresh" noon store_one
store_one-IsLog =
    (append_lem python "fresh" noon 7 new_store event_one new_store-IsLog one-IsStorable).0

append_if_head_lem_example :
    Refines python "fresh" noon
      (Sqlite.append_if_head python "fresh" noon 8 store_one event_two (pos 1))
      (log_append_if_head (Rows.log python "fresh" noon store_one) event_two (pos 1))
append_if_head_lem_example =
    append_if_head_lem python "fresh" noon 8 store_one event_two (pos 1) store_one-IsLog
      two-IsStorable

read_limit_lem_example :
    Sqlite.read python "fresh" noon store_one (pos 0) (some (pos 5)) none
    ≡ ok (take 5 (drop 0 (Rows.log python "fresh" noon store_one)))
read_limit_lem_example = read_limit_lem python "fresh" noon store_one 0 5 store_one-IsLog

append_sync-Committed_example :
    Committed python "fresh" noon event_one empty_database
      (append_sync python "fresh" noon empty_database event_one (some "noema.observation") none 7)
append_sync-Committed_example =
    append_sync-Committed python "fresh" noon empty_database event_one "noema.observation" none 7 tt

copy_events_empty_example :
    (t' : SqliteStore) × (copy_events memory_event_store
        (sqlite_event_store python "fresh" noon 7)
        3
        one
        new_store
      ≡ some (ok (length one.events), t'))
    × Rows.IsLog python "fresh" noon t'
    × (Rows.log python "fresh" noon t' ≡ one.events)
unfolding append lookup
copy_events_empty_example =
    copy_events_empty memory_event_store-IsEventStore
      (sqlite_event_store-IsEventStore python "fresh" noon 7) 3 one new_store one-IsLog
      new_store-IsLog (with_one-IsStorable, tt) (omega arith) new_log
