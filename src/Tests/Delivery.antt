-- ===== src/Tests/Delivery.antt =====
-- A publisher and a consumer at the in-memory broker.
use text.Mathlib.Text.{◌==◌ as str_eq}
use noema_agent_sdk.Common.{ℕ, ◌≡◌, refl, arith, true, false, none, some, [], ◌∷◌, ok}
use noema_agent_sdk.Common.Int.{pos}
use noema_agent_sdk.Event.{JsonValue, JsonObject}
use noema_agent_sdk.Event.Codec.{to_dict, from_dict, parse_datetime}
use noema_agent_sdk.Store.Sqlite.Tables.{OutboxRow, InboxRow, completed, empty_database}
use noema_agent_sdk.Store.Sqlite.Events.{SqliteStore}
use noema_agent_sdk.Store.Sqlite.Outbox
use noema_agent_sdk.Store.Sqlite.Service.{claim_outbox}
use noema_agent_sdk.Common.Text.{is_blank}
use noema_agent_sdk.Event
use noema_agent_sdk.Event.{get_field}
use noema_agent_sdk.Store.Sqlite.Inbox.{new_row}
use noema_agent_sdk.Store.Sqlite.Inbox.Dedup.{run}
use noema_agent_sdk.Delivery.Broker.{
  InMemoryBroker, MemoryMessage, new_broker, publish, get, take_head, nak,
}
use noema_agent_sdk.Delivery.Publisher.{OutboxPublisher, Transport, run_once}
use noema_agent_sdk.Delivery.Publisher.Acknowledged.{
  IsWaiting, acknowledged, taken, unacknowledged_waits,
}
use noema_agent_sdk.Delivery.Consumer.{Subscription, InboxConsumer, Handler, World, process_once}
use noema_agent_sdk.Delivery.Consumer.Deduplicated.{completed_not_handled}
use noema_agent_sdk.Tests.Fixtures.{python, noon, event_one}

abbrev transport : Transport InMemoryBroker
transport = record {
  publish = publish str_eq;
  dumps = λ d. "{}";
  repr = λ x. "error";
  clock = λ id. 20;
}

abbrev publisher : OutboxPublisher
publisher = record { worker_id = "a"; batch_size = pos 5; lease = 10; poll = 1; max_backoff = 30 }

abbrev row : OutboxRow
row = record {
  id = 1;
  event_id = event_one.id;
  topic = "noema.observation";
  event_json = to_dict python event_one;
  attempts = 1;
  available_at = 0;
  lease_owner = some "a";
  lease_until = some 10;
  fencing_token = 1;
  last_error = none;
  created_at = 0;
  published_at = none;
}

abbrev store : SqliteStore
store = record { database = record empty_database { outbox = row ∷ [] }; closed = false }

abbrev sent : SqliteStore
sent = (run_once python transport publisher "fresh" noon 15 store (new_broker (pos 1))).1

-- The lease of the row has run out, and the broker refuses the message.
unacknowledged_waits_example : IsWaiting 1 sent
unfolding taken acknowledged publish claim_outbox Outbox.claim_outbox from_dict parse_datetime
    Event.post_init get_field to_dict is_blank
unacknowledged_waits_example =
    unacknowledged_waits python transport publisher "fresh" noon 15 1 store (new_broker (pos 1))
      (ground arith) (row, refl, refl) refl

abbrev message : MemoryMessage
message = record {
  id = "one";
  subject = "noema.observation";
  payload = "{}";
  queue = 0;
  attempts = 1;
  acknowledged = false;
}

abbrev subscription : Subscription InMemoryBroker MemoryMessage
subscription = record {
  get = get (record { queue = 0; closed = false });
  ack = λ m b. b;
  nak = nak;
  id = λ m. m.id;
  payload = λ m. m.payload;
}

abbrev handler : Handler ℕ
handler = record {
  handle = λ e n. (ok tt, n);
  loads = λ s. ok (JsonValue.dict JsonObject.end);
  repr = λ x. "error";
  claimed_at = 50;
  settled_at = 60;
}

abbrev consumer : InboxConsumer
consumer = record { consumer_id = "c"; lease = 10; retry = 5; started = true }

abbrev done : InboxRow
done = record (new_row "one" "c" 0 10) {
  status = completed;
  completed_at = some 9;
  lease_until = none;
}

abbrev waiting_broker : InMemoryBroker
waiting_broker = record (new_broker (pos 0)) { queues = (some message ∷ []) ∷ [] }

abbrev read_broker : InMemoryBroker
read_broker = record (new_broker (pos 0)) { queues = [] ∷ [] }

abbrev world : World InMemoryBroker ℕ
world = record {
  store = record { database = record empty_database { inbox = done ∷ [] }; closed = false };
  broker = waiting_broker;
  handled = 0;
}

completed_not_handled_example :
    process_once python "fresh" noon subscription handler consumer world
    ≡ (ok true, record world { broker = read_broker })
unfolding get take_head run
completed_not_handled_example =
    completed_not_handled python "fresh" noon subscription handler consumer world message
      read_broker done (done ∷ []) [] refl refl refl refl (refl, tt) refl refl
