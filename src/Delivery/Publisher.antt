-- ===== src/Delivery/Publisher.antt =====
-- src/noema/delivery.py, `OutboxPublisher` over the SQLite store and any broker. The texts of
-- events, `repr` of an exception and the clock are parameters; a cancelled task is not modelled.
pub mod Acknowledged
use noema_agent_sdk.Common.{
  ℕ, ◌+◌, ◌*◌, ◌^◌, min, String, Bool, true, false, List, [], ◌∷◌, ◌||◌, if◌then◌else◌, leb, Result,
  ok, err, Exception, value_error,
}
use noema_agent_sdk.Common.Int.{ℤ, pos, leb_ℤ}
use noema_agent_sdk.Event.{DateTime, JsonObject}
use noema_agent_sdk.Event.Codec.{Builtins, to_dict}
use noema_agent_sdk.Store.Sqlite.Outbox.{OutboxRecord}
use noema_agent_sdk.Store.Sqlite.Events.{SqliteStore}
use noema_agent_sdk.Store.Sqlite.Service.{claim_outbox, complete_outbox, retry_outbox}

-- Times are in microseconds.
pub record OutboxPublisher : Type 0 where
  pub worker_id : String
  pub batch_size : ℤ
  pub lease : ℕ
  pub poll : ℕ
  pub max_backoff : ℕ

-- the check of `OutboxPublisher.__init__`
unfoldable pub new_publisher : String → ℤ → ℕ → ℕ → ℕ → Result OutboxPublisher
new_publisher worker_id batch_size lease poll max_backoff =
    if leb_ℤ batch_size (pos 0) || leb lease 0 || leb poll 0
    then err (value_error "outbox publisher limits must be positive")
    else ok (record {
      worker_id = worker_id;
      batch_size = batch_size;
      lease = lease;
      poll = poll;
      max_backoff = max_backoff;
    })

-- the delay before a record is tried again
unfoldable pub backoff : OutboxPublisher → ℕ → ℕ
backoff p attempts = min p.max_backoff (p.poll * 2 ^ min attempts 12)

-- What the publisher uses besides the store: `EventBroker.publish` with the topic, the text and the
-- message id, `json.dumps`, `repr`, and the instant at which the outcome of a row is stored.
pub record Transport (B : Type 0) : Type 0 where
  pub publish : String → String → String → B → Result (Unit {0}) × B
  pub dumps : JsonObject → String
  pub repr : Exception → String
  pub clock : ℕ → ℕ

module _ {B : Type 0} (py : Builtins) (t : Transport B) (p : OutboxPublisher) where
  -- `broker.publish` of a record
  abbrev pub send : OutboxRecord → B → Result (Unit {0}) × B
  send r b = t.publish r.topic (t.dumps (to_dict py r.event)) r.event.id b

  abbrev pub counted : Bool → ℕ → ℕ
  counted done completed = if done then completed + 1 else completed

  -- the outcome of a record in the store
  unfoldable pub settle_record :
      OutboxRecord → Result (Unit {0}) → SqliteStore → Result Bool × SqliteStore
  unfolding backoff
  settle_record r (ok _) s = complete_outbox r.id r.fencing_token (t.clock r.id) s
  settle_record r (err x) s =
      let (retried, s') =
        retry_outbox r.id r.fencing_token (t.repr x) (t.clock r.id + backoff p r.attempts) s in
      elim retried [ ok _ ↦ (ok false, s') | err y ↦ (err y, s') ]

  -- the loop of `run_once`; an exception of the store ends it
  unfoldable pub publish_records :
      List OutboxRecord → ℕ → SqliteStore → B → Result ℕ × SqliteStore × B
  unfolding settle_record
  publish_records [] completed s b = (ok completed, s, b)
  publish_records (r ∷ records) completed s b =
      let (sent, b') = send r b in
      let (settled, s') = settle_record r sent s in
      elim settled [
        | err x ↦ (err x, s', b')
        | ok done ↦ publish_records records (counted done completed) s' b'
      ]

  -- `run_once`
  unfoldable pub run_once : String → DateTime → ℕ → SqliteStore → B → Result ℕ × SqliteStore × B
  unfolding publish_records
  run_once fallback_id fallback_time now s b =
      let (claimed, s') =
        claim_outbox py fallback_id fallback_time p.worker_id p.batch_size p.lease now s in
      elim claimed [ err x ↦ (err x, s', b) | ok records ↦ publish_records records 0 s' b ]
