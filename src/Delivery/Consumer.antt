-- ===== src/Delivery/Consumer.antt =====
-- src/noema/delivery.py, `InboxConsumer` over the SQLite store, any subscription and any handler.
-- `json.loads` is a parameter; a cancelled task is not modelled.
pub mod Deduplicated
use noema_agent_sdk.Common.{
  ℕ, ◌+◌, String, Bool, true, false, Option, none, some, Result, ok, err, ◌>>=◌, Exception,
  value_error, runtime_error, if◌then◌else◌,
}
use noema_agent_sdk.Common.Text.{is_empty}
use noema_agent_sdk.Event.{DateTime, JsonValue, JsonObject, Event}
use noema_agent_sdk.Event.Codec.{Builtins, from_dict}
use noema_agent_sdk.Store.Sqlite.Events.{SqliteStore}
use noema_agent_sdk.Store.Sqlite.Inbox.{InboxClaim, acquired, already_completed, busy}
use noema_agent_sdk.Store.Sqlite.Service.{claim_inbox, complete_inbox, retry_inbox}

-- `BrokerSubscription` and `BrokerMessage`, over the state `B` of the broker; a message is its id
-- and its payload, with what else `M` says.
pub record Subscription (B M : Type 0) : Type 0 where
  pub get : B → Option M × B
  pub ack : M → B → B
  pub nak : M → B → B
  pub id : M → String
  pub payload : M → String

pub record InboxConsumer : Type 0 where
  pub consumer_id : String
  pub lease : ℕ
  pub retry : ℕ
  pub started : Bool

-- the check of `InboxConsumer.__init__`
unfoldable pub new_consumer : String → ℕ → ℕ → Result InboxConsumer
new_consumer consumer_id lease retry =
    if is_empty consumer_id
    then err (value_error "consumer_id must be non-empty")
    else ok (record { consumer_id = consumer_id; lease = lease; retry = retry; started = false })

-- The handler works on a state `H`. `claimed_at` and `settled_at` are the instants at which the
-- message is claimed and its outcome is stored.
pub record Handler (H : Type 0) : Type 0 where
  pub handle : Event → H → Result (Unit {0}) × H
  pub loads : String → Result JsonValue
  pub repr : Exception → String
  pub claimed_at : ℕ
  pub settled_at : ℕ

-- `if not isinstance(payload, Mapping): raise …`
abbrev pub as_mapping : JsonValue → Result JsonObject
as_mapping (JsonValue.dict d) = ok d
as_mapping _ = err (value_error "broker event payload must be a JSON object")

pub record World (B H : Type 0) : Type 0 where
  pub store : SqliteStore
  pub broker : B
  pub handled : H

module _ {B M H : Type 0} (py : Builtins) (fallback_id : String) (fallback_time : DateTime)
    (q : Subscription B M) (h : Handler H) (c : InboxConsumer) where
  -- the `try` block: the payload is decoded, and the event goes to the handler
  unfoldable pub handle_payload : String → H → Result (Unit {0}) × H
  handle_payload payload s =
      elim (do
        value ← h.loads payload
        d ← as_mapping value
        from_dict py fallback_id fallback_time d) [
          | err x ↦ (err x, s)
          | ok event ↦ h.handle event s
        ]

  -- the message goes back
  abbrev pub give_back : M → Result Bool → SqliteStore → H → B → Result Bool × World B H
  give_back m (err x) s t b = (err x, record { store = s; broker = b; handled = t })
  give_back m (ok _) s t b = (ok false, record { store = s; broker = q.nak m b; handled = t })

  -- what follows the handler
  unfoldable pub settle_message :
      M → ℕ → Result (Unit {0}) → SqliteStore → H → B → Result Bool × World B H
  settle_message m token (err x) s t b =
      let (retried, s') =
        retry_inbox (q.id m) c.consumer_id token (h.repr x) (h.settled_at + c.retry) s in
      give_back m retried s' t b
  settle_message m token (ok _) s t b =
      let (completed, s') = complete_inbox (q.id m) c.consumer_id token h.settled_at s in
      elim completed [
        | err x ↦ (err x, record { store = s'; broker = b; handled = t })
        | ok done ↦
            if done
            then (ok true, record { store = s'; broker = q.ack m b; handled = t })
            else (ok false, record { store = s'; broker = q.nak m b; handled = t })
      ]

  -- what `process_once` does with a message
  unfoldable pub process_message : M → SqliteStore → H → B → Result Bool × World B H
  unfolding handle_payload settle_message
  process_message m s t b =
      let (claim, s') = claim_inbox (q.id m) c.consumer_id c.lease h.claimed_at s in
      elim claim [
        | err x ↦ (err x, record { store = s'; broker = b; handled = t })
        | ok already_completed ↦ (ok true, record { store = s'; broker = q.ack m b; handled = t })
        | ok busy ↦ (ok false, record { store = s'; broker = q.nak m b; handled = t })
        | ok (acquired token) ↦
            let (result, t') = handle_payload (q.payload m) t in
            settle_message m token result s' t' b
      ]

  -- `process_once`
  unfoldable pub process_once : World B H → Result Bool × World B H
  unfolding process_message
  process_once w =
      if c.started
      then (let (got, b) = q.get w.broker in
          elim got [
            | none ↦ (ok false, record w { broker = b })
            | some m ↦ process_message m w.store w.handled b
          ])
      else (err (runtime_error "inbox consumer is not started"), w)
