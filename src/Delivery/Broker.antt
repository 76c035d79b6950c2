-- ===== src/Delivery/Broker.antt =====
-- src/noema/delivery.py, `InMemoryBroker`, its messages and its subscriptions.
-- The in-memory broker. A queue is shared by reference between a subscription and its messages, so
-- queues stand in a heap and references are numbers. `fnmatch` is a parameter. A `put` into a full
-- queue waits for room, which has no effect of its own; a `get` that finds nothing in time is none.
use Prim.Native.Char.{code}
use noema_agent_sdk.Common.{
  ℕ, zero, suc, ◌+◌, String, Bool, true, false, Option, none, some, List, [], ◌∷◌, ◌++◌, length,
  if◌then◌else◌, nat_beq, string_eq, pair_eq, Result, ok, err, runtime_error, connection_error,
  value_error,
}
use noema_agent_sdk.Common.Int.{ℤ, pos, ◌-ℤ◌, ltb_ℤ}
use noema_agent_sdk.Common.Dict.{Dict, has_key, insert}

-- `_MemoryMessage`
pub record MemoryMessage : Type 0 where
  pub id : String
  pub subject : String
  pub payload : String
  pub queue : ℕ
  pub attempts : ℕ
  pub acknowledged : Bool

-- `_MemorySubscription`
pub record MemorySubscription : Type 0 where
  pub queue : ℕ
  pub closed : Bool

-- `InMemoryBroker`; `none` in a queue is the end marker.
pub record InMemoryBroker : Type 0 where
  pub fail_publishes : ℤ
  pub published : List (String × String)
  pub subscriptions : Dict (String × String) ℕ
  pub queues : List (List (Option MemoryMessage))
  pub closed : Bool

abbrev pub new_broker : ℤ → InMemoryBroker
new_broker fail_publishes = record {
  fail_publishes = fail_publishes;
  published = [];
  subscriptions = [];
  queues = [];
  closed = false;
}

-- `queue.put(item)`
unfoldable pub put :
    ℕ
    → Option MemoryMessage
    → List (List (Option MemoryMessage))
    → List (List (Option MemoryMessage))
put n item [] = []
put zero item (q ∷ queues) = (q ++ item ∷ []) ∷ queues
put (suc n) item (q ∷ queues) = q ∷ put n item queues

-- the head of a queue, and the queues without it
unfoldable pub take_head :
    ℕ
    → List (List (Option MemoryMessage))
    → Option MemoryMessage × List (List (Option MemoryMessage))
take_head n [] = (none, [])
take_head zero ([] ∷ queues) = (none, [] ∷ queues)
take_head zero ((m ∷ q) ∷ queues) = (m, q ∷ queues)
take_head (suc n) (q ∷ queues) = let (m, rest) = take_head n queues in (m, q ∷ rest)

-- `_MemoryMessage.ack`: nothing but the message changes.
unfoldable pub ack : MemoryMessage → MemoryMessage
ack m = record m { acknowledged = true }

-- `_MemoryMessage.nak`
unfoldable pub nak : MemoryMessage → InMemoryBroker → InMemoryBroker
unfolding put
nak m b = record b { queues = put m.queue (some (record m { attempts = m.attempts + 1 })) b.queues }

-- `_MemorySubscription.get`
unfoldable pub get : MemorySubscription → InMemoryBroker → Option MemoryMessage × InMemoryBroker
unfolding take_head
get s b =
    if s.closed
    then (none, b)
    else (let (m, queues) = take_head s.queue b.queues in (m, record b { queues = queues }))

-- `_MemorySubscription.close`
unfoldable pub close_subscription :
    MemorySubscription → InMemoryBroker → MemorySubscription × InMemoryBroker
unfolding put
close_subscription s b =
    if s.closed
    then (s, b)
    else (record s { closed = true }, record b { queues = put s.queue none b.queues })

-- `pattern.replace(">", "*")`
unfoldable pub wildcards : String → String
wildcards String.[] = String.[]
wildcards (String.◌∷◌ c s) = String.◌∷◌ (if nat_beq (code c) 0x3e then "*" else c) (wildcards s)

module _ (fnmatchcase : String → String → Bool) where
  -- `_subject_matches`
  unfoldable pub subject_matches : String → String → Bool
  unfolding wildcards
  subject_matches subject pattern = fnmatchcase subject (wildcards pattern)

  -- the loop of `publish` over the subscriptions
  unfoldable pub deliver :
      String
      → String
      → String
      → Dict (String × String) ℕ
      → List (List (Option MemoryMessage))
      → List (List (Option MemoryMessage))
  unfolding subject_matches put
  deliver subject payload message_id [] queues = queues
  deliver subject payload message_id (((pattern, _), q) ∷ subscriptions) queues =
      deliver subject payload message_id subscriptions (
        if subject_matches subject pattern
        then put q
            (some (record {
              id = message_id;
              subject = subject;
              payload = payload;
              queue = q;
              attempts = 1;
              acknowledged = false;
            }))
            queues
        else queues)

  -- `publish`
  unfoldable pub publish :
      String → String → String → InMemoryBroker → Result (Unit {0}) × InMemoryBroker
  unfolding deliver
  publish subject payload message_id b =
      if b.closed
      then (err (runtime_error "broker is closed"), b)
      else if ltb_ℤ (pos 0) b.fail_publishes
      then (
        err (connection_error "injected broker publish failure"),
        record b { fail_publishes = b.fail_publishes -ℤ pos 1 },
      )
      else (
        ok tt,
        record b {
          published = b.published ++ (subject, message_id) ∷ [];
          queues = deliver subject payload message_id b.subscriptions b.queues;
        },
      )

-- `subscribe`
unfoldable pub subscribe :
    String → String → InMemoryBroker → Result MemorySubscription × InMemoryBroker
unfolding insert
subscribe subject durable b =
    if b.closed
    then (err (runtime_error "broker is closed"), b)
    else if has_key (subject, durable) b.subscriptions
    then (err (value_error "durable subscription already active"), b)
    else (
      ok (record { queue = length b.queues; closed = false }),
      record b {
        subscriptions = insert (subject, durable) (length b.queues) b.subscriptions;
        queues = b.queues ++ [] ∷ [];
      },
    )

-- the loop of `close` over the subscriptions
unfoldable pub put_ends :
    Dict (String × String) ℕ
    → List (List (Option MemoryMessage))
    → List (List (Option MemoryMessage))
unfolding put
put_ends [] queues = queues
put_ends ((_, q) ∷ subscriptions) queues = put_ends subscriptions (put q none queues)

-- `close`
unfoldable pub close : InMemoryBroker → InMemoryBroker
unfolding put_ends
close b =
    if b.closed
    then b
    else record b { queues = put_ends b.subscriptions b.queues; subscriptions = []; closed = true }
