-- ===== src/Delivery/Consumer/Deduplicated.antt =====
-- src/noema/delivery.py, `InboxConsumer`: deliveries of a completed message.
use noema_agent_sdk.Common.{ℕ, ◌≡◌, refl, sym, subst, String, true, false, some, List, ok}
use noema_agent_sdk.Event.{DateTime}
use noema_agent_sdk.Event.Codec.{Builtins}
use noema_agent_sdk.Store.Sqlite.Tables.{InboxRow, completed}
use noema_agent_sdk.Store.Sqlite.Events.{SqliteStore}
use noema_agent_sdk.Store.Sqlite.Inbox.{already_completed}
use noema_agent_sdk.Store.Sqlite.Inbox as Inbox
use noema_agent_sdk.Store.Sqlite.Inbox.Rows.{row_of, Unique}
use noema_agent_sdk.Store.Sqlite.Inbox.Dedup.{InboxCall, run}
use noema_agent_sdk.Store.Sqlite.Inbox.Tokens.{completed_final}
use noema_agent_sdk.Store.Sqlite.Service.{claim_inbox}
use noema_agent_sdk.Delivery.Consumer.{
  Subscription, InboxConsumer, Handler, World, process_message, process_once,
}

claim_answers :
    (m c : String) (lease now : ℕ) (s : SqliteStore)
    → s.closed ≡ false
    → Inbox.claim_inbox m c lease now s.database.inbox ≡ (already_completed, s.database.inbox)
    → claim_inbox m c lease now s ≡ (ok already_completed, s)
unfolding claim_inbox
claim_answers m c lease now s opened e = rw (opened, e) refl

module _ {B M H : Type 0} (py : Builtins) (fallback_id : String) (fallback_time : DateTime)
    (q : Subscription B M) (h : Handler H) (c : InboxConsumer) where
  -- The consumer is started, the store is open, and its inbox is a table with one row for a key, in
  -- which the message is completed, after any inbox calls. Then a delivery of the message leaves the
  -- store and the handler's state as they were, is acknowledged, and counts as processed.
  pub completed_not_handled :
      (w : World B H) (m : M) (b : B) (r : InboxRow) (table : List InboxRow) (xs : List InboxCall)
      → c.started ≡ true
      → q.get w.broker ≡ (some m, b)
      → w.store.closed ≡ false
      → w.store.database.inbox ≡ run table xs
      → Unique table
      → row_of (q.id m) c.consumer_id table ≡ some r
      → r.status ≡ completed
      → process_once py fallback_id fallback_time q h c w
        ≡ (ok true, record w { broker = q.ack m b })
  unfolding process_once
  completed_not_handled w m b r table xs started got opened reached unique found done =
      let (_, claim, _) =
        completed_final (q.id m) c.consumer_id c.lease 0 h.claimed_at r table xs unique found
          done in
      let answer : claim_inbox (q.id m) c.consumer_id c.lease h.claimed_at w.store
          ≡ (ok already_completed, w.store) =
        claim_answers (q.id m) c.consumer_id c.lease h.claimed_at w.store opened (
          subst
            (λ rows.
              Inbox.claim_inbox (q.id m) c.consumer_id c.lease h.claimed_at rows
              ≡ (already_completed, rows))
            (sym reached) claim) in
      rw (started, got, process_message, answer)
        (λ i. (
          ok true,
          record { store = (answer i).1; broker = q.ack m (got i).1; handled = w.handled },
        ))
