-- ===== src/Store/Sqlite/Service.antt =====
-- src/noema/store.py, the delivery methods of `SQLiteEventStore` on the whole store: each one
-- refuses a closed store, and runs one transaction on its table.
use noema_agent_sdk.Common.{ℕ, String, Bool, List, Result, ok, err, if◌then◌else◌, runtime_error}
use noema_agent_sdk.Common.Int.{ℤ}
use noema_agent_sdk.Event.{DateTime}
use noema_agent_sdk.Event.Codec.{Builtins}
use noema_agent_sdk.Store.Sqlite.Tables.{OutboxRow, InboxRow}
use noema_agent_sdk.Store.Sqlite.Events.{SqliteStore}
use noema_agent_sdk.Store.Sqlite.Outbox.{OutboxRecord}
use noema_agent_sdk.Store.Sqlite.Outbox as Outbox
use noema_agent_sdk.Store.Sqlite.Inbox.{InboxClaim}
use noema_agent_sdk.Store.Sqlite.Inbox as Inbox

abbrev with_outbox_table : SqliteStore → List OutboxRow → SqliteStore
with_outbox_table s table = record s { database = record s.database { outbox = table } }

abbrev with_inbox_table : SqliteStore → List InboxRow → SqliteStore
with_inbox_table s table = record s { database = record s.database { inbox = table } }

-- `_ensure_open` before a transaction
abbrev guarded : {A : Type 0} → SqliteStore → Result A × SqliteStore → Result A × SqliteStore
guarded s p = if s.closed then (err (runtime_error "event store is closed"), s) else p

unfoldable pub claim_outbox :
    Builtins
    → String
    → DateTime
    → String
    → ℤ
    → ℕ
    → ℕ
    → SqliteStore
    → Result (List OutboxRecord) × SqliteStore
claim_outbox py fallback_id fallback_time worker limit lease now s =
    let (r, table) =
      Outbox.claim_outbox py fallback_id fallback_time worker limit lease now s.database.outbox in
    guarded s (r, with_outbox_table s table)

unfoldable pub complete_outbox : ℕ → ℕ → ℕ → SqliteStore → Result Bool × SqliteStore
complete_outbox id token now s =
    let (b, table) = Outbox.complete_outbox id token now s.database.outbox in
    guarded s (ok b, with_outbox_table s table)

unfoldable pub retry_outbox : ℕ → ℕ → String → ℕ → SqliteStore → Result Bool × SqliteStore
retry_outbox id token error available_at s =
    let (b, table) = Outbox.retry_outbox id token error available_at s.database.outbox in
    guarded s (ok b, with_outbox_table s table)

unfoldable pub claim_inbox : String → String → ℕ → ℕ → SqliteStore → Result InboxClaim × SqliteStore
claim_inbox m c lease now s =
    let (claim, table) = Inbox.claim_inbox m c lease now s.database.inbox in
    guarded s (ok claim, with_inbox_table s table)

unfoldable pub complete_inbox : String → String → ℕ → ℕ → SqliteStore → Result Bool × SqliteStore
complete_inbox m c token now s =
    let (b, table) = Inbox.complete_inbox m c token now s.database.inbox in
    guarded s (ok b, with_inbox_table s table)

unfoldable pub retry_inbox :
    String → String → ℕ → String → ℕ → SqliteStore → Result Bool × SqliteStore
retry_inbox m c token error available_at s =
    let (b, table) = Inbox.retry_inbox m c token error available_at s.database.inbox in
    guarded s (ok b, with_inbox_table s table)

unfoldable pub pending_outbox_count : SqliteStore → Result ℕ
pending_outbox_count s =
    if s.closed
    then err (runtime_error "event store is closed")
    else ok (Outbox.pending_outbox_count s.database.outbox)
