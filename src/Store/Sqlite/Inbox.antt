-- ===== src/Store/Sqlite/Inbox.antt =====
-- src/noema/store.py: the transactions of `SQLiteEventStore` on the table `inbox`, whose key is a
-- message and a consumer.
pub mod Rows
pub mod Dedup
pub mod Tokens
use noema_agent_sdk.Common.{
  ℕ, ◌+◌, String, Bool, true, false, Option, none, some, List, [], ◌∷◌, ◌++◌, ◌&&◌, ◌||◌,
  if◌then◌else◌, ltb, nat_beq, ◌==◌, string_eq, find,
}
use noema_agent_sdk.Store.Sqlite.Tables.{
  InboxRow, InboxStatus, processing, pending, completed, update_where, count_where,
}

-- src/noema/delivery.py, `InboxDisposition` and `InboxClaim`
pub data InboxClaim : Type 0 where
  acquired : ℕ → InboxClaim
  already_completed busy : InboxClaim

-- WHERE message_id = ? AND consumer_id = ?
abbrev pub has_key : String → String → InboxRow → Bool
has_key m c r = (m == r.message_id) && (c == r.consumer_id)

abbrev pub is_processing : InboxStatus → Bool
is_processing processing = true
is_processing _ = false

-- `available_at > now or (current_lease is not None and current_lease > now)`
abbrev pub is_busy : ℕ → InboxRow → Bool
is_busy now r = ltb now r.available_at || (elim r.lease_until [ none ↦ false | some t ↦ ltb now t ])

-- WHERE … AND fencing_token = ? AND status = 'processing'
abbrev pub is_held : String → String → ℕ → InboxRow → Bool
is_held m c token r = has_key m c r && nat_beq r.fencing_token token && is_processing r.status

abbrev pub new_row : String → String → ℕ → ℕ → InboxRow
new_row m c now until = record {
  message_id = m;
  consumer_id = c;
  status = processing;
  attempts = 1;
  available_at = now;
  lease_until = some until;
  fencing_token = 1;
  last_error = none;
  received_at = now;
  completed_at = none;
}

abbrev pub claim_update : ℕ → ℕ → InboxRow → InboxRow
claim_update until token r = record r {
  status = processing;
  attempts = r.attempts + 1;
  lease_until = some until;
  fencing_token = token;
}

abbrev pub is_completed : InboxStatus → Bool
is_completed completed = true
is_completed _ = false

-- `_claim_inbox_sync`
unfoldable pub claim_inbox : String → String → ℕ → ℕ → List InboxRow → InboxClaim × List InboxRow
claim_inbox m c lease now table = elim (find (has_key m c) table) [
  | none ↦ (acquired 1, table ++ new_row m c now (now + lease) ∷ [])
  | some row ↦
      if is_completed row.status
      then (already_completed, table)
      else if is_busy now row
      then (busy, table)
      else (
        acquired (row.fencing_token + 1),
        update_where (has_key m c) (claim_update (now + lease) (row.fencing_token + 1)) table,
      )
]

-- `_complete_inbox_sync`
unfoldable pub complete_inbox : String → String → ℕ → ℕ → List InboxRow → Bool × List InboxRow
complete_inbox m c token now table = (
  nat_beq (count_where (is_held m c token) table) 1,
  update_where (is_held m c token)
      (λ r. record r { status = completed; completed_at = some now; lease_until = none }) table,
)

-- `_retry_inbox_sync`
unfoldable pub retry_inbox : String → String → ℕ → String → ℕ → List InboxRow → Bool × List InboxRow
retry_inbox m c token error available_at table = (
  nat_beq (count_where (is_held m c token) table) 1,
  update_where (is_held m c token)
      (λ r. record r {
        status = pending;
        available_at = available_at;
        last_error = some error;
        lease_until = none;
      })
      table,
)
