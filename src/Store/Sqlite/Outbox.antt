-- ===== src/Store/Sqlite/Outbox.antt =====
-- src/noema/store.py: the transactions of `SQLiteEventStore` on the table `outbox`. `now` is the
-- instant that the method reads, `lease` the lease in microseconds.
pub mod Rows
pub mod Claims
pub mod Leases
pub mod Fencing
pub mod Published
pub mod Calls
pub mod Tokens
use noema_agent_sdk.Common.{
  ℕ, ◌+◌, String, Bool, true, false, Option, none, some, List, [], ◌∷◌, ◌&&◌, ◌||◌, if◌then◌else◌,
  leb, nat_beq, filter, Result, ok, err, ◌>>=◌,
}
use noema_agent_sdk.Common.Int.{ℤ}
use noema_agent_sdk.Event.{DateTime, Event}
use noema_agent_sdk.Event.Codec.{Builtins, from_dict}
use noema_agent_sdk.Store.Sqlite.Tables.{OutboxRow, update_where, count_where, sql_limit, is_null}

-- src/noema/delivery.py, `OutboxRecord`
pub record OutboxRecord : Type 0 where
  pub id : ℕ
  pub event : Event
  pub topic : String
  pub attempts : ℕ
  pub fencing_token : ℕ

-- WHERE published_at IS NULL AND available_at <= ? AND (lease_until IS NULL OR lease_until <= ?)
abbrev pub is_ready : ℕ → OutboxRow → Bool
is_ready now r =
    is_null r.published_at
    && leb r.available_at now
    && (elim r.lease_until [ none ↦ true | some t ↦ leb t now ])

-- WHERE id = ? AND published_at IS NULL
abbrev pub has_open_id : ℕ → OutboxRow → Bool
has_open_id id r = nat_beq r.id id && is_null r.published_at

-- WHERE id = ? AND fencing_token = ? AND published_at IS NULL
abbrev pub is_held : ℕ → ℕ → OutboxRow → Bool
is_held id token r = nat_beq r.id id && nat_beq r.fencing_token token && is_null r.published_at

-- the columns that a claim of `row` sets on an updated row
abbrev pub claim_update : String → ℕ → OutboxRow → OutboxRow → OutboxRow
claim_update worker until row r = record r {
  lease_owner = some worker;
  lease_until = some until;
  fencing_token = row.fencing_token + 1;
  attempts = row.attempts + 1;
}

module _ (py : Builtins) (fallback_id : String) (fallback_time : DateTime) where
  abbrev pub to_record : OutboxRow → Result OutboxRecord
  to_record row = do
    event ← from_dict py fallback_id fallback_time row.event_json
    ok (record {
      id = row.id;
      event = event;
      topic = row.topic;
      attempts = row.attempts + 1;
      fencing_token = row.fencing_token + 1;
    })

  -- the loop over the selected rows: the records, and the table after the updates
  unfoldable pub claim_rows :
      String → ℕ → List OutboxRow → List OutboxRow → Result (List OutboxRecord × List OutboxRow)
  claim_rows worker until [] table = ok ([], table)
  claim_rows worker until (row ∷ rows) table = do
    r ← to_record row
    rest ←
        claim_rows worker until rows
          (update_where (has_open_id row.id) (claim_update worker until row) table)
    ok (r ∷ rest.0, rest.1)

  -- `_claim_outbox_sync`; a row that does not decode rolls everything back.
  unfoldable pub claim_outbox :
      String → ℤ → ℕ → ℕ → List OutboxRow → Result (List OutboxRecord) × List OutboxRow
  unfolding claim_rows
  claim_outbox worker limit lease now table =
      elim (claim_rows worker (now + lease) (sql_limit limit (filter (is_ready now) table)) table) [
        | ok (records, table') ↦ (ok records, table')
        | err x ↦ (err x, table)
      ]

-- `_complete_outbox_sync`
unfoldable pub complete_outbox : ℕ → ℕ → ℕ → List OutboxRow → Bool × List OutboxRow
complete_outbox id token now table = (
  nat_beq (count_where (is_held id token) table) 1,
  update_where (is_held id token)
      (λ r. record r { published_at = some now; lease_owner = none; lease_until = none }) table,
)

-- `_retry_outbox_sync`
unfoldable pub retry_outbox : ℕ → ℕ → String → ℕ → List OutboxRow → Bool × List OutboxRow
retry_outbox id token error available_at table = (
  nat_beq (count_where (is_held id token) table) 1,
  update_where (is_held id token)
      (λ r. record r {
        available_at = available_at;
        last_error = some error;
        lease_owner = none;
        lease_until = none;
      })
      table,
)

-- `_pending_outbox_count_sync`
unfoldable pub pending_outbox_count : List OutboxRow → ℕ
pending_outbox_count table = count_where (λ (r : OutboxRow). is_null r.published_at) table
