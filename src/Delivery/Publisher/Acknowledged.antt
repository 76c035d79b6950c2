-- ===== src/Delivery/Publisher/Acknowledged.antt =====
-- src/noema/delivery.py, `OutboxPublisher`: the rows whose event the broker does not take.
use noema_agent_sdk.Common.{
  Result-cases, filter, ℕ, ◌+◌, ◌≡◌, refl, String, Bool, true, false, none, some, List, [], ◌∷◌,
  nat_beq, nat_eq, contains, if◌then◌else◌, Result, ok, err, arith, Bool-cases, inl, inr,
}
use noema_agent_sdk.Event.{DateTime}
use noema_agent_sdk.Event.Codec.{Builtins}
use noema_agent_sdk.Store.Sqlite.Tables.{OutboxRow, update_where, sql_limit}
use noema_agent_sdk.Store.Sqlite.Outbox.{OutboxRecord, is_held, is_ready, claim_update}
use noema_agent_sdk.Store.Sqlite.Outbox as Outbox
use noema_agent_sdk.Store.Sqlite.Outbox.Claims.{row_at-id, ids, claim_outbox_lem}
use noema_agent_sdk.Store.Sqlite.Outbox.Rows.{row_at, Ascending, row_at-update_where}
use noema_agent_sdk.Store.Sqlite.Events.{SqliteStore}
use noema_agent_sdk.Store.Sqlite.Service.{claim_outbox, complete_outbox, retry_outbox}
use noema_agent_sdk.Delivery.Publisher.{
  OutboxPublisher, Transport, send, counted, settle_record, publish_records, backoff, run_once,
}

-- The row under the id is there and waits to be published.
abbrev pub IsWaiting : ℕ → SqliteStore → Type 0
IsWaiting id s = (r : OutboxRow) × (row_at id s.database.outbox ≡ some r) × (r.published_at ≡ none)

complete_table :
    (k token now : ℕ) (table : List OutboxRow)
    → (Outbox.complete_outbox k token now table).1
      ≡ update_where
          (is_held k token)
          (λ r. record r { published_at = some now; lease_owner = none; lease_until = none })
          table
unfolding Outbox.complete_outbox
complete_table k token now table = refl

-- a row after `retry_outbox`
abbrev retried : ℕ → String → OutboxRow → OutboxRow
retried at error r = record r {
  available_at = at;
  last_error = some error;
  lease_owner = none;
  lease_until = none;
}

retry_table :
    (k token at : ℕ) (error : String) (table : List OutboxRow)
    → (Outbox.retry_outbox k token error at table).1
      ≡ update_where (is_held k token) (retried at error) table
unfolding Outbox.retry_outbox
retry_table k token at error table = refl

complete-IsWaiting :
    (id k token now : ℕ) (s : SqliteStore)
    → nat_beq k id ≡ false
    → IsWaiting id s
    → IsWaiting id (complete_outbox k token now s).1
unfolding complete_outbox
complete-IsWaiting id k token now s other (r, found, waits) =
    let same : r.id ≡ id = row_at-id id s.database.outbox r found in
    let spared : is_held k token r ≡ false = ground arith in
    elim (Bool-cases s.closed) [
      | inl shut ↦ (r, ground arith, waits)
      | inr opened ↦ (
        r,
        ground (
          arith,
          row_at-update_where (is_held k token)
              (λ r. record r { published_at = some now; lease_owner = none; lease_until = none }) id
              s.database.outbox (λ x. refl),
          complete_table k token now s.database.outbox,
        ),
        waits,
      )
    ]

retry-IsWaiting :
    (id k token at : ℕ) (error : String) (s : SqliteStore)
    → IsWaiting id s
    → IsWaiting id (retry_outbox k token error at s).1
unfolding retry_outbox
retry-IsWaiting id k token at error s (r, found, waits) = elim (Bool-cases s.closed) [
  | inl shut ↦ (r, ground arith, waits)
  | inr opened ↦ elim (Bool-cases (is_held k token r)) [
    | inl held ↦ (
      retried at error r,
      ground (
        arith,
        row_at-update_where (is_held k token) (retried at error) id s.database.outbox (λ x. refl),
        retry_table k token at error s.database.outbox,
      ),
      waits,
    )
    | inr free ↦ (
      r,
      ground (
        arith,
        row_at-update_where (is_held k token) (retried at error) id s.database.outbox (λ x. refl),
        retry_table k token at error s.database.outbox,
      ),
      waits,
    )
  ]
]

abbrev is_ok : Result (Unit {0}) → Bool
is_ok (ok _) = true
is_ok (err _) = false

module _ {B : Type 0} (py : Builtins) (t : Transport B) (p : OutboxPublisher) where
  -- the ids of the records whose `publish` the broker answers without an exception
  unfoldable pub acknowledged : List OutboxRecord → B → List ℕ
  acknowledged [] b = []
  acknowledged (r ∷ records) b =
      let (sent, b') = send py t p r b in
      let rest = acknowledged records b' in elim sent [ ok _ ↦ r.id ∷ rest | err _ ↦ rest ]

  settle-IsWaiting :
      (id : ℕ) (r : OutboxRecord) (sent : Result (Unit {0})) (s : SqliteStore)
      → (if is_ok sent then nat_beq r.id id else false) ≡ false
      → IsWaiting id s
      → IsWaiting id (settle_record py t p r sent s).1
  unfolding settle_record
  settle-IsWaiting id r (ok _) s other waits =
      complete-IsWaiting id r.id r.fencing_token (t.clock r.id) s other waits
  settle-IsWaiting id r (err x) s other waits =
      let at : ℕ = t.clock r.id + backoff p r.attempts in
      let kept : IsWaiting id (retry_outbox r.id r.fencing_token (t.repr x) at s).1 =
        retry-IsWaiting id r.id r.fencing_token at (t.repr x) s waits in
      elim (Result-cases (retry_outbox r.id r.fencing_token (t.repr x) at s).0) [
        | inl (b, e) ↦ rw (e, settle_record) kept
        | inr (y, e) ↦ rw (e, settle_record) kept
      ]

  publish_records-IsWaiting :
      (id : ℕ) (records : List OutboxRecord) (completed : ℕ) (s : SqliteStore) (b : B)
      → contains id (acknowledged records b) ≡ false
      → IsWaiting id s
      → IsWaiting id (publish_records py t p records completed s b).1
  unfolding publish_records acknowledged
  publish_records-IsWaiting id [] completed s b out waits = waits
  publish_records-IsWaiting id (r ∷ records) completed s b out waits =
      let sent : Result (Unit {0}) = (send py t p r b).0 in
      let b' : B = (send py t p r b).1 in
      let (other, rest) : ((if is_ok sent then nat_beq r.id id else false) ≡ false)
          × (contains id (acknowledged records b') ≡ false) =
        elim (Result-cases sent) [
          | inl (u, e) ↦ ground (arith, e)
          | inr (x, e) ↦ ground (arith, e)
        ] in
      let kept : IsWaiting id (settle_record py t p r sent s).1 =
        settle-IsWaiting id r sent s other waits in
      elim (Result-cases (settle_record py t p r sent s).0) [
        | inl (done, e) ↦
            rw (e, publish_records)
              (publish_records-IsWaiting id records (counted py t p done completed)
                (settle_record py t p r sent s).1 b' rest kept)
        | inr (x, e) ↦ rw (e, publish_records) kept
      ]

  module _ (fallback_id : String) (fallback_time : DateTime) (now : ℕ) where
    -- the ids of the rows whose event the broker takes in a round
    unfoldable pub taken : SqliteStore → B → List ℕ
    taken s b =
        elim (claim_outbox py fallback_id fallback_time p.worker_id p.batch_size p.lease now s).0 [
          | err x ↦ []
          | ok records ↦ acknowledged records b
        ]

    -- A claim leaves a row that waits waiting.
    claim_table-IsWaiting :
        (id : ℕ) (s : SqliteStore)
        → (o : Result (List OutboxRecord) × List OutboxRow)
        → Outbox.claim_outbox py fallback_id fallback_time p.worker_id p.batch_size p.lease now
            s.database.outbox
          ≡ o
        → Ascending 1 s.database.outbox
        → IsWaiting id s
        → (r : OutboxRow) × (row_at id o.1 ≡ some r) × (r.published_at ≡ none)
    claim_table-IsWaiting id s (err x, table) e h (r, found, waits) =
        (r, (unfold Outbox.claim_outbox in ground arith), waits)
    claim_table-IsWaiting id s (ok records, table) e h (r, found, waits) =
        let (of_rows, at_ids) =
          claim_outbox_lem py fallback_id fallback_time p.worker_id p.batch_size p.lease now
            s.database.outbox records table h e in
        let rows = sql_limit p.batch_size (filter (is_ready now) s.database.outbox) in
        elim (Bool-cases (contains id (ids rows))) [
          | inl listed ↦
              (claim_update p.worker_id (now + p.lease) r r, ground (arith, at_ids id), waits)
          | inr spared ↦ (r, ground (arith, at_ids id), waits)
        ]

    claim-IsWaiting :
        (id : ℕ) (s : SqliteStore)
        → Ascending 1 s.database.outbox
        → IsWaiting id s
        → IsWaiting id
            (claim_outbox py fallback_id fallback_time p.worker_id p.batch_size p.lease now s).1
    unfolding claim_outbox
    claim-IsWaiting id s h waits = elim (Bool-cases s.closed) [
      | inl shut ↦ rw shut waits
      | inr opened ↦ rw opened (claim_table-IsWaiting id s _ refl h waits)
    ]

    -- In a store whose outbox ids ascend, a row that waits to be published, and whose event the
    -- broker does not take in a round of the publisher, still waits after the round.
    pub unacknowledged_waits :
        (id : ℕ) (s : SqliteStore) (b : B)
        → Ascending 1 s.database.outbox
        → IsWaiting id s
        → contains id (taken s b) ≡ false
        → IsWaiting id (run_once py t p fallback_id fallback_time now s b).1
    unfolding run_once taken
    unacknowledged_waits id s b h waits out =
        let claim =
          claim_outbox py fallback_id fallback_time p.worker_id p.batch_size p.lease now s in
        let kept : IsWaiting id claim.1 = claim-IsWaiting id s h waits in
        elim (Result-cases claim.0) [
          | inl (records, e) ↦
              rw (e, run_once)
                (publish_records-IsWaiting id records 0 claim.1 b (ground (arith, e)) kept)
          | inr (x, e) ↦ rw (e, run_once) kept
        ]
