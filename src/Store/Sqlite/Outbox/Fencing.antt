-- ===== src/Store/Sqlite/Outbox/Fencing.antt =====
-- src/noema/store.py: the fencing tokens of `outbox`, under any calls.
use noema_agent_sdk.Common.{
  ℕ, ◌+◌, sym, ◌≡◌, ◌⊎◌, ap, subst, ◌∙◌, true, false, none, some, List, [], ◌∷◌, filter, arith,
  nat_eq, inl, inr, contains, String, ok,
}
use noema_agent_sdk.Common.Int.{ℤ}
use noema_agent_sdk.Event.{DateTime}
use noema_agent_sdk.Event.Codec.{Builtins}
use noema_agent_sdk.Store.Sqlite.Tables.{OutboxRow, count_where, sql_limit}
use noema_agent_sdk.Store.Sqlite.Outbox.{
  OutboxRecord, is_ready, is_held, claim_update, to_record, claim_outbox, complete_outbox,
  retry_outbox,
}
use noema_agent_sdk.Store.Sqlite.Outbox.Rows.{
  row_at, Ascending, Selected, limit-Selected, count-is_held, update_where_none,
}
use noema_agent_sdk.Store.Sqlite.Outbox.Claims.{ids, RecordsOf, claim_outbox_lem}
use noema_agent_sdk.Store.Sqlite.Outbox.Leases.{claim_outbox-Ascending}
use noema_agent_sdk.Store.Sqlite.Outbox.Calls.{OutboxCall, run, run-Ascending}
use noema_agent_sdk.Store.Sqlite.Outbox.Tokens.{Reached, run-Reached}

-- A token that is not the row's, and any token for a published row, is refused: nothing changes.
pub complete_refused :
    (id token now n : ℕ) (table : List OutboxRow) (r : OutboxRow)
    → Ascending n table
    → row_at id table ≡ some r
    → is_held id token r ≡ false
    → complete_outbox id token now table ≡ (false, table)
unfolding complete_outbox
complete_refused id token now n table r h found stale =
    let zero_rows : count_where (is_held id token) table ≡ 0 =
      ground (arith, count-is_held id token n table h) in
    ground (
      arith,
      update_where_none (is_held id token)
          (λ (x : OutboxRow). record x {
            published_at = some now;
            lease_owner = none;
            lease_until = none;
          })
          table zero_rows,
    )

pub retry_refused :
    (id token : ℕ) (error : String) (at n : ℕ) (table : List OutboxRow) (r : OutboxRow)
    → Ascending n table
    → row_at id table ≡ some r
    → is_held id token r ≡ false
    → retry_outbox id token error at table ≡ (false, table)
unfolding retry_outbox
retry_refused id token error at n table r h found stale =
    let zero_rows : count_where (is_held id token) table ≡ 0 =
      ground (arith, count-is_held id token n table h) in
    ground (
      arith,
      update_where_none (is_held id token)
          (λ (x : OutboxRow). record x {
            available_at = at;
            last_error = some error;
            lease_owner = none;
            lease_until = none;
          })
          table zero_rows,
    )

-- Membership of a record in what a claim returned.
abbrev pub In : OutboxRecord → List OutboxRecord → Type 0
In c [] = ⊥
In c (x ∷ xs) = (c ≡ x) ⊎ In c xs

module _ (py : Builtins) (fallback_id : String) (fallback_time : DateTime) where
  to_record_fields :
      (r : OutboxRow) (c : OutboxRecord)
      → to_record py fallback_id fallback_time r ≡ ok c
      → (c.id ≡ r.id) × (c.fencing_token ≡ r.fencing_token + 1)
  to_record_fields r c h = ground arith

  -- The row of a claimed record: it is in the table, and the record carries its next token.
  record_row :
      (c : OutboxRecord) (table rows : List OutboxRow) (records : List OutboxRecord)
      → Selected table rows
      → RecordsOf py fallback_id fallback_time rows records
      → In c records
      → (r : OutboxRow) × (row_at c.id table ≡ some r)
        × (c.fencing_token ≡ r.fencing_token + 1)
        × (contains c.id (ids rows) ≡ true)
  record_row c table [] [] s h m = absurd m
  record_row c table [] (x ∷ xs) s h m = absurd h
  record_row c table (r ∷ rs) [] s h m = absurd h
  record_row c table (r ∷ rs) (x ∷ xs) s h (inl here) =
      let (id_of, token_of) = to_record_fields r x h.0 in
      let same_id : c.id ≡ r.id = ground arith in
      (r, ap (λ i. row_at i table) same_id ∙ s.0, ground arith, ground arith)
  record_row c table (r ∷ rs) (x ∷ xs) s h (inr there) =
      let (y, found, token, listed) = record_row c table rs xs s.3 h.1 there in
      (y, found, token, ground arith)

  -- A claim that returns a record raises the token of its row, to the record's.
  claimed-Reached :
      (worker : String) (limit : ℤ) (lease now k : ℕ) (table table' : List OutboxRow)
      (records : List OutboxRecord) (c : OutboxRecord)
      → Ascending 1 table
      → claim_outbox py fallback_id fallback_time worker limit lease now table
        ≡ (ok records, table')
      → In c records
      → (Ascending 1 table')
        × Reached c.id c.fencing_token table'
        × (Reached c.id k table → Reached c.id (k + 1) table')
  claimed-Reached worker limit lease now k table table' records c h e m =
      let rows : List OutboxRow = sql_limit limit (filter (is_ready now) table) in
      let (of_rows, at_ids) =
        claim_outbox_lem py fallback_id fallback_time worker limit lease now table records table' h
          e in
      let (r, found, token, listed) =
        record_row c table rows records (limit-Selected now 1 limit table h) of_rows m in
      let r1 : OutboxRow = claim_update worker (now + lease) r r in
      let first : row_at c.id table' ≡ some r1 = ground (arith, at_ids c.id) in
      (
        subst (λ p. Ascending 1 p.1) e
            (claim_outbox-Ascending py fallback_id fallback_time worker limit lease now table h),
        (r1, first, omega (arith, token)),
        λ (s, there, le).
            let same : s ≡ r = ground (arith, there, found) in
            (r1, first, ground (arith, le, same)),
      )

  -- In a table whose ids ascend, once a row that was claimed has been claimed again, whatever calls
  -- were made in between and have been made since, the token of the first claim is refused: its
  -- holder can neither complete nor retry the row, and the table stays as it is.
  pub stale_claim_refused :
      (worker worker' : String) (limit limit' : ℤ) (lease lease' now later : ℕ)
      (table table' table'' : List OutboxRow) (records records' : List OutboxRecord)
      (c c' : OutboxRecord) (error : String) (at : ℕ) (between since : List OutboxCall)
      → Ascending 1 table
      → claim_outbox py fallback_id fallback_time worker limit lease now table
        ≡ (ok records, table')
      → claim_outbox py fallback_id fallback_time worker' limit' lease' later
          (run py fallback_id fallback_time table' between)
        ≡ (ok records', table'')
      → In c records
      → In c' records'
      → c'.id ≡ c.id
      → let after = run py fallback_id fallback_time table'' since in
        (complete_outbox c.id c.fencing_token at after ≡ (false, after))
        × (retry_outbox c.id c.fencing_token error at after ≡ (false, after))
  stale_claim_refused worker worker' limit limit' lease lease' now later table table' table''
        records records' c c' error at between since h e e' m m' same =
      let middle = run py fallback_id fallback_time table' between in
      let (h', first, _) = claimed-Reached worker limit lease now 0 table table' records c h e m in
      let token = c.fencing_token in
      let kept = run-Reached py fallback_id fallback_time c.id token table' between h' first in
      let (h'', _, raise) =
        claimed-Reached worker' limit' lease' later token middle table'' records' c'
          (run-Ascending py fallback_id fallback_time table' between h') e' m' in
      let raised =
        subst (λ i. Reached i (token + 1) table'') same
          (raise (subst (λ i. Reached i token middle) (sym same) kept)) in
      let (r, found, above) =
        run-Reached py fallback_id fallback_time c.id (token + 1) table'' since h'' raised in
      let after_sorted = run-Ascending py fallback_id fallback_time table'' since h'' in
      let stale : is_held c.id token r ≡ false = ground (arith, above) in
      (
        complete_refused c.id token at 1 _ r after_sorted found stale,
        retry_refused c.id token error at 1 _ r after_sorted found stale,
      )
