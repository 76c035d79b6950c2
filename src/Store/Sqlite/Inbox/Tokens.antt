-- ===== src/Store/Sqlite/Inbox/Tokens.antt =====
-- src/noema/store.py: the fencing tokens, the leases and the completion of inbox messages.
use noema_agent_sdk.Common.{
  ℕ, ◌+◌, ◌<◌, ◌≡◌, refl, ap, ◌∙◌, String, true, false, none, some, List, arith, string_eq, eq_iff,
  inl, inr, Option-cases,
}
use noema_agent_sdk.Store.Sqlite.Tables.{InboxRow, processing, pending, completed, count_where}
use noema_agent_sdk.Store.Sqlite.Inbox.{
  acquired, already_completed, busy, has_key, is_busy, is_held, claim_inbox, claim_update, new_row,
  complete_inbox, retry_inbox,
}
use noema_agent_sdk.Store.Sqlite.Inbox.Rows.{
  row_of, Unique, row_of-update_where, row_of-append, count-is_held, update_where_none,
  row_of-has_key,
}
use noema_agent_sdk.Store.Sqlite.Inbox.Dedup.{InboxCall, run, run_row, claim-Unique}

-- In a table with one row for a key, a token below the row's is stale for good: after any calls it
-- neither completes nor retries the message, and the attempt changes nothing.
pub stale_token_refused :
    (m c : String) (token now at : ℕ) (error : String) (r : InboxRow) (table : List InboxRow)
    (xs : List InboxCall)
    → Unique table
    → row_of m c table ≡ some r
    → token < r.fencing_token
    → (complete_inbox m c token now (run table xs) ≡ (false, run table xs))
      × (retry_inbox m c token error at (run table xs) ≡ (false, run table xs))
unfolding complete_inbox retry_inbox
stale_token_refused m c token now at error r table xs h found lt =
    let (s, there, a, h') = run_row m c r table xs h found in
    let none_left : count_where (is_held m c token) (run table xs) ≡ 0 =
      ground (arith, count-is_held m c token (run table xs) h', a.token_mono) in
    (
      ground (
        arith,
        none_left,
        update_where_none (is_held m c token)
            (λ (x : InboxRow). record x {
              status = completed;
              completed_at = some now;
              lease_until = none;
            })
            (run table xs) none_left,
      ),
      ground (
        arith,
        none_left,
        update_where_none (is_held m c token)
            (λ (x : InboxRow). record x {
              status = pending;
              available_at = at;
              last_error = some error;
              lease_until = none;
            })
            (run table xs) none_left,
      ),
    )

-- In a table with one row for a key, a completed message is final: after any calls its row is as it
-- was, a claim answers that it is completed, and no token completes it again.
pub completed_final :
    (m c : String) (lease token now : ℕ) (r : InboxRow) (table : List InboxRow)
    (xs : List InboxCall)
    → Unique table
    → row_of m c table ≡ some r
    → r.status ≡ completed
    → (row_of m c (run table xs) ≡ some r)
      × (claim_inbox m c lease now (run table xs) ≡ (already_completed, run table xs))
      × ((complete_inbox m c token now (run table xs)).0 ≡ false)
unfolding claim_inbox complete_inbox
completed_final m c lease token now r table xs h found done =
    let (s, there, a, h') = run_row m c r table xs h found in
    let kept : row_of m c (run table xs) ≡ some r = there ∙ ap some (a.final done) in
    (kept, ground (arith, kept), ground (arith, kept, count-is_held m c token (run table xs) h'))

-- A claim that acquires a message leaves a processing row with its token and its lease.
acquired_row :
    (m c : String) (lease now n : ℕ) (table : List InboxRow)
    → (claim_inbox m c lease now table).0 ≡ acquired n
    → (r : InboxRow) × (row_of m c (claim_inbox m c lease now table).1 ≡ some r)
      × (r.fencing_token ≡ n)
      × (r.status ≡ processing)
      × (r.lease_until ≡ some (now + lease))
unfolding claim_inbox
acquired_row m c lease now n table e = elim (Option-cases (row_of m c table)) [
  | inl new ↦ (
    new_row m c now (now + lease),
    ground (
      arith,
      new,
      row_of-append m c table (new_row m c now (now + lease)),
      eq_iff m m,
      eq_iff c c,
    ),
    ground (arith, new),
    refl,
    refl,
  )
  | inr (x, there) ↦ (
    claim_update (now + lease) (x.fencing_token + 1) x,
    ground (
      arith,
      there,
      row_of-has_key m c table x there,
      row_of-update_where (has_key m c) (claim_update (now + lease) (x.fencing_token + 1)) m c table
          (λ y. (refl, refl)),
    ),
    ground (arith, there),
    refl,
    refl,
  )
]

claim_token :
    (m c : String) (lease now k : ℕ) (s : InboxRow) (table : List InboxRow)
    → row_of m c table ≡ some s
    → (claim_inbox m c lease now table).0 ≡ acquired k
    → k ≡ s.fencing_token + 1
unfolding claim_inbox
claim_token m c lease now k s table found e = ground arith

-- In a table with one row for a key, between two claims that acquire the same message the token
-- rises, whatever calls happened in between.
pub acquired_tokens_rise :
    (m c : String) (lease lease' now later n k : ℕ) (table : List InboxRow) (xs : List InboxCall)
    → Unique table
    → (claim_inbox m c lease now table).0 ≡ acquired n
    → (claim_inbox m c lease' later (run (claim_inbox m c lease now table).1 xs)).0 ≡ acquired k
    → n < k
acquired_tokens_rise m c lease lease' now later n k table xs h e e' =
    let (r, found, token, _, _) = acquired_row m c lease now n table e in
    let (s, there, a, _) =
      run_row m c r (claim_inbox m c lease now table).1 xs (claim-Unique m c lease now table h)
        found in
    omega (arith, a.token_mono, token, claim_token m c lease' later k s _ there e')

busy_row :
    (m c : String) (lease now : ℕ) (r : InboxRow) (table : List InboxRow)
    → row_of m c table ≡ some r
    → r.status ≡ processing
    → is_busy now r ≡ true
    → claim_inbox m c lease now table ≡ (busy, table)
unfolding claim_inbox
busy_row m c lease now r table found status held = ground arith

-- While a claim's lease lasts and nobody touches the message, a second claim is answered busy.
pub claim_exclusive :
    (m c : String) (lease lease' now later n : ℕ) (table : List InboxRow)
    → (claim_inbox m c lease now table).0 ≡ acquired n
    → later < now + lease
    → claim_inbox m c lease' later (claim_inbox m c lease now table).1
      ≡ (busy, (claim_inbox m c lease now table).1)
unfolding claim_inbox
claim_exclusive m c lease lease' now later n table e lt =
    let (r, found, _, status, until) = acquired_row m c lease now n table e in
    busy_row m c lease' later r (claim_inbox m c lease now table).1 found status
      (ground (arith, until))
