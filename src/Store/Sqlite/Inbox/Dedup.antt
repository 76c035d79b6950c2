-- ===== src/Store/Sqlite/Inbox/Dedup.antt =====
-- src/noema/store.py: sequences of inbox transactions and the row of a message.
use noema_agent_sdk.Common.{
  ℕ, ◌+◌, ◌≤◌, ◌≡◌, refl, ap, ◌∙◌, String, true, none, some, List, [], ◌∷◌, arith, if◌then◌else◌,
  string_eq, eq_iff, inl, inr, Option-cases, Bool-cases,
}
use noema_agent_sdk.Store.Sqlite.Tables.{InboxRow, pending, completed, update_where}
use noema_agent_sdk.Store.Sqlite.Inbox.{
  has_key, is_busy, is_completed, is_held, claim_inbox, claim_update, new_row, complete_inbox,
  retry_inbox,
}
use noema_agent_sdk.Store.Sqlite.Inbox.Rows.{
  row_of, Unique, row_of-update_where, row_of-append, Unique-update_where, Unique-append,
  row_of-has_key,
}

pub data InboxCall : Type 0 where
  claims : String → String → ℕ → ℕ → InboxCall
  completes : String → String → ℕ → ℕ → InboxCall
  retries : String → String → ℕ → String → ℕ → InboxCall

unfoldable pub step : List InboxRow → InboxCall → List InboxRow
step table (claims m c lease now) = (claim_inbox m c lease now table).1
step table (completes m c token now) = (complete_inbox m c token now table).1
step table (retries m c token error at) = (retry_inbox m c token error at table).1

unfoldable pub run : List InboxRow → List InboxCall → List InboxRow
run table [] = table
run table (x ∷ xs) = run (step table x) xs

-- What a transaction may do to a row: tokens do not fall, and a completed row is final.
pub record Advances (r s : InboxRow) : Type 0 where
  pub token_mono : r.fencing_token ≤ s.fencing_token
  pub final : r.status ≡ completed → s ≡ r

Advances-refl : (r : InboxRow) → Advances r r
Advances-refl r = record { token_mono = omega arith; final = λ h. refl }

same_row :
    (m c m' c' : String) (r x : InboxRow) (table : List InboxRow)
    → row_of m c table ≡ some r
    → row_of m' c' table ≡ some x
    → has_key m' c' r ≡ true
    → x ≡ r
same_row m c m' c' r x table found there same =
    let p : m' ≡ m =
      ground
        (arith, row_of-has_key m c table r found, eq_iff m r.message_id, eq_iff m' r.message_id) in
    let q : c' ≡ c =
      ground (
        arith,
        row_of-has_key m c table r found,
        eq_iff c r.consumer_id,
        eq_iff c' r.consumer_id,
      ) in
    let e : row_of m' c' table ≡ row_of m c table = λ i. row_of (p i) (q i) table in ground arith

pub claim-Unique :
    (m c : String) (lease now : ℕ) (table : List InboxRow)
    → Unique table
    → Unique (claim_inbox m c lease now table).1
unfolding claim_inbox
claim-Unique m c lease now table h = elim (Option-cases (row_of m c table)) [
  | inl new ↦ rw (new, claim_inbox) (Unique-append table (new_row m c now (now + lease)) h new)
  | inr (r, found) ↦ ground (
    arith,
    found,
    Unique-update_where (has_key m c) (claim_update (now + lease) (r.fencing_token + 1)) table
        (λ x. (refl, refl)) h,
  )
]

step-Unique : (table : List InboxRow) (x : InboxCall) → Unique table → Unique (step table x)
unfolding step complete_inbox retry_inbox
step-Unique table (claims m c lease now) h = claim-Unique m c lease now table h
step-Unique table (completes m c token now) h =
    Unique-update_where (is_held m c token) _ table (λ x. (refl, refl)) h
step-Unique table (retries m c token error at) h =
    Unique-update_where (is_held m c token) _ table (λ x. (refl, refl)) h

-- The row that a claim leaves under a key.
claim_row :
    (m c : String) (lease now : ℕ) (m' c' : String) (r : InboxRow) (table : List InboxRow)
    → row_of m c table ≡ some r
    → (s : InboxRow) × (row_of m c (claim_inbox m' c' lease now table).1 ≡ some s) × Advances r s
unfolding claim_inbox
claim_row m c lease now m' c' r table found = elim (Option-cases (row_of m' c' table)) [
  | inl new ↦ (
    r,
    ground (arith, new, row_of-append m c table (new_row m' c' now (now + lease))),
    Advances-refl r,
  )
  | inr (x, there) ↦ elim (Bool-cases (is_completed x.status)) [
    | inl done ↦ (r, ground (arith, there), Advances-refl r)
    | inr open_row ↦ elim (Bool-cases (is_busy now x)) [
      | inl held ↦ (r, ground (arith, there), Advances-refl r)
      | inr free ↦
          let update : InboxRow → InboxRow = claim_update (now + lease) (x.fencing_token + 1) in
          let moved : row_of m c (update_where (has_key m' c') update table)
              ≡ some (if has_key m' c' r then update r else r) =
            ground
              (arith, row_of-update_where (has_key m' c') update m c table (λ y. (refl, refl))) in
          let result : (claim_inbox m' c' lease now table).1
              ≡ update_where (has_key m' c') update table =
            ground (arith, there) in
          (
            if has_key m' c' r then update r else r,
            ap (row_of m c) result ∙ moved,
            elim (Bool-cases (has_key m' c' r)) [
              | inl same ↦
                  let e : x ≡ r = same_row m c m' c' r x table found there same in
                  rw same (record {
                    token_mono = omega (arith, ap (λ (y : InboxRow). y.fencing_token) e);
                    final = λ h. ground arith;
                  })
              | inr other ↦ rw other (Advances-refl r)
            ],
          )
    ]
  ]
]

step_row :
    (m c : String) (r : InboxRow) (table : List InboxRow) (x : InboxCall)
    → row_of m c table ≡ some r
    → (s : InboxRow) × (row_of m c (step table x) ≡ some s) × Advances r s
unfolding step complete_inbox retry_inbox
step_row m c r table (claims m' c' lease now) found = claim_row m c lease now m' c' r table found
step_row m c r table (completes m' c' token now) found = (
  if is_held m' c' token r
      then record r { status = completed; completed_at = some now; lease_until = none }
      else r,
  ground (
    arith,
    row_of-update_where (is_held m' c' token)
        (λ (x : InboxRow). record x {
          status = completed;
          completed_at = some now;
          lease_until = none;
        })
        m c table (λ x. (refl, refl)),
  ),
  record { token_mono = ground arith; final = λ h. ground arith },
)
step_row m c r table (retries m' c' token error at) found = (
  if is_held m' c' token r
      then record r {
        status = pending;
        available_at = at;
        last_error = some error;
        lease_until = none;
      }
      else r,
  ground (
    arith,
    row_of-update_where (is_held m' c' token)
        (λ (x : InboxRow). record x {
          status = pending;
          available_at = at;
          last_error = some error;
          lease_until = none;
        })
        m c table (λ x. (refl, refl)),
  ),
  record { token_mono = ground arith; final = λ h. ground arith },
)

pub run_row :
    (m c : String) (r : InboxRow) (table : List InboxRow) (xs : List InboxCall)
    → Unique table
    → row_of m c table ≡ some r
    → (s : InboxRow) × (row_of m c (run table xs) ≡ some s) × Advances r s × Unique (run table xs)
unfolding run
run_row m c r table [] h found = (r, found, Advances-refl r, h)
run_row m c r table (x ∷ xs) h found =
    let (s, there, a) = step_row m c r table x found in
    let (t, last, b, h') = run_row m c s (step table x) xs (step-Unique table x h) there in
    (
      t,
      last,
      record {
        token_mono = omega (arith, a.token_mono, b.token_mono);
        final = λ done.
            let e : s ≡ r = a.final done in b.final (ap (λ (y : InboxRow). y.status) e ∙ done) ∙ e;
      },
      h',
    )
