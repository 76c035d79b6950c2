-- ===== src/Store/Sqlite/Outbox/Claims.antt =====
-- src/noema/store.py, `_claim_outbox_sync`: what a claim does to every row.
use noema_agent_sdk.Common.{
  ℕ, ◌+◌, ◌≡◌, ◌≢◌, refl, sym, ap, subst, ◌∙◌, false, Option, none, some, List, [], ◌∷◌, filter,
  All, arith, nat_beq, nat_eq, if◌then◌else◌, inl, inr, Bool-cases, Option-cases, contains, String,
  ok, >>=-eq-ok,
}
use noema_agent_sdk.Common.Int.{ℤ}
use noema_agent_sdk.Event.{DateTime}
use noema_agent_sdk.Event.Codec.{Builtins}
use noema_agent_sdk.Store.Sqlite.Tables.{OutboxRow, update_where, sql_limit}
use noema_agent_sdk.Store.Sqlite.Outbox.{
  OutboxRecord, is_ready, has_open_id, claim_update, to_record, claim_rows, claim_outbox,
}
use noema_agent_sdk.Store.Sqlite.Outbox.Rows.{
  row_at, Ascending, Selected, row_at-update_where, limit-Selected,
}

abbrev pub ids : List OutboxRow → List ℕ
ids [] = []
ids (r ∷ rs) = r.id ∷ ids rs

-- The row after a claim of the listed ids.
abbrev pub claimed : String → ℕ → List ℕ → ℕ → Option OutboxRow → Option OutboxRow
claimed worker until l id none = none
claimed worker until l id (some r) =
    some (if contains id l then claim_update worker until r r else r)

claimed_nothing :
    (worker : String) (until id : ℕ) (o : Option OutboxRow) → claimed worker until [] id o ≡ o
claimed_nothing worker until id none = refl
claimed_nothing worker until id (some r) = refl

pub row_at-id :
    (id : ℕ) (table : List OutboxRow) (r : OutboxRow) → row_at id table ≡ some r → r.id ≡ id
row_at-id id [] r h = cc
row_at-id id (x ∷ table) r h = ground (arith, row_at-id id table r)

not_contains :
    (n : ℕ) (rows : List OutboxRow)
    → All (λ (x : OutboxRow). x.id ≢ n) rows
    → contains n (ids rows) ≡ false
not_contains n [] a = refl
not_contains n (x ∷ rows) a = ground (arith, not_contains n rows a.1, a.0)

-- One claimed row more.
claimed_step :
    (worker : String) (until id : ℕ) (r : OutboxRow) (rows table : List OutboxRow)
    → row_at r.id table ≡ some r
    → r.published_at ≡ none
    → All (λ (x : OutboxRow). x.id ≢ r.id) rows
    → claimed worker until
        (ids rows)
        id
        (row_at id (update_where (has_open_id r.id) (claim_update worker until r) table))
      ≡ claimed worker until (r.id ∷ ids rows) id (row_at id table)
claimed_step worker until id r rows table here open_row other =
    rw (row_at-update_where (has_open_id r.id) (claim_update worker until r) id table (λ x. refl))
      (elim (Option-cases (row_at id table)) [
        | inl missing ↦ rw missing
        | inr (x, found) ↦ rw found (step x found)
      ])
  where
    step :
        (x : OutboxRow)
        → row_at id table ≡ some x
        → claimed worker until
            (ids rows)
            id
            (some (if has_open_id r.id x then claim_update worker until r x else x))
          ≡ claimed worker until (r.id ∷ ids rows) id (some x)
    step x found = elim (Bool-cases (nat_beq id r.id)) [
      | inl same ↦
          let i : id ≡ r.id = ground arith in
          let x_is_r : x ≡ r = ground (arith, ap (λ j. row_at j table) i) in
          rw (x_is_r, i) (ground (arith, not_contains r.id rows other))
      | inr ne ↦ ground (arith, row_at-id id table x found)
    ]

module _ (py : Builtins) (fallback_id : String) (fallback_time : DateTime) where
  -- The records are those of the rows, in order.
  abbrev pub RecordsOf : List OutboxRow → List OutboxRecord → Type 0
  RecordsOf [] [] = Unit {0}
  RecordsOf [] (c ∷ cs) = ⊥
  RecordsOf (r ∷ rs) [] = ⊥
  RecordsOf (r ∷ rs) (c ∷ cs) = (to_record py fallback_id fallback_time r ≡ ok c) × RecordsOf rs cs

  Selected-update :
      (worker : String) (until : ℕ) (r : OutboxRow) (table rows : List OutboxRow)
      → All (λ (x : OutboxRow). x.id ≢ r.id) rows
      → Selected table rows
      → Selected (update_where (has_open_id r.id) (claim_update worker until r) table) rows
  Selected-update worker until r table [] a h = tt
  Selected-update worker until r table (x ∷ rows) a h = (
    ground (
      arith,
      a.0,
      h.0,
      row_at-update_where (has_open_id r.id) (claim_update worker until r) x.id table (λ y. refl),
    ),
    h.1,
    h.2,
    Selected-update worker until r table rows a.1 h.3,
  )

  claim_rows_lem :
      (worker : String) (until : ℕ) (rows table : List OutboxRow) (records : List OutboxRecord)
      (table' : List OutboxRow)
      → Selected table rows
      → claim_rows py fallback_id fallback_time worker until rows table ≡ ok (records, table')
      → RecordsOf rows records
        × ((id : ℕ) → row_at id table' ≡ claimed worker until (ids rows) id (row_at id table))
  unfolding claim_rows
  claim_rows_lem worker until [] table records table' h e =
      let p : [] ≡ records = ground arith in
      let q : table ≡ table' = ground arith in
      (
        subst (RecordsOf []) p tt,
        λ id. ap (row_at id) (sym q) ∙ sym (claimed_nothing worker until id _),
      )
  claim_rows_lem worker until (r ∷ rows) table records table' h e =
      let t : List OutboxRow =
        update_where (has_open_id r.id) (claim_update worker until r) table in
      let (c, decoded, e1) = >>=-eq-ok (to_record py fallback_id fallback_time r) _ e in
      let (rest, ran, e2) =
        >>=-eq-ok (claim_rows py fallback_id fallback_time worker until rows t) _ e1 in
      let (of_rows, at_ids) =
        claim_rows_lem worker until rows t rest.0 rest.1
          (Selected-update worker until r table rows h.2 h.3) ran in
      let p : c ∷ rest.0 ≡ records = ground arith in
      let q : rest.1 ≡ table' = ground arith in
      (
        subst (RecordsOf (r ∷ rows)) p (decoded, of_rows),
        λ id.
            ap (row_at id) (sym q)
            ∙ at_ids id
            ∙ claimed_step worker until id r rows table h.0 h.1 h.2,
      )

  -- A claim that returns: its records are those of the rows that were ready, up to the limit, and
  -- exactly these rows have changed, to the worker's lease and the next token.
  pub claim_outbox_lem :
      (worker : String) (limit : ℤ) (lease now : ℕ) (table : List OutboxRow)
      (records : List OutboxRecord) (table' : List OutboxRow)
      → Ascending 1 table
      → claim_outbox py fallback_id fallback_time worker limit lease now table
        ≡ (ok records, table')
      → let rows = sql_limit limit (filter (is_ready now) table) in
        RecordsOf rows records
        × ((id : ℕ)
            → row_at id table' ≡ claimed worker (now + lease) (ids rows) id (row_at id table))
  unfolding claim_outbox
  claim_outbox_lem worker limit lease now table records table' h e =
      claim_rows_lem worker (now + lease) (sql_limit limit (filter (is_ready now) table)) table
        records table' (limit-Selected now 1 limit table h) (ground arith)
