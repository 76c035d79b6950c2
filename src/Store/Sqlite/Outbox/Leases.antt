-- ===== src/Store/Sqlite/Outbox/Leases.antt =====
-- src/noema/store.py, `_claim_outbox_sync`: claims while an earlier lease lasts.
use noema_agent_sdk.Common.{
  ℕ, ◌+◌, ◌<◌, ◌≡◌, refl, sym, ap, subst, ◌∙◌, true, false, Option, none, some, List, [], ◌∷◌,
  filter, All, All-take, arith, nat_eq, inl, inr, Bool-cases, contains, String, Result, ok, err,
  >>=-eq-ok,
}
use noema_agent_sdk.Common.Int.{ℤ, pos, negsuc}
use noema_agent_sdk.Event.{DateTime}
use noema_agent_sdk.Event.Codec.{Builtins}
use noema_agent_sdk.Store.Sqlite.Tables.{OutboxRow, update_where, sql_limit}
use noema_agent_sdk.Store.Sqlite.Outbox.{
  OutboxRecord, is_ready, has_open_id, claim_update, to_record, claim_rows, claim_outbox,
}
use noema_agent_sdk.Store.Sqlite.Outbox.Rows.{
  row_at, Ascending, Selected, limit-Selected, Ascending-update_where,
}
use noema_agent_sdk.Store.Sqlite.Outbox.Claims.{ids, claimed, RecordsOf, claim_outbox_lem}

-- The ids of the records that a claim returned.
abbrev pub record_ids : List OutboxRecord → List ℕ
record_ids [] = []
record_ids (c ∷ cs) = c.id ∷ record_ids cs

All-ready :
    (now : ℕ) (table : List OutboxRow)
    → All (λ (r : OutboxRow). is_ready now r ≡ true) (filter (is_ready now) table)
All-ready now [] = tt
All-ready now (r ∷ rs) = elim (Bool-cases (is_ready now r)) [
  | inl e ↦ rw e (e, All-ready now rs)
  | inr e ↦ rw e (All-ready now rs)
]

limit-ready :
    (now : ℕ) (limit : ℤ) (table : List OutboxRow)
    → All (λ (r : OutboxRow). is_ready now r ≡ true) (sql_limit limit (filter (is_ready now) table))
limit-ready now (pos n) table =
    All-take (λ (r : OutboxRow). is_ready now r ≡ true) n (filter (is_ready now) table)
      (All-ready now table)
limit-ready now (negsuc n) table = All-ready now table

-- A row of the next table that is ready before the lease ends was not claimed.
not_claimed :
    (worker : String) (until later : ℕ) (l : List ℕ) (o : Option OutboxRow) (x : OutboxRow)
    → claimed worker until l x.id o ≡ some x
    → is_ready later x ≡ true
    → later < until
    → contains x.id l ≡ false
not_claimed worker until later l none x e ready lt = cc
not_claimed worker until later l (some r) x e ready lt = elim (Bool-cases (contains x.id l)) [
  | inl held ↦
      let p : claim_update worker until r r ≡ x = ground arith in
      let q : x.lease_until ≡ some until = ap (λ (y : OutboxRow). y.lease_until) (sym p) in
      absurd (ground arith)
  | inr free ↦ free
]

module _ (py : Builtins) (fallback_id : String) (fallback_time : DateTime) where
  ids-record_ids :
      (rows : List OutboxRow) (records : List OutboxRecord)
      → RecordsOf py fallback_id fallback_time rows records
      → record_ids records ≡ ids rows
  ids-record_ids [] [] h = refl
  ids-record_ids [] (c ∷ cs) h = absurd h
  ids-record_ids (r ∷ rs) [] h = absurd h
  ids-record_ids (r ∷ rs) (c ∷ cs) h = ground (arith, ids-record_ids rs cs h.1)

  claim_rows-Ascending :
      (worker : String) (until : ℕ) (rows table : List OutboxRow) (records : List OutboxRecord)
      (table' : List OutboxRow)
      → Ascending 1 table
      → claim_rows py fallback_id fallback_time worker until rows table ≡ ok (records, table')
      → Ascending 1 table'
  unfolding claim_rows
  claim_rows-Ascending worker until [] table records table' h e =
      let q : table ≡ table' = ground arith in subst (Ascending 1) q h
  claim_rows-Ascending worker until (r ∷ rows) table records table' h e =
      let t : List OutboxRow =
        update_where (has_open_id r.id) (claim_update worker until r) table in
      let (c, decoded, e1) = >>=-eq-ok (to_record py fallback_id fallback_time r) _ e in
      let (rest, ran, e2) =
        >>=-eq-ok (claim_rows py fallback_id fallback_time worker until rows t) _ e1 in
      let q : rest.1 ≡ table' = ground arith in
      subst (Ascending 1) q (
        claim_rows-Ascending worker until rows t rest.0 rest.1
          (Ascending-update_where (has_open_id r.id) (claim_update worker until r) 1 table
            (λ x. refl) h)
          ran)

  pub claim_outbox-Ascending :
      (worker : String) (limit : ℤ) (lease now : ℕ) (table : List OutboxRow)
      → Ascending 1 table
      → Ascending 1 (claim_outbox py fallback_id fallback_time worker limit lease now table).1
  unfolding claim_outbox
  claim_outbox-Ascending worker limit lease now table h =
      go
        (claim_rows py fallback_id fallback_time worker (now + lease)
          (sql_limit limit (filter (is_ready now) table)) table)
        refl
    where
      go :
          (r : Result (List OutboxRecord × List OutboxRow))
          → claim_rows py fallback_id fallback_time worker
              (now + lease)
              (sql_limit limit (filter (is_ready now) table))
              table
            ≡ r
          → Ascending 1 (claim_outbox py fallback_id fallback_time worker limit lease now table).1
      go (err x) e = ground (arith, e)
      go (ok (records, table')) e =
          let q : (claim_outbox py fallback_id fallback_time worker limit lease now table).1
              ≡ table' =
            ground arith in
          subst (Ascending 1) (sym q)
            (claim_rows-Ascending worker (now + lease) _ table records table' h e)

  free_rows :
      (worker : String) (until later : ℕ) (l : List ℕ) (table table' rows : List OutboxRow)
      → ((id : ℕ) → row_at id table' ≡ claimed worker until l id (row_at id table))
      → Selected table' rows
      → All (λ (r : OutboxRow). is_ready later r ≡ true) rows
      → later < until
      → All (λ (n : ℕ). contains n l ≡ false) (ids rows)
  free_rows worker until later l table table' [] at_ids s a lt = tt
  free_rows worker until later l table table' (x ∷ rows) at_ids s a lt = (
    not_claimed worker until later l (row_at x.id table) x (sym (at_ids x.id) ∙ s.0) a.0 lt,
    free_rows worker until later l table table' rows at_ids s.3 a.1 lt,
  )

  -- In a table whose ids ascend, while a claim's lease lasts, the next claim, by any worker, returns
  -- none of its rows.
  pub claims_disjoint :
      (worker worker' : String) (limit limit' : ℤ) (lease lease' now later : ℕ)
      (table table' table'' : List OutboxRow) (records records' : List OutboxRecord)
      → Ascending 1 table
      → claim_outbox py fallback_id fallback_time worker limit lease now table
        ≡ (ok records, table')
      → claim_outbox py fallback_id fallback_time worker' limit' lease' later table'
        ≡ (ok records', table'')
      → later < now + lease
      → All (λ (n : ℕ). contains n (record_ids records) ≡ false) (record_ids records')
  claims_disjoint worker worker' limit limit' lease lease' now later table table' table'' records
        records' h e e' lt =
      let rows : List OutboxRow = sql_limit limit (filter (is_ready now) table) in
      let rows' : List OutboxRow = sql_limit limit' (filter (is_ready later) table') in
      let (of_rows, at_ids) =
        claim_outbox_lem py fallback_id fallback_time worker limit lease now table records table' h
          e in
      let h' : Ascending 1 table' =
        subst (λ p. Ascending 1 p.1) e (claim_outbox-Ascending worker limit lease now table h) in
      let (of_rows', at_ids') =
        claim_outbox_lem py fallback_id fallback_time worker' limit' lease' later table' records'
          table'' h' e' in
      rw (ids-record_ids rows records of_rows, ids-record_ids rows' records' of_rows')
        (free_rows worker (now + lease) later (ids rows) table table' rows' at_ids
          (limit-Selected later 1 limit' table' h') (limit-ready later limit' table') lt)
