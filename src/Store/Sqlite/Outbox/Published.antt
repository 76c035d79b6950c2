-- ===== src/Store/Sqlite/Outbox/Published.antt =====
-- src/noema/store.py: sequences of outbox transactions and the published rows.
use noema_agent_sdk.Common.{
  ℕ, ◌≡◌, refl, sym, ap, ◌∙◌, false, none, some, List, [], ◌∷◌, filter, arith, nat_beq, nat_eq, inl,
  inr, Bool-cases, contains, String, Result, ok, err,
}
use noema_agent_sdk.Common.Int.{ℤ}
use noema_agent_sdk.Event.{DateTime}
use noema_agent_sdk.Event.Codec.{Builtins}
use noema_agent_sdk.Store.Sqlite.Tables.{OutboxRow, sql_limit}
use noema_agent_sdk.Store.Sqlite.Outbox.{
  OutboxRecord, is_ready, is_held, claim_outbox, complete_outbox, retry_outbox,
}
use noema_agent_sdk.Store.Sqlite.Outbox.Rows.{
  row_at, Ascending, Selected, row_at-update_where, limit-Selected,
}
use noema_agent_sdk.Store.Sqlite.Outbox.Claims.{ids, claim_outbox_lem}
use noema_agent_sdk.Store.Sqlite.Outbox.Calls.{OutboxCall, step, run, step-Ascending}
use noema_agent_sdk.Store.Sqlite.Outbox.Fencing.{complete_refused}

-- A published row is among no claim's rows.
published_not-Selected :
    (id t : ℕ) (r : OutboxRow) (table rows : List OutboxRow)
    → row_at id table ≡ some r
    → r.published_at ≡ some t
    → Selected table rows
    → contains id (ids rows) ≡ false
published_not-Selected id t r table [] found done s = refl
published_not-Selected id t r table (x ∷ rows) found done s = elim (Bool-cases (nat_beq id x.id)) [
  | inl same ↦
      let i : id ≡ x.id = ground arith in
      let x_is_r : some x ≡ some r = sym s.0 ∙ ap (λ j. row_at j table) (sym i) ∙ found in
      absurd (ground arith)
  | inr other ↦ ground (arith, published_not-Selected id t r table rows found done s.3)
]

module _ (py : Builtins) (fallback_id : String) (fallback_time : DateTime) where
  claim_published :
      (worker : String) (limit : ℤ) (lease now id t : ℕ) (r : OutboxRow) (table : List OutboxRow)
      (o : Result (List OutboxRecord) × List OutboxRow)
      → claim_outbox py fallback_id fallback_time worker limit lease now table ≡ o
      → Ascending 1 table
      → row_at id table ≡ some r
      → r.published_at ≡ some t
      → row_at id o.1 ≡ some r
  claim_published worker limit lease now id t r table (ok records, table') e h found done =
      let rows : List OutboxRow = sql_limit limit (filter (is_ready now) table) in
      let (of_rows, at_ids) =
        claim_outbox_lem py fallback_id fallback_time worker limit lease now table records table' h
          e in
      ground (
        arith,
        at_ids id,
        published_not-Selected id t r table rows found done (limit-Selected now 1 limit table h),
      )
  claim_published worker limit lease now id t r table (err x, table') e h found done =
      (unfold claim_outbox in ground arith)

  step_published :
      (id t : ℕ) (r : OutboxRow) (table : List OutboxRow) (c : OutboxCall)
      → Ascending 1 table
      → row_at id table ≡ some r
      → r.published_at ≡ some t
      → row_at id (step py fallback_id fallback_time table c) ≡ some r
  unfolding step complete_outbox retry_outbox
  step_published id t r table (OutboxCall.claims worker limit lease now) h found done =
      claim_published worker limit lease now id t r table _ refl h found done
  step_published id t r table (OutboxCall.completes i token now) h found done = ground (
    arith,
    row_at-update_where (is_held i token)
        (λ (x : OutboxRow). record x {
          published_at = some now;
          lease_owner = none;
          lease_until = none;
        })
        id table (λ x. refl),
  )
  step_published id t r table (OutboxCall.retries i token error at) h found done = ground (
    arith,
    row_at-update_where (is_held i token)
        (λ (x : OutboxRow). record x {
          available_at = at;
          last_error = some error;
          lease_owner = none;
          lease_until = none;
        })
        id table (λ x. refl),
  )

  run_published :
      (id t : ℕ) (r : OutboxRow) (table : List OutboxRow) (cs : List OutboxCall)
      → Ascending 1 table
      → row_at id table ≡ some r
      → r.published_at ≡ some t
      → (row_at id (run py fallback_id fallback_time table cs) ≡ some r)
        × Ascending 1 (run py fallback_id fallback_time table cs)
  unfolding run
  run_published id t r table [] h found done = (found, h)
  run_published id t r table (c ∷ cs) h found done =
      run_published id t r (step py fallback_id fallback_time table c) cs
        (step-Ascending py fallback_id fallback_time table c h)
        (step_published id t r table c h found done) done

  -- In a table whose ids ascend, whatever calls follow, by any workers at any times, a published row
  -- stays as it is, and no token completes it a second time.
  pub published_final :
      (id t token now : ℕ) (r : OutboxRow) (table : List OutboxRow) (cs : List OutboxCall)
      → Ascending 1 table
      → row_at id table ≡ some r
      → r.published_at ≡ some t
      → (row_at id (run py fallback_id fallback_time table cs) ≡ some r)
        × ((complete_outbox id token now (run py fallback_id fallback_time table cs)).0 ≡ false)
  published_final id t token now r table cs h found done =
      let (kept, h') = run_published id t r table cs h found done in
      (
        kept,
        ap (λ p. p.0)
            (complete_refused id token now 1 (run py fallback_id fallback_time table cs) r h' kept
              (ground arith)),
      )
