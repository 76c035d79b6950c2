-- ===== src/Store/Sqlite/Outbox/Tokens.antt =====
-- src/noema/store.py: the fencing token of a row of `outbox` is never lowered.
use noema_agent_sdk.Common.{
  ℕ, ◌+◌, ◌≤◌, refl, Bool, Bool-cases, Result, err, ◌≡◌, subst, some, List, [], ◌∷◌, filter, arith,
  nat_eq, inl, inr, contains, String, ok,
}
use noema_agent_sdk.Common.Int.{ℤ}
use noema_agent_sdk.Event.{DateTime}
use noema_agent_sdk.Event.Codec.{Builtins}
use noema_agent_sdk.Store.Sqlite.Tables.{OutboxRow, update_where, sql_limit}
use noema_agent_sdk.Store.Sqlite.Outbox.{
  OutboxRecord, is_ready, is_held, claim_update, claim_outbox, complete_outbox, retry_outbox,
}
use noema_agent_sdk.Store.Sqlite.Outbox.Rows.{row_at, Ascending, row_at-update_where}
use noema_agent_sdk.Store.Sqlite.Outbox.Claims.{ids, claim_outbox_lem}
use noema_agent_sdk.Store.Sqlite.Outbox.Calls.{OutboxCall, step, run, step-Ascending}

-- The row under an id is there, with a token that is not below a bound.
abbrev pub Reached : ℕ → ℕ → List OutboxRow → Type 0
Reached id k table = (r : OutboxRow) × (row_at id table ≡ some r) × (k ≤ r.fencing_token)

module _ (py : Builtins) (fallback_id : String) (fallback_time : DateTime) where
  claim-Reached :
      (worker : String) (limit : ℤ) (lease now id k : ℕ) (table : List OutboxRow)
      (o : Result (List OutboxRecord) × List OutboxRow)
      → claim_outbox py fallback_id fallback_time worker limit lease now table ≡ o
      → Ascending 1 table
      → Reached id k table
      → Reached id k o.1
  claim-Reached worker limit lease now id k table (err x, table') e h reached =
      let same : table ≡ table' = (unfold claim_outbox in ground arith) in
      subst (Reached id k) same reached
  claim-Reached worker limit lease now id k table (ok records, table') e h (r, found, le) =
      let rows : List OutboxRow = sql_limit limit (filter (is_ready now) table) in
      let (of_rows, at_ids) =
        claim_outbox_lem py fallback_id fallback_time worker limit lease now table records table' h
          e in
      elim (Bool-cases (contains id (ids rows))) [
        | inl listed ↦
            (claim_update worker (now + lease) r r, ground (arith, at_ids id), omega (arith, le))
        | inr spared ↦ (r, ground (arith, at_ids id), le)
      ]

  update-Reached :
      (p : OutboxRow → Bool) (f : OutboxRow → OutboxRow) (id k : ℕ) (table : List OutboxRow)
      → ((r : OutboxRow) → (f r).id ≡ r.id)
      → ((r : OutboxRow) → (f r).fencing_token ≡ r.fencing_token)
      → Reached id k table
      → Reached id k (update_where p f table)
  update-Reached p f id k table keep same (r, found, le) =
      let after = row_at-update_where p f id table keep in
      elim (Bool-cases (p r)) [
        | inl meets ↦ (f r, ground (arith, after), ground (arith, same r))
        | inr spared ↦ (r, ground (arith, after), le)
      ]

  step-Reached :
      (id k : ℕ) (table : List OutboxRow) (c : OutboxCall)
      → Ascending 1 table
      → Reached id k table
      → Reached id k (step py fallback_id fallback_time table c)
  unfolding step complete_outbox retry_outbox
  step-Reached id k table (OutboxCall.claims worker limit lease now) h reached =
      claim-Reached worker limit lease now id k table _ refl h reached
  step-Reached id k table (OutboxCall.completes i token now) h reached =
      update-Reached (is_held i token) _ id k table (λ r. refl) (λ r. refl) reached
  step-Reached id k table (OutboxCall.retries i token error at) h reached =
      update-Reached (is_held i token) _ id k table (λ r. refl) (λ r. refl) reached

  pub run-Reached :
      (id k : ℕ) (table : List OutboxRow) (cs : List OutboxCall)
      → Ascending 1 table
      → Reached id k table
      → Reached id k (run py fallback_id fallback_time table cs)
  unfolding run
  run-Reached id k table [] h reached = reached
  run-Reached id k table (c ∷ cs) h reached =
      run-Reached id k (step py fallback_id fallback_time table c) cs
        (step-Ascending py fallback_id fallback_time table c h)
        (step-Reached id k table c h reached)
