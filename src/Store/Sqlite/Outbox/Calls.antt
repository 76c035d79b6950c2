-- ===== src/Store/Sqlite/Outbox/Calls.antt =====
-- src/noema/store.py: sequences of outbox transactions.
use noema_agent_sdk.Common.{ℕ, refl, List, [], ◌∷◌, String}
use noema_agent_sdk.Common.Int.{ℤ}
use noema_agent_sdk.Event.{DateTime}
use noema_agent_sdk.Event.Codec.{Builtins}
use noema_agent_sdk.Store.Sqlite.Tables.{OutboxRow}
use noema_agent_sdk.Store.Sqlite.Outbox.{is_held, claim_outbox, complete_outbox, retry_outbox}
use noema_agent_sdk.Store.Sqlite.Outbox.Rows.{Ascending, Ascending-update_where}
use noema_agent_sdk.Store.Sqlite.Outbox.Leases.{claim_outbox-Ascending}

-- A call that a worker makes, with the instant at which the store runs it.
pub data OutboxCall : Type 0 where
  claims : String → ℤ → ℕ → ℕ → OutboxCall
  completes : ℕ → ℕ → ℕ → OutboxCall
  retries : ℕ → ℕ → String → ℕ → OutboxCall

module _ (py : Builtins) (fallback_id : String) (fallback_time : DateTime) where
  unfoldable pub step : List OutboxRow → OutboxCall → List OutboxRow
  step table (claims worker limit lease now) =
      (claim_outbox py fallback_id fallback_time worker limit lease now table).1
  step table (completes id token now) = (complete_outbox id token now table).1
  step table (retries id token error at) = (retry_outbox id token error at table).1

  unfoldable pub run : List OutboxRow → List OutboxCall → List OutboxRow
  run table [] = table
  run table (c ∷ cs) = run (step table c) cs

  pub step-Ascending :
      (table : List OutboxRow) (c : OutboxCall) → Ascending 1 table → Ascending 1 (step table c)
  unfolding step complete_outbox retry_outbox
  step-Ascending table (claims worker limit lease now) h =
      claim_outbox-Ascending py fallback_id fallback_time worker limit lease now table h
  step-Ascending table (completes id token now) h =
      Ascending-update_where (is_held id token) _ 1 table (λ x. refl) h
  step-Ascending table (retries id token error at) h =
      Ascending-update_where (is_held id token) _ 1 table (λ x. refl) h

  pub run-Ascending :
      (table : List OutboxRow) (cs : List OutboxCall)
      → Ascending 1 table
      → Ascending 1 (run table cs)
  unfolding run
  run-Ascending table [] h = h
  run-Ascending table (c ∷ cs) h = run-Ascending (step table c) cs (step-Ascending table c h)
