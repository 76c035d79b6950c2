-- ===== src/Attention/Conservation.antt =====
-- src/noema/attention.py: calls of `acquire`, `settle` and the full `replenish`.
use noema_agent_sdk.Common.{ℕ, false, Option, none, some, List, [], ◌∷◌, nat_eq}
use noema_agent_sdk.Common.Int.{ℤ}
use noema_agent_sdk.Common.Dict.{lookup}
use noema_agent_sdk.Attention.{AttentionAccount, Arithmetic, acquire, settle, replenish}

-- The calls of an agent: acquire, settle the lease with a number, replenish in full.
pub data AccountCall : Type 0 where
  acquires : ℤ → AccountCall
  settles : ℕ → Option ℤ → AccountCall
  refills : AccountCall

module _ (float : Arithmetic) where
  -- `settles` works on the lease that `acquire` handed out under the number, if it is outstanding.
  unfoldable pub call : AccountCall → AttentionAccount → AttentionAccount
  call (acquires amount) a = (acquire float amount a).1
  call (settles k cost) a = elim (lookup k a.leases) [
    | none ↦ a
    | some v ↦ (settle float cost (record { lease_id = k; reserved = v; settled = false }) a).1
  ]
  call refills a = replenish float none a

  unfoldable pub run : AttentionAccount → List AccountCall → AttentionAccount
  run a [] = a
  run a (c ∷ cs) = run (call c a) cs
