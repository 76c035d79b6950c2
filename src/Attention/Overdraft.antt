-- ===== src/Attention/Overdraft.antt =====
-- src/noema/attention.py: `replenish` with an amount, while leases are outstanding.
use noema_agent_sdk.Common.{ℕ, suc, ◌≡◌, none, some, [], ◌∷◌, arith, nat_eq, ok}
use noema_agent_sdk.Common.Int.{pos, negsuc, ◌+ℤ◌, ◌-ℤ◌}
use noema_agent_sdk.Common.Dict.{insert}
use noema_agent_sdk.Attention.{
  Arithmetic, AttentionAccount, acquire, replenish, open_account, sum_values,
}

-- A double, its opposite and zero are doubles, and twice a double is one, short of the greatest.
pub record IsDouble (float : Arithmetic) (n : ℕ) : Type 0 where
  pub zero : float.round (pos 0) ≡ pos 0
  pub same : float.round (pos (suc n)) ≡ pos (suc n)
  pub opposite : float.round (negsuc n) ≡ negsuc n
  pub twice : float.sum ((1, pos (suc n)) ∷ (2, pos (suc n)) ∷ []) ≡ pos (suc n) +ℤ pos (suc n)

-- Whatever the capacity, a double: acquire all of it, replenish by it, acquire all of it again. Both
-- leases are granted, and the full `replenish` then makes what is available negative.
pub replenish_overdraws :
    (float : Arithmetic) (n : ℕ) (a : AttentionAccount)
    → IsDouble float n
    → open_account (pos (suc n)) ≡ ok a
    → let all = pos (suc n) in
      let b = (acquire float all (replenish float (some all) (acquire float all a).1)).1 in
      (sum_values b.leases ≡ pos (suc n) +ℤ pos (suc n))
      × (b.capacity ≡ pos (suc n))
      × ((replenish float none b).available ≡ negsuc n)
unfolding open_account acquire replenish insert ◌+ℤ◌ ◌-ℤ◌
replenish_overdraws float n a double e =
    ground (arith, e, double.zero, double.same, double.opposite, double.twice)
