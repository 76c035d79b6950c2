-- ===== src/Attention.antt =====
-- src/noema/attention.py, `AttentionAccount` and `AttentionLease`. An amount is a finite float, as an
-- integer in a unit that divides every amount: 2 ^ -1074 divides every double. What a float operation
-- makes of an exact result is a parameter (`Arithmetic`). The identity `attention-n` of a lease is
-- its number n. Each method holds the account's lock, so it is one step.
pub mod Ledger
pub mod Methods
pub mod Conservation
pub mod Overdraft
use noema_agent_sdk.Common.{
  ℕ, ◌+◌, String, Bool, true, false, Option, none, some, List, [], ◌∷◌, if◌then◌else◌, nat_eq,
  Result, ok, err, value_error,
}
use noema_agent_sdk.Common.Int.{ℤ, pos, ◌+ℤ◌, ◌-ℤ◌, ltb_ℤ, leb_ℤ, min_ℤ, max_ℤ}
use noema_agent_sdk.Common.Dict.{Dict, has_key, insert, erase}

pub record AttentionAccount : Type 0 where
  pub capacity : ℤ
  pub available : ℤ
  pub leases : Dict ℕ ℤ
  pub spent_total : ℤ
  pub counter : ℕ

-- A lease holds its account by reference: the account is the state that `settle` works on.
pub record AttentionLease : Type 0 where
  pub lease_id : ℕ
  pub reserved : ℤ
  pub settled : Bool

-- `AttentionAccount.__init__`
unfoldable pub open_account : ℤ → Result AttentionAccount
open_account capacity =
    if leb_ℤ capacity (pos 0)
    then err (value_error "attention capacity must be positive")
    else ok (record {
      capacity = capacity;
      available = capacity;
      leases = [];
      spent_total = pos 0;
      counter = 0;
    })

-- Float arithmetic: the double that an exact result is rounded to, and Python's `sum` of the values
-- of a dict.
pub record Arithmetic : Type 0 where
  pub round : ℤ → ℤ
  pub sum : Dict ℕ ℤ → ℤ

-- `actual = reserved if actual_cost is None else max(0.0, actual_cost)`
abbrev pub actual_of : ℤ → Option ℤ → ℤ
actual_of reserved none = reserved
actual_of reserved (some cost) = max_ℤ (pos 0) cost

-- the exact sum
abbrev pub sum_values : Dict ℕ ℤ → ℤ
sum_values [] = pos 0
sum_values ((_, v) ∷ d) = v +ℤ sum_values d

module _ (float : Arithmetic) where
  -- `acquire`: no lease if the amount is not available
  unfoldable pub acquire : ℤ → AttentionAccount → Result (Option AttentionLease) × AttentionAccount
  unfolding insert
  acquire amount a =
      if ltb_ℤ amount (pos 0)
      then (err (value_error "attention amount cannot be negative"), a)
      else if ltb_ℤ a.available amount
      then (ok none, a)
      else (
        ok (some (record { lease_id = a.counter + 1; reserved = amount; settled = false })),
        record a {
          counter = a.counter + 1;
          available = float.round (a.available -ℤ amount);
          leases = insert (a.counter + 1) amount a.leases;
        },
      )

  -- `_settle`
  unfoldable pub settle_account : ℕ → ℤ → Option ℤ → AttentionAccount → AttentionAccount
  settle_account lease_id reserved actual_cost a =
      if has_key lease_id a.leases
      then record a {
        leases = erase lease_id a.leases;
        spent_total = float.round (a.spent_total +ℤ actual_of reserved actual_cost);
        available = min_ℤ a.capacity (float.round (a.available +ℤ reserved));
      }
      else a

  -- `AttentionLease.settle`
  unfoldable pub settle :
      Option ℤ → AttentionLease → AttentionAccount → AttentionLease × AttentionAccount
  unfolding settle_account
  settle actual_cost l a =
      if l.settled
      then (l, a)
      else (record l { settled = true }, settle_account l.lease_id l.reserved actual_cost a)

  -- `replenish`
  unfoldable pub replenish : Option ℤ → AttentionAccount → AttentionAccount
  replenish none a = record a { available = float.round (a.capacity -ℤ float.sum a.leases) }
  replenish (some amount) a = record a {
    available = min_ℤ a.capacity (float.round (a.available +ℤ max_ℤ (pos 0) amount));
  }
