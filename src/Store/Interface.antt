-- ===== src/Store/Interface.antt =====
-- src/noema/store.py, the protocol `EventStore`: the operations over a state `S`, and the laws by
-- which a store stands for a canonical log.
use noema_agent_sdk.Common.{
  ℕ, ◌≡◌, String, Option, none, some, List, Result, ok, length, drop, take,
}
use noema_agent_sdk.Common.Int.{ℤ, pos}
use noema_agent_sdk.Event.{Event}
use noema_agent_sdk.Store.Canonical.{Log, Numbered, Distinct, log_append, log_append_if_head}

pub record EventStore (S : Type 0) : Type 0 where
  pub append : S → Event → Result Event × S
  pub append_if_head : S → Event → ℤ → Result Event × S
  pub read : S → ℤ → Option ℤ → Option (List String) → Result (List Event)
  pub latest_sequence : S → Result ℕ

-- The laws hold at the states of an invariant, for the events that the store accepts.
pub record IsEventStore {S : Type 0} (store : EventStore S) (Inv : S → Type 0)
    (Accepts : Event → Type 0) (log : S → Log) : Type 0 where
  pub numbered : (s : S) → Inv s → Numbered 1 (log s)
  pub distinct : (s : S) → Inv s → Distinct (log s)
  pub append_Inv : (s : S) (e : Event) → Inv s → Accepts e → Inv (store.append s e).1
  pub append_result :
      (s : S) (e : Event) → Inv s → Accepts e → (store.append s e).0 ≡ ok (log_append (log s) e).0
  pub append_log :
      (s : S) (e : Event) → Inv s → Accepts e → log (store.append s e).1 ≡ (log_append (log s) e).1
  pub append_if_head_Inv :
      (s : S) (e : Event) (n : ℤ) → Inv s → Accepts e → Inv (store.append_if_head s e n).1
  pub append_if_head_result :
      (s : S) (e : Event) (n : ℤ)
      → Inv s
      → Accepts e
      → (store.append_if_head s e n).0 ≡ (log_append_if_head (log s) e n).0
  pub append_if_head_log :
      (s : S) (e : Event) (n : ℤ)
      → Inv s
      → Accepts e
      → log (store.append_if_head s e n).1 ≡ (log_append_if_head (log s) e n).1
  pub read_all : (s : S) (k : ℕ) → Inv s → store.read s (pos k) none none ≡ ok (drop k (log s))
  pub read_limit :
      (s : S) (k n : ℕ)
      → Inv s
      → store.read s (pos k) (some (pos n)) none ≡ ok (take n (drop k (log s)))
  pub latest_sequence_lem : (s : S) → Inv s → store.latest_sequence s ≡ ok (length (log s))
