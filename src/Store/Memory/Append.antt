-- ===== src/Store/Memory/Append.antt =====
-- src/noema/store.py, `append` and `append_if_head` of `InMemoryEventStore`.
use noema_agent_sdk.Common.{
  ◌+◌, ◌≡◌, ◌≢◌, refl, ◌⊎◌, inr, none, [], ◌∷◌, ◌++◌, length, ok, err, concurrent_append, arith,
  eq_iff, string_eq, length-append,
}
use noema_agent_sdk.Common.Int.{ℤ, pos, negsuc}
use noema_agent_sdk.Common.Dict.{lookup, lookup-insert}
use noema_agent_sdk.Event.{Event, with_sequence}
use noema_agent_sdk.Store.Memory.{MemoryStore, append, append_if_head, latest_sequence}
use noema_agent_sdk.Store.Memory.Log.{IsLog, append-IsLog}

-- Appending an event whose identity an earlier append has taken changes nothing and returns the
-- event that was stored then, whatever the other fields are.
pub append-append :
    (s : MemoryStore) (e e' : Event) → e'.id ≡ e.id → append (append s e).1 e' ≡ append s e
unfolding append with_sequence
append-append s e e' same = ground (
  arith,
  lookup-insert e.id e'.id (with_sequence e (length s.events + 1)) s.by_id,
  eq_iff e.id e'.id,
)

-- The log only grows, at its end, by the event that `append` returns.
pub append_grows :
    (s : MemoryStore) (e : Event)
    → ((append s e).1 ≡ s)
      ⊎ (((append s e).1.events ≡ s.events ++ (append s e).0 ∷ [])
          × ((append s e).0 ≡ with_sequence e (length s.events + 1)))
unfolding append
append_grows s e = ground arith

-- `append_if_head` either raises and changes nothing, or does what `append` does.
pub append_if_head_cases :
    (s : MemoryStore) (e : Event) (expected : ℤ)
    → (append_if_head s e expected ≡ (ok (append s e).0, (append s e).1))
      ⊎ (((append_if_head s e expected).1 ≡ s)
          × (append_if_head s e expected).0 ≢ ok (append s e).0)
unfolding append_if_head append
append_if_head_cases s e (pos n) = ground arith
append_if_head_cases s e (negsuc n) = inr (refl, λ p. cc)

pub append_if_head-IsLog :
    (s : MemoryStore) (e : Event) (expected : ℤ) → IsLog s → IsLog (append_if_head s e expected).1
append_if_head-IsLog s e expected h =
    ground (arith, append-IsLog s e h, append_if_head_cases s e expected)

-- Two writers that saw the same head, with different new events: the first one's append wins and
-- the second one's raises with the new head, and leaves the log as the first one left it.
pub append_if_head_race :
    (s : MemoryStore) (e e' : Event)
    → lookup e.id s.by_id ≡ none
    → lookup e'.id s.by_id ≡ none
    → e.id ≢ e'.id
    → let head = latest_sequence s in
      let s' = (append s e).1 in
      (append_if_head s e (pos head) ≡ (ok (with_sequence e (head + 1)), s'))
      × (append_if_head s' e' (pos head) ≡ (err (concurrent_append head (head + 1)), s'))
unfolding append_if_head append latest_sequence
append_if_head_race s e e' new new' ne = ground (
  arith,
  lookup-insert e.id e'.id (with_sequence e (length s.events + 1)) s.by_id,
  eq_iff e.id e'.id,
  length-append s.events (with_sequence e (length s.events + 1) ∷ []),
)
