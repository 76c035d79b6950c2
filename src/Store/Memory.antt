-- ===== src/Store/Memory.antt =====
-- src/noema/store.py, `InMemoryEventStore`. Each method holds the store's lock throughout, so it is
-- one step from a state to a result and the state after it.
pub mod Log
pub mod Append
pub mod Read
pub mod Implements
use noema_agent_sdk.Common.{
  ℕ, suc, ◌+◌, ◌-◌, String, Bool, true, Option, none, some, List, [], ◌∷◌, ◌++◌, ◌&&◌, length, take,
  filter, contains, if◌then◌else◌, nat_beq, string_eq, Result, ok, err, value_error,
  concurrent_append,
}
use noema_agent_sdk.Common.Int.{ℤ, pos, negsuc, ltb_ℤ}
use noema_agent_sdk.Common.Dict.{Dict, lookup, insert}
use noema_agent_sdk.Event.{Event, with_sequence, sequence_or_zero}

pub record MemoryStore : Type 0 where
  pub events : List Event
  pub by_id : Dict String Event

abbrev pub empty : MemoryStore
empty = record { events = []; by_id = [] }

-- `_append_locked`
unfoldable pub append_locked : MemoryStore → Event → Event × MemoryStore
append_locked s event = elim (lookup event.id s.by_id) [
  | some existing ↦ (existing, s)
  | none ↦
      let stored = with_sequence event (length s.events + 1) in
      (stored, record { events = s.events ++ stored ∷ []; by_id = insert event.id stored s.by_id })
]

-- `append` never raises.
unfoldable pub append : MemoryStore → Event → Event × MemoryStore
unfolding append_locked
append s event = append_locked s event

unfoldable pub append_if_head : MemoryStore → Event → ℤ → Result Event × MemoryStore
unfolding append_locked
append_if_head s event (negsuc _) =
    (err (value_error "expected event head sequence cannot be negative"), s)
append_if_head s event (pos expected) = elim (lookup event.id s.by_id) [
  | some existing ↦ (ok existing, s)
  | none ↦
      if nat_beq (length s.events) expected
      then (let (stored, s') = append_locked s event in (ok stored, s'))
      else (err (concurrent_append expected (length s.events)), s)
]

-- the slice `events[:limit]`; a negative limit counts from the end
abbrev pub slice_to {ℓ} : {A : Type ℓ} → Option ℤ → List A → List A
slice_to none xs = xs
slice_to (some (pos n)) xs = take n xs
slice_to (some (negsuc n)) xs = take (length xs - suc n) xs

abbrev pub has_type : Option (List String) → Event → Bool
has_type none e = true
has_type (some types) e = contains e.type types

unfoldable pub read : MemoryStore → ℤ → Option ℤ → Option (List String) → List Event
read s after_sequence limit types =
    slice_to limit
      (filter (λ e. ltb_ℤ after_sequence (sequence_or_zero e) && has_type types e) s.events)

unfoldable pub latest_sequence : MemoryStore → ℕ
latest_sequence s = length s.events
