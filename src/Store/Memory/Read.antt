-- ===== src/Store/Memory/Read.antt =====
-- src/noema/store.py, `read` of `InMemoryEventStore`.
use noema_agent_sdk.Common.{
  ℕ, zero, suc, ◌+◌, ◌<◌, ◌≡◌, refl, ap, Bool, true, ◌&&◌, none, some, List, [], ◌∷◌, filter, drop,
  take, arith,
}
use noema_agent_sdk.Common.Int.{pos, ltb_ℤ}
use noema_agent_sdk.Event.{Event, sequence_or_zero}
use noema_agent_sdk.Store.Memory.{MemoryStore, read}
use noema_agent_sdk.Store.Canonical.{Numbered}
use noema_agent_sdk.Store.Memory.Log.{IsLog}

abbrev after : ℕ → Event → Bool
after k e = ltb_ℤ (pos k) (sequence_or_zero e) && true

-- Nothing is left out of a log that begins after the cut.
filter-after_all : (k n : ℕ) (es : List Event) → Numbered n es → k < n → filter (after k) es ≡ es
filter-after_all k n [] h lt = refl
filter-after_all k n (e ∷ es) h lt = ground (arith, filter-after_all k (suc n) es h.1)

filter-after :
    (k n m : ℕ) (es : List Event) → Numbered n es → suc k ≡ n + m → filter (after k) es ≡ drop m es
filter-after k n zero es h p = filter-after_all k n es h (omega arith)
filter-after k n (suc m) [] h p = refl
filter-after k n (suc m) (e ∷ es) h p = ground (arith, filter-after k (suc n) m es h.1)

-- A read with no limit and no types returns the events after the cut, in order: the log without
-- its first `after_sequence` events.
pub read-eq-drop : (s : MemoryStore) (k : ℕ) → IsLog s → read s (pos k) none none ≡ drop k s.events
unfolding read
read-eq-drop s k h = filter-after k 1 k s.events h.numbered (omega arith)

-- With a limit it returns at most that many of them, the first ones.
pub read_limit-eq-take :
    (s : MemoryStore) (k n : ℕ)
    → IsLog s
    → read s (pos k) (some (pos n)) none ≡ take n (drop k s.events)
unfolding read
read_limit-eq-take s k n h = ap (take n) (filter-after k 1 k s.events h.numbered (omega arith))
