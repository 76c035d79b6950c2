-- ===== src/Store/Memory/Log.antt =====
-- src/noema/store.py: the events of `InMemoryEventStore` as a log, and its index `_by_id`.
use noema_agent_sdk.Common.{
  ◌+◌, ◌≡◌, refl, String, inl, inr, Option-cases, none, some, [], ◌∷◌, ◌++◌, length, string_eq,
  arith, eq_iff,
}
use noema_agent_sdk.Common.Int.{ℤ, pos, negsuc}
use noema_agent_sdk.Common.Dict.{lookup, insert, lookup-insert}
use noema_agent_sdk.Event.{Event, with_sequence}
use noema_agent_sdk.Store.Canonical.{
  find_id, Numbered, Distinct, Numbered-append, Distinct-append, find_id-append, log_append,
  log_append_if_head,
}
use noema_agent_sdk.Store.Memory.{MemoryStore, empty, append, append_if_head}

pub record IsLog (s : MemoryStore) : Type 0 where
  pub numbered : Numbered 1 s.events
  pub distinct : Distinct s.events
  pub indexed : (k : String) → lookup k s.by_id ≡ find_id k s.events

pub empty-IsLog : IsLog empty
unfolding lookup
empty-IsLog = record { numbered = tt; distinct = tt; indexed = λ k. refl }

append_known : (s : MemoryStore) (e x : Event) → lookup e.id s.by_id ≡ some x → append s e ≡ (x, s)
unfolding append
append_known s e x p = ground arith

append_new :
    (s : MemoryStore) (e : Event)
    → lookup e.id s.by_id ≡ none
    → let stored = with_sequence e (length s.events + 1) in
      append s e
      ≡ (stored, record { events = s.events ++ stored ∷ []; by_id = insert e.id stored s.by_id })
unfolding append
append_new s e p = ground arith

grown-IsLog :
    (s : MemoryStore) (e stored : Event)
    → lookup e.id s.by_id ≡ none
    → stored.id ≡ e.id
    → stored.sequence ≡ some (pos (length s.events + 1))
    → IsLog s
    → IsLog (record { events = s.events ++ stored ∷ []; by_id = insert e.id stored s.by_id })
grown-IsLog s e stored p same next h = record {
  numbered = Numbered-append 1 s.events stored h.numbered (ground arith);
  distinct = Distinct-append s.events stored h.distinct (ground (arith, h.indexed e.id));
  indexed = λ k.
      rw (lookup-insert, find_id-append)
        (ground
          (arith, h.indexed k, h.indexed e.id, eq_iff e.id k, eq_iff k e.id, eq_iff k stored.id));
}

-- Appending keeps the log numbered, its identities distinct and the index exact.
pub append-IsLog : (s : MemoryStore) (e : Event) → IsLog s → IsLog (append s e).1
unfolding with_sequence
append-IsLog s e h = elim (Option-cases (lookup e.id s.by_id)) [
  | inl fresh ↦ rw (append_new s e fresh) (grown-IsLog s e _ fresh refl refl h)
  | inr (x, known) ↦ rw (append_known s e x known) h
]

pub append-log_append :
    (s : MemoryStore) (e : Event)
    → IsLog s
    → ((append s e).0 ≡ (log_append s.events e).0)
      × ((append s e).1.events ≡ (log_append s.events e).1)
unfolding append log_append
append-log_append s e h = ground (arith, h.indexed e.id)

-- `append_if_head` agrees with the canonical log on every branch: an identity that is stored, a head
-- that has moved, a negative head, and the append.
pub append_if_head-log_append_if_head :
    (s : MemoryStore) (e : Event) (n : ℤ)
    → IsLog s
    → ((append_if_head s e n).0 ≡ (log_append_if_head s.events e n).0)
      × ((append_if_head s e n).1.events ≡ (log_append_if_head s.events e n).1)
unfolding append_if_head log_append_if_head
append_if_head-log_append_if_head s e (pos n) h = ground (arith, h.indexed e.id)
append_if_head-log_append_if_head s e (negsuc n) h = (refl, refl)
