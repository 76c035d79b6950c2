-- ===== src/Store/Memory/Implements.antt =====
-- src/noema/store.py, `InMemoryEventStore` as an `EventStore` over the canonical log.
use noema_agent_sdk.Common.{refl, ap, ok}
use noema_agent_sdk.Store.Interface.{EventStore, IsEventStore}
use noema_agent_sdk.Store.Memory.{MemoryStore, append, append_if_head, read, latest_sequence}
use noema_agent_sdk.Store.Memory.Append.{append_if_head-IsLog}
use noema_agent_sdk.Store.Memory.Read.{read-eq-drop, read_limit-eq-take}
use noema_agent_sdk.Store.Memory.Log.{
  IsLog, append-IsLog, append-log_append, append_if_head-log_append_if_head,
}

abbrev pub memory_event_store : EventStore MemoryStore
memory_event_store = record {
  append = λ s e. (ok (append s e).0, (append s e).1);
  append_if_head = append_if_head;
  read = λ s after limit types. ok (read s after limit types);
  latest_sequence = λ s. ok (latest_sequence s);
}

-- Every operation of the in-memory store, on every branch, returns what the canonical log says and
-- leaves a state that stands for the canonical log's next state.
pub memory_event_store-IsEventStore :
    IsEventStore memory_event_store IsLog (λ _. Unit {0}) (λ s. s.events)
unfolding latest_sequence
memory_event_store-IsEventStore = record {
  numbered = λ s h. h.numbered;
  distinct = λ s h. h.distinct;
  append_Inv = λ s e h _. append-IsLog s e h;
  append_result = λ s e h _. ap ok (append-log_append s e h).0;
  append_log = λ s e h _. (append-log_append s e h).1;
  append_if_head_Inv = λ s e n h _. append_if_head-IsLog s e n h;
  append_if_head_result = λ s e n h _. (append_if_head-log_append_if_head s e n h).0;
  append_if_head_log = λ s e n h _. (append_if_head-log_append_if_head s e n h).1;
  read_all = λ s k h. ap ok (read-eq-drop s k h);
  read_limit = λ s k n h. ap ok (read_limit-eq-take s k n h);
  latest_sequence_lem = λ s h. refl;
}
