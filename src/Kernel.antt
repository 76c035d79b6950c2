-- ===== src/Kernel.antt =====
-- src/noema/kernel.py, `NoemaKernel`, over any event store, situation model and bus. The emit lock
-- makes a commit one step. Spans of the tracer have no effect on the state.
pub mod Echo
use noema_agent_sdk.Common.{
  ℕ, String, Bool, true, false, not, Option, none, some, List, [], ◌∷◌, ◌++◌, ◌&&◌, ◌==◌, filter,
  contains, if◌then◌else◌, string_eq, Result, ok, err, ◌>>=◌, runtime_error,
}
use noema_agent_sdk.Common.Int.{ℤ, pos, leb_ℤ}
use noema_agent_sdk.Event.{Event}
use noema_agent_sdk.Store.Interface.{EventStore}

-- What the kernel calls, over a store `S` and a world `W` that holds the situation and the bus.
-- `append_with_outbox` takes the expected head, if there is one; `apply` is `situation.apply` and
-- `rebuild` is `situation.rebuild`; `publish` is `bus.publish`.
pub record Services (S W : Type 0) : Type 0 where
  pub store : EventStore S
  pub append_with_outbox : S → Event → Option ℤ → Result Event × S
  pub normalize : Event → Result Event
  pub version : W → ℤ
  pub apply : Event → W → Result (Unit {0}) × W
  pub rebuild : List (Result Event) → W → Result (Unit {0}) × W
  pub publish : Event → W → Result (Unit {0}) × W
  pub start_bus : W → W
  pub stop_bus : W → W
  pub close : S → S

pub record NoemaKernel (S W : Type 0) : Type 0 where
  pub stored : S
  pub world : W
  pub distributed : Bool
  pub startup_sequence : ℤ
  pub pending_broker_echoes : List String
  pub is_started : Bool
  pub is_stopped : Bool

module _ {S W : Type 0} (v : Services S W) where
  -- `_rebuild_situation`
  unfoldable pub rebuild_situation : NoemaKernel S W → Result (Unit {0}) × NoemaKernel S W
  rebuild_situation k = elim (v.store.read k.stored (pos 0) none none) [
    | err x ↦ (err x, k)
    | ok events ↦
        let (r, w) = v.rebuild (normalize_all events) k.world in (r, record k { world = w })
  ]
    where
      normalize_all : List Event → List (Result Event)
      normalize_all [] = []
      normalize_all (e ∷ es) = v.normalize e ∷ normalize_all es

  -- the end of `start`, after the replay
  abbrev pub open_kernel : NoemaKernel S W → Result (Unit {0}) × NoemaKernel S W
  open_kernel k = elim (v.store.latest_sequence k.stored) [
    | err x ↦ (err x, k)
    | ok n ↦ (
      ok tt,
      record k { startup_sequence = pos n; world = v.start_bus k.world; is_started = true },
    )
  ]

  -- `start`
  unfoldable pub start : Bool → NoemaKernel S W → Result (Unit {0}) × NoemaKernel S W
  unfolding rebuild_situation
  start replay k =
      if k.is_stopped
      then (err (runtime_error "kernel has already been stopped"), k)
      else if k.is_started
      then (ok tt, k)
      else if replay
      then (let (r, k') = rebuild_situation k in
          elim r [ err x ↦ (err x, k') | ok _ ↦ open_kernel k' ])
      else open_kernel k

  -- the append of `_commit`
  unfoldable pub append_event : Bool → Option ℤ → Event → NoemaKernel S W → Result Event × S
  append_event distribute expected event k =
      if k.distributed && distribute
      then v.append_with_outbox k.stored event expected
      else (elim expected [
        | none ↦ v.store.append k.stored event
        | some n ↦ v.store.append_if_head k.stored event n
      ])

  -- `stored.sequence is not None and stored.sequence <= bound`
  abbrev pub is_within : Option ℤ → ℤ → Bool
  is_within none bound = false
  is_within (some n) bound = leb_ℤ n bound

  -- `self._pending_broker_echoes.discard(id)` and `.add(id)`
  abbrev pub discard : String → List String → List String
  discard id = filter (λ x. not (x == id))

  abbrev pub add : String → List String → List String
  add id ids = if contains id ids then ids else ids ++ id ∷ []

  -- the rest of `_commit` for an event that the situation has not seen
  unfoldable pub project : Bool → Event → NoemaKernel S W → Result Event × NoemaKernel S W
  project distribute stored k = elim (v.normalize stored) [
    | err x ↦ (err x, k)
    | ok projected ↦
        let (r, w) = v.apply projected k.world in
        elim r [
          | err x ↦ (err x, record k { world = w })
          | ok _ ↦
              let (told, w') = v.publish projected w in
              elim told [
                | err x ↦ (err x, record k { world = w' })
                | ok _ ↦ (
                  ok stored,
                  record k {
                    world = w';
                    pending_broker_echoes =
                        if distribute
                        then add stored.id k.pending_broker_echoes
                        else k.pending_broker_echoes;
                  },
                )
              ]
        ]
  ]

  -- the rest of `_commit` for an event that arrives late from the broker
  unfoldable pub late : Event → NoemaKernel S W → Result Event × NoemaKernel S W
  unfolding rebuild_situation
  late stored k =
      let (r, k') = rebuild_situation k in
      elim r [
        | err x ↦ (err x, k')
        | ok _ ↦ elim (v.normalize stored) [
          | err x ↦ (err x, k')
          | ok projected ↦
              let (told, w) = v.publish projected k'.world in
              elim told [
                | err x ↦ (err x, record k' { world = w })
                | ok _ ↦ (ok stored, record k' { world = w })
              ]
        ]
      ]

  -- `_commit` after the append
  unfoldable pub react : Bool → Event → NoemaKernel S W → Result Event × NoemaKernel S W
  unfolding project late
  react distribute stored k =
      if is_within stored.sequence (v.version k.world)
      then (if distribute
          then (ok stored, k)
          else if contains stored.id k.pending_broker_echoes
          then (
            ok stored,
            record k { pending_broker_echoes = discard stored.id k.pending_broker_echoes },
          )
          else if is_within stored.sequence k.startup_sequence
          then (ok stored, k)
          else late stored k)
      else project distribute stored k

  -- `_commit` on a started kernel
  unfoldable pub commit_started :
      Bool → Option ℤ → Event → NoemaKernel S W → Result Event × NoemaKernel S W
  unfolding append_event react
  commit_started distribute expected event k =
      let (r, s) = append_event distribute expected event k in
      elim r [
        | err x ↦ (err x, record k { stored = s })
        | ok stored ↦ react distribute stored (record k { stored = s })
      ]

  -- `_commit`
  unfoldable pub commit : Bool → Option ℤ → Event → NoemaKernel S W → Result Event × NoemaKernel S W
  unfolding start commit_started
  commit distribute expected event k =
      if k.is_started
      then commit_started distribute expected event k
      else (let (r, k') = start true k in
          elim r [ err x ↦ (err x, k') | ok _ ↦ commit_started distribute expected event k' ])

  -- `emit`, `emit_if_head` and `ingest`
  unfoldable pub emit : Event → NoemaKernel S W → Result Event × NoemaKernel S W
  unfolding commit
  emit event = commit true none event

  unfoldable pub emit_if_head : Event → ℤ → NoemaKernel S W → Result Event × NoemaKernel S W
  unfolding commit
  emit_if_head event expected = commit true (some expected) event

  unfoldable pub ingest : Event → NoemaKernel S W → Result Event × NoemaKernel S W
  unfolding commit
  ingest event = commit false none event

  -- `stop`
  unfoldable pub stop : NoemaKernel S W → NoemaKernel S W
  stop k = if k.is_stopped then k else record k {
    world = v.stop_bus k.world;
    stored = v.close k.stored;
    is_stopped = true;
    is_started = false;
  }
