-- ===== src/Kernel/Echo.antt =====
-- src/noema/kernel.py: the broker's echo of an event that the kernel has emitted.
use noema_agent_sdk.Common.{
  Result-cases, ◌≡◌, refl, sym, ap, ◌∙◌, String, Bool, true, false, Option, none, List, [], ◌∷◌,
  ◌++◌, contains, string_eq, eq_iff, inl, inr, Bool-cases, ok, arith, beq_self,
}
use noema_agent_sdk.Common.Int.{ℤ}
use noema_agent_sdk.Event.{Event}
use noema_agent_sdk.Kernel.{
  Services, NoemaKernel, append_event, is_within, discard, add, project, react, commit_started,
  commit, emit, ingest,
}

module _ {S W : Type 0} (v : Services S W) where
  discard_missing :
      (id : String) (ids : List String) → contains id ids ≡ false → discard v id ids ≡ ids
  discard_missing id [] new = refl
  discard_missing id (x ∷ ids) new =
      ground (arith, discard_missing id ids, eq_iff x id, eq_iff id x)

  discard-append :
      (id : String) (ids : List String)
      → contains id ids ≡ false
      → discard v id (ids ++ id ∷ []) ≡ ids
  discard-append id [] new = ground (arith, beq_self id)
  discard-append id (x ∷ ids) new = ground (arith, discard-append id ids, eq_iff x id, eq_iff id x)

  contains-append : (id : String) (ids : List String) → contains id (ids ++ id ∷ []) ≡ true
  contains-append id [] = ground (arith, beq_self id)
  contains-append id (x ∷ ids) = ground (arith, contains-append id ids)

  commit_running :
      (distribute : Bool) (expected : Option ℤ) (event : Event) (k : NoemaKernel S W)
      → k.is_started ≡ true
      → commit v distribute expected event k ≡ commit_started v distribute expected event k
  unfolding commit
  commit_running distribute expected event k started = rw started refl

  project_parts :
      (y x : Event) (k k' : NoemaKernel S W)
      → project v true y k ≡ (ok x, k')
      → (y ≡ x)
        × (k'.is_started ≡ k.is_started)
        × (k'.pending_broker_echoes ≡ add v y.id k.pending_broker_echoes)
  unfolding project
  project_parts y x k k' h = elim (Result-cases (v.normalize y)) [
    | inr (e, raised) ↦ absurd (ground (arith, raised, h))
    | inl (projected, made) ↦ elim (Result-cases (v.apply projected k.world).0) [
      | inr (e, raised) ↦ absurd (ground (arith, made, raised, h))
      | inl (u, applied) ↦
          elim (Result-cases (v.publish projected (v.apply projected k.world).1).0) [
            | inr (e, raised) ↦ absurd (ground (arith, made, applied, raised, h))
            | inl (u', told) ↦ ground (arith, made, applied, told, h)
          ]
    ]
  ]

  react_parts :
      (y x : Event) (k k' : NoemaKernel S W)
      → react v true y k ≡ (ok x, k')
      → is_within v x.sequence (v.version k.world) ≡ false
      → (k'.is_started ≡ k.is_started)
        × (k'.pending_broker_echoes ≡ add v x.id k.pending_broker_echoes)
  unfolding react
  react_parts y x k k' h fresh = elim (Bool-cases (is_within v y.sequence (v.version k.world))) [
    | inl seen ↦
        let same : y ≡ x = ground (arith, seen, h) in
        absurd (
          ground (
            arith,
            ap (λ (e : Event). is_within v e.sequence (v.version k.world)) same,
            seen,
            fresh,
          ))
    | inr unseen ↦
        let (same, running, pending) = project_parts y x k k' (ground (arith, unseen, h)) in
        (running, pending ∙ ap (λ (e : Event). add v e.id k.pending_broker_echoes) same)
  ]

  -- What an emission that projects its event leaves pending.
  emitted :
      (event x : Event) (k k' : NoemaKernel S W)
      → k.is_started ≡ true
      → emit v event k ≡ (ok x, k')
      → is_within v x.sequence (v.version k.world) ≡ false
      → (k'.is_started ≡ true) × (k'.pending_broker_echoes ≡ add v x.id k.pending_broker_echoes)
  unfolding emit commit_started
  emitted event x k k' started h fresh =
      let running : commit_started v true none event k ≡ (ok x, k') =
        sym (commit_running true none event k started) ∙ h in
      elim (Result-cases (append_event v true none event k).0) [
        | inr (e, raised) ↦ absurd (ground (arith, raised, running))
        | inl (y, made) ↦
            let (kept, pending) =
              react_parts y x (record k { stored = (append_event v true none event k).1 }) k'
                (ground (arith, made, running)) fresh in
            (kept ∙ started, pending)
      ]

  append_undistributed :
      (event : Event) (k : NoemaKernel S W)
      → append_event v false none event k ≡ v.store.append k.stored event
  unfolding append_event
  append_undistributed event k = elim (Bool-cases k.distributed) [
    | inl d ↦ rw d refl
    | inr d ↦ rw d refl
  ]

  react_echo :
      (x : Event) (k : NoemaKernel S W)
      → is_within v x.sequence (v.version k.world) ≡ true
      → contains x.id k.pending_broker_echoes ≡ true
      → react v false x k
        ≡ (ok x, record k { pending_broker_echoes = discard v x.id k.pending_broker_echoes })
  unfolding react
  react_echo x k covered listed = rw (covered, listed) refl

  -- A started kernel emits an event that its situation has not seen, and the situation's version
  -- then covers it. When the broker brings the event back, and the store knows it, the kernel
  -- answers with the stored event, and is as after the emission, with no echo of it pending.
  pub echo_ignored :
      (event x : Event) (k k' : NoemaKernel S W)
      → k.is_started ≡ true
      → contains x.id k.pending_broker_echoes ≡ false
      → emit v event k ≡ (ok x, k')
      → is_within v x.sequence (v.version k.world) ≡ false
      → is_within v x.sequence (v.version k'.world) ≡ true
      → v.store.append k'.stored x ≡ (ok x, k'.stored)
      → ingest v x k' ≡ (ok x, record k' { pending_broker_echoes = k.pending_broker_echoes })
  unfolding ingest commit_started
  echo_ignored event x k k' started new h fresh covered known =
      let (running, pending) = emitted event x k k' started h fresh in
      let listed : contains x.id k'.pending_broker_echoes ≡ true =
        ground (arith, pending, contains-append x.id k.pending_broker_echoes) in
      let cleared : discard v x.id k'.pending_broker_echoes ≡ k.pending_broker_echoes =
        ground (arith, pending, discard-append x.id k.pending_broker_echoes) in
      let appended : append_event v false none x k' ≡ (ok x, k'.stored) =
        append_undistributed x k' ∙ known in
      commit_running false none x k' running
      ∙ (rw (appended, commit_started)
          (λ i. react v false x (record k' { stored = (appended i).1 })))
      ∙ react_echo x k' covered listed
      ∙ ap (λ ids. (ok x, record k' { pending_broker_echoes = ids })) cleared
