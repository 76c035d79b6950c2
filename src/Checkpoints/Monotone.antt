-- ===== src/Checkpoints/Monotone.antt =====
-- src/noema/checkpoints.py, `ConsumerCheckpointProjection`: the order of its watermarks.
use noema_agent_sdk.Common.{
  String, Bool, true, some, List, [], ◌∷◌, ◌==◌, string_eq, ok, ◌>>=◌, ◌≡◌, sym, subst, ap, ◌∙◌,
  eq_iff, arith, Bool-cases, ◌⊎◌, inl, inr, >>=-eq-ok,
}
use noema_agent_sdk.Common.Int.{◌≤ℤ◌}
use noema_agent_sdk.Common.Dict.{lookup, insert, lookup-insert, lookup-insert_self}
use noema_agent_sdk.Event.{Event}
use noema_agent_sdk.Event.Codec.{Builtins}
use noema_agent_sdk.Checkpoints.{
  ConsumerCheckpoint, Projection, check_regression, record_checkpoint, apply, apply_all, rebuild,
  from_event, consumer_checkpoint_event,
}

-- The later checkpoint has passed everything that the earlier one has.
abbrev pub Covers : ConsumerCheckpoint → ConsumerCheckpoint → Type 0
Covers later earlier =
    (earlier.last_completed_sequence ≤ℤ later.last_completed_sequence)
    × (earlier.observed_head_sequence ≤ℤ later.observed_head_sequence)

-- The projection knows the consumer by a checkpoint that covers the given one.
abbrev pub IsCovered : Projection → String → ConsumerCheckpoint → Type 0
IsCovered p k c = (d : ConsumerCheckpoint) × (lookup k p ≡ some d) × Covers d c

abbrev pub In : Event → List Event → Type 0
In e [] = ⊥
In e (x ∷ xs) = (e ≡ x) ⊎ In e xs

Covers-trans : (a b c : ConsumerCheckpoint) → Covers b a → Covers c b → Covers c a
Covers-trans a b c h g = ground arith

check_regression-Covers :
    (current c : ConsumerCheckpoint) → check_regression (some current) c ≡ ok tt → Covers c current
unfolding check_regression
check_regression-Covers current c h = ground arith

insert_covers :
    (p : Projection) (c : ConsumerCheckpoint) (k : String) (old : ConsumerCheckpoint)
    → check_regression (lookup c.consumer_id p) c ≡ ok tt
    → IsCovered p k old
    → IsCovered (insert c.consumer_id c p) k old
insert_covers p c k old passed (d, found, covers) = elim (Bool-cases (c.consumer_id == k)) [
  | inl same ↦
      let key : c.consumer_id ≡ k = (eq_iff c.consumer_id k).0 same in
      let current : check_regression (some d) c ≡ ok tt =
        subst (λ o. check_regression o c ≡ ok tt) (ap (λ j. lookup j p) key ∙ found) passed in
      (
        c,
        ground (arith, lookup-insert c.consumer_id k c p),
        Covers-trans old d c covers (check_regression-Covers d c current),
      )
  | inr other ↦ (d, ground (arith, lookup-insert c.consumer_id k c p), covers)
]

module _ (py : Builtins) where
  from_event_typed :
      (event : Event) (c : ConsumerCheckpoint)
      → from_event py event ≡ ok c
      → (event.type == consumer_checkpoint_event) ≡ true
  unfolding from_event
  from_event_typed event c h = elim (Bool-cases (event.type == consumer_checkpoint_event)) [
    | inl typed ↦ typed
    | inr other ↦ ground arith
  ]

  -- What `apply` did with a checkpoint event.
  apply_parts :
      (p q : Projection) (event : Event) (b : Bool)
      → (event.type == consumer_checkpoint_event) ≡ true
      → apply py p event ≡ ok (b, q)
      → (c : ConsumerCheckpoint) × (from_event py event ≡ ok c)
        × (check_regression (lookup c.consumer_id p) c ≡ ok tt)
        × (q ≡ insert c.consumer_id c p)
  unfolding apply
  apply_parts p q event b typed h =
      let h0 : (from_event py event >>= record_checkpoint p) ≡ ok (b, q) = ground arith in
      let (c, read, h1) = >>=-eq-ok (from_event py event) _ h0 in
      let (u, guarded, h2) = >>=-eq-ok (check_regression (lookup c.consumer_id p) c) _ h1 in
      (c, read, guarded, ground (arith, h2))

  apply_covers :
      (p q : Projection) (event : Event) (b : Bool) (k : String) (old : ConsumerCheckpoint)
      → apply py p event ≡ ok (b, q)
      → IsCovered p k old
      → IsCovered q k old
  unfolding apply
  apply_covers p q event b k old h covered =
      elim (Bool-cases (event.type == consumer_checkpoint_event)) [
        | inl typed ↦
            let (c, read, guarded, stored) = apply_parts p q event b typed h in
            subst (λ r. IsCovered r k old) (sym stored) (insert_covers p c k old guarded covered)
        | inr other ↦ subst (λ r. IsCovered r k old) (ground arith) covered
      ]

  apply_all_covers :
      (events : List Event) (p q : Projection) (k : String) (old : ConsumerCheckpoint)
      → apply_all py p events ≡ ok q
      → IsCovered p k old
      → IsCovered q k old
  unfolding apply_all
  apply_all_covers [] p q k old h covered = subst (λ r. IsCovered r k old) (ground arith) covered
  apply_all_covers (event ∷ events) p q k old h covered =
      let ((b, r), step, rest) = >>=-eq-ok (apply py p event) _ h in
      apply_all_covers events r q k old rest (apply_covers p r event b k old step covered)

  apply_records :
      (p q : Projection) (event : Event) (b : Bool) (c : ConsumerCheckpoint)
      → from_event py event ≡ ok c
      → apply py p event ≡ ok (b, q)
      → IsCovered q c.consumer_id c
  unfolding apply
  apply_records p q event b c read h =
      let typed : (event.type == consumer_checkpoint_event) ≡ true =
        from_event_typed event c read in
      let (d, read', guarded, stored) = apply_parts p q event b typed h in
      let same : d ≡ c = ground (arith, read, read') in
      (
        c,
        subst (λ r. lookup c.consumer_id r ≡ some c)
            (sym (stored ∙ ap (λ x. insert x.consumer_id x p) same))
            (lookup-insert_self c.consumer_id c p),
        ground arith,
      )

  apply_all_records :
      (events : List Event) (p q : Projection) (event : Event) (c : ConsumerCheckpoint)
      → apply_all py p events ≡ ok q
      → In event events
      → from_event py event ≡ ok c
      → IsCovered q c.consumer_id c
  unfolding apply_all
  apply_all_records [] p q event c h member read = absurd member
  apply_all_records (e ∷ events) p q event c h member read =
      let ((b, r), step, rest) = >>=-eq-ok (apply py p e) _ h in
      elim member [
        | inl same ↦
            apply_all_covers events r q c.consumer_id c rest
              (apply_records p r e b c (subst (λ x. from_event py x ≡ ok c) same read) step)
        | inr later ↦ apply_all_records events r q event c rest later read
      ]

  -- When the projection is rebuilt from a log without an exception, its watermark of a consumer
  -- covers every checkpoint of the consumer in the log.
  pub rebuild_covers :
      (events : List Event) (q : Projection) (event : Event) (c : ConsumerCheckpoint)
      → rebuild py events ≡ ok q
      → In event events
      → from_event py event ≡ ok c
      → IsCovered q c.consumer_id c
  unfolding rebuild
  rebuild_covers events q event c h member read =
      apply_all_records events [] q event c h member read
