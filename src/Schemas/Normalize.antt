-- ===== src/Schemas/Normalize.antt =====
-- src/noema/events.py, `EventSchemaRegistry.normalize`: its loop and its result.
use noema_agent_sdk.Common.{
  Result-cases, ℕ, zero, suc, ◌+◌, ◌<◌, ◌≡◌, refl, sym, ap, ◌∙◌, true, Option, some, string_eq,
  eq_iff, inl, inr, subst, Option-cases, Bool-cases, Result, ok, err, ◌>>=◌, ◌>>◌, arith, >>=-eq-ok,
  pair_eq, or_raise, value_error, ltb→lt,
}
use noema_agent_sdk.Common.Int.{
  ℤ, pos, pos_part, neg_part, ◌+ℤ◌, ◌≤ℤ◌, ltb_ℤ, int_laws, int_eq, int_eqb_iff,
}
use noema_agent_sdk.Common.Dict.{lookup}
use noema_agent_sdk.Event.{Event}
use noema_agent_sdk.Schemas.{
  EventSchemaRegistry, current_version, upcast, upcast_all, validate, normalize, sequence_beq,
}

-- The two events are the same observation.
abbrev pub SameEvent : Event → Event → Type 0
SameEvent a b = (a.id ≡ b.id) × (a.sequence ≡ b.sequence)

sequence_beq-eq : (a b : Option ℤ) → sequence_beq a b ≡ true → a ≡ b
sequence_beq-eq a b h = ground arith

upcast-SameEvent :
    (s : EventSchemaRegistry) (e next : Event)
    → upcast s e ≡ ok next
    → (next.schema_version ≡ e.schema_version +ℤ pos 1) × SameEvent next e
unfolding upcast
upcast-SameEvent s e next h =
    let (upcaster, found, h1) =
      >>=-eq-ok
        (or_raise (lookup (e.type, e.schema_version) s.upcasters) (value_error "missing upcaster"))
        _ h in
    let (made, run, h2) = >>=-eq-ok (upcaster e) _ h1 in
    ground (
      arith,
      h2,
      int_eqb_iff made.schema_version (e.schema_version +ℤ pos 1),
      eq_iff made.id e.id,
      sequence_beq-eq made.sequence e.sequence,
    )

-- The rounds that are left, when the version is behind.
upcast_all_returns :
    (fuel : ℕ) (s : EventSchemaRegistry) (current : ℤ) (e : Event)
    → pos_part current + neg_part e.schema_version
      < fuel + pos_part e.schema_version + neg_part current
    → 0 < fuel
    → (r : Result Event) × (upcast_all fuel s current e ≡ some r)
unfolding upcast_all
upcast_all_returns zero s current e enough some_fuel = absurd (omega arith)
upcast_all_returns (suc fuel) s current e enough some_fuel =
    elim (Bool-cases (ltb_ℤ e.schema_version current)) [
      | inr reached ↦ (ok e, ground arith)
      | inl behind ↦ elim (Result-cases (upcast s e)) [
        | inr (x, raised) ↦ (err x, rw (behind, raised) refl)
        | inl (next, done) ↦
            let same : next.schema_version ≡ e.schema_version +ℤ pos 1 =
              (upcast-SameEvent s e next done).0 in
            let (r, returned) =
              upcast_all_returns fuel s current next
                (omega (int_laws, ap pos_part same, ap neg_part same))
                (ground (arith, behind, enough)) in
            (r, rw (behind, done) returned)
      ]
    ]

upcast_all-SameEvent :
    (fuel : ℕ) (s : EventSchemaRegistry) (current : ℤ) (e next : Event)
    → e.schema_version ≤ℤ current
    → upcast_all fuel s current e ≡ some (ok next)
    → (next.schema_version ≡ current) × SameEvent next e
unfolding upcast_all
upcast_all-SameEvent zero s current e next below h = cc
upcast_all-SameEvent (suc fuel) s current e next below h =
    elim (Bool-cases (ltb_ℤ e.schema_version current)) [
      | inr reached ↦
          let same : e ≡ next = ground arith in
          let at_current : e.schema_version ≡ current = ground (arith, reached) in
          (
            ap (λ (x : Event). x.schema_version) (sym same) ∙ at_current,
            (ap (λ (x : Event). x.id) (sym same), ap (λ (x : Event). x.sequence) (sym same)),
          )
      | inl behind ↦ elim (Result-cases (upcast s e)) [
        | inr (x, raised) ↦ absurd (ground arith)
        | inl (made, done) ↦
            let (version, (id, sequence)) = upcast-SameEvent s e made done in
            let (v, (i, q)) =
              upcast_all-SameEvent fuel s current made next
                (omega (int_laws, ap pos_part version, ap neg_part version, ltb→lt _ _ behind))
                (ground arith) in
            (v, (i ∙ id, q ∙ sequence))
      ]
    ]

validate-eq : (s : EventSchemaRegistry) (e next : Event) → validate s e ≡ ok next → e ≡ next
unfolding validate
validate-eq s e next h = elim (Option-cases (lookup (e.type, e.schema_version) s.validators)) [
  | inl free ↦ ground arith
  | inr (validator, found) ↦
      let run : (validator e >> ok e) ≡ ok next = ground (arith, found, h) in
      let (u, passed, same) = >>=-eq-ok (validator e) _ run in ground arith
]

-- With more fuel than there are versions between the event's and the current one, `normalize`
-- returns an event or raises.
pub normalize_returns :
    (fuel : ℕ) (s : EventSchemaRegistry) (e : Event)
    → pos_part (current_version e.type s) + neg_part e.schema_version
      < fuel + pos_part e.schema_version + neg_part (current_version e.type s)
    → 0 < fuel
    → (r : Result Event) × (normalize fuel s e ≡ some r)
unfolding normalize
normalize_returns fuel s e enough some_fuel =
    let (r, returned) = upcast_all_returns fuel s (current_version e.type s) e enough some_fuel in
    elim (Bool-cases (ltb_ℤ (current_version e.type s) e.schema_version)) [
      | inl future ↦ (err (value_error "unsupported future schema"), ground arith)
      | inr known ↦ (r >>= validate s, rw (known, returned) refl)
    ]

-- An event that `normalize` returns has the current version of the type that was observed, and the
-- identity and the sequence of the event that was stored.
pub normalize-SameEvent :
    (fuel : ℕ) (s : EventSchemaRegistry) (e next : Event)
    → normalize fuel s e ≡ some (ok next)
    → (next.schema_version ≡ current_version e.type s) × SameEvent next e
unfolding normalize
normalize-SameEvent fuel s e next h =
    elim (Bool-cases (ltb_ℤ (current_version e.type s) e.schema_version)) [
      | inl future ↦ absurd (ground arith)
      | inr known ↦ elim (Option-cases (upcast_all fuel s (current_version e.type s) e)) [
        | inl out ↦ absurd (ground arith)
        | inr (ok made, reached) ↦
            let kept : made ≡ next = validate-eq s made next (ground arith) in
            subst (λ x. (x.schema_version ≡ current_version e.type s) × SameEvent x e) kept
              (upcast_all-SameEvent fuel s (current_version e.type s) e made (ground arith) reached)
        | inr (err x, raised) ↦ absurd (ground arith)
      ]
    ]
