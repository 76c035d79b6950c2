-- ===== src/Work/Projection/Outcomes.antt =====
-- src/noema/work/coordination.py: how the end of a lease changes the leases of a `WorkProjection`.
use noema_agent_sdk.Common.{
  String, true, false, some, ◌==◌, string_eq, pair_eq, ◌≡◌, ◌≢◌, inl, inr, refl, ap, arith,
  Bool-cases,
}
use noema_agent_sdk.Common.Int.{int_eq}
use noema_agent_sdk.Common.Dict.{lookup, insert, has_key-insert, lookup-insert}
use noema_agent_sdk.Work.Leases.{WorkLease}
use noema_agent_sdk.Work.Projection.{
  NodeCompletion, Outcome, LeaseBook, is_live, is_active, is_completed, highest_token,
}
use noema_agent_sdk.Work.Projection.Consistent.{IsConsistent, node_key}

abbrev pub with_outcome : LeaseBook → String → Outcome → LeaseBook
with_outcome b lease_id outcome = record b {
  lease_outcomes = insert lease_id outcome b.lease_outcomes;
}

-- A lease that is active after another one has ended was active before, and is not that one.
is_active-with_outcome :
    (b : LeaseBook) (lease_id k : String) (outcome : Outcome)
    → is_live (some outcome) ≡ false
    → is_active (with_outcome b lease_id outcome) k ≡ true
    → (is_active b k ≡ true) × (lease_id ≢ k)
unfolding is_active
is_active-with_outcome b lease_id k outcome ended live =
    let now = ap is_live (lookup-insert lease_id k outcome b.lease_outcomes) in
    elim (Bool-cases (lease_id == k)) [
      | inl same ↦ absurd (ground (arith, now, same, ended, live))
      | inr other ↦ (
        ground (arith, now, other, live),
        λ equal. ground (arith, other, string_eq.beq_iff lease_id k, equal),
      )
    ]

pub IsConsistent-with_outcome :
    (b : LeaseBook) (lease_id : String) (outcome : Outcome)
    → is_live (some outcome) ≡ false
    → IsConsistent b
    → IsConsistent (with_outcome b lease_id outcome)
unfolding is_completed highest_token
IsConsistent-with_outcome b lease_id outcome ended sound =
    let before : (k : String)
        → is_active (with_outcome b lease_id outcome) k ≡ true
        → is_active b k ≡ true =
      λ k live. (is_active-with_outcome b lease_id k outcome ended live).0 in
    record {
      keyed = sound.keyed;
      sole = λ k m l o foundk foundm livek livem.
          sound.sole k m l o foundk foundm (before k livek) (before m livem);
      bounded = sound.bounded;
      finished = λ k l found live. sound.finished k l found (before k live);
    }

abbrev pub with_completion : LeaseBook → String → WorkLease → NodeCompletion → LeaseBook
with_completion b lease_id l c = record b {
  completions = insert (l.graph_id, l.node_id) c b.completions;
  lease_outcomes = insert lease_id Outcome.completed b.lease_outcomes;
}

pub IsConsistent-with_completion :
    (b : LeaseBook) (lease_id : String) (l : WorkLease) (c : NodeCompletion)
    → lookup lease_id b.leases ≡ some l
    → is_active b lease_id ≡ true
    → IsConsistent b
    → IsConsistent (with_completion b lease_id l c)
unfolding is_completed highest_token is_active
IsConsistent-with_completion b lease_id l c found_l live_l sound =
    let ended = IsConsistent-with_outcome b lease_id Outcome.completed refl sound in
    record {
      keyed = ended.keyed;
      sole = ended.sole;
      bounded = ended.bounded;
      finished = λ k m found live.
          let before = is_active-with_outcome b lease_id k Outcome.completed refl live in
          elim (Bool-cases (node_key l.graph_id l.node_id == node_key m.graph_id m.node_id)) [
            | inl same ↦
                let keys =
                  (pair_eq.beq_iff (node_key l.graph_id l.node_id)
                      (node_key m.graph_id m.node_id)).0
                    same in
                absurd (
                  before.1 (
                    sound.sole lease_id k l m found_l found live_l before.0 (ap (λ p. p.0) keys)
                      (ap (λ p. p.1) keys)))
            | inr other ↦ ground (
              arith,
              other,
              has_key-insert (node_key l.graph_id l.node_id) (node_key m.graph_id m.node_id) c
                  b.completions,
              sound.finished k m found before.0,
            )
          ];
    }
