-- ===== src/Work/Projection/Consistent.antt =====
-- src/noema/work/coordination.py, what the leases of a `WorkProjection` satisfy.
use noema_agent_sdk.Common.{
  String, Bool, true, false, Option, none, some, if◌then◌else◌, ◌==◌, string_eq, pair_eq, ◌≡◌, ◌≢◌,
  ◌⊎◌, inl, inr, refl, sym, ◌∙◌, ap, subst, arith, beq_self, Bool-cases,
}
use noema_agent_sdk.Common.Int.{ℤ, pos, ◌≤ℤ◌, +ℤ_parts}
use noema_agent_sdk.Common.Dict.{lookup, insert, lookup-insert}
use noema_agent_sdk.Work.Leases.{WorkLease}
use noema_agent_sdk.Work.Projection.{
  Outcome, LeaseBook, values, leases, is_live, or_zero, is_active, active_leases, is_for,
  active_lease_for_node, is_completed, highest_token, next_fencing_token,
}
use noema_agent_sdk.Work.Projection.Lookups.{All-sort, find-none, All-lookup}

-- A lease is stored under its identity; two active leases of a node are the same; no lease has a
-- greater token than the greatest that its node has been granted; and a completed node has no
-- active lease.
pub record IsConsistent (b : LeaseBook) : Type 0 where
  pub keyed : (k : String) (l : WorkLease) → lookup k b.leases ≡ some l → l.lease_id ≡ k
  pub sole :
      (k m : String) (l o : WorkLease)
      → lookup k b.leases ≡ some l
      → lookup m b.leases ≡ some o
      → is_active b k ≡ true
      → is_active b m ≡ true
      → l.graph_id ≡ o.graph_id
      → l.node_id ≡ o.node_id
      → k ≡ m
  pub bounded :
      (k : String) (l : WorkLease)
      → lookup k b.leases ≡ some l
      → l.fencing_token ≤ℤ highest_token b l.graph_id l.node_id
  pub finished :
      (k : String) (l : WorkLease)
      → lookup k b.leases ≡ some l
      → is_active b k ≡ true
      → is_completed b l.graph_id l.node_id ≡ false

-- A node for which no active lease is found has none.
pub active_lease_for_node-none :
    (b : LeaseBook) (graph_id node_id k : String) (l : WorkLease)
    → IsConsistent b
    → active_lease_for_node b graph_id node_id ≡ none
    → lookup k b.leases ≡ some l
    → is_active b k ≡ true
    → is_for graph_id node_id l ≡ false
unfolding active_lease_for_node active_leases leases
active_lease_for_node-none b graph_id node_id k l sound nothing found live =
    let selected = find-none (is_for graph_id node_id) (λ m. is_active b m.lease_id) _ nothing in
    let missed = All-sort _ _ (values b.leases) selected in
    All-lookup (λ m. is_active b m.lease_id ≡ true → is_for graph_id node_id m ≡ false) k b.leases
      missed found (subst (λ i. is_active b i ≡ true) (sym (sound.keyed k l found)) live)

abbrev pub node_key : String → String → String × String
node_key graph_id node_id = (graph_id, node_id)

or_zero-if :
    (c : Bool) (n : ℤ) (o : Option ℤ)
    → or_zero (if c then some n else o) ≡ (if c then n else or_zero o)
or_zero-if true n o = refl
or_zero-if false n o = refl

-- The book after a lease is granted.
abbrev pub with_grant : LeaseBook → WorkLease → LeaseBook
with_grant b l = record b {
  leases = insert l.lease_id l b.leases;
  lease_outcomes = insert l.lease_id Outcome.active b.lease_outcomes;
  highest_fencing_token = insert (l.graph_id, l.node_id) l.fencing_token b.highest_fencing_token;
}

-- An entry after a grant is the new lease, or was there before and is as active as it was.
pub lookup-with_grant :
    (b : LeaseBook) (l : WorkLease) (k : String) (m : WorkLease)
    → lookup k (with_grant b l).leases ≡ some m
    → ((k ≡ l.lease_id) × (m ≡ l))
      ⊎ ((k ≢ l.lease_id)
          × (lookup k b.leases ≡ some m)
          × (is_active (with_grant b l) k ≡ is_active b k))
unfolding is_active
lookup-with_grant b l k m h = elim (Bool-cases (l.lease_id == k)) [
  | inl same ↦ inl (
    sym ((string_eq.beq_iff l.lease_id k).0 same),
    ground (arith, h, lookup-insert l.lease_id k l b.leases),
  )
  | inr other ↦ inr (
    (λ equal. ground (arith, equal, other, string_eq.beq_iff l.lease_id k)),
    ground (arith, h, lookup-insert l.lease_id k l b.leases),
    ap is_live (ground (arith, other, lookup-insert l.lease_id k Outcome.active b.lease_outcomes)),
  )
]

-- The greatest token of a node after a grant: the new one for the lease's node.
highest_token-with_grant :
    (b : LeaseBook) (l : WorkLease) (graph_id node_id : String)
    → highest_token (with_grant b l) graph_id node_id ≡ (
        if node_key l.graph_id l.node_id == node_key graph_id node_id
        then l.fencing_token
        else highest_token b graph_id node_id)
unfolding highest_token
highest_token-with_grant b l graph_id node_id =
    ap or_zero (
      lookup-insert (l.graph_id, l.node_id) (graph_id, node_id) l.fencing_token
        b.highest_fencing_token)
    ∙ or_zero-if _ l.fencing_token (lookup (graph_id, node_id) b.highest_fencing_token)

token_grows :
    (b : LeaseBook) (l : WorkLease) (graph_id node_id : String)
    → l.fencing_token ≡ next_fencing_token b l.graph_id l.node_id
    → highest_token b graph_id node_id ≤ℤ highest_token (with_grant b l) graph_id node_id
unfolding next_fencing_token
token_grows b l graph_id node_id next =
    elim (Bool-cases (node_key l.graph_id l.node_id == node_key graph_id node_id)) [
      | inl same ↦
          let pairs =
            (pair_eq.beq_iff (node_key l.graph_id l.node_id) (node_key graph_id node_id)).0 same in
          let old : highest_token b l.graph_id l.node_id ≡ highest_token b graph_id node_id =
            ap (λ p. highest_token b p.0 p.1) pairs in
          ground (
            arith,
            highest_token-with_grant b l graph_id node_id,
            same,
            old,
            next,
            +ℤ_parts (highest_token b l.graph_id l.node_id) (pos 1),
          )
      | inr other ↦ ground (arith, highest_token-with_grant b l graph_id node_id, other)
    ]

module _ (b : LeaseBook) (l : WorkLease) (sound : IsConsistent b)
    (next : l.fencing_token ≡ next_fencing_token b l.graph_id l.node_id)
    (vacant : active_lease_for_node b l.graph_id l.node_id ≡ none)
    (unfinished : is_completed b l.graph_id l.node_id ≡ false) where
  -- No active lease of before is one of the new lease's node.
  other_node :
      (k : String) (m : WorkLease)
      → lookup k b.leases ≡ some m
      → is_active b k ≡ true
      → m.graph_id ≡ l.graph_id
      → m.node_id ≡ l.node_id
      → ⊥
  other_node k m found live same_graph same_node =
      let missed = active_lease_for_node-none b l.graph_id l.node_id k m sound vacant found live in
      ground (
        arith,
        missed,
        string_eq.beq_iff m.graph_id l.graph_id,
        string_eq.beq_iff m.node_id l.node_id,
      )

  pub IsConsistent-with_grant : IsConsistent (with_grant b l)
  unfolding is_completed
  IsConsistent-with_grant = record {
    keyed = λ k m found. elim (lookup-with_grant b l k m found) [
      | inl (same, equal) ↦ ap (λ x. x.lease_id) equal ∙ sym same
      | inr (_, old, _) ↦ sound.keyed k m old
    ];
    sole = λ k j m o foundk foundj livek livej same_graph same_node.
        elim (lookup-with_grant b l k m foundk) [
          | inl (samek, equalm) ↦ elim (lookup-with_grant b l j o foundj) [
            | inl (samej, _) ↦ samek ∙ sym samej
            | inr (_, old, same_live) ↦ absurd (
                other_node j o old (sym same_live ∙ livej)
                  (sym same_graph ∙ ap (λ x. x.graph_id) equalm)
                  (sym same_node ∙ ap (λ x. x.node_id) equalm))
          ]
          | inr (_, oldk, same_livek) ↦ elim (lookup-with_grant b l j o foundj) [
            | inl (_, equalo) ↦ absurd (
                other_node k m oldk (sym same_livek ∙ livek)
                  (same_graph ∙ ap (λ x. x.graph_id) equalo)
                  (same_node ∙ ap (λ x. x.node_id) equalo))
            | inr (_, oldj, same_livej) ↦
                sound.sole k j m o oldk oldj (sym same_livek ∙ livek) (sym same_livej ∙ livej)
                  same_graph same_node
          ]
        ];
    bounded = λ k m found. elim (lookup-with_grant b l k m found) [
      | inl (_, equal) ↦
          let newest : highest_token (with_grant b l) l.graph_id l.node_id ≡ l.fencing_token =
            ground (
              arith,
              highest_token-with_grant b l l.graph_id l.node_id,
              beq_self (node_key l.graph_id l.node_id),
            ) in
          subst (λ x. x.fencing_token ≤ℤ highest_token (with_grant b l) x.graph_id x.node_id)
            (sym equal) (ground (arith, newest))
      | inr (_, old, _) ↦
          omega (arith, sound.bounded k m old, token_grows b l m.graph_id m.node_id next)
    ];
    finished = λ k m found live. elim (lookup-with_grant b l k m found) [
      | inl (_, equal) ↦
          subst (λ x. is_completed b x.graph_id x.node_id ≡ false) (sym equal) unfinished
      | inr (_, old, same_live) ↦ sound.finished k m old (sym same_live ∙ live)
    ];
  }
