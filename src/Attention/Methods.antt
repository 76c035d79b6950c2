-- ===== src/Attention/Methods.antt =====
-- src/noema/attention.py: `acquire`, `settle` and the full `replenish` of a conserved account.
use noema_agent_sdk.Common.{
  ℕ, ◌+◌, ◌≡◌, ◌⊎◌, subst, ap, Option, none, some, [], ◌∷◌, nat_eq, arith, inl, inr, Bool-cases,
}
use noema_agent_sdk.Common.Int.{
  ℤ, pos, pos_part, neg_part, ◌+ℤ◌, ◌-ℤ◌, ◌≤ℤ◌, int_laws, ltb_ℤ, min_ℤ, min_ℤ-eq_right,
}
use noema_agent_sdk.Common.Dict.{Dict, lookup, has_key, insert, erase}
use noema_agent_sdk.Attention.{
  AttentionAccount, AttentionLease, Arithmetic, acquire, settle, settle_account, replenish,
  sum_values, actual_of,
}
use noema_agent_sdk.Attention.Ledger.{
  Below, lookup_above, Below-insert, Below-erase, sum-insert, sum-erase,
}

-- The reserved amounts are not negative.
abbrev pub NonNegative : Dict ℕ ℤ → Type 0
NonNegative [] = Unit {0}
NonNegative ((k, v) ∷ d) = (pos 0 ≤ℤ v) × NonNegative d

NonNegative-insert :
    (k : ℕ) (v : ℤ) (d : Dict ℕ ℤ) → NonNegative d → pos 0 ≤ℤ v → NonNegative (insert k v d)
unfolding insert
NonNegative-insert k v [] h p = (p, tt)
NonNegative-insert k v ((j, w) ∷ d) h p = ground (arith, NonNegative-insert k v d h.1 p)

NonNegative-erase : (k : ℕ) (d : Dict ℕ ℤ) → NonNegative d → NonNegative (erase k d)
unfolding erase
NonNegative-erase k [] h = tt
NonNegative-erase k ((j, w) ∷ d) h = ground (arith, NonNegative-erase k d h.1)

pub sum_nonneg : (d : Dict ℕ ℤ) → NonNegative d → pos 0 ≤ℤ sum_values d
sum_nonneg [] h = omega arith
sum_nonneg ((k, v) ∷ d) h = omega (int_laws, sum_nonneg d h.1)

held_nonneg : (k : ℕ) (v : ℤ) (d : Dict ℕ ℤ) → NonNegative d → lookup k d ≡ some v → pos 0 ≤ℤ v
unfolding lookup
held_nonneg k v [] h e = cc
held_nonneg k v ((j, w) ∷ d) h e = ground (arith, held_nonneg k v d h.1)

-- Float arithmetic is exact on amounts up to a limit, as it is for doubles that are whole numbers of a
-- unit 2 ^ k, up to 2 ^ 53 units: their sums and differences are doubles.
pub record IsExact (float : Arithmetic) (limit : ℤ) : Type 0 where
  pub rounds : (x : ℤ) → pos 0 ≤ℤ x → x ≤ℤ limit → float.round x ≡ x
  pub sums : (d : Dict ℕ ℤ) → NonNegative d → sum_values d ≤ℤ limit → float.sum d ≡ sum_values d

-- What is available and what is reserved make up the capacity.
pub record IsConserved (limit : ℤ) (a : AttentionAccount) : Type 0 where
  pub same_capacity : a.capacity ≡ limit
  pub below : Below a.counter a.leases
  pub reserved_nonneg : NonNegative a.leases
  pub available_nonneg : pos 0 ≤ℤ a.available
  pub conserved : a.available +ℤ sum_values a.leases ≡ a.capacity

module _ (float : Arithmetic) (limit : ℤ) (exact : IsExact float limit) where
  granted :
      (amount : ℤ) (a : AttentionAccount)
      → IsConserved limit a
      → pos 0 ≤ℤ amount
      → amount ≤ℤ a.available
      → IsConserved limit (record a {
        counter = a.counter + 1;
        available = a.available -ℤ amount;
        leases = insert (a.counter + 1) amount a.leases;
      })
  granted amount a h p q = record {
    same_capacity = h.same_capacity;
    below = Below-insert a.counter amount a.leases h.below;
    reserved_nonneg = NonNegative-insert (a.counter + 1) amount a.leases h.reserved_nonneg p;
    available_nonneg = omega int_laws;
    conserved =
        rw
          (sum-insert (a.counter + 1) amount a.leases
            (lookup_above a.counter (a.counter + 1) a.leases h.below (omega arith)))
          (omega (int_laws, ap pos_part h.conserved, ap neg_part h.conserved));
  }

  -- What is available stays within the limit.
  rounded :
      (x : ℤ) (a : AttentionAccount)
      → IsConserved limit a
      → pos 0 ≤ℤ x
      → x ≤ℤ a.capacity
      → float.round x ≡ x
  rounded x a h p q = exact.rounds x p (subst (λ c. x ≤ℤ c) h.same_capacity q)

  within :
      (a : AttentionAccount)
      → IsConserved limit a
      → (a.available ≤ℤ a.capacity) × (sum_values a.leases ≤ℤ a.capacity)
  within a h =
      let held = sum_nonneg a.leases h.reserved_nonneg in
      let available = h.available_nonneg in
      (
        omega (int_laws, held, available, ap pos_part h.conserved, ap neg_part h.conserved),
        omega (int_laws, held, available, ap pos_part h.conserved, ap neg_part h.conserved),
      )

  pub acquire-IsConserved :
      (amount : ℤ) (a : AttentionAccount)
      → IsConserved limit a
      → IsConserved limit (acquire float amount a).1
  unfolding acquire
  acquire-IsConserved amount a h = elim (Bool-cases (ltb_ℤ amount (pos 0))) [
    | inl negative ↦ rw (negative, acquire) h
    | inr fine ↦ elim (Bool-cases (ltb_ℤ a.available amount)) [
      | inl short ↦ rw (fine, short, acquire) h
      | inr covered ↦
          let below = (within a h).0 in
          let positive : pos 0 ≤ℤ amount = ground (arith, fine) in
          let fits : amount ≤ℤ a.available = ground (arith, covered) in
          let left : pos 0 ≤ℤ a.available -ℤ amount = omega (int_laws, fits) in
          let small : a.available -ℤ amount ≤ℤ a.capacity = omega (int_laws, positive, below) in
          let kept = rounded (a.available -ℤ amount) a h left small in
          rw (fine, covered, acquire, kept) (granted amount a h positive fits)
    ]
  ]

  -- Settling a lease that the account holds gives back what it reserved.
  returned :
      (k : ℕ) (v spent : ℤ) (a : AttentionAccount)
      → IsConserved limit a
      → lookup k a.leases ≡ some v
      → IsConserved limit (record a {
        leases = erase k a.leases;
        spent_total = spent;
        available = min_ℤ a.capacity (float.round (a.available +ℤ v));
      })
  returned k v spent a h e =
      let rest : sum_values (erase k a.leases) +ℤ v ≡ sum_values a.leases =
        sum-erase a.counter k v a.leases h.below e in
      let left : pos 0 ≤ℤ sum_values (erase k a.leases) =
        sum_nonneg (erase k a.leases) (NonNegative-erase k a.leases h.reserved_nonneg) in
      let v_nonneg : pos 0 ≤ℤ v = held_nonneg k v a.leases h.reserved_nonneg e in
      let room : a.available +ℤ v ≤ℤ a.capacity = omega (
        int_laws,
        ap pos_part rest,
        ap neg_part rest,
        ap pos_part h.conserved,
        ap neg_part h.conserved,
      ) in
      let kept : float.round (a.available +ℤ v) ≡ a.available +ℤ v =
        rounded (a.available +ℤ v) a h (omega int_laws) room in
      let fits : min_ℤ a.capacity (float.round (a.available +ℤ v)) ≡ a.available +ℤ v =
        rw kept (min_ℤ-eq_right a.capacity (a.available +ℤ v) room) in
      record {
        same_capacity = h.same_capacity;
        below = Below-erase a.counter k a.leases h.below;
        reserved_nonneg = NonNegative-erase k a.leases h.reserved_nonneg;
        available_nonneg = rw fits (omega int_laws);
        conserved = rw fits (
            omega (
              int_laws,
              ap pos_part rest,
              ap neg_part rest,
              ap pos_part h.conserved,
              ap neg_part h.conserved,
            ));
      }

  -- Settling the lease that the account holds under its number, whatever it cost.
  pub settle-IsConserved :
      (actual_cost : Option ℤ) (l : AttentionLease) (a : AttentionAccount)
      → (lookup l.lease_id a.leases ≡ none) ⊎ (lookup l.lease_id a.leases ≡ some l.reserved)
      → IsConserved limit a
      → IsConserved limit (settle float actual_cost l a).1
  unfolding settle
  settle-IsConserved actual_cost l a own h = elim (Bool-cases l.settled) [
    | inl done ↦ rw done h
    | inr first ↦ elim own [
      | inl gone ↦
          let same : settle_account float l.lease_id l.reserved actual_cost a ≡ a =
            (unfold has_key in ground arith) in
          rw (first, same) h
      | inr held ↦
          let next : settle_account float l.lease_id l.reserved actual_cost a ≡ record a {
            leases = erase l.lease_id a.leases;
            spent_total = float.round (a.spent_total +ℤ actual_of l.reserved actual_cost);
            available = min_ℤ a.capacity (float.round (a.available +ℤ l.reserved));
          } =
            (unfold has_key in ground arith) in
          rw (first, next) (returned l.lease_id l.reserved _ a h held)
    ]
  ]

  -- A full `replenish` of a conserved account changes nothing.
  pub replenish_all_lem : (a : AttentionAccount) → IsConserved limit a → replenish float none a ≡ a
  unfolding replenish
  replenish_all_lem a h =
      let (below, room) = within a h in
      let held =
        exact.sums a.leases h.reserved_nonneg
          (subst (λ c. sum_values a.leases ≤ℤ c) h.same_capacity room) in
      let p : a.capacity -ℤ sum_values a.leases ≡ a.available =
        omega (int_laws, ap pos_part h.conserved, ap neg_part h.conserved) in
      let q : float.round (a.capacity -ℤ float.sum a.leases) ≡ a.available =
        rw (held, p) (rounded a.available a h h.available_nonneg below) in
      ap (λ x. record a { available = x }) q
