-- ===== src/Attention/Ledger.antt =====
-- The sum of the outstanding leases under insertion and removal.
use noema_agent_sdk.Common.{
  ℕ, ◌+◌, ◌<◌, ◌≤◌, ◌≡◌, refl, ap, none, some, [], ◌∷◌, nat_eq, nat_beq, arith, Bool-cases, inl,
  inr,
}
use noema_agent_sdk.Common.Int.{ℤ, pos_part, neg_part, ◌+ℤ◌, int_laws}
use noema_agent_sdk.Common.Dict.{Dict, lookup, insert, erase, lookup-insert, lookup-erase}
use noema_agent_sdk.Attention.{sum_values}

-- Lease numbers are distinct and not above a bound.
abbrev pub Below : ℕ → Dict ℕ ℤ → Type 0
Below n [] = Unit {0}
Below n ((k, v) ∷ d) = (k ≤ n) × (lookup k d ≡ none) × Below n d

pub lookup_above : (n k : ℕ) (d : Dict ℕ ℤ) → Below n d → n < k → lookup k d ≡ none
unfolding lookup
lookup_above n k [] h lt = refl
lookup_above n k ((j, v) ∷ d) h lt = ground (arith, lookup_above n k d h.2)

pub Below-insert : (n : ℕ) (v : ℤ) (d : Dict ℕ ℤ) → Below n d → Below (n + 1) (insert (n + 1) v d)
unfolding insert lookup
Below-insert n v [] h = (omega arith, refl, tt)
Below-insert n v ((j, w) ∷ d) h =
    ground (arith, Below-insert n v d h.2, lookup-insert (n + 1) j v d)

pub Below-erase : (n k : ℕ) (d : Dict ℕ ℤ) → Below n d → Below n (erase k d)
unfolding erase
Below-erase n k [] h = tt
Below-erase n k ((j, w) ∷ d) h = ground (arith, Below-erase n k d h.2, lookup-erase k j d)

pub sum-insert :
    (k : ℕ) (v : ℤ) (d : Dict ℕ ℤ)
    → lookup k d ≡ none
    → sum_values (insert k v d) ≡ sum_values d +ℤ v
unfolding insert lookup
sum-insert k v [] h = omega int_laws
sum-insert k v ((j, w) ∷ d) h = grind (int_laws, sum-insert k v d)

sum-erase-none : (k : ℕ) (d : Dict ℕ ℤ) → lookup k d ≡ none → sum_values (erase k d) ≡ sum_values d
unfolding erase lookup
sum-erase-none k [] h = refl
sum-erase-none k ((j, w) ∷ d) h = ground (arith, sum-erase-none k d)

pub sum-erase :
    (n k : ℕ) (v : ℤ) (d : Dict ℕ ℤ)
    → Below n d
    → lookup k d ≡ some v
    → sum_values (erase k d) +ℤ v ≡ sum_values d
unfolding erase lookup
sum-erase n k v [] h e = cc
sum-erase n k v ((j, w) ∷ d) h e = elim (Bool-cases (nat_beq k j)) [
  | inl same ↦
      let i : k ≡ j = ground arith in
      let w_is_v : w ≡ v = ground arith in
      let gone : lookup k d ≡ none = rw i h.1 in
      rw same (rw (sum-erase-none k d gone, w_is_v) (omega int_laws))
  | inr other ↦
      let rest : sum_values (erase k d) +ℤ v ≡ sum_values d =
        sum-erase n k v d h.2 (ground arith) in
      rw other (omega (int_laws, ap pos_part rest, ap neg_part rest))
]
