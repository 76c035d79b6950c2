-- ===== src/Common/Dict.antt =====
-- A Python dict as an association list in insertion order.
use mathlib.Core.Path.{◌≡◌}
use mathlib.Core.Logic.{◌≢◌}
use mathlib.Core.Bool.{Bool, true, false}
use mathlib.Core.List.{List, [], ◌∷◌}
use mathlib.Core.Option.{Option, none, some}
use native.Mathlib.Omega.{arith}
use noema_agent_sdk.Common.Tests.{if◌then◌else◌, Eq, ◌==◌, beq_self}

abbrev pub Dict {ℓ κ} : Type ℓ → Type κ → Type (ℓ ⊔ κ)
Dict K V = List (K × V)

module _ {ℓ κ} {K : Type ℓ} {V : Type κ} ⦃e : Eq K⦄ where
  -- `d.get(k)`
  unfoldable pub lookup : K → Dict K V → Option V
  lookup k [] = none
  lookup k ((j, v) ∷ d) = let rest = lookup k d in if k == j then some v else rest

  -- `k in d`
  unfoldable pub has_key : K → Dict K V → Bool
  unfolding lookup
  has_key k d = elim (lookup k d) [ none ↦ false | some _ ↦ true ]

  -- `d[k] = v`
  unfoldable pub insert : K → V → Dict K V → Dict K V
  insert k v [] = (k, v) ∷ []
  insert k v ((j, w) ∷ d) = let rest = insert k v d in if k == j then (k, v) ∷ d else (j, w) ∷ rest

  -- `d.pop(k, None)`
  unfoldable pub erase : K → Dict K V → Dict K V
  erase k [] = []
  erase k ((j, w) ∷ d) = let rest = erase k d in if k == j then rest else (j, w) ∷ rest

  pub lookup-insert :
      (k j : K) (v : V) (d : Dict K V)
      → lookup j (insert k v d) ≡ (if k == j then some v else lookup j d)
  unfolding lookup insert
  lookup-insert k j v [] = ground (arith, e.beq_iff j k, e.beq_iff k j)
  lookup-insert k j v ((i, w) ∷ d) =
      ground
        (arith, e.beq_iff k i, e.beq_iff j i, e.beq_iff k j, e.beq_iff j k, lookup-insert k j v d)

  pub lookup-erase :
      (k j : K) (d : Dict K V) → lookup j (erase k d) ≡ (if k == j then none else lookup j d)
  unfolding lookup erase
  lookup-erase k j [] = ground arith
  lookup-erase k j ((i, w) ∷ d) =
      ground (arith, e.beq_iff k i, e.beq_iff j i, e.beq_iff k j, e.beq_iff j k, lookup-erase k j d)

  pub lookup-insert_self : (k : K) (v : V) (d : Dict K V) → lookup k (insert k v d) ≡ some v
  lookup-insert_self k v d = simp (lookup-insert, beq_self)

  pub lookup-insert_ne :
      (k j : K) (v : V) (d : Dict K V) → k ≢ j → lookup j (insert k v d) ≡ lookup j d
  lookup-insert_ne k j v d h = ground (arith, lookup-insert k j v d, e.beq_iff k j)

  pub has_key-insert :
      (k j : K) (v : V) (d : Dict K V)
      → has_key j (insert k v d) ≡ (if k == j then true else has_key j d)
  unfolding has_key
  has_key-insert k j v d = ground (arith, lookup-insert k j v d)

pub ruleset dict_laws = (lookup-insert, lookup-erase)
