-- ===== src/Common/Sort.antt =====
-- Python's `sorted` with its keys, and sequences without repetition.
use Prim.Native.Nat.{Ordering}
use Prim.Native.String.{String, compare}
use mathlib.Core.Bool.{Bool, true, false}
use mathlib.Core.List.{List, [], ◌∷◌}
use noema_agent_sdk.Common.Tests.{if◌then◌else◌, Eq, ◌==◌, string_eq}
use noema_agent_sdk.Common.Lists.{contains}

-- `not b < a`
abbrev pub str_leb : String → String → Bool
str_leb a b = elim (compare a b) [ Ordering.gt ↦ false | _ ↦ true ]

-- the order of pairs of texts
abbrev pub pair_leb : String × String → String × String → Bool
pair_leb (a, b) (c, d) = if a == c then str_leb b d else str_leb a c

module _ {ℓ} {A : Type ℓ} (leb : A → A → Bool) where
  abbrev pub insert_sorted : A → List A → List A
  insert_sorted x [] = x ∷ []
  insert_sorted x (y ∷ ys) =
      let rest = insert_sorted x ys in if leb x y then x ∷ y ∷ ys else y ∷ rest

  -- `sorted(xs)`, which keeps the order of equal elements
  abbrev pub sort : List A → List A
  sort [] = []
  sort (x ∷ xs) = insert_sorted x (sort xs)

module _ {ℓ} {A : Type ℓ} ⦃e : Eq A⦄ where
  -- `len(set(xs)) == len(xs)`
  abbrev pub is_unique : List A → Bool
  is_unique [] = true
  is_unique (x ∷ xs) = let rest = is_unique xs in if contains x xs then false else rest
