-- ===== src/Work/Projection/Lookups.antt =====
-- What a search among the values of a dict, put in order and filtered, says of its entries.
use noema_agent_sdk.Common.{
  Bool, true, false, none, some, List, [], ◌∷◌, if◌then◌else◌, ◌==◌, Eq, filter, find, All, ◌≡◌,
  inl, inr, subst, arith, Bool-cases,
}
use noema_agent_sdk.Common.Dict.{Dict, lookup}
use noema_agent_sdk.Common.Sort.{insert_sorted, sort}
use noema_agent_sdk.Work.Projection.{values}

module _ {A : Type 0} where
  All-insert_sorted :
      (P : A → Type 0) (leb : A → A → Bool) (x : A) (xs : List A)
      → All P (insert_sorted leb x xs)
      → P x × All P xs
  All-insert_sorted P leb x [] h = (h.0, tt)
  All-insert_sorted P leb x (y ∷ ys) h = elim (Bool-cases (leb x y)) [
    | inl first ↦
        let front : All P (x ∷ y ∷ ys) =
          subst (λ b. All P (if b then x ∷ y ∷ ys else y ∷ insert_sorted leb x ys)) first h in
        front
    | inr after ↦
        let front : All P (y ∷ insert_sorted leb x ys) =
          subst (λ b. All P (if b then x ∷ y ∷ ys else y ∷ insert_sorted leb x ys)) after h in
        let rest = All-insert_sorted P leb x ys front.1 in (rest.0, (front.0, rest.1))
  ]

  pub All-sort :
      (P : A → Type 0) (leb : A → A → Bool) (xs : List A) → All P (sort leb xs) → All P xs
  All-sort P leb [] h = tt
  All-sort P leb (x ∷ xs) h =
      let both = All-insert_sorted P leb x (sort leb xs) h in (both.0, All-sort P leb xs both.1)

  -- A search that finds nothing among the selected finds nothing in any of them.
  pub find-none :
      (p q : A → Bool) (xs : List A)
      → find p (filter q xs) ≡ none
      → All (λ x. q x ≡ true → p x ≡ false) xs
  find-none p q [] h = tt
  find-none p q (x ∷ xs) h = elim (Bool-cases (q x)) [
    | inl selected ↦
        let here : find p (x ∷ filter q xs) ≡ none =
          subst (λ b. find p (if b then x ∷ filter q xs else filter q xs) ≡ none) selected h in
        elim (Bool-cases (p x)) [
          | inl found ↦ absurd (ground (arith, here, found))
          | inr missed ↦ (λ _. missed, find-none p q xs (ground (arith, here, missed)))
        ]
    | inr skipped ↦
        let rest : find p (filter q xs) ≡ none =
          subst (λ b. find p (if b then x ∷ filter q xs else filter q xs) ≡ none) skipped h in
        ((λ selected. absurd (ground (arith, selected, skipped))), find-none p q xs rest)
  ]

module _ {K A : Type 0} ⦃e : Eq K⦄ where
  pub All-lookup :
      (P : A → Type 0) (k : K) (d : Dict K A) {v : A} → All P (values d) → lookup k d ≡ some v → P v
  unfolding lookup
  All-lookup P k [] h found = absurd (ground (arith, found))
  All-lookup P k ((j, w) ∷ d) {v} h found = elim (Bool-cases (k == j)) [
    | inl same ↦ let here : w ≡ v = ground (arith, found, same) in subst P here h.0
    | inr other ↦ All-lookup P k d h.1 (ground (arith, found, other))
  ]
