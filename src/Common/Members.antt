-- ===== src/Common/Members.antt =====
-- Membership and repetition in the sequences that `sorted`, comprehensions and sets build.
use Prim.Native.Nat.{suc, ◌≤◌}
use mathlib.Core.Path.{◌≡◌, refl, sym, subst}
use mathlib.Core.Logic.{◌≢◌, inl, inr}
use mathlib.Core.Bool.{Bool, true, false, not, ◌&&◌, ◌||◌}
use mathlib.Core.List.{List, [], ◌∷◌, ◌++◌}
use native.Mathlib.Omega.{arith}
use noema_agent_sdk.Common.Tests.{if◌then◌else◌, Eq, ◌==◌, beq_self, Bool-cases}
use noema_agent_sdk.Common.Lists.{All, contains, filter, length}
use noema_agent_sdk.Common.Sort.{insert_sorted, sort, is_unique}

module _ {ℓ} {A : Type ℓ} ⦃e : Eq A⦄ where
  -- `xs` without `x`: `set.discard`
  abbrev pub discard : A → List A → List A
  discard x xs = filter (λ y. not (x == y)) xs

  pub contains-append :
      (x : A) (xs ys : List A) → contains x (xs ++ ys) ≡ (contains x xs || contains x ys)
  contains-append x [] ys = refl
  contains-append x (y ∷ xs) ys = ground (arith, contains-append x xs ys)

  pub contains-insert_sorted :
      (leb : A → A → Bool) (x y : A) (ys : List A)
      → contains x (insert_sorted leb y ys) ≡ (x == y || contains x ys)
  contains-insert_sorted leb x y [] = ground arith
  contains-insert_sorted leb x y (z ∷ ys) = ground (arith, contains-insert_sorted leb x y ys)

  pub contains-sort :
      (leb : A → A → Bool) (x : A) (xs : List A) → contains x (sort leb xs) ≡ contains x xs
  contains-sort leb x [] = refl
  contains-sort leb x (y ∷ xs) =
      ground (arith, contains-insert_sorted leb x y (sort leb xs), contains-sort leb x xs)

  pub is_unique-insert_sorted :
      (leb : A → A → Bool) (y : A) (ys : List A)
      → is_unique (insert_sorted leb y ys) ≡ (not (contains y ys) && is_unique ys)
  is_unique-insert_sorted leb y [] = refl
  is_unique-insert_sorted leb y (z ∷ ys) = ground (
    arith,
    is_unique-insert_sorted leb y ys,
    contains-insert_sorted leb z y ys,
    e.beq_iff y z,
    e.beq_iff z y,
  )

  pub is_unique-sort : (leb : A → A → Bool) (xs : List A) → is_unique (sort leb xs) ≡ is_unique xs
  is_unique-sort leb [] = refl
  is_unique-sort leb (x ∷ xs) = ground (
    arith,
    is_unique-insert_sorted leb x (sort leb xs),
    contains-sort leb x xs,
    is_unique-sort leb xs,
  )

  pub contains-filter :
      (p : A → Bool) (x : A) (xs : List A)
      → contains x (filter p xs) ≡ true
      → (contains x xs ≡ true) × (p x ≡ true)
  contains-filter p x [] h = absurd (ground (arith, h))
  contains-filter p x (y ∷ xs) h = elim (Bool-cases (x == y)) [
    | inl same ↦ elim (Bool-cases (p y)) [
      | inl kept ↦ (ground arith, subst (λ z. p z ≡ true) (sym ((e.beq_iff x y).0 same)) kept)
      | inr gone ↦ let inner = contains-filter p x xs (ground arith) in (ground arith, inner.1)
    ]
    | inr other ↦ let inner = contains-filter p x xs (ground arith) in (ground arith, inner.1)
  ]

  pub filter-contains :
      (p : A → Bool) (x : A) (xs : List A)
      → contains x xs ≡ true
      → p x ≡ true
      → contains x (filter p xs) ≡ true
  filter-contains p x [] h g = h
  filter-contains p x (y ∷ xs) h g = elim (Bool-cases (x == y)) [
    | inl same ↦ let kept = subst (λ z. p z ≡ true) ((e.beq_iff x y).0 same) g in ground arith
    | inr other ↦ ground (arith, filter-contains p x xs (ground arith) g)
  ]

  pub is_unique-filter :
      (p : A → Bool) (xs : List A) → is_unique xs ≡ true → is_unique (filter p xs) ≡ true
  is_unique-filter p [] h = refl
  is_unique-filter p (x ∷ xs) h = elim (Bool-cases (contains x (filter p xs))) [
    | inl inside ↦ absurd (let kept = contains-filter p x xs inside in ground (arith, kept.0))
    | inr outside ↦ ground (arith, is_unique-filter p xs)
  ]

  pub length-filter : (p : A → Bool) (xs : List A) → length (filter p xs) ≤ length xs
  length-filter p [] = omega arith
  length-filter p (x ∷ xs) = ground (arith, length-filter p xs)

  pub contains-discard :
      (n x : A) (xs : List A) → contains x xs ≡ true → n ≢ x → contains x (discard n xs) ≡ true
  contains-discard n x [] h g = h
  contains-discard n x (y ∷ xs) h g =
      ground (arith, contains-discard n x xs, e.beq_iff n y, e.beq_iff x y)

  pub contains-discard_ne :
      (n x : A) (xs : List A) → x ≢ n → contains n xs ≡ false → contains n (discard x xs) ≡ false
  contains-discard_ne n x [] g h = refl
  contains-discard_ne n x (y ∷ xs) g h = ground (arith, contains-discard_ne n x xs)

  pub length-discard :
      (x : A) (xs : List A) → contains x xs ≡ true → suc (length (discard x xs)) ≤ length xs
  length-discard x [] h = absurd (ground arith)
  length-discard x (y ∷ xs) h =
      ground (arith, length-discard x xs, e.beq_iff x y, length-filter (λ z. not (x == z)) xs)

  -- A sequence without repetition is no longer than one that has all its elements.
  pub length-le_of_subset :
      (xs ys : List A)
      → is_unique xs ≡ true
      → ((x : A) → contains x xs ≡ true → contains x ys ≡ true)
      → length xs ≤ length ys
  length-le_of_subset [] ys h sub = omega arith
  length-le_of_subset (x ∷ xs) ys h sub =
      let fresh : contains x xs ≡ false = ground arith in
      let rest : (z : A) → contains z xs ≡ true → contains z (discard x ys) ≡ true = λ z inside.
        contains-discard x z ys (sub z (ground arith))
          (λ same. cc (subst (λ w. contains w xs ≡ false) same fresh)) in
      let shorter = length-le_of_subset xs (discard x ys) (ground arith) rest in
      let less = length-discard x ys (sub x (ground (arith, beq_self x))) in omega arith

pub All-map :
    {A : Type 0} (P Q : A → Type 0) (xs : List A) → ((x : A) → P x → Q x) → All P xs → All Q xs
All-map P Q [] f h = h
All-map P Q (x ∷ xs) f h = (f x h.0, All-map P Q xs f h.1)

pub All-insert_sorted :
    {A : Type 0} (P : A → Type 0) (leb : A → A → Bool) (x : A) (ys : List A)
    → P x
    → All P ys
    → All P (insert_sorted leb x ys)
All-insert_sorted P leb x [] px h = (px, h)
All-insert_sorted P leb x (y ∷ ys) px h = elim (Bool-cases (leb x y)) [
  | inl there ↦
      subst (λ b. All P (if b then x ∷ y ∷ ys else y ∷ insert_sorted leb x ys)) (sym there) (px, h)
  | inr fails ↦
      subst (λ b. All P (if b then x ∷ y ∷ ys else y ∷ insert_sorted leb x ys)) (sym fails)
        (h.0, All-insert_sorted P leb x ys px h.1)
]

pub All-sort :
    {A : Type 0} (P : A → Type 0) (leb : A → A → Bool) (xs : List A)
    → All P xs
    → All P (sort leb xs)
All-sort P leb [] h = h
All-sort P leb (x ∷ xs) h = All-insert_sorted P leb x (sort leb xs) h.0 (All-sort P leb xs h.1)
