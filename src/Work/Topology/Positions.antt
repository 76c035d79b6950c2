-- ===== src/Work/Topology/Positions.antt =====
-- Positions in a sequence of nodes, and what putting a node into the ready ones changes.
use noema_agent_sdk.Common.{
  ℕ, suc, ◌<◌, String, true, not, List, [], ◌∷◌, ◌++◌, ◌&&◌, ◌||◌, if◌then◌else◌, ◌==◌, string_eq,
  contains, ◌≡◌, ◌⊎◌, inl, inr, refl, subst, arith, Bool-cases,
}
use noema_agent_sdk.Common.Sort.{sort, str_leb, is_unique}
use noema_agent_sdk.Common.Members.{contains-append, contains-sort, is_unique-sort}

-- `x in xs`
abbrev pub In : String → List String → Type 0
In x xs = contains x xs ≡ true

-- Each node comes after its predecessors, those before the sequence included.
abbrev pub IsOrdered : (String → List String) → List String → List String → Type 0
IsOrdered preds seen [] = Unit
IsOrdered preds seen (n ∷ ns) =
    ((p : String) → In p (preds n) → In p seen) × IsOrdered preds (n ∷ seen) ns

pub IsOrdered-append :
    (preds : String → List String) (n : String) (seen ns : List String)
    → IsOrdered preds seen ns
    → ((p : String) → In p (preds n) → (contains p ns || contains p seen) ≡ true)
    → IsOrdered preds seen (ns ++ n ∷ [])
IsOrdered-append preds n seen [] h last = (last, tt)
IsOrdered-append preds n seen (m ∷ ns) h last =
    (h.0, IsOrdered-append preds n (m ∷ seen) ns h.1 λ p inside. ground (arith, last p inside))

-- the position of a node
abbrev pub index_of : String → List String → ℕ
index_of x [] = 0
index_of x (n ∷ ns) = let rest = index_of x ns in if x == n then 0 else suc rest

pub index_of-IsOrdered :
    (preds : String → List String) (p x : String) (seen ns : List String)
    → IsOrdered preds seen ns
    → In x ns
    → In p (preds x)
    → In p seen ⊎ (index_of p ns < index_of x ns)
index_of-IsOrdered preds p x seen [] h inside before = absurd (ground arith)
index_of-IsOrdered preds p x seen (n ∷ ns) h inside before = elim (Bool-cases (x == n)) [
  | inl same ↦ inl (h.0 p (subst (λ y. In p (preds y)) ((string_eq.beq_iff x n).0 same) before))
  | inr other ↦ elim (index_of-IsOrdered preds p x (n ∷ seen) ns h.1 (ground arith) before) [
    | inl earlier ↦ elim (Bool-cases (p == n)) [
      | inl first ↦
          let head : index_of p (n ∷ ns) ≡ 0 = ground arith in
          let later : index_of x (n ∷ ns) ≡ suc (index_of x ns) = ground arith in
          inr (omega (arith, head, later))
      | inr distinct ↦
          let in_front : (if p == n then true else contains p seen) ≡ true = earlier in
          inl (ground arith)
    ]
    | inr less ↦ inr (ground arith)
  ]
]

pub is_unique-append_last :
    (x : String) (xs : List String)
    → is_unique (xs ++ x ∷ []) ≡ (is_unique xs && not (contains x xs))
is_unique-append_last x [] = refl
is_unique-append_last x (y ∷ xs) = ground (
  arith,
  is_unique-append_last x xs,
  contains-append y xs (x ∷ []),
  string_eq.beq_iff x y,
  string_eq.beq_iff y x,
)

abbrev pub push : String → List String → List String
push y ready = sort str_leb (ready ++ y ∷ [])

pub contains-push :
    (z y : String) (xs : List String) → contains z (push y xs) ≡ (contains z xs || z == y)
contains-push z y xs =
    ground (arith, contains-sort str_leb z (xs ++ y ∷ []), contains-append z xs (y ∷ []))

pub is_unique-push :
    (y : String) (xs : List String) → is_unique (push y xs) ≡ (is_unique xs && not (contains y xs))
is_unique-push y xs =
    ground (arith, is_unique-sort str_leb (xs ++ y ∷ []), is_unique-append_last y xs)
