-- ===== src/Work/Topology/Exhaustive.antt =====
-- src/noema/work/planning.py, the loop of `PlanValidator.validate`: which nodes it visits.
use noema_agent_sdk.Common.{
  ℕ, zero, suc, ◌<◌, String, true, false, not, List, [], ◌∷◌, ◌++◌, ◌||◌, ◌==◌, string_eq, filter,
  contains, length, ◌≡◌, ◌⊎◌, inl, inr, refl, sym, subst, arith, beq_self, Bool-cases, List-cases,
}
use noema_agent_sdk.Common.Sort.{sort, str_leb, is_unique}
use noema_agent_sdk.Common.Members.{
  discard, contains-append, contains-sort, contains-filter, filter-contains, length-le_of_subset,
}
use noema_agent_sdk.Work.Values.{is_nil}
use noema_agent_sdk.Work.Nodes.{WorkDependency}
use noema_agent_sdk.Work.Topology.{
  predecessors_of, successors_of, Search, release_successor, release_all, visit, search, start,
  visit_order,
}
use noema_agent_sdk.Work.Topology.Positions.{In, contains-push}
use noema_agent_sdk.Work.Topology.Ordered.{IsClosed}
use noema_agent_sdk.Work.Topology.Complete.{search-turn, search-start}

-- A predecessor of a node has it as a successor.
predecessors-successors :
    (deps : List WorkDependency) (p y : String)
    → contains p (predecessors_of deps y) ≡ contains y (successors_of deps p)
predecessors-successors [] p y = refl
predecessors-successors (d ∷ deps) p y = ground (
  arith,
  predecessors-successors deps p y,
  string_eq.beq_iff d.successor_id y,
  string_eq.beq_iff y d.successor_id,
  string_eq.beq_iff d.predecessor_id p,
  string_eq.beq_iff p d.predecessor_id,
)

contains-discard_self :
    (n p : String) (xs : List String) → In p (discard n xs) → In p xs × ((p == n) ≡ false)
contains-discard_self n p xs h =
    let kept = contains-filter (λ y. not (n == y)) p xs h in
    (kept.0, ground (arith, kept.1, string_eq.beq_iff n p, string_eq.beq_iff p n))

module _ (deps : List WorkDependency) (ids : List String) where
  -- While the successors `pending` of `n` have still to be released, only they may await `n`, and
  -- nothing else that is visited is awaited; a node that awaits nothing is ready or visited.
  record IsExact (n : String) (pending : List String) (s : Search) : Type 0 where
    awaited :
        (y p : String)
        → In p (s.remaining y)
        → In p (predecessors_of deps y)
          × ((contains p s.visited ≡ false) ⊎ ((p ≡ n) × In y pending))
    released :
        (y : String)
        → In y ids
        → is_nil (s.remaining y) ≡ true
        → (contains y s.ready || contains y s.visited) ≡ true

  awaited-release_successor :
      (n y0 y p : String) (ys : List String) (s : Search)
      → IsExact n (y0 ∷ ys) s
      → In p ((release_successor n y0 s).remaining y)
      → In p (predecessors_of deps y) × ((contains p s.visited ≡ false) ⊎ ((p ≡ n) × In y ys))
  unfolding release_successor
  awaited-release_successor n y0 y p ys s exact h = elim (Bool-cases (y0 == y)) [
    | inl same ↦
        let left : In p (discard n (s.remaining y0)) = ground (arith, h) in
        let kept = contains-discard_self n p (s.remaining y0) left in
        let old =
          exact.awaited y p
            (subst (λ w. In p (s.remaining w)) ((string_eq.beq_iff y0 y).0 same) kept.0) in
        (
          old.0,
          elim old.1 [
            | inl unseen ↦ inl unseen
            | inr (equal, _) ↦ absurd (ground (arith, kept.1, string_eq.beq_iff p n, equal))
          ],
        )
    | inr other ↦
        let old = exact.awaited y p (ground (arith, h)) in
        (
          old.0,
          elim old.1 [
            | inl unseen ↦ inl unseen
            | inr (equal, waiting) ↦
                inr (equal, ground (arith, waiting, string_eq.beq_iff y0 y, string_eq.beq_iff y y0))
          ],
        )
  ]

  released-release_successor :
      (n y0 y : String) (s : Search)
      → (is_nil (s.remaining y) ≡ true → (contains y s.ready || contains y s.visited) ≡ true)
      → is_nil ((release_successor n y0 s).remaining y) ≡ true
      → (contains y (release_successor n y0 s).ready || contains y s.visited) ≡ true
  unfolding release_successor
  released-release_successor n y0 y s before empty = ground (
    arith,
    before,
    empty,
    contains-push y y0 s.ready,
    string_eq.beq_iff y y0,
    string_eq.beq_iff y0 y,
  )

  same_visited : (n y : String) (s : Search) → (release_successor n y s).visited ≡ s.visited
  unfolding release_successor
  same_visited n y s = refl

  IsExact-release_all :
      (n : String) (ys : List String) (s : Search)
      → IsExact n ys s
      → IsExact n [] (release_all n ys s)
  IsExact-release_all n [] s exact = exact
  IsExact-release_all n (y0 ∷ ys) s exact =
      IsExact-release_all n ys (release_successor n y0 s) (record {
        awaited =
            λ y p h. rw (same_visited n y0 s) (awaited-release_successor n y0 y p ys s exact h);
        released = λ y known empty.
            rw (same_visited n y0 s)
              (released-release_successor n y0 y s (exact.released y known) empty);
      })

  -- The first ready node is moved to the visited ones, and its successors await it.
  IsExact-move :
      (m n : String) (rest : List String) (s : Search)
      → s.ready ≡ n ∷ rest
      → IsExact m [] s
      → IsExact n
          (sort str_leb (successors_of deps n))
          (record { ready = rest; visited = s.visited ++ n ∷ []; remaining = s.remaining })
  IsExact-move m n rest s first exact = record {
    awaited = λ y p h.
        let old = exact.awaited y p h in
        (
          old.0,
          elim old.1 [
            | inl unseen ↦ elim (Bool-cases (p == n)) [
              | inl same ↦
                  let equal = (string_eq.beq_iff p n).0 same in
                  inr (
                    equal,
                    ground (
                      arith,
                      subst (λ q. In q (predecessors_of deps y)) equal old.0,
                      predecessors-successors deps n y,
                      contains-sort str_leb y (successors_of deps n),
                    ),
                  )
              | inr other ↦ inl (ground (arith, unseen, contains-append p s.visited (n ∷ [])))
            ]
            | inr (_, never) ↦ absurd (ground (arith, never))
          ],
        );
    released = λ y known empty.
        let here : (contains y (n ∷ rest) || contains y s.visited) ≡ true =
          subst (λ ready. (contains y ready || contains y s.visited) ≡ true) first
            (exact.released y known empty) in
        ground (arith, here, contains-append y s.visited (n ∷ []));
  }

  IsExact-visit :
      (m n : String) (rest : List String) (s : Search)
      → s.ready ≡ n ∷ rest
      → IsExact m [] s
      → IsExact n [] (visit deps n rest s)
  unfolding visit
  IsExact-visit m n rest s first exact =
      IsExact-release_all n (sort str_leb (successors_of deps n)) _
        (IsExact-move m n rest s first exact)

  abbrev IsExactAfter : Search → Type 0
  IsExactAfter s = (m : String) × IsExact m [] s

  IsExact-search : (fuel : ℕ) (s : Search) → IsExactAfter s → IsExactAfter (search deps fuel s)
  IsExact-search zero s exact = exact
  IsExact-search (suc fuel) s exact = elim (List-cases s.ready) [
    | inl done ↦ subst IsExactAfter (sym (search-turn deps ids fuel s done)) exact
    | inr (n, rest, more) ↦
        subst IsExactAfter (sym (search-turn deps ids fuel s more)) (
          IsExact-search fuel (visit deps n rest s)
            (n, IsExact-visit exact.0 n rest s more exact.1))
  ]

  IsExact-start : IsExact "" [] (start deps ids)
  unfolding start
  IsExact-start = record {
    awaited = λ y p h. (h, inl refl);
    released = λ y known empty.
        let starters = filter (λ n. is_nil (predecessors_of deps n)) ids in
        let starter = filter-contains (λ n. is_nil (predecessors_of deps n)) y ids known empty in
        ground (arith, contains-sort str_leb y starters, starter);
  }

  -- A plan is acyclic when its dependencies lead to greater ranks.
  abbrev pub IsAcyclic : Type 0
  IsAcyclic =
      (rank : String → ℕ) × ((x p : String)
        → In x ids
        → In p (predecessors_of deps x)
        → rank p < rank x)

  visited_below :
      (s : Search)
      → IsExactAfter s
      → s.ready ≡ []
      → (acyclic : IsAcyclic) → ((x p : String) → In p (predecessors_of deps x) → In p ids)
      → (bound : ℕ) (x : String) → In x ids
      → acyclic.0 x < bound
      → In x s.visited
  visited_below s exact done acyclic known zero x inside less = absurd (omega arith)
  visited_below s exact done acyclic known (suc bound) x inside less =
      elim (List-cases (s.remaining x)) [
        | inl nothing ↦
            let empty : is_nil (s.remaining x) ≡ true = rw nothing refl in
            let there : (contains x [] || contains x s.visited) ≡ true =
              subst (λ ready. (contains x ready || contains x s.visited) ≡ true) done
                (exact.1.released x inside empty) in
            there
        | inr (p, rest, some_left) ↦
            let waits : In p (s.remaining x) =
              subst (In p) (sym some_left) (ground (arith, beq_self p)) in
            let why = exact.1.awaited x p waits in
            let seen =
              visited_below s exact done acyclic known bound p (known x p why.0)
                (omega (arith, acyclic.1 x p inside why.0)) in
            elim why.1 [
              | inl unseen ↦ absurd (ground (arith, unseen, seen))
              | inr (_, never) ↦ absurd (ground (arith, never))
            ]
      ]

  -- An acyclic plan's nodes are all visited.
  pub visit_order-full :
      IsClosed deps ids
      → is_unique ids ≡ true
      → ((x p : String) → In p (predecessors_of deps x) → In p ids)
      → IsAcyclic
      → length (visit_order deps ids) ≡ length ids
  unfolding visit_order
  visit_order-full closed unique known acyclic =
      let ends = search-start deps ids closed unique in
      let end = search deps (length ids) (start deps ids) in
      let exact = IsExact-search (length ids) (start deps ids) ("", IsExact-start) in
      let all_in = length-le_of_subset ids end.visited unique (λ x inside.
        visited_below end exact ends.1 acyclic known (suc (acyclic.0 x)) x inside (omega arith)) in
      let no_more =
        length-le_of_subset end.visited ids ends.0.unique_visited ends.0.known_visited in
      omega (arith, all_in, no_more)
