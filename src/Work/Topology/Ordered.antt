-- ===== src/Work/Topology/Ordered.antt =====
-- src/noema/work/planning.py, the loop of `PlanValidator.validate`: what it keeps true.
use noema_agent_sdk.Common.{
  String, true, false, List, [], ◌∷◌, ◌++◌, ◌||◌, ◌==◌, string_eq, contains, ◌≡◌, ◌⊎◌, inl, inr,
  sym, subst, arith, beq_self, Bool-cases, List-cases,
}
use noema_agent_sdk.Common.Sort.{sort, str_leb, is_unique}
use noema_agent_sdk.Common.Members.{discard, contains-append, contains-sort, contains-discard}
use noema_agent_sdk.Work.Values.{is_nil}
use noema_agent_sdk.Work.Nodes.{WorkDependency}
use noema_agent_sdk.Work.Topology.Positions.{
  In, IsOrdered, IsOrdered-append, is_unique-append_last, contains-push, is_unique-push,
}
use noema_agent_sdk.Work.Topology.{
  predecessors_of, successors_of, Search, release_successor, release_all, visit,
}

module _ (deps : List WorkDependency) (ids : List String) where
  -- A predecessor of a node is visited or still awaited; a ready node awaits none; a node is met
  -- once, is one of the plan's, and is visited after its predecessors.
  pub record IsSound (s : Search) : Type 0 where
    pub waits :
        (y p : String)
        → In p (predecessors_of deps y)
        → (contains p s.visited || contains p (s.remaining y)) ≡ true
    pub freed : (y p : String) → In y s.ready → In p (predecessors_of deps y) → In p s.visited
    pub ordered : IsOrdered (predecessors_of deps) [] s.visited
    pub unique_ready : is_unique s.ready ≡ true
    pub unique_visited : is_unique s.visited ≡ true
    pub apart : (y : String) → In y s.ready → contains y s.visited ≡ false
    pub known_ready : (y : String) → In y s.ready → In y ids
    pub known_visited : (y : String) → In y s.visited → In y ids

  -- A node that the step makes ready was ready before, or waits for nothing any more.
  ready-release_successor :
      (n y z : String) (s : Search)
      → In z (release_successor n y s).ready
      → In z s.ready
        ⊎ ((z ≡ y) × (is_nil (discard n (s.remaining y)) ≡ true) × (contains y s.visited ≡ false))
  unfolding release_successor
  ready-release_successor n y z s h =
      ground (arith, h, contains-push z y s.ready, string_eq.beq_iff z y)

  unique_ready-release_successor :
      (n y : String) (s : Search)
      → is_unique s.ready ≡ true
      → is_unique (release_successor n y s).ready ≡ true
  unfolding release_successor
  unique_ready-release_successor n y s h = ground (arith, is_unique-push y s.ready)

  waits-release_successor :
      (n y z p : String) (s : Search)
      → In n s.visited
      → (contains p s.visited || contains p (s.remaining z)) ≡ true
      → (contains p s.visited || contains p ((release_successor n y s).remaining z)) ≡ true
  unfolding release_successor
  waits-release_successor n y z p s past h = elim (Bool-cases (y == z)) [
    | inl same ↦ elim (Bool-cases (n == p)) [
      | inl equal ↦
          let seen = subst (λ q. In q s.visited) ((string_eq.beq_iff n p).0 equal) past in
          ground arith
      | inr other ↦
          let same_node = sym ((string_eq.beq_iff y z).0 same) in
          let left =
            subst (λ w. (contains p s.visited || contains p (s.remaining w)) ≡ true) same_node h in
          ground (arith, left, contains-discard n p (s.remaining y), string_eq.beq_iff n p)
    ]
    | inr other ↦ ground arith
  ]

  -- With nothing left to wait for but `n`, which is visited, all is visited.
  freed-IsSound :
      (n y p : String) (s : Search)
      → In n s.visited
      → IsSound s
      → is_nil (discard n (s.remaining y)) ≡ true
      → In p (predecessors_of deps y)
      → In p s.visited
  freed-IsSound n y p s past sound empty before = elim (Bool-cases (n == p)) [
    | inl equal ↦ subst (λ q. In q s.visited) ((string_eq.beq_iff n p).0 equal) past
    | inr other ↦ elim (List-cases (discard n (s.remaining y))) [
      | inl none_left ↦ ground (
        arith,
        none_left,
        sound.waits y p before,
        contains-discard n p (s.remaining y),
        string_eq.beq_iff n p,
      )
      | inr (q, rest, some_left) ↦ absurd (ground arith)
    ]
  ]

  IsSound-release_successor :
      (n y : String) (s : Search)
      → In n s.visited
      → In y ids
      → IsSound s
      → IsSound (release_successor n y s)
  unfolding release_successor
  IsSound-release_successor n y s past known sound = record {
    waits = λ z p before. waits-release_successor n y z p s past (sound.waits z p before);
    freed = λ z p inside before. elim (ready-release_successor n y z s inside) [
      | inl old ↦ sound.freed z p old before
      | inr (same, empty, _) ↦
          freed-IsSound n y p s past sound empty
            (subst (λ w. In p (predecessors_of deps w)) same before)
    ];
    ordered = sound.ordered;
    unique_ready = unique_ready-release_successor n y s sound.unique_ready;
    unique_visited = sound.unique_visited;
    apart = λ z inside. elim (ready-release_successor n y z s inside) [
      | inl old ↦ sound.apart z old
      | inr (same, _, new) ↦ subst (λ w. contains w s.visited ≡ false) (sym same) new
    ];
    known_ready = λ z inside. elim (ready-release_successor n y z s inside) [
      | inl old ↦ sound.known_ready z old
      | inr (same, _, _) ↦ subst (λ w. In w ids) (sym same) known
    ];
    known_visited = sound.known_visited;
  }

  pub visited-release_successor :
      (n y : String) (s : Search) → In n s.visited → In n (release_successor n y s).visited
  unfolding release_successor
  visited-release_successor n y s h = h

  IsSound-release_all :
      (n : String) (ys : List String) (s : Search)
      → In n s.visited
      → ((y : String) → In y ys → In y ids)
      → IsSound s
      → IsSound (release_all n ys s)
  IsSound-release_all n [] s past known sound = sound
  IsSound-release_all n (y ∷ ys) s past known sound =
      IsSound-release_all n ys (release_successor n y s) (visited-release_successor n y s past)
        (λ z inside. known z (ground arith))
        (IsSound-release_successor n y s past (known y (ground (arith, beq_self y))) sound)

  -- The first ready node is moved to the visited ones.
  IsSound-move :
      (n : String) (rest : List String) (s : Search)
      → s.ready ≡ n ∷ rest
      → IsSound s
      → IsSound (record { ready = rest; visited = s.visited ++ n ∷ []; remaining = s.remaining })
  IsSound-move n rest s first sound =
      let head : In n s.ready = subst (In n) (sym first) (ground (arith, beq_self n)) in
      let tail : (y : String) → In y rest → In y s.ready =
        λ y inside. subst (In y) (sym first) (ground arith) in
      let unique : is_unique (n ∷ rest) ≡ true =
        subst (λ xs. is_unique xs ≡ true) first sound.unique_ready in
      record {
        waits = λ y p before.
            ground (arith, sound.waits y p before, contains-append p s.visited (n ∷ []));
        freed = λ y p inside before.
            ground
              (arith, sound.freed y p (tail y inside) before, contains-append p s.visited (n ∷ []));
        ordered =
            IsOrdered-append (predecessors_of deps) n [] s.visited sound.ordered
              λ p before. ground (arith, sound.freed n p head before);
        unique_ready = ground arith;
        unique_visited =
            ground
              (arith, sound.apart n head, is_unique-append_last n s.visited, sound.unique_visited);
        apart = λ y inside. ground (
          arith,
          sound.apart y (tail y inside),
          contains-append y s.visited (n ∷ []),
          string_eq.beq_iff y n,
        );
        known_ready = λ y inside. sound.known_ready y (tail y inside);
        known_visited = λ y inside. elim (Bool-cases (y == n)) [
          | inl same ↦
              subst (λ w. In w ids) (sym ((string_eq.beq_iff y n).0 same))
                (sound.known_ready n head)
          | inr other ↦ sound.known_visited y (ground (arith, contains-append y s.visited (n ∷ [])))
        ];
      }

  -- Every successor of a node is one of the plan's nodes.
  abbrev pub IsClosed : Type 0
  IsClosed = (n y : String) → In y (successors_of deps n) → In y ids

  pub IsSound-visit :
      (n : String) (rest : List String) (s : Search)
      → IsClosed
      → s.ready ≡ n ∷ rest
      → IsSound s
      → IsSound (visit deps n rest s)
  unfolding visit
  IsSound-visit n rest s closed first sound =
      IsSound-release_all n (sort str_leb (successors_of deps n)) _
        (ground (arith, contains-append n s.visited (n ∷ []), beq_self n))
        (λ y inside. closed n y (ground (arith, contains-sort str_leb y (successors_of deps n))))
        (IsSound-move n rest s first sound)
