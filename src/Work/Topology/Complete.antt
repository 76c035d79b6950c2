-- ===== src/Work/Topology/Complete.antt =====
-- src/noema/work/planning.py, the loop of `PlanValidator.validate`, from its start to its end.
use noema_agent_sdk.Common.{
  ℕ, zero, suc, ◌+◌, ◌≤◌, ◌<◌, String, true, List, [], ◌∷◌, ◌==◌, string_eq, filter, contains,
  length, ◌≡◌, inl, inr, refl, sym, ap, subst, arith, beq_self, length-append, Bool-cases,
  List-cases,
}
use noema_agent_sdk.Common.Sort.{sort, str_leb, is_unique}
use noema_agent_sdk.Common.Members.{
  contains-sort, is_unique-sort, contains-filter, is_unique-filter, length-le_of_subset,
}
use noema_agent_sdk.Work.Values.{is_nil}
use noema_agent_sdk.Work.Nodes.{WorkDependency}
use noema_agent_sdk.Work.Topology.{
  predecessors_of, successors_of, Search, release_successor, release_all, visit, search, start,
  visit_order,
}
use noema_agent_sdk.Work.Topology.Positions.{In, index_of, index_of-IsOrdered}
use noema_agent_sdk.Work.Topology.Ordered.{IsSound, IsClosed, IsSound-visit}

module _ (deps : List WorkDependency) (ids : List String) where
  visited-release_all :
      (n : String) (ys : List String) (s : Search) → (release_all n ys s).visited ≡ s.visited
  unfolding release_successor
  visited-release_all n [] s = refl
  visited-release_all n (y ∷ ys) s = visited-release_all n ys (release_successor n y s)

  length_visited-visit :
      (n : String) (rest : List String) (s : Search)
      → length (visit deps n rest s).visited ≡ suc (length s.visited)
  unfolding visit
  length_visited-visit n rest s =
      rw (visited-release_all n (sort str_leb (successors_of deps n)) _)
        (ground (arith, length-append s.visited (n ∷ [])))

  -- A ready node and the visited ones are no more than the plan's.
  visited_lt :
      (n : String) (rest : List String) (s : Search)
      → s.ready ≡ n ∷ rest
      → IsSound deps ids s
      → length s.visited < length ids
  visited_lt n rest s first sound =
      let head : In n s.ready = subst (In n) (sym first) (ground (arith, beq_self n)) in
      let bound =
        length-le_of_subset (n ∷ s.visited) ids
          (ground (arith, sound.apart n head, sound.unique_visited))
          (λ x inside. elim (Bool-cases (x == n)) [
            | inl same ↦
                subst (λ w. In w ids) (sym ((string_eq.beq_iff x n).0 same))
                  (sound.known_ready n head)
            | inr other ↦ sound.known_visited x (ground arith)
          ]) in
      omega (arith, bound)

  abbrev pub turn : ℕ → Search → List String → Search
  turn fuel s ready = elim ready [ [] ↦ s | n ∷ rest ↦ search deps fuel (visit deps n rest s) ]

  pub search-turn :
      (fuel : ℕ) (s : Search) {ready : List String}
      → s.ready ≡ ready
      → search deps (suc fuel) s ≡ turn fuel s ready
  search-turn fuel s h = ap (turn fuel s) h

  abbrev pub Ends : Search → Type 0
  Ends s = IsSound deps ids s × (s.ready ≡ [])

  -- Each turn visits one node, so that as many turns as there are nodes empty the ready ones.
  pub search_lem :
      (fuel : ℕ) (s : Search)
      → IsClosed deps ids
      → IsSound deps ids s
      → length ids ≤ length s.visited + fuel
      → Ends (search deps fuel s)
  search_lem zero s closed sound enough = elim (List-cases s.ready) [
    | inl done ↦ (sound, done)
    | inr (n, rest, more) ↦ absurd (omega (arith, visited_lt n rest s more sound))
  ]
  search_lem (suc fuel) s closed sound enough = elim (List-cases s.ready) [
    | inl done ↦ subst Ends (sym (search-turn fuel s done)) (sound, done)
    | inr (n, rest, more) ↦ subst Ends (sym (search-turn fuel s more)) (
        search_lem fuel (visit deps n rest s) closed
          (IsSound-visit deps ids n rest s closed more sound)
          (omega (arith, length_visited-visit n rest s)))
  ]

  none_before :
      (y p : String) → is_nil (predecessors_of deps y) ≡ true → In p (predecessors_of deps y) → ⊥
  none_before y p empty before = elim (List-cases (predecessors_of deps y)) [
    | inl nothing ↦ ground (arith, subst (In p) nothing before)
    | inr (q, rest, some_left) ↦ ground (arith, subst (λ ps. is_nil ps ≡ true) some_left empty)
  ]

  pub IsSound-start : is_unique ids ≡ true → IsSound deps ids (start deps ids)
  unfolding start
  IsSound-start unique =
      let starters = filter (λ n. is_nil (predecessors_of deps n)) ids in
      let found : (y : String)
          → In y (sort str_leb starters)
          → In y ids × (is_nil (predecessors_of deps y) ≡ true) =
        λ y inside.
          contains-filter (λ n. is_nil (predecessors_of deps n)) y ids
            (ground (arith, contains-sort str_leb y starters, inside)) in
      record {
        waits = λ y p before. before;
        freed = λ y p inside before. absurd (none_before y p (found y inside).1 before);
        ordered = tt;
        unique_ready = ground (
          arith,
          is_unique-sort str_leb starters,
          is_unique-filter (λ n. is_nil (predecessors_of deps n)) ids,
        );
        unique_visited = refl;
        apart = λ y inside. refl;
        known_ready = λ y inside. (found y inside).0;
        known_visited = λ y inside. absurd (ground arith);
      }

  -- The loop ends with no node ready, and has visited nodes after their predecessors.
  pub search-start :
      IsClosed deps ids → is_unique ids ≡ true → Ends (search deps (length ids) (start deps ids))
  unfolding start
  search-start closed unique =
      search_lem (length ids) (start deps ids) closed (IsSound-start unique) (omega arith)

  -- As many visited nodes as the plan has are all of them.
  pub visited_all :
      (s : Search)
      → IsSound deps ids s
      → length s.visited ≡ length ids
      → (x : String) → In x ids
      → In x s.visited
  visited_all s sound full x inside = elim (Bool-cases (contains x s.visited)) [
    | inl there ↦ there
    | inr missing ↦
        let bound =
          length-le_of_subset (x ∷ s.visited) ids (ground (arith, sound.unique_visited))
            (λ y member. elim (Bool-cases (y == x)) [
              | inl same ↦ subst (λ w. In w ids) (sym ((string_eq.beq_iff y x).0 same)) inside
              | inr other ↦ sound.known_visited y (ground arith)
            ]) in
        absurd (omega (arith, bound))
  ]

  -- When all are visited, a dependency leads to a later position.
  pub visit_order-increasing :
      IsClosed deps ids
      → is_unique ids ≡ true
      → length (visit_order deps ids) ≡ length ids
      → (p x : String) → In x ids
      → In p (predecessors_of deps x)
      → index_of p (visit_order deps ids) < index_of x (visit_order deps ids)
  unfolding visit_order
  visit_order-increasing closed unique full p x inside before =
      let ends = search-start closed unique in
      elim (index_of-IsOrdered (predecessors_of deps) p x [] (visit_order deps ids) ends.0.ordered
        (visited_all _ ends.0 full x inside) before) [
          | inl never ↦ absurd (ground arith)
          | inr less ↦ less
        ]
