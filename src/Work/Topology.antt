-- ===== src/Work/Topology.antt =====
-- src/noema/work/planning.py, the part of `PlanValidator.validate` that orders the nodes of a
-- plan and collects their ancestors. A set is a list without repetition, and a dict of sets is a
-- function that is empty on other keys.
pub mod Positions
pub mod Ordered
pub mod Complete
pub mod Exhaustive
pub mod Ancestry
use noema_agent_sdk.Common.{
  ℕ, zero, suc, String, Bool, true, not, List, [], ◌∷◌, ◌++◌, map, ◌&&◌, if◌then◌else◌, ◌==◌,
  string_eq, filter, contains, length,
}
use noema_agent_sdk.Common.Sort.{sort, str_leb}
use noema_agent_sdk.Common.Members.{discard}
use noema_agent_sdk.Work.Values.{is_nil}
use noema_agent_sdk.Work.Nodes.{WorkDependency}

-- `predecessors[node_id]` and `successors[node_id]`
abbrev pub predecessors_of : List WorkDependency → String → List String
predecessors_of deps n = map (λ d. d.predecessor_id) (filter (λ d. d.successor_id == n) deps)

abbrev pub successors_of : List WorkDependency → String → List String
successors_of deps n = map (λ d. d.successor_id) (filter (λ d. d.predecessor_id == n) deps)

-- the state of the loop
pub record Search : Type 0 where
  pub ready : List String
  pub visited : List String
  pub remaining : String → List String

abbrev pub update {ℓ} : {A : Type ℓ} → String → A → (String → A) → String → A
update k v f j = if k == j then v else f j

-- one successor of a node that has just been visited
unfoldable pub release_successor : String → String → Search → Search
release_successor n y s =
    let left = discard n (s.remaining y) in
    record {
      ready =
          if is_nil left && not (contains y s.visited) && not (contains y s.ready)
          then sort str_leb (s.ready ++ y ∷ [])
          else s.ready;
      visited = s.visited;
      remaining = update y left s.remaining;
    }

abbrev pub release_all : String → List String → Search → Search
release_all n [] s = s
release_all n (y ∷ ys) s = release_all n ys (release_successor n y s)

-- `set | set`
abbrev pub union : List String → List String → List String
union [] ys = ys
union (x ∷ xs) ys = let rest = union xs ys in if contains x rest then rest else x ∷ rest

abbrev pub add_ancestors : String → List String → (String → List String) → String → List String
add_ancestors n [] ancestors = ancestors
add_ancestors n (p ∷ ps) ancestors =
    add_ancestors n ps (update n (union (ancestors p) (union (p ∷ []) (ancestors n))) ancestors)

module _ (deps : List WorkDependency) where
  -- the body of the loop
  unfoldable pub visit : String → List String → Search → Search
  visit n rest s =
      release_all n (sort str_leb (successors_of deps n))
        (record { ready = rest; visited = s.visited ++ n ∷ []; remaining = s.remaining })

  -- `while ready`, on fuel
  abbrev pub search : ℕ → Search → Search
  search zero s = s
  search (suc fuel) s = elim s.ready [ [] ↦ s | n ∷ rest ↦ search fuel (visit n rest s) ]

  unfoldable pub start : List String → Search
  start ids = record {
    ready = sort str_leb (filter (λ n. is_nil (predecessors_of deps n)) ids);
    visited = [];
    remaining = predecessors_of deps;
  }

  -- `visited` after the loop; each turn visits a node for the first time.
  unfoldable pub visit_order : List String → List String
  visit_order ids = (search (length ids) (start ids)).visited

  abbrev pub collect_ancestors : List String → (String → List String) → String → List String
  collect_ancestors [] ancestors = ancestors
  collect_ancestors (n ∷ ns) ancestors =
      collect_ancestors ns (add_ancestors n (predecessors_of deps n) ancestors)

  unfoldable pub ancestors_along : List String → String → List String
  ancestors_along visited = collect_ancestors visited (λ _. [])
