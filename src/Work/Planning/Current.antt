-- ===== src/Work/Planning/Current.antt =====
-- src/noema/work/planning.py: the history between the planner's cut and the acceptance of a plan.
use noema_agent_sdk.Common.{
  String, true, false, some, List, [], ◌∷◌, map, ◌&&◌, ◌||◌, ◌==◌, string_eq, any, contains, All,
  ok, ◌≡◌, sym, subst, arith, nat_eq, refl, Bool-cases, Option-cases, inl, inr,
}
use noema_agent_sdk.Common.Int.{ℤ, pos, ◌+ℤ◌, ◌≤ℤ◌, ◌<ℤ◌, leb_ℤ, ltb_ℤ, int_eq, eq_of_parts}
use noema_agent_sdk.Common.Sort.{sort, insert_sorted, is_unique}
use noema_agent_sdk.Common.Members.{contains-sort, All-map, All-insert_sorted}
use noema_agent_sdk.Event.{DateTime, Event, sequence_or_zero}
use noema_agent_sdk.Work.Values.{Platform, is_nil}
use noema_agent_sdk.Work.Nodes.{list_eqb}
use noema_agent_sdk.Work.Orders.{WorkOrder}
use noema_agent_sdk.Work.Proposals.{PlanProposal}
use noema_agent_sdk.Work.Graphs.{WorkGraph}
use noema_agent_sdk.Work.Topology.Positions.{In}
use noema_agent_sdk.Work.Planning.{stale_events, check_window, validate, is_none, last_or, distinct}
use noema_agent_sdk.Work.Planning.Legal.{validate-IsAdmitted, is_subset-In}

-- The event was stored between two cuts, and is no reason for the proposal to plan again.
pub record IsHarmless (p : PlanProposal) (causal acceptance : ℤ) (e : Event) : Type 0 where
  pub sequence : ℤ
  pub stored : e.sequence ≡ some sequence
  pub after : causal <ℤ sequence
  pub through : sequence ≤ℤ acceptance
  pub unrelated : contains e.type p.replan_event_types ≡ false

head-IsHarmless :
    (p : PlanProposal) (causal acceptance : ℤ) (e : Event)
    → p.based_on_event_cursor ≡ causal
    → is_none e.sequence ≡ false
    → (leb_ℤ (sequence_or_zero e) causal || ltb_ℤ acceptance (sequence_or_zero e)) ≡ false
    → (contains e.type p.replan_event_types && ltb_ℤ p.based_on_event_cursor (sequence_or_zero e))
      ≡ false
    → IsHarmless p causal acceptance e
head-IsHarmless p causal acceptance e cut known inside fresh = elim (Option-cases e.sequence) [
  | inl missing ↦ absurd (ground (arith, known, missing))
  | inr (n, stored) ↦ record {
    sequence = n;
    stored = stored;
    after = ground (arith, inside, stored);
    through = ground (arith, inside, stored);
    unrelated = ground (arith, inside, fresh, stored, cut);
  }
]

window-IsHarmless :
    (p : PlanProposal) (causal acceptance : ℤ) (events : List Event)
    → p.based_on_event_cursor ≡ causal
    → any (λ e. is_none e.sequence) events ≡ false
    → any (λ n. leb_ℤ n causal || ltb_ℤ acceptance n) (map sequence_or_zero events) ≡ false
    → is_nil (stale_events p events) ≡ true
    → All (IsHarmless p causal acceptance) events
window-IsHarmless p causal acceptance [] cut known inside fresh = tt
window-IsHarmless p causal acceptance (e ∷ es) cut known inside fresh = (
  head-IsHarmless p causal acceptance e cut (ground (arith, known)) (ground (arith, inside))
      (ground (arith, fresh)),
  window-IsHarmless p causal acceptance es cut (ground (arith, known)) (ground (arith, inside))
      (ground (arith, fresh)),
)

-- The numbers strictly ascend.
abbrev pub IsAscending : List ℤ → Type 0
IsAscending [] = Unit {0}
IsAscending (n ∷ ns) = All (λ m. n <ℤ m) ns × IsAscending ns

contains-distinct : (n : ℤ) (ns : List ℤ) → contains n (distinct ns) ≡ contains n ns
contains-distinct n [] = refl
contains-distinct n (m ∷ ns) = elim (Bool-cases (contains m ns)) [
  | inl twice ↦ elim (Bool-cases (n == m)) [
    | inl same ↦
        let equal = (int_eq.beq_iff n m).0 same in
        ground (
          arith,
          twice,
          contains-distinct n ns,
          subst (λ k. contains k ns ≡ true) (sym equal) twice,
        )
    | inr other ↦ ground (arith, twice, other, contains-distinct n ns)
  ]
  | inr once ↦ ground (arith, once, contains-distinct n ns)
]

is_unique-distinct : (ns : List ℤ) → is_unique (distinct ns) ≡ true
is_unique-distinct [] = refl
is_unique-distinct (n ∷ ns) = ground (arith, is_unique-distinct ns, contains-distinct n ns)

-- An integer that is neither in a list of greater ones nor above its head is below all of it.
insert-IsAscending :
    (n : ℤ) (ns : List ℤ)
    → contains n ns ≡ false
    → IsAscending ns
    → IsAscending (insert_sorted leb_ℤ n ns)
insert-IsAscending n [] fresh h = (tt, tt)
insert-IsAscending n (m ∷ ns) fresh h = elim (Bool-cases (leb_ℤ n m)) [
  | inl below ↦
      let less : n <ℤ m = ground (arith, below, fresh, int_eq.beq_iff n m, eq_of_parts n m) in
      rw below (
        (less, All-map (λ k. m <ℤ k) (λ k. n <ℤ k) ns (λ k above. omega (arith, less, above)) h.0),
        h,
      )
  | inr above ↦
      let rest = insert-IsAscending n ns (ground (arith, fresh)) h.1 in
      rw above (All-insert_sorted (λ k. m <ℤ k) leb_ℤ n ns (ground (arith, above)) h.0, rest)
]

sort-IsAscending : (ns : List ℤ) → is_unique ns ≡ true → IsAscending (sort leb_ℤ ns)
sort-IsAscending [] h = tt
sort-IsAscending (n ∷ ns) h =
    insert-IsAscending n (sort leb_ℤ ns) (ground (arith, h, contains-sort leb_ℤ n ns))
      (sort-IsAscending ns (ground (arith, h)))

list_eqb-eq : (ns ms : List ℤ) → list_eqb (λ a b. a == b) ns ms ≡ true → ns ≡ ms
list_eqb-eq [] [] h = refl
list_eqb-eq [] (m ∷ ms) h = absurd (ground (arith, h))
list_eqb-eq (n ∷ ns) [] h = absurd (ground (arith, h))
list_eqb-eq (n ∷ ns) (m ∷ ms) h =
    let first : n ≡ m = (int_eq.beq_iff n m).0 (ground (arith, h)) in
    let rest : ns ≡ ms = list_eqb-eq ns ms (ground (arith, h)) in cc

check_window_lem :
    (events : List Event) (causal acceptance : ℤ)
    → check_window events causal acceptance ≡ ok tt
    → (any (λ e. is_none e.sequence) events ≡ false)
      × (any (λ n. leb_ℤ n causal || ltb_ℤ acceptance n) (map sequence_or_zero events) ≡ false)
      × (list_eqb
            (λ a b. a == b)
            (map sequence_or_zero events)
            (sort leb_ℤ (distinct (map sequence_or_zero events)))
          ≡ true)
      × (last_or causal (map sequence_or_zero events) ≡ acceptance)
unfolding check_window
check_window_lem events causal acceptance h = (
  ground (arith, h),
  ground (arith, h),
  ground (arith, h),
  ground (arith, h, int_eq.beq_iff (last_or causal (map sequence_or_zero events)) acceptance),
)

module _ (world : Platform) (validator_id : String) (p : PlanProposal) (order : WorkOrder)
    (causal acceptance current : ℤ) (capabilities : List String) (events : List Event)
    (accepted_at : DateTime) (g : WorkGraph) where
  -- A graph that `validate` returns has the version after the current one, on which its proposal
  -- was based. The events since the planner's cut, in strictly ascending order, were all stored
  -- after it and not after the acceptance, and none has a type on which the proposal plans again. The
  -- graph's done conditions include the order's success criteria.
  pub validate-current :
      validate world validator_id p order causal acceptance current capabilities events accepted_at
        ≡ ok g
      → (p.based_on_graph_version ≡ current)
        × (g.version ≡ current +ℤ pos 1)
        × All (IsHarmless p causal acceptance) events
        × IsAscending (map sequence_or_zero events)
        × ((c : String) → In c order.success_criteria → In c g.done_conditions)
  validate-current h =
      let admitted =
        validate-IsAdmitted world validator_id p order causal acceptance current capabilities events
          accepted_at g h in
      let (known, inside, ordered, _) = check_window_lem events causal acceptance admitted.window in
      (
        admitted.current_version,
        admitted.next_version,
        window-IsHarmless p causal acceptance events admitted.same_cut known inside
            admitted.not_stale,
        subst IsAscending (sym (list_eqb-eq _ _ ordered)) (
            sort-IsAscending (distinct (map sequence_or_zero events))
              (is_unique-distinct (map sequence_or_zero events))),
        λ c inside.
            subst (In c) (sym admitted.same_conditions)
              (is_subset-In c order.success_criteria p.done_conditions admitted.covered inside),
      )
