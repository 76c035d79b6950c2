-- ===== src/Work/Planning.antt =====
-- src/noema/work/planning.py: the validation of a plan, and the fake planner.
pub mod Legal
pub mod Current
use Prim.Native.String.{◌++◌}
use noema_agent_sdk.Common.{
  ℕ, ◌+◌, String, Bool, true, false, not, Option, none, some, List, [], ◌∷◌, map, ◌&&◌, ◌||◌,
  if◌then◌else◌, ◌==◌, string_eq, pair_eq, nat_eq, Eq, any, all, filter, find, contains, ltb, leb,
  nat_beq, Result, ok, err, ◌>>=◌, ◌>>◌, raise_if, or_raise, value_error, key_error, runtime_error,
}
use noema_agent_sdk.Common.Int.{ℤ, pos, negsuc, ltb_ℤ, leb_ℤ, int_eq, ◌+ℤ◌}
use noema_agent_sdk.Common.Sort.{is_unique, sort, str_leb, pair_leb}
use noema_agent_sdk.Event.{DateTime, JsonValue, JsonObject, Event}
use noema_agent_sdk.Event.Codec.{opt_str}
use noema_agent_sdk.Authority.{AuthorityLevel, authority_value}
use noema_agent_sdk.Work.Values.{
  Platform, ActionPrerequisite, WorkNodeKind, PresenceStatus, CompetenceBasis, kind_value,
  is_verify, status_value, basis_value, is_nil, require_text, require_aware, unique_text, is_before,
  same_time, iterate_at, traverse, to_items, str_list, object, extend, mapping, kind_of, status_of,
  basis_of, authority_of, authority_json,
}
use noema_agent_sdk.Work.Decode.{
  validate_opaque_governance_id, bounded, prerequisite_init, canonical_id, str_at, int_at, float_at,
  optional_datetime, datetime_at, strings_at, optional_iso, iso, show_int, prerequisites_at,
  prerequisite_list, make_event, is_subject,
}
use noema_agent_sdk.Work.Nodes.{
  WorkNode, WorkDependency, nodes_at, dependencies_at, node_list, dependency_list, list_eqb,
  texts_eqb, node_eqb, dependency_eqb, validate_opaque_ids,
}
use noema_agent_sdk.Common.{is_subset, length}
use noema_agent_sdk.Event.{sequence_or_zero}
use noema_agent_sdk.Work.Orders.{WorkOrder}
use noema_agent_sdk.Work.Proposals.{PlanProposal}
use noema_agent_sdk.Work.Graphs.{WorkGraph}
use noema_agent_sdk.Work.Proposals
use noema_agent_sdk.Work.Graphs
use noema_agent_sdk.Work.Topology.{visit_order, ancestors_along}

pub record FakePlanner : Type 0 where
  pub nodes : List WorkNode
  pub dependencies : List WorkDependency
  pub assumptions : List String
  pub done_conditions : List String
  pub replan_event_types : List String
  pub planner_id : String

unfoldable pub new_fake_planner : FakePlanner → Result FakePlanner
new_fake_planner p = do require_text p.planner_id "fake planner id"; ok p

unfoldable pub new_validator : String → Result String
new_validator validator_id = do require_text validator_id "plan validator id"; ok validator_id

abbrev pub last_or : ℤ → List ℤ → ℤ
last_or default [] = default
last_or default (n ∷ ns) = last_or n ns

abbrev pub is_none {ℓ} : {A : Type ℓ} → Option A → Bool
is_none none = true
is_none (some _) = false

-- `tuple(sorted(set(sequences)))`
abbrev pub distinct : List ℤ → List ℤ
distinct [] = []
distinct (n ∷ ns) = let rest = distinct ns in if contains n ns then rest else n ∷ rest

-- The events between the planner's cut and the acceptance are canonical and reach its head.
unfoldable pub check_window : List Event → ℤ → ℤ → Result (Unit {0})
check_window events causal acceptance =
    let sequences = map sequence_or_zero events in
    do
      raise_if (any (λ e. is_none e.sequence) events)
          (value_error "plan admission requires canonical intervening events")
      raise_if (not (list_eqb (λ a b. a == b) sequences (sort leb_ℤ (distinct sequences))))
          (value_error "plan admission events must be unique and canonically ordered")
      raise_if (any (λ n. leb_ℤ n causal || ltb_ℤ acceptance n) sequences)
          (value_error "plan admission events fall outside the planning window")
      raise_if (not (last_or causal sequences == acceptance))
          (value_error "plan admission events do not reach the acceptance head")

-- the events that make a proposal stale
abbrev pub stale_events : PlanProposal → List Event → List Event
stale_events p events =
    filter
      (λ e.
        contains e.type p.replan_event_types && ltb_ℤ p.based_on_event_cursor (sequence_or_zero e))
      events

-- the keys of `nodes_by_id`
abbrev pub node_ids : PlanProposal → List String
node_ids p = map (λ n. n.node_id) p.nodes

abbrev dependency_key : WorkDependency → String × String
dependency_key d = (d.predecessor_id, d.successor_id)

-- The identities, the dependencies' ends and the capabilities of a plan.
unfoldable pub check_references : PlanProposal → List String → Result (Unit {0})
check_references p capabilities = do
  raise_if (not (is_unique (node_ids p))) (value_error "plan node ids must be unique")
  raise_if (not (is_unique (map dependency_key p.dependencies)))
      (value_error "plan dependencies must be unique")
  raise_if
      (any
        (λ d. not (contains d.predecessor_id (node_ids p) && contains d.successor_id (node_ids p)))
        p.dependencies)
      (value_error "plan dependencies reference unknown nodes")
  raise_if (any (λ n. not (is_subset n.required_capabilities capabilities)) p.nodes)
      (value_error "plan requires unavailable capability types")

-- `visited`, if the dependencies form no cycle
unfoldable pub order_nodes : PlanProposal → Result (List String)
order_nodes p =
    let visited = visit_order p.dependencies (node_ids p) in
    do
      raise_if (not (length visited == length p.nodes))
          (value_error "plan dependencies must form a directed acyclic graph")
      ok visited

-- Verification comes after what it verifies.
unfoldable pub check_targets : PlanProposal → List String → Result (Unit {0})
check_targets p visited =
    raise_if
      (any
        (λ n. not (is_subset n.verification_of (ancestors_along p.dependencies visited n.node_id)))
        p.nodes)
      (value_error "verification node must depend on its targets")

module _ (world : Platform) where
  -- The fake planner reads its clock and ignores the capability types.
  unfoldable pub propose : FakePlanner → WorkOrder → ℤ → ℤ → DateTime → Result PlanProposal
  propose planner order cursor version now = Proposals.create world (record {
    proposal_id = "";
    planner_id = planner.planner_id;
    work_order_id = order.work_order_id;
    based_on_event_cursor = cursor;
    based_on_graph_version = version;
    nodes = planner.nodes;
    dependencies = planner.dependencies;
    assumptions = planner.assumptions;
    done_conditions = planner.done_conditions;
    replan_event_types = planner.replan_event_types;
    proposed_at = now;
  })

  unfoldable pub validate :
      String
      → PlanProposal
      → WorkOrder
      → ℤ
      → ℤ
      → ℤ
      → List String
      → List Event
      → DateTime
      → Result WorkGraph
  validate validator_id p order causal acceptance current capabilities events accepted_at = do
    require_aware accepted_at "plan acceptance time"
    raise_if (not (p.work_order_id == order.work_order_id))
        (value_error "plan proposal targets a different work order")
    raise_if (is_before p.proposed_at order.created_at)
        (value_error "plan proposal cannot precede its work order")
    raise_if (is_before accepted_at p.proposed_at)
        (value_error "plan acceptance cannot precede its proposal")
    raise_if (not (p.based_on_event_cursor == causal))
        (value_error "plan proposal does not match the captured causal event cursor")
    raise_if (ltb_ℤ acceptance causal)
        (value_error "plan acceptance head cannot precede the planning cut")
    check_window events causal acceptance
    raise_if (not (p.based_on_graph_version == current))
        (value_error "plan proposal does not match the current graph version")
    raise_if (not (is_nil (stale_events p events)))
        (value_error "plan proposal is stale at admission due to intervening events")
    raise_if (not (is_subset order.success_criteria p.done_conditions))
        (value_error "plan done conditions do not cover work-order success criteria")
    check_references p capabilities
    visited ← order_nodes p
    check_targets p visited
    Graphs.create world p (current +ℤ pos 1) validator_id accepted_at
