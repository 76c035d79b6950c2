-- ===== src/Work/Proposals.antt =====
-- src/noema/work/models.py, the class `PlanProposal`.
use Prim.Native.String.{◌++◌}
use noema_agent_sdk.Common.{
  String, Bool, true, false, not, some, List, [], ◌∷◌, ◌&&◌, ◌||◌, ◌==◌, string_eq, nat_eq, Result,
  ok, ◌>>=◌, ◌>>◌, raise_if, value_error,
}
use noema_agent_sdk.Common.Int.{ℤ, pos, ltb_ℤ, int_eq}
use noema_agent_sdk.Common.Sort.{sort, str_leb, pair_leb}
use noema_agent_sdk.Event.{DateTime, JsonValue, JsonObject, Event}
use noema_agent_sdk.Work.Values.{
  Platform, is_nil, require_text, require_aware, unique_text, same_time, str_list, object,
}
use noema_agent_sdk.Work.Decode.{
  canonical_id, str_at, int_at, datetime_at, strings_at, iso, make_event, is_subject, has_no_cause,
}
use noema_agent_sdk.Work.Nodes.{
  WorkNode, WorkDependency, nodes_at, dependencies_at, node_list, dependency_list, list_eqb,
  texts_eqb, node_eqb, dependency_eqb,
}

pub record PlanProposal : Type 0 where
  pub proposal_id : String
  pub planner_id : String
  pub work_order_id : String
  pub based_on_event_cursor : ℤ
  pub based_on_graph_version : ℤ
  pub nodes : List WorkNode
  pub dependencies : List WorkDependency
  pub assumptions : List String
  pub done_conditions : List String
  pub replan_event_types : List String
  pub proposed_at : DateTime

unfoldable pub post_init : PlanProposal → Result PlanProposal
post_init p = do
  require_text p.proposal_id "plan proposal id"
  require_text p.planner_id "planner id"
  require_text p.work_order_id "plan proposal work order id"
  raise_if (ltb_ℤ p.based_on_event_cursor (pos 0) || ltb_ℤ p.based_on_graph_version (pos 0))
      (value_error "plan proposal cursors and versions cannot be negative")
  raise_if (is_nil p.nodes) (value_error "plan proposal must contain work nodes")
  unique_text p.assumptions "plan assumptions" false
  unique_text p.done_conditions "plan done conditions" true
  unique_text p.replan_event_types "plan replan event types" true
  require_aware p.proposed_at "plan proposed_at"
  ok p

module _ (world : Platform) where
  -- the identity's fields: all but the identity itself
  abbrev content : PlanProposal → JsonObject
  content p = object (
      ("planner_id", JsonValue.str p.planner_id)
      ∷ ("work_order_id", JsonValue.str p.work_order_id)
      ∷ ("based_on_event_cursor", JsonValue.int p.based_on_event_cursor)
      ∷ ("based_on_graph_version", JsonValue.int p.based_on_graph_version)
      ∷ ("nodes", node_list world p.nodes)
      ∷ ("dependencies", dependency_list world p.dependencies)
      ∷ ("assumptions", str_list p.assumptions)
      ∷ ("done_conditions", str_list p.done_conditions)
      ∷ ("replan_event_types", str_list p.replan_event_types)
      ∷ ("proposed_at", iso world p.proposed_at)
      ∷ [])

  -- nodes and dependencies in the order of their identities
  abbrev in_order : PlanProposal → PlanProposal
  in_order p = record p {
    nodes = sort (λ n m. str_leb n.node_id m.node_id) p.nodes;
    dependencies =
        sort (λ d e. pair_leb (d.predecessor_id, d.successor_id) (e.predecessor_id, e.successor_id))
          p.dependencies;
  }

  -- `PlanProposal.create`, from a proposal whose identity is ignored
  unfoldable pub create : PlanProposal → Result PlanProposal
  create p = do
    identity ← canonical_id world "plan-proposal" (content (in_order p))
    post_init (record (in_order p) { proposal_id = identity })

  unfoldable pub to_dict : PlanProposal → JsonObject
  to_dict p = JsonObject.field "proposal_id" (JsonValue.str p.proposal_id) (content p)

  -- the equality that the dataclass generates
  unfoldable pub proposal_eqb : PlanProposal → PlanProposal → Bool
  proposal_eqb p q =
      p.proposal_id == q.proposal_id
      && p.planner_id == q.planner_id
      && p.work_order_id == q.work_order_id
      && p.based_on_event_cursor == q.based_on_event_cursor
      && p.based_on_graph_version == q.based_on_graph_version
      && list_eqb (node_eqb world) p.nodes q.nodes
      && list_eqb dependency_eqb p.dependencies q.dependencies
      && texts_eqb p.assumptions q.assumptions
      && texts_eqb p.done_conditions q.done_conditions
      && texts_eqb p.replan_event_types q.replan_event_types
      && same_time p.proposed_at q.proposed_at

  unfoldable pub from_dict : JsonObject → Result PlanProposal
  from_dict d = do
    proposal_id ← str_at world "proposal_id" d
    planner_id ← str_at world "planner_id" d
    work_order_id ← str_at world "work_order_id" d
    cursor ← int_at world "based_on_event_cursor" d
    version ← int_at world "based_on_graph_version" d
    nodes ← nodes_at world d
    dependencies ← dependencies_at world d
    assumptions ← strings_at world "assumptions" d
    done_conditions ← strings_at world "done_conditions" d
    replan_event_types ← strings_at world "replan_event_types" d
    proposed_at ← datetime_at world "proposed_at" d
    proposal ← post_init (record {
      proposal_id = proposal_id;
      planner_id = planner_id;
      work_order_id = work_order_id;
      based_on_event_cursor = cursor;
      based_on_graph_version = version;
      nodes = nodes;
      dependencies = dependencies;
      assumptions = assumptions;
      done_conditions = done_conditions;
      replan_event_types = replan_event_types;
      proposed_at = proposed_at;
    })
    expected ← create proposal
    raise_if (not (proposal_eqb proposal expected))
        (value_error "plan proposal id does not match immutable content")
    ok proposal

  unfoldable pub to_event : PlanProposal → String → String → Result Event
  to_event p source causation_id =
      make_event ("plan-proposed:" ++ p.proposal_id) "work.plan_proposed" source p.work_order_id
        p.proposed_at (to_dict p) (some causation_id)

  unfoldable pub from_event : Event → Result PlanProposal
  from_event e = do
    raise_if (not (e.type == "work.plan_proposed")) (value_error "not a plan proposal event")
    value ← from_dict e.payload
    raise_if (not (e.id == "plan-proposed:" ++ value.proposal_id))
        (value_error "plan proposal event id is inconsistent")
    raise_if
        (not (is_subject e value.work_order_id) || not (same_time e.timestamp value.proposed_at))
        (value_error "plan proposal event envelope is inconsistent")
    raise_if (has_no_cause e) (value_error "plan proposal requires work-order causation")
    ok value
