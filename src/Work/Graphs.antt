-- ===== src/Work/Graphs.antt =====
-- src/noema/work/models.py, the class `WorkGraph`.
use Prim.Native.String.{◌++◌}
use noema_agent_sdk.Common.{
  String, Bool, true, not, some, List, [], ◌∷◌, map, ◌&&◌, ◌||◌, ◌==◌, string_eq, nat_eq, filter,
  find, Result, ok, ◌>>=◌, ◌>>◌, raise_if, or_raise, value_error, key_error,
}
use noema_agent_sdk.Common.Int.{ℤ, pos, ltb_ℤ, leb_ℤ, int_eq}
use noema_agent_sdk.Event.{DateTime, JsonValue, JsonObject, Event}
use noema_agent_sdk.Work.Values.{
  Platform, is_nil, require_text, require_aware, unique_text, same_time, str_list, object,
}
use noema_agent_sdk.Work.Decode.{
  canonical_id, str_at, int_at, datetime_at, strings_at, iso, make_event, is_subject, has_no_cause,
}
use noema_agent_sdk.Work.Nodes.{
  WorkNode, WorkDependency, nodes_at, dependencies_at, node_list, dependency_list, list_eqb,
  texts_eqb, node_eqb, dependency_eqb,
}
use noema_agent_sdk.Work.Proposals.{PlanProposal}

pub record WorkGraph : Type 0 where
  pub graph_id : String
  pub work_order_id : String
  pub proposal_id : String
  pub version : ℤ
  pub based_on_event_cursor : ℤ
  pub nodes : List WorkNode
  pub dependencies : List WorkDependency
  pub done_conditions : List String
  pub replan_event_types : List String
  pub validator_id : String
  pub accepted_at : DateTime

unfoldable pub post_init : WorkGraph → Result WorkGraph
post_init g = do
  require_text g.graph_id "work graph id"
  require_text g.work_order_id "work graph order id"
  require_text g.proposal_id "work graph proposal id"
  require_text g.validator_id "work graph validator id"
  raise_if (leb_ℤ g.version (pos 0) || ltb_ℤ g.based_on_event_cursor (pos 0))
      (value_error "work graph version must be positive and cursor non-negative")
  raise_if (is_nil g.nodes) (value_error "work graph must contain nodes")
  unique_text g.done_conditions "work graph done conditions" true
  unique_text g.replan_event_types "work graph replan event types" true
  require_aware g.accepted_at "work graph accepted_at"
  ok g

unfoldable pub node : WorkGraph → String → Result WorkNode
node g node_id = or_raise (find (λ n. n.node_id == node_id) g.nodes) (key_error "unknown work node")

unfoldable pub predecessors : WorkGraph → String → List String
predecessors g node_id =
    map (λ d. d.predecessor_id) (filter (λ d. d.successor_id == node_id) g.dependencies)

module _ (world : Platform) where
  -- the identity's fields: all but the identity itself
  abbrev content : WorkGraph → JsonObject
  content g = object (
      ("work_order_id", JsonValue.str g.work_order_id)
      ∷ ("proposal_id", JsonValue.str g.proposal_id)
      ∷ ("version", JsonValue.int g.version)
      ∷ ("based_on_event_cursor", JsonValue.int g.based_on_event_cursor)
      ∷ ("nodes", node_list world g.nodes)
      ∷ ("dependencies", dependency_list world g.dependencies)
      ∷ ("done_conditions", str_list g.done_conditions)
      ∷ ("replan_event_types", str_list g.replan_event_types)
      ∷ ("validator_id", JsonValue.str g.validator_id)
      ∷ ("accepted_at", iso world g.accepted_at)
      ∷ [])

  unfoldable pub create : PlanProposal → ℤ → String → DateTime → Result WorkGraph
  create proposal version validator_id accepted_at =
      let graph : WorkGraph = record {
        graph_id = "";
        work_order_id = proposal.work_order_id;
        proposal_id = proposal.proposal_id;
        version = version;
        based_on_event_cursor = proposal.based_on_event_cursor;
        nodes = proposal.nodes;
        dependencies = proposal.dependencies;
        done_conditions = proposal.done_conditions;
        replan_event_types = proposal.replan_event_types;
        validator_id = validator_id;
        accepted_at = accepted_at;
      } in
      do
        identity ← canonical_id world "work-graph" (content graph)
        post_init (record graph { graph_id = identity })

  unfoldable pub to_dict : WorkGraph → JsonObject
  to_dict g = JsonObject.field "graph_id" (JsonValue.str g.graph_id) (content g)

  unfoldable pub from_dict : JsonObject → Result WorkGraph
  from_dict d = do
    graph_id ← str_at world "graph_id" d
    work_order_id ← str_at world "work_order_id" d
    proposal_id ← str_at world "proposal_id" d
    version ← int_at world "version" d
    cursor ← int_at world "based_on_event_cursor" d
    nodes ← nodes_at world d
    dependencies ← dependencies_at world d
    done_conditions ← strings_at world "done_conditions" d
    replan_event_types ← strings_at world "replan_event_types" d
    validator_id ← str_at world "validator_id" d
    accepted_at ← datetime_at world "accepted_at" d
    value ← post_init (record {
      graph_id = graph_id;
      work_order_id = work_order_id;
      proposal_id = proposal_id;
      version = version;
      based_on_event_cursor = cursor;
      nodes = nodes;
      dependencies = dependencies;
      done_conditions = done_conditions;
      replan_event_types = replan_event_types;
      validator_id = validator_id;
      accepted_at = accepted_at;
    })
    identity ← canonical_id world "work-graph" (content value)
    raise_if (not (value.graph_id == identity))
        (value_error "work graph id does not match immutable content")
    ok value

  -- the equality that the dataclass generates
  unfoldable pub graph_eqb : WorkGraph → WorkGraph → Bool
  graph_eqb g h =
      g.graph_id == h.graph_id
      && g.work_order_id == h.work_order_id
      && g.proposal_id == h.proposal_id
      && g.version == h.version
      && g.based_on_event_cursor == h.based_on_event_cursor
      && list_eqb (node_eqb world) g.nodes h.nodes
      && list_eqb dependency_eqb g.dependencies h.dependencies
      && texts_eqb g.done_conditions h.done_conditions
      && texts_eqb g.replan_event_types h.replan_event_types
      && g.validator_id == h.validator_id
      && same_time g.accepted_at h.accepted_at

  unfoldable pub to_event : WorkGraph → String → String → Result Event
  to_event g source causation_id =
      make_event ("work-graph-accepted:" ++ g.graph_id) "work.graph_accepted" source g.work_order_id
        g.accepted_at (to_dict g) (some causation_id)

  unfoldable pub from_event : Event → Result WorkGraph
  from_event e = do
    raise_if (not (e.type == "work.graph_accepted")) (value_error "not a work graph event")
    value ← from_dict e.payload
    raise_if (not (e.id == "work-graph-accepted:" ++ value.graph_id))
        (value_error "work graph event id is inconsistent")
    raise_if
        (not (is_subject e value.work_order_id) || not (same_time e.timestamp value.accepted_at))
        (value_error "work graph event envelope is inconsistent")
    raise_if (has_no_cause e) (value_error "work graph requires plan-proposal causation")
    ok value
