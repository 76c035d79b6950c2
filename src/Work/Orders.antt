-- ===== src/Work/Orders.antt =====
-- src/noema/work/models.py, the class `WorkOrder`.
use Prim.Native.String.{◌++◌}
use noema_agent_sdk.Common.{
  String, true, not, Option, none, some, List, [], ◌∷◌, map, ◌||◌, ◌==◌, string_eq, nat_eq, Result,
  ok, ◌>>=◌, ◌>>◌, raise_if, value_error,
}
use noema_agent_sdk.Common.Int.{int_eq}
use noema_agent_sdk.Common.Sort.{is_unique}
use noema_agent_sdk.Event.{DateTime, JsonValue, JsonObject, Event}
use noema_agent_sdk.Authority.{AuthorityLevel}
use noema_agent_sdk.Work.Values.{
  Platform, ActionPrerequisite, require_text, require_aware, unique_text, is_before, same_time,
  str_list, object, authority_of, authority_json,
}
use noema_agent_sdk.Work.Decode.{
  bounded, canonical_id, str_at, int_at, float_at, optional_datetime, datetime_at, strings_at,
  optional_iso, iso, prerequisites_at, prerequisite_list, make_event, is_subject,
}
use noema_agent_sdk.Authority.{authority_value}
use noema_agent_sdk.Common.{◌&&◌, nat_eq, Bool, false}
use noema_agent_sdk.Work.Nodes.{texts_eqb, list_eqb, prerequisite_eqb}

pub record WorkOrder : Type 0 where
  pub work_order_id : String
  pub purpose : String
  pub governing_goal_refs : List String
  pub created_from : List String
  pub priority : String
  pub desired_outcome : String
  pub success_criteria : List String
  pub deadline : Option DateTime
  pub opportunity_window_end : Option DateTime
  pub authority_ceiling : AuthorityLevel
  pub epistemic_prerequisites : List ActionPrerequisite
  pub created_at : DateTime

-- the check of one of the two optional times
abbrev check_end : Option DateTime → DateTime → String → Result (Unit {0})
check_end none created name = ok tt
check_end (some t) created name = do
  require_aware t name
  raise_if (is_before t created) (value_error (name ++ " cannot precede creation"))

abbrev same_optional_time : Option DateTime → Option DateTime → Bool
same_optional_time none none = true
same_optional_time none (some _) = false
same_optional_time (some _) none = false
same_optional_time (some t) (some u) = same_time t u

module _ (world : Platform) where
  unfoldable pub post_init : WorkOrder → Result WorkOrder
  post_init o = do
    require_text o.work_order_id "work order id"
    require_text o.purpose "work order purpose"
    require_text o.desired_outcome "work order desired outcome"
    unique_text o.governing_goal_refs "work order goal refs" true
    unique_text o.created_from "work order provenance" true
    unique_text o.success_criteria "work order success criteria" true
    bounded world o.priority "work order priority"
    require_aware o.created_at "work order created_at"
    check_end o.deadline o.created_at "work order deadline"
    check_end o.opportunity_window_end o.created_at "work order opportunity window"
    raise_if (not (is_unique (map (λ p. p.source_id) o.epistemic_prerequisites)))
        (value_error "work order epistemic prerequisite sources must be unique")
    ok o

  -- the identity's fields: all but the identity itself
  abbrev content : WorkOrder → JsonObject
  content o = object (
      ("purpose", JsonValue.str o.purpose)
      ∷ ("governing_goal_refs", str_list o.governing_goal_refs)
      ∷ ("created_from", str_list o.created_from)
      ∷ ("priority", JsonValue.float o.priority)
      ∷ ("desired_outcome", JsonValue.str o.desired_outcome)
      ∷ ("success_criteria", str_list o.success_criteria)
      ∷ ("deadline", optional_iso world o.deadline)
      ∷ ("opportunity_window_end", optional_iso world o.opportunity_window_end)
      ∷ ("authority_ceiling", authority_json o.authority_ceiling)
      ∷ ("epistemic_prerequisites", prerequisite_list world o.epistemic_prerequisites)
      ∷ ("created_at", iso world o.created_at)
      ∷ [])

  -- `WorkOrder.create`, from an order whose identity is ignored
  unfoldable pub create : WorkOrder → Result WorkOrder
  create o = do
    identity ← canonical_id world "work-order" (content o)
    post_init (record o { work_order_id = identity })

  unfoldable pub to_dict : WorkOrder → JsonObject
  to_dict o = JsonObject.field "work_order_id" (JsonValue.str o.work_order_id) (content o)

  unfoldable pub from_dict : JsonObject → Result WorkOrder
  from_dict d = do
    work_order_id ← str_at world "work_order_id" d
    purpose ← str_at world "purpose" d
    goals ← strings_at world "governing_goal_refs" d
    created_from ← strings_at world "created_from" d
    priority ← float_at world "priority" d
    outcome ← str_at world "desired_outcome" d
    criteria ← strings_at world "success_criteria" d
    deadline ← optional_datetime world "deadline" d
    window ← optional_datetime world "opportunity_window_end" d
    level ← int_at world "authority_ceiling" d
    authority ← authority_of level
    prerequisites ← prerequisites_at world "epistemic_prerequisites" d
    created_at ← datetime_at world "created_at" d
    order ← post_init (record {
      work_order_id = work_order_id;
      purpose = purpose;
      governing_goal_refs = goals;
      created_from = created_from;
      priority = priority;
      desired_outcome = outcome;
      success_criteria = criteria;
      deadline = deadline;
      opportunity_window_end = window;
      authority_ceiling = authority;
      epistemic_prerequisites = prerequisites;
      created_at = created_at;
    })
    expected ← create order
    raise_if (not (order.work_order_id == expected.work_order_id))
        (value_error "work order id does not match immutable content")
    ok order

  -- the equality that the dataclass generates
  unfoldable pub order_eqb : WorkOrder → WorkOrder → Bool
  order_eqb o q =
      o.work_order_id == q.work_order_id
      && o.purpose == q.purpose
      && texts_eqb o.governing_goal_refs q.governing_goal_refs
      && texts_eqb o.created_from q.created_from
      && world.float_eqb o.priority q.priority
      && o.desired_outcome == q.desired_outcome
      && texts_eqb o.success_criteria q.success_criteria
      && same_optional_time o.deadline q.deadline
      && same_optional_time o.opportunity_window_end q.opportunity_window_end
      && authority_value o.authority_ceiling == authority_value q.authority_ceiling
      && list_eqb (prerequisite_eqb world) o.epistemic_prerequisites q.epistemic_prerequisites
      && same_time o.created_at q.created_at

  unfoldable pub to_event : WorkOrder → String → Result Event
  to_event o source =
      make_event ("work-order-recorded:" ++ o.work_order_id) "work.order_recorded" source
        o.work_order_id o.created_at (to_dict o) none

  unfoldable pub from_event : Event → Result WorkOrder
  from_event e = do
    raise_if (not (e.type == "work.order_recorded")) (value_error "not a work order event")
    value ← from_dict e.payload
    raise_if (not (e.id == "work-order-recorded:" ++ value.work_order_id))
        (value_error "work order event id is inconsistent")
    raise_if
        (not (is_subject e value.work_order_id) || not (same_time e.timestamp value.created_at))
        (value_error "work order event envelope is inconsistent")
    ok value
