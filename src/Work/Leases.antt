-- ===== src/Work/Leases.antt =====
-- src/noema/work/models.py, the class `WorkLease` and `plan_invalidation_event`.
-- A duration is a number of microseconds.
use Prim.Native.String.{◌++◌}
use noema_agent_sdk.Common.{
  ◌+◌, String, true, false, not, some, List, [], ◌∷◌, ◌||◌, ◌==◌, string_eq, nat_eq, Result, ok,
  err, ◌>>=◌, ◌>>◌, raise_if, value_error, runtime_error,
}
use noema_agent_sdk.Common.Int.{ℤ, pos, negsuc, leb_ℤ, int_eq, ◌+ℤ◌}
use noema_agent_sdk.Event.{DateTime, JsonValue, JsonObject, Event}
use noema_agent_sdk.Work.Values.{
  Platform, require_text, require_aware, unique_text, is_before, same_time, str_list, object,
  extend,
}
use noema_agent_sdk.Work.Decode.{
  bounded, str_at, int_at, float_at, datetime_at, strings_at, iso, show_int, make_event, is_subject,
  has_no_cause,
}
use noema_agent_sdk.Work.Nodes.{validate_opaque_ids}

pub record WorkLease : Type 0 where
  pub lease_id : String
  pub graph_id : String
  pub node_id : String
  pub agent_id : String
  pub fencing_token : ℤ
  pub granted_at : DateTime
  pub expires_at : DateTime
  pub match_score : String
  pub competence_estimate_refs : List String
  pub information_access_decision_refs : List String
  pub information_disclosure_decision_refs : List String

-- A time plus a duration; a time before the origin is out of range.
abbrev later : DateTime → ℤ → Result DateTime
later t (pos n) = ok (record t { instant = t.instant + n })
later t (negsuc n) = elim (pos t.instant +ℤ negsuc n) [
  | pos m ↦ ok (record t { instant = m })
  | negsuc _ ↦ err (runtime_error "date value out of range")
]

module _ (world : Platform) where
  -- `f"{prefix}:{graph_id}:{node_id}:{fencing_token}"`
  abbrev pub fenced_id : String → String → String → ℤ → String
  fenced_id prefix graph_id node_id token =
      prefix ++ ":" ++ graph_id ++ ":" ++ node_id ++ ":" ++ show_int world token

  unfoldable pub post_init : WorkLease → Result WorkLease
  post_init l = do
    require_text l.lease_id "work lease id"
    require_text l.graph_id "work lease graph id"
    require_text l.node_id "work lease node id"
    require_text l.agent_id "work lease agent id"
    raise_if (leb_ℤ l.fencing_token (pos 0))
        (value_error "work lease fencing token must be positive")
    raise_if (not (l.lease_id == fenced_id "work-lease" l.graph_id l.node_id l.fencing_token))
        (value_error "work lease id is inconsistent with its fencing identity")
    require_aware l.granted_at "work lease granted_at"
    require_aware l.expires_at "work lease expires_at"
    raise_if (not (is_before l.granted_at l.expires_at))
        (value_error "work lease must expire after it is granted")
    bounded world l.match_score "work lease match score"
    unique_text l.competence_estimate_refs "work lease competence estimate refs" true
    unique_text l.information_access_decision_refs "work lease information access decision refs"
        false
    validate_opaque_ids l.information_access_decision_refs
        "work lease information access decision ref"
    unique_text l.information_disclosure_decision_refs
        "work lease information disclosure decision refs" false
    validate_opaque_ids l.information_disclosure_decision_refs
        "work lease information disclosure decision ref"
    ok l

  -- `WorkLease.create`, from a lease whose identity and end are ignored
  unfoldable pub create : WorkLease → ℤ → Result WorkLease
  create l lease_duration = do
    expires_at ← later l.granted_at lease_duration
    post_init (record l {
      lease_id = fenced_id "work-lease" l.graph_id l.node_id l.fencing_token;
      expires_at = expires_at;
    })

  -- a field for references that are not empty
  abbrev refs_field : String → List String → JsonObject
  refs_field name [] = JsonObject.end
  refs_field name (r ∷ rs) = JsonObject.field name (str_list (r ∷ rs)) JsonObject.end

  abbrev pub optional_fields : List String → List String → JsonObject
  optional_fields accesses disclosures =
      extend (refs_field "information_access_decision_refs" accesses)
        (refs_field "information_disclosure_decision_refs" disclosures)

  unfoldable pub to_dict : WorkLease → JsonObject
  to_dict l =
      extend
        (object (
          ("lease_id", JsonValue.str l.lease_id)
          ∷ ("graph_id", JsonValue.str l.graph_id)
          ∷ ("node_id", JsonValue.str l.node_id)
          ∷ ("agent_id", JsonValue.str l.agent_id)
          ∷ ("fencing_token", JsonValue.int l.fencing_token)
          ∷ ("granted_at", iso world l.granted_at)
          ∷ ("expires_at", iso world l.expires_at)
          ∷ ("match_score", JsonValue.float l.match_score)
          ∷ ("competence_estimate_refs", str_list l.competence_estimate_refs)
          ∷ []))
        (optional_fields l.information_access_decision_refs l.information_disclosure_decision_refs)

  unfoldable pub from_dict : JsonObject → Result WorkLease
  from_dict d = do
    lease_id ← str_at world "lease_id" d
    graph_id ← str_at world "graph_id" d
    node_id ← str_at world "node_id" d
    agent_id ← str_at world "agent_id" d
    token ← int_at world "fencing_token" d
    granted_at ← datetime_at world "granted_at" d
    expires_at ← datetime_at world "expires_at" d
    match_score ← float_at world "match_score" d
    estimates ← strings_at world "competence_estimate_refs" d
    accesses ← strings_at world "information_access_decision_refs" d
    disclosures ← strings_at world "information_disclosure_decision_refs" d
    post_init (record {
      lease_id = lease_id;
      graph_id = graph_id;
      node_id = node_id;
      agent_id = agent_id;
      fencing_token = token;
      granted_at = granted_at;
      expires_at = expires_at;
      match_score = match_score;
      competence_estimate_refs = estimates;
      information_access_decision_refs = accesses;
      information_disclosure_decision_refs = disclosures;
    })

  abbrev pub grant_id : WorkLease → String
  grant_id l = fenced_id "work-lease-granted" l.graph_id l.node_id l.fencing_token

  unfoldable pub to_event : WorkLease → String → String → Result Event
  to_event l source causation_id =
      make_event (grant_id l) "work.lease_granted" source l.node_id l.granted_at (to_dict l)
        (some causation_id)

  unfoldable pub from_event : Event → Result WorkLease
  from_event e = do
    raise_if (not (e.type == "work.lease_granted")) (value_error "not a work lease event")
    value ← from_dict e.payload
    raise_if (not (e.id == grant_id value)) (value_error "work lease event id is inconsistent")
    raise_if (not (is_subject e value.node_id) || not (same_time e.timestamp value.granted_at))
        (value_error "work lease event envelope is inconsistent")
    raise_if (has_no_cause e) (value_error "work lease requires graph causation")
    ok value
