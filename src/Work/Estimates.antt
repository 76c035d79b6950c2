-- ===== src/Work/Estimates.antt =====
-- src/noema/work/models.py, the class `CompetenceEstimate`.
use Prim.Native.String.{◌++◌}
use noema_agent_sdk.Common.{
  String, Bool, true, false, not, none, List, [], ◌∷◌, ◌&&◌, ◌||◌, ◌==◌, string_eq, nat_eq, Result,
  ok, ◌>>=◌, ◌>>◌, raise_if, value_error,
}
use noema_agent_sdk.Common.Int.{int_eq}
use noema_agent_sdk.Event.{DateTime, JsonValue, JsonObject, Event}
use noema_agent_sdk.Work.Values.{
  Platform, CompetenceBasis, basis_value, is_nil, require_text, require_aware, unique_text,
  same_time, str_list, object, basis_of,
}
use noema_agent_sdk.Work.Decode.{
  bounded, canonical_id, str_at, float_at, datetime_at, strings_at, iso, make_event, is_subject,
}

pub record CompetenceEstimate : Type 0 where
  pub estimate_id : String
  pub agent_id : String
  pub capability : String
  pub score : String
  pub evidence_confidence : String
  pub basis : CompetenceBasis
  pub evidence_refs : List String
  pub estimated_at : DateTime

abbrev pub is_seeded : CompetenceBasis → Bool
is_seeded CompetenceBasis.seeded = true
is_seeded CompetenceBasis.evidence = false

module _ (world : Platform) where
  unfoldable pub post_init : CompetenceEstimate → Result CompetenceEstimate
  post_init c = do
    require_text c.estimate_id "competence estimate id"
    require_text c.agent_id "competence agent id"
    require_text c.capability "competence capability"
    bounded world c.score "competence score"
    bounded world c.evidence_confidence "competence evidence confidence"
    unique_text c.evidence_refs "competence evidence refs" false
    raise_if (not (is_seeded c.basis) && is_nil c.evidence_refs)
        (value_error "evidence-based competence requires evidence refs")
    raise_if (is_seeded c.basis && not (is_nil c.evidence_refs))
        (value_error "seeded competence cannot claim empirical evidence")
    require_aware c.estimated_at "competence estimated_at"
    ok c

  abbrev content : CompetenceEstimate → JsonObject
  content c = object (
      ("agent_id", JsonValue.str c.agent_id)
      ∷ ("capability", JsonValue.str c.capability)
      ∷ ("score", JsonValue.float c.score)
      ∷ ("evidence_confidence", JsonValue.float c.evidence_confidence)
      ∷ ("basis", JsonValue.str (basis_value c.basis))
      ∷ ("evidence_refs", str_list c.evidence_refs)
      ∷ ("estimated_at", iso world c.estimated_at)
      ∷ [])

  -- `CompetenceEstimate.create`, from an estimate whose identity is ignored
  unfoldable pub create : CompetenceEstimate → Result CompetenceEstimate
  create c = do
    identity ← canonical_id world "competence-estimate" (content c)
    post_init (record c { estimate_id = identity })

  unfoldable pub to_dict : CompetenceEstimate → JsonObject
  to_dict c = JsonObject.field "estimate_id" (JsonValue.str c.estimate_id) (content c)

  unfoldable pub from_dict : JsonObject → Result CompetenceEstimate
  from_dict d = do
    estimate_id ← str_at world "estimate_id" d
    agent_id ← str_at world "agent_id" d
    capability ← str_at world "capability" d
    score ← float_at world "score" d
    confidence ← float_at world "evidence_confidence" d
    basis_text ← str_at world "basis" d
    basis ← basis_of basis_text
    evidence_refs ← strings_at world "evidence_refs" d
    estimated_at ← datetime_at world "estimated_at" d
    value ← post_init (record {
      estimate_id = estimate_id;
      agent_id = agent_id;
      capability = capability;
      score = score;
      evidence_confidence = confidence;
      basis = basis;
      evidence_refs = evidence_refs;
      estimated_at = estimated_at;
    })
    expected ← create value
    raise_if (not (value.estimate_id == expected.estimate_id))
        (value_error "competence estimate id does not match immutable content")
    ok value

  unfoldable pub to_event : CompetenceEstimate → String → Result Event
  to_event c source =
      make_event ("competence-estimate-recorded:" ++ c.estimate_id)
        "work.competence_estimate_recorded" source c.agent_id c.estimated_at (to_dict c) none

  unfoldable pub from_event : Event → Result CompetenceEstimate
  from_event e = do
    raise_if (not (e.type == "work.competence_estimate_recorded"))
        (value_error "not a competence estimate event")
    value ← from_dict e.payload
    raise_if (not (e.id == "competence-estimate-recorded:" ++ value.estimate_id))
        (value_error "competence estimate event id is inconsistent")
    raise_if (not (is_subject e value.agent_id) || not (same_time e.timestamp value.estimated_at))
        (value_error "competence estimate event envelope is inconsistent")
    ok value
