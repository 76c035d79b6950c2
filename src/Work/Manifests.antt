-- ===== src/Work/Manifests.antt =====
-- src/noema/work/models.py, the class `CapabilityManifest`.
use Prim.Native.String.{◌++◌}
use noema_agent_sdk.Common.{
  String, Bool, true, not, none, List, [], ◌∷◌, ◌&&◌, ◌||◌, ◌==◌, string_eq, nat_eq, Result, ok,
  ◌>>=◌, ◌>>◌, raise_if, value_error,
}
use noema_agent_sdk.Common.Int.{int_eq}
use noema_agent_sdk.Common.Sort.{sort, str_leb}
use noema_agent_sdk.Event.{DateTime, JsonValue, JsonObject, Event}
use noema_agent_sdk.Work.Values.{
  Platform, require_text, require_aware, unique_text, same_time, str_list, object,
}
use noema_agent_sdk.Work.Decode.{
  canonical_id, str_at, datetime_at, strings_at, iso, make_event, is_subject,
}
use noema_agent_sdk.Work.Nodes.{texts_eqb}

pub record CapabilityManifest : Type 0 where
  pub manifest_id : String
  pub agent_id : String
  pub capabilities : List String
  pub recorded_at : DateTime

unfoldable pub post_init : CapabilityManifest → Result CapabilityManifest
post_init m = do
  require_text m.manifest_id "capability manifest id"
  require_text m.agent_id "capability manifest agent id"
  unique_text m.capabilities "declared capabilities" true
  require_aware m.recorded_at "capability manifest recorded_at"
  ok m

module _ (world : Platform) where
  abbrev content : CapabilityManifest → JsonObject
  content m = object (
      ("agent_id", JsonValue.str m.agent_id)
      ∷ ("capabilities", str_list m.capabilities)
      ∷ ("recorded_at", iso world m.recorded_at)
      ∷ [])

  abbrev in_order : CapabilityManifest → CapabilityManifest
  in_order m = record m { capabilities = sort str_leb m.capabilities }

  -- `CapabilityManifest.create`, from a manifest whose identity is ignored
  unfoldable pub create : CapabilityManifest → Result CapabilityManifest
  create m = do
    identity ← canonical_id world "capability-manifest" (content (in_order m))
    post_init (record (in_order m) { manifest_id = identity })

  unfoldable pub to_dict : CapabilityManifest → JsonObject
  to_dict m = JsonObject.field "manifest_id" (JsonValue.str m.manifest_id) (content m)

  -- the equality that the dataclass generates
  unfoldable pub manifest_eqb : CapabilityManifest → CapabilityManifest → Bool
  manifest_eqb m n =
      m.manifest_id == n.manifest_id
      && m.agent_id == n.agent_id
      && texts_eqb m.capabilities n.capabilities
      && same_time m.recorded_at n.recorded_at

  unfoldable pub from_dict : JsonObject → Result CapabilityManifest
  from_dict d = do
    manifest_id ← str_at world "manifest_id" d
    agent_id ← str_at world "agent_id" d
    capabilities ← strings_at world "capabilities" d
    recorded_at ← datetime_at world "recorded_at" d
    value ← post_init (record {
      manifest_id = manifest_id;
      agent_id = agent_id;
      capabilities = capabilities;
      recorded_at = recorded_at;
    })
    expected ← create value
    raise_if (not (manifest_eqb value expected))
        (value_error "capability manifest id does not match immutable content")
    ok value

  unfoldable pub to_event : CapabilityManifest → String → Result Event
  to_event m source =
      make_event ("capability-manifest-recorded:" ++ m.manifest_id)
        "work.capability_manifest_recorded" source m.agent_id m.recorded_at (to_dict m) none

  unfoldable pub from_event : Event → Result CapabilityManifest
  from_event e = do
    raise_if (not (e.type == "work.capability_manifest_recorded"))
        (value_error "not a capability manifest event")
    value ← from_dict e.payload
    raise_if (not (e.id == "capability-manifest-recorded:" ++ value.manifest_id))
        (value_error "capability manifest event id is inconsistent")
    raise_if (not (is_subject e value.agent_id) || not (same_time e.timestamp value.recorded_at))
        (value_error "capability manifest event envelope is inconsistent")
    ok value
