-- ===== src/Work/Nodes.antt =====
-- src/noema/work/models.py, the classes `WorkNode` and `WorkDependency`.
use noema_agent_sdk.Common.{
  String, Bool, true, false, not, List, [], ◌∷◌, map, ◌&&◌, if◌then◌else◌, ◌==◌, string_eq, nat_eq,
  contains, Result, ok, ◌>>=◌, ◌>>◌, raise_if, value_error,
}
use noema_agent_sdk.Common.Int.{int_eq}
use noema_agent_sdk.Common.Sort.{is_unique}
use noema_agent_sdk.Event.{JsonValue, JsonObject}
use noema_agent_sdk.Work.Values.{
  Platform, ActionPrerequisite, WorkNodeKind, kind_value, is_verify, is_nil, require_text,
  unique_text, iterate_at, traverse, to_items, str_list, object, extend, mapping, kind_of,
}
use noema_agent_sdk.Work.Decode.{
  validate_opaque_governance_id, str_at, strings_at, prerequisites_at, prerequisite_list,
}

pub record WorkNode : Type 0 where
  pub node_id : String
  pub kind : WorkNodeKind
  pub description : String
  pub required_capabilities : List String
  pub completion_criteria : List String
  pub epistemic_prerequisites : List ActionPrerequisite
  pub verification_of : List String
  pub governed_information_refs : List String

pub record WorkDependency : Type 0 where
  pub predecessor_id : String
  pub successor_id : String

unfoldable pub dependency_init : WorkDependency → Result WorkDependency
dependency_init d = do
  require_text d.predecessor_id "dependency predecessor"
  require_text d.successor_id "dependency successor"
  raise_if (d.predecessor_id == d.successor_id)
      (value_error "a work dependency cannot be self-referential")
  ok d

abbrev pub dependency_dict : WorkDependency → JsonValue
dependency_dict d = JsonValue.dict (
    object (
      ("predecessor_id", JsonValue.str d.predecessor_id)
      ∷ ("successor_id", JsonValue.str d.successor_id)
      ∷ []))

-- `==` of sequences
abbrev pub list_eqb {ℓ} : {A : Type ℓ} → (A → A → Bool) → List A → List A → Bool
list_eqb eqb [] [] = true
list_eqb eqb [] (_ ∷ _) = false
list_eqb eqb (_ ∷ _) [] = false
list_eqb eqb (x ∷ xs) (y ∷ ys) = let rest = list_eqb eqb xs ys in if eqb x y then rest else false

abbrev pub texts_eqb : List String → List String → Bool
texts_eqb = list_eqb (λ a b. a == b)

abbrev pub dependency_eqb : WorkDependency → WorkDependency → Bool
dependency_eqb d e = d.predecessor_id == e.predecessor_id && d.successor_id == e.successor_id

-- `for value in values: validate_opaque_governance_id(value, name)`
abbrev pub validate_opaque_ids : List String → String → Result (Unit {0})
validate_opaque_ids [] name = ok tt
validate_opaque_ids (v ∷ vs) name = do
  validate_opaque_governance_id v name
  validate_opaque_ids vs name

unfoldable pub post_init : WorkNode → Result WorkNode
post_init n = do
  require_text n.node_id "work node id"
  require_text n.description "work node description"
  unique_text n.required_capabilities "work node capabilities" true
  unique_text n.completion_criteria "work node completion criteria" true
  unique_text n.verification_of "verified node ids" false
  unique_text n.governed_information_refs "work node governed information refs" false
  validate_opaque_ids n.governed_information_refs "work node governed information ref"
  raise_if (not (is_unique (map (λ p. p.source_id) n.epistemic_prerequisites)))
      (value_error "work node epistemic prerequisite sources must be unique")
  raise_if (is_verify n.kind && is_nil n.verification_of)
      (value_error "verification work must name the nodes it independently verifies")
  raise_if (not (is_verify n.kind) && not (is_nil n.verification_of))
      (value_error "only verification work may carry verification targets")
  raise_if (contains n.node_id n.verification_of) (value_error "a work node cannot verify itself")
  ok n

module _ (world : Platform) where
  -- A node with no governed information has no field for it.
  abbrev governed : List String → JsonObject
  governed [] = JsonObject.end
  governed (r ∷ rs) =
      JsonObject.field "governed_information_refs" (str_list (r ∷ rs)) JsonObject.end

  unfoldable pub to_dict : WorkNode → JsonObject
  to_dict n =
      extend
        (object (
          ("node_id", JsonValue.str n.node_id)
          ∷ ("kind", JsonValue.str (kind_value n.kind))
          ∷ ("description", JsonValue.str n.description)
          ∷ ("required_capabilities", str_list n.required_capabilities)
          ∷ ("completion_criteria", str_list n.completion_criteria)
          ∷ ("epistemic_prerequisites", prerequisite_list world n.epistemic_prerequisites)
          ∷ ("verification_of", str_list n.verification_of)
          ∷ []))
        (governed n.governed_information_refs)

  unfoldable pub from_dict : JsonObject → Result WorkNode
  from_dict d = do
    node_id ← str_at world "node_id" d
    kind_text ← str_at world "kind" d
    kind ← kind_of kind_text
    description ← str_at world "description" d
    capabilities ← strings_at world "required_capabilities" d
    criteria ← strings_at world "completion_criteria" d
    prerequisites ← prerequisites_at world "epistemic_prerequisites" d
    targets ← strings_at world "verification_of" d
    governed_refs ← strings_at world "governed_information_refs" d
    post_init (record {
      node_id = node_id;
      kind = kind;
      description = description;
      required_capabilities = capabilities;
      completion_criteria = criteria;
      epistemic_prerequisites = prerequisites;
      verification_of = targets;
      governed_information_refs = governed_refs;
    })

  unfoldable pub dependency_from_dict : JsonObject → Result WorkDependency
  dependency_from_dict d = do
    predecessor ← str_at world "predecessor_id" d
    successor ← str_at world "successor_id" d
    dependency_init (record { predecessor_id = predecessor; successor_id = successor })

  -- `_nodes` and `_dependencies`
  unfoldable pub nodes_at : JsonObject → Result (List WorkNode)
  nodes_at d = do values ← iterate_at "nodes" d; traverse (λ v. mapping v >>= from_dict) values

  unfoldable pub dependencies_at : JsonObject → Result (List WorkDependency)
  dependencies_at d = do
    values ← iterate_at "dependencies" d
    traverse (λ v. mapping v >>= dependency_from_dict) values

  abbrev pub node_list : List WorkNode → JsonValue
  node_list ns = JsonValue.list (to_items (λ n. JsonValue.dict (to_dict n)) ns)

  abbrev pub dependency_list : List WorkDependency → JsonValue
  dependency_list ds = JsonValue.list (to_items dependency_dict ds)

  abbrev pub prerequisite_eqb : ActionPrerequisite → ActionPrerequisite → Bool
  prerequisite_eqb p q =
      p.source_id == q.source_id
      && world.float_eqb p.minimum_freshness q.minimum_freshness
      && world.float_eqb p.minimum_confidence q.minimum_confidence

  -- the equality that the dataclasses generate
  abbrev pub node_eqb : WorkNode → WorkNode → Bool
  node_eqb n m =
      n.node_id == m.node_id
      && kind_value n.kind == kind_value m.kind
      && n.description == m.description
      && texts_eqb n.required_capabilities m.required_capabilities
      && texts_eqb n.completion_criteria m.completion_criteria
      && list_eqb prerequisite_eqb n.epistemic_prerequisites m.epistemic_prerequisites
      && texts_eqb n.verification_of m.verification_of
      && texts_eqb n.governed_information_refs m.governed_information_refs
