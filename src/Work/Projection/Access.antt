-- ===== src/Work/Projection/Access.antt =====
-- src/noema/work/coordination.py, `_validate_information_access` and
-- `_has_exact_predecessor_head`. How an information decision is read from its event is a parameter
-- (`Governance`), with the fields of a decision that are used.
use Prim.Native.String.{◌++◌}
use noema_agent_sdk.Common.{
  String, Bool, true, false, not, Option, none, some, List, [], ◌∷◌, map, ◌&&◌, ◌||◌, if◌then◌else◌,
  ◌==◌, string_eq, nat_eq, any, filter, contains, Result, ok, err, ◌>>=◌, ◌>>◌, raise_if, or_raise,
  value_error,
}
use noema_agent_sdk.Common.Int.{ℤ, pos, ltb_ℤ, int_eq}
use noema_agent_sdk.Event.{DateTime, Event}
use noema_agent_sdk.Work.Values.{is_nil, same_time, traverse}
use noema_agent_sdk.Work.Nodes.{WorkNode}
use noema_agent_sdk.Common.Dict.{Dict, lookup}
use noema_agent_sdk.Common.{length, pair_eq, is_subset}
use noema_agent_sdk.Common.Int.{min_ℤ, max_ℤ}
use noema_agent_sdk.Event.{sequence_or_zero}
use noema_agent_sdk.Work.Leases.{WorkLease}
use noema_agent_sdk.Work.Projection.{values}

pub record Decision : Type 0 where
  pub causal_event_cursor : ℤ
  pub allowed : Bool
  pub is_work_assign : Bool
  pub principal_id : String
  pub recipient : Option String
  pub source_trust_domain : String
  pub destination_trust_domain : String
  pub information_id : String
  pub decided_at : DateTime

pub record Governance : Type 0 where
  pub access_from_event : Event → Result Decision
  pub disclosure_from_event : Event → Result Decision

-- the greatest sequence below one, or 0
abbrev predecessor : ℤ → List Event → ℤ
predecessor sequence [] = pos 0
predecessor sequence (x ∷ xs) =
    let rest = predecessor sequence xs in
    if ltb_ℤ (sequence_or_zero x) sequence then max_ℤ rest (sequence_or_zero x) else rest

-- The event comes right after the cursor.
unfoldable pub has_exact_predecessor_head : List Event → Event → ℤ → Bool
has_exact_predecessor_head events e cursor = elim e.sequence [
  | none ↦ false
  | some sequence ↦ ltb_ℤ cursor sequence && predecessor sequence events == cursor
]

-- `set(xs) == set(ys)`
abbrev pub same_elements : List String → List String → Bool
same_elements xs ys = is_subset xs ys && is_subset ys xs

abbrev pub distinct : List String → List String
distinct [] = []
distinct (x ∷ xs) = let rest = distinct xs in if contains x xs then rest else x ∷ rest

abbrev pub is_crossing : Decision → Bool
is_crossing d = not (d.destination_trust_domain == d.source_trust_domain)

abbrev pub is_agent : Option String → String → Bool
is_agent none agent_id = false
is_agent (some r) agent_id = r == agent_id

abbrev is_applicable : WorkLease → Decision → Bool
is_applicable l d =
    d.allowed
    && d.is_work_assign
    && d.principal_id == l.agent_id
    && is_agent d.recipient l.agent_id
    && same_time d.decided_at l.granted_at

abbrev cut : ℤ → List Event → ℤ
cut least [] = least
cut least (e ∷ es) = cut (min_ℤ least (sequence_or_zero e)) es

-- `min(event.sequence or 0 for event in decision_events)`
abbrev decision_cut : List Event → List Event → Result ℤ
decision_cut [] [] = err (value_error "min() arg is an empty sequence")
decision_cut [] (e ∷ es) = ok (cut (sequence_or_zero e) es)
decision_cut (e ∷ es) fs = ok (cut (cut (sequence_or_zero e) es) fs)

abbrev is_decision : String → Bool
is_decision type = type == "information.access_decided" || type == "information.disclosure_decided"

-- The event of each cited decision, with the decision that it carries.
abbrev read_decisions :
    (Event → Result Decision)
    → String
    → Dict String Event
    → List String
    → Result (List (Event × Decision))
read_decisions from_event prefix events refs =
    traverse
      (λ ref. do
        e ←
            or_raise (lookup (prefix ++ ref) events)
              (value_error "work lease cites a non-canonical decision")
        d ← from_event e
        raise_if (not (has_exact_predecessor_head (values events) e d.causal_event_cursor))
            (value_error "work lease decision lacks exact-head admission")
        ok (e, d))
      refs

module _ (governance : Governance) where
  abbrev check_evidence : Dict String Event → WorkLease → WorkNode → Result (Unit {0})
  check_evidence events l n = do
    raise_if (not (length l.information_access_decision_refs == length n.governed_information_refs))
        (value_error "work lease lacks complete information access evidence")
    accesses ←
        read_decisions governance.access_from_event "information-access-decided:" events
          l.information_access_decision_refs
    raise_if
        (not (same_elements (map (λ d. d.1.information_id) accesses) n.governed_information_refs))
        (value_error "work lease access evidence covers different information")
    raise_if (any (λ d. not (is_applicable l d.1)) accesses)
        (value_error "work lease information access evidence is inapplicable")
    (let crossing =
          distinct (map (λ d. d.1.information_id) (filter (λ d. is_crossing d.1) accesses)) in
        do
          raise_if (not (length l.information_disclosure_decision_refs == length crossing))
              (value_error "work lease lacks required cross-domain disclosure evidence")
          disclosures ←
              read_decisions governance.disclosure_from_event "information-disclosure-decided:"
                events l.information_disclosure_decision_refs
          raise_if (not (same_elements (map (λ d. d.1.information_id) disclosures) crossing))
              (value_error "work lease disclosure evidence covers different information")
          raise_if (any (λ d. not (is_applicable l d.1 && is_crossing d.1)) disclosures)
              (value_error "work lease disclosure evidence is inapplicable")
          least ← decision_cut (map (λ d. d.0) accesses) (map (λ d. d.0) disclosures)
          raise_if
              (any (λ e. ltb_ℤ least (sequence_or_zero e) && not (is_decision e.type))
                (values events))
              (value_error
                "work lease access evidence is stale across an intervening canonical event"))

  unfoldable pub validate_information_access :
      Dict String Event → WorkLease → WorkNode → Result (Unit {0})
  validate_information_access events l n = elim (is_nil n.governed_information_refs) [
    | true ↦
        raise_if
          (not (is_nil l.information_access_decision_refs)
            || not (is_nil l.information_disclosure_decision_refs))
          (value_error "ungoverned work cannot cite information decisions")
    | false ↦ check_evidence events l n
  ]
