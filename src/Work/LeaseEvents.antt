-- ===== src/Work/LeaseEvents.antt =====
-- src/noema/work/models.py, `WorkLease`: the event of a granted lease, read back.
use noema_agent_sdk.Common.{
  String, true, List, [], ◌∷◌, string_eq, ok, ◌≡◌, refl, subst, arith, beq_self,
}
use noema_agent_sdk.Event.{DateTime, JsonValue, JsonObject, Event, get_field}
use noema_agent_sdk.Event
use noema_agent_sdk.Work.Values.{Platform, require_aware, iterate, iterate_at, items, to_items}
use noema_agent_sdk.Work.Decode.{make_event}
use noema_agent_sdk.Work.Readings.{datetime_at-iso, strings_at-items}
use noema_agent_sdk.Work.Leases.{
  WorkLease, grant_id, optional_fields, post_init, to_dict, from_dict, to_event, from_event,
}

module _ (world : Platform) where
  post_init-is_aware :
      (l : WorkLease)
      → post_init world l ≡ ok l
      → (l.granted_at.is_aware ≡ true) × (l.expires_at.is_aware ≡ true)
  unfolding post_init require_aware
  post_init-is_aware l valid = (ground (arith, valid), ground (arith, valid))

  -- The optional fields are read xs the references that they hold, or none.
  optional_refs :
      (xs ys : List String)
      → (iterate_at "information_access_decision_refs" (optional_fields world xs ys)
          ≡ ok (items (to_items JsonValue.str xs)))
        × (iterate_at "information_disclosure_decision_refs" (optional_fields world xs ys)
            ≡ ok (items (to_items JsonValue.str ys)))
  unfolding get_field iterate
  optional_refs [] [] = (refl, refl)
  optional_refs [] (d ∷ ys) = (refl, refl)
  optional_refs (a ∷ xs) [] = (refl, refl)
  optional_refs (a ∷ xs) (d ∷ ys) = (refl, refl)

  from_dict-to_dict :
      (l : WorkLease) → post_init world l ≡ ok l → from_dict world (to_dict world l) ≡ ok l
  unfolding from_dict to_dict get_field iterate
  from_dict-to_dict l valid =
      let aware = post_init-is_aware l valid in
      let refs =
        optional_refs l.information_access_decision_refs l.information_disclosure_decision_refs in
      let d = to_dict world l in
      rw
        (
          datetime_at-iso world "granted_at" d l.granted_at refl aware.0,
          datetime_at-iso world "expires_at" d l.expires_at refl aware.1,
          strings_at-items world "competence_estimate_refs" d l.competence_estimate_refs refl,
          strings_at-items world "information_access_decision_refs" d
              l.information_access_decision_refs refs.0,
          strings_at-items world "information_disclosure_decision_refs" d
              l.information_disclosure_decision_refs refs.1,
        )
        valid

  event-eq-ok : (e made : Event) → Event.post_init e ≡ ok made → e ≡ made
  unfolding Event.post_init
  event-eq-ok e made h = ground (arith, h)

  -- An event that can be made of a valid lease is read back as that lease.
  pub from_event-to_event_lease :
      (l : WorkLease) (source cause : String) (e : Event)
      → post_init world l ≡ ok l
      → to_event world l source cause ≡ ok e
      → from_event world e ≡ ok l
  unfolding to_event from_event make_event
  from_event-to_event_lease l source cause e valid made =
      subst (λ x. from_event world x ≡ ok l) (event-eq-ok _ e made)
        (ground (
          arith,
          from_dict-to_dict l valid,
          beq_self (grant_id world l),
          beq_self l.node_id,
          (post_init-is_aware l valid).0,
        ))
