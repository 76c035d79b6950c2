-- ===== src/Tests/Schemas.antt =====
-- A registry with an upcaster of observations from version 1 to version 2.
use noema_agent_sdk.Common.{
  ◌≡◌, refl, some, [], ◌∷◌, Result, ok, pair_eq, pair_eq, string_eq, arith,
}
use noema_agent_sdk.Common.Int.{pos, ◌+ℤ◌, int_eq}
use noema_agent_sdk.Common.Dict.{lookup}
use noema_agent_sdk.Event.{Event}
use noema_agent_sdk.Schemas.{
  EventSchemaRegistry, normalize, current_version, upcast_all, upcast, validate,
}
use noema_agent_sdk.Schemas.Normalize.{normalize_returns, normalize-SameEvent, SameEvent}
use noema_agent_sdk.Tests.Fixtures.{event_one}

abbrev to_second : Event → Result Event
to_second e = ok (record e { schema_version = pos 2 })

abbrev registry : EventSchemaRegistry
registry = record {
  current = ("observation", pos 2) ∷ [];
  validators = [];
  upcasters = (("observation", pos 1), to_second) ∷ [];
}

normalize_returns_example : (r : Result Event) × (normalize 2 registry event_one ≡ some r)
unfolding current_version lookup
normalize_returns_example = normalize_returns 2 registry event_one (omega arith) (omega arith)

normalize-SameEvent_example :
    (pos 2 ≡ current_version "observation" registry)
    × SameEvent (record event_one { schema_version = pos 2 }) event_one
unfolding normalize current_version lookup upcast_all upcast validate ◌+ℤ◌ pair_eq
normalize-SameEvent_example =
    normalize-SameEvent 2 registry event_one (record event_one { schema_version = pos 2 }) refl
