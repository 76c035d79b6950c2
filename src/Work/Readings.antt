-- ===== src/Work/Readings.antt =====
-- src/noema/work/models.py: the readings of `from_dict` find what `to_dict` has written.
use noema_agent_sdk.Common.{String, true, some, List, [], ◌∷◌, map, ok, ◌>>=◌, ◌≡◌, refl, ap, ◌∙◌}
use noema_agent_sdk.Event.{DateTime, JsonValue, JsonObject, get_field}
use noema_agent_sdk.Event.Codec.{parse_datetime-isoformat, py_str}
use noema_agent_sdk.Work.Values.{Platform, iterate_at, items, to_items}
use noema_agent_sdk.Work.Decode.{datetime_at, strings_at, iso}

module _ (world : Platform) where
  pub datetime_at-iso :
      (k : String) (d : JsonObject) (t : DateTime)
      → get_field k d ≡ some (iso world t)
      → t.is_aware ≡ true
      → datetime_at world k d ≡ ok t
  unfolding datetime_at
  datetime_at-iso k d t written aware =
      rw written (rw (parse_datetime-isoformat world.py t aware) refl)

  items-to_items :
      (xs : List String) → map (py_str world.py) (items (to_items JsonValue.str xs)) ≡ xs
  items-to_items [] = refl
  items-to_items (x ∷ xs) = ap (◌∷◌ x) (items-to_items xs)

  -- A field that iterates over texts is read as those texts.
  pub strings_at-items :
      (k : String) (d : JsonObject) (xs : List String)
      → iterate_at k d ≡ ok (items (to_items JsonValue.str xs))
      → strings_at world k d ≡ ok xs
  unfolding strings_at
  strings_at-items k d xs written =
      ap (λ r. r >>= λ vs. ok (map (py_str world.py) vs)) written ∙ ap ok (items-to_items xs)
