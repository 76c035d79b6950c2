-- ===== src/Tests/Outbox.antt =====
-- Two workers at an outbox of one and of two rows.
use noema_agent_sdk.Common.{
  ℕ, ◌≡◌, refl, String, false, none, some, List, [], ◌∷◌, inl, arith, All, contains, nat_eq,
}
use noema_agent_sdk.Common.Int.{pos}
use noema_agent_sdk.Event.{Event, post_init, get_field}
use noema_agent_sdk.Common.Text.{is_blank}
use noema_agent_sdk.Event.Codec.{to_dict, from_dict, parse_datetime}
use noema_agent_sdk.Store.Sqlite.Tables.{OutboxRow}
use noema_agent_sdk.Store.Sqlite.Outbox.{OutboxRecord, claim_outbox, complete_outbox, retry_outbox}
use noema_agent_sdk.Store.Sqlite.Outbox.Rows.{row_at}
use noema_agent_sdk.Store.Sqlite.Outbox.Leases.{record_ids}
use noema_agent_sdk.Store.Sqlite.Outbox.Leases.{claims_disjoint}
use noema_agent_sdk.Store.Sqlite.Outbox.Fencing.{stale_claim_refused}
use noema_agent_sdk.Store.Sqlite.Outbox.Published.{published_final}
use noema_agent_sdk.Store.Sqlite.Outbox.Calls.{OutboxCall, step, run}
use noema_agent_sdk.Tests.Fixtures.{python, noon, event_one, event_two}

abbrev row : ℕ → Event → OutboxRow
row id event = record {
  id = id;
  event_id = event.id;
  topic = "noema.observation";
  event_json = to_dict python event;
  attempts = 0;
  available_at = 0;
  lease_owner = none;
  lease_until = none;
  fencing_token = 0;
  last_error = none;
  created_at = 0;
  published_at = none;
}

abbrev held : String → ℕ → ℕ → OutboxRow → OutboxRow
held worker until token r = record r {
  lease_owner = some worker;
  lease_until = some until;
  fencing_token = token;
  attempts = token;
}

abbrev claim_of : ℕ → Event → ℕ → OutboxRecord
claim_of id event token = record {
  id = id;
  event = event;
  topic = "noema.observation";
  attempts = token;
  fencing_token = token;
}

-- A first worker claims a row and fails, a second one claims it, and a third one after that.
abbrev after_first : List OutboxRow
after_first = held "a" 10 1 (row 1 event_one) ∷ []

abbrev between : List OutboxCall
between = OutboxCall.retries 1 1 "failed" 15 ∷ []

abbrev since : List OutboxCall
since = OutboxCall.claims "c" (pos 1) 10 35 ∷ []

abbrev after_second : List OutboxRow
after_second =
    record (held "b" 30 2 (row 1 event_one)) { available_at = 15; last_error = some "failed" } ∷ []

stale_claim_refused_example :
    let after = run python "fresh" noon after_second since in
    (complete_outbox 1 1 40 after ≡ (false, after))
    × (retry_outbox 1 1 "late" 40 after ≡ (false, after))
unfolding claim_outbox from_dict parse_datetime post_init get_field to_dict is_blank run step
    retry_outbox
stale_claim_refused_example =
    stale_claim_refused python "fresh" noon "a" "b" (pos 1) (pos 1) 10 10 0 20
      (row 1 event_one ∷ []) after_first after_second (claim_of 1 event_one 1 ∷ [])
      (claim_of 1 event_one 2 ∷ []) (claim_of 1 event_one 1) (claim_of 1 event_one 2) "late" 40
      between since (ground arith) refl refl (inl refl) (inl refl) refl

abbrev two_rows : List OutboxRow
two_rows = row 1 event_one ∷ row 2 event_two ∷ []

abbrev first_held : List OutboxRow
first_held = held "a" 10 1 (row 1 event_one) ∷ row 2 event_two ∷ []

abbrev both_held : List OutboxRow
both_held = held "a" 10 1 (row 1 event_one) ∷ held "b" 15 1 (row 2 event_two) ∷ []

claims_disjoint_example :
    All
      (λ (n : ℕ). contains n (record_ids (claim_of 1 event_one 1 ∷ [])) ≡ false)
      (record_ids (claim_of 2 event_two 1 ∷ []))
unfolding claim_outbox from_dict parse_datetime post_init get_field to_dict is_blank
claims_disjoint_example =
    claims_disjoint python "fresh" noon "a" "b" (pos 1) (pos 5) 10 10 0 5 two_rows first_held
      both_held (claim_of 1 event_one 1 ∷ []) (claim_of 2 event_two 1 ∷ []) (ground arith) refl refl
      (omega arith)

abbrev published_row : OutboxRow
published_row = record (row 1 event_one) { fencing_token = 1; published_at = some 9 }

abbrev calls : List OutboxCall
calls = OutboxCall.claims "b" (pos 5) 10 20 ∷ OutboxCall.completes 1 1 30 ∷ []

published_final_example :
    (row_at 1 (run python "fresh" noon (published_row ∷ []) calls) ≡ some published_row)
    × ((complete_outbox 1 1 40 (run python "fresh" noon (published_row ∷ []) calls)).0 ≡ false)
published_final_example =
    published_final python "fresh" noon 1 9 1 40 published_row (published_row ∷ []) calls
      (ground arith) refl refl
