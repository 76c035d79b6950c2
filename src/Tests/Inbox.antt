-- ===== src/Tests/Inbox.antt =====
-- One consumer of one message.
use noema_agent_sdk.Common.{◌≡◌, ◌<◌, refl, false, none, some, List, [], ◌∷◌, arith}
use noema_agent_sdk.Store.Sqlite.Tables.{InboxRow, completed}
use noema_agent_sdk.Store.Sqlite.Inbox.{
  already_completed, busy, claim_inbox, complete_inbox, retry_inbox, new_row,
}
use noema_agent_sdk.Store.Sqlite.Inbox.Rows.{row_of}
use noema_agent_sdk.Store.Sqlite.Inbox.Dedup.{InboxCall, run, step}
use noema_agent_sdk.Store.Sqlite.Inbox.Tokens.{
  stale_token_refused, completed_final, acquired_tokens_rise, claim_exclusive,
}

-- a message that has been claimed twice, with the calls of a third claim
abbrev row : InboxRow
row = record (new_row "m" "c" 0 10) { fencing_token = 2; attempts = 2 }

abbrev calls : List InboxCall
calls = InboxCall.claims "m" "c" 10 50 ∷ InboxCall.retries "m" "c" 3 "late" 60 ∷ []

stale_token_refused_example :
    (complete_inbox "m" "c" 1 70 (run (row ∷ []) calls) ≡ (false, run (row ∷ []) calls))
    × (retry_inbox "m" "c" 1 "late" 80 (run (row ∷ []) calls) ≡ (false, run (row ∷ []) calls))
stale_token_refused_example =
    stale_token_refused "m" "c" 1 70 80 "late" row (row ∷ []) calls (ground arith) refl
      (omega arith)

abbrev done : InboxRow
done = record row { status = completed; completed_at = some 9; lease_until = none }

completed_final_example :
    (row_of "m" "c" (run (done ∷ []) calls) ≡ some done)
    × (claim_inbox "m" "c" 10 90 (run (done ∷ []) calls)
        ≡ (already_completed, run (done ∷ []) calls))
    × ((complete_inbox "m" "c" 2 90 (run (done ∷ []) calls)).0 ≡ false)
completed_final_example =
    completed_final "m" "c" 10 2 90 done (done ∷ []) calls (ground arith) refl refl

acquired_tokens_rise_example : 1 < 3
unfolding claim_inbox run step
acquired_tokens_rise_example =
    acquired_tokens_rise "m" "c" 10 10 0 90 1 3 [] (InboxCall.claims "m" "c" 10 50 ∷ []) tt refl
      refl

claim_exclusive_example :
    claim_inbox "m" "c" 10 5 (claim_inbox "m" "c" 10 0 []).1
    ≡ (busy, (claim_inbox "m" "c" 10 0 []).1)
unfolding claim_inbox
claim_exclusive_example = claim_exclusive "m" "c" 10 10 0 5 1 [] refl (omega arith)
