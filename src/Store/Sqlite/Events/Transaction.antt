-- ===== src/Store/Sqlite/Events/Transaction.antt =====
-- src/noema/store.py, `_append_sync` as a transaction on `events` and `outbox`.
use noema_agent_sdk.Common.{
  ℕ, ◌+◌, ◌≡◌, refl, sym, ap, subst, ◌∙◌, inl, inr, String, Bool, true, false, Option, some, List,
  [], ◌∷◌, ◌++◌, any, if◌then◌else◌, ◌==◌, string_eq, eq_iff, Result, ok, err, arith, Bool-cases,
  Option-cases,
}
use noema_agent_sdk.Event.{DateTime, Event}
use noema_agent_sdk.Event.Codec.{Builtins}
use noema_agent_sdk.Store.Sqlite.Tables.{OutboxRow, EventRow, Database}
use noema_agent_sdk.Store.Sqlite.Events.{
  append_sync, append_event, insert_outbox, insert_event, outbox_row, find_row, event_row,
}

-- An outbox row announces the event.
abbrev pub announces : String → OutboxRow → Bool
announces k r = k == r.event_id

-- No two outbox rows announce the same event.
abbrev pub AnnouncedOnce : List OutboxRow → Type 0
AnnouncedOnce [] = Unit {0}
AnnouncedOnce (r ∷ rs) = (any (announces r.event_id) rs ≡ false) × AnnouncedOnce rs

any-append :
    (p : OutboxRow → Bool) (rows : List OutboxRow) (r : OutboxRow)
    → any p (rows ++ r ∷ []) ≡ (if any p rows then true else p r)
any-append p [] r = ground arith
any-append p (x ∷ rows) r = ground (arith, any-append p rows r)

AnnouncedOnce-append :
    (rows : List OutboxRow) (r : OutboxRow)
    → AnnouncedOnce rows
    → any (announces r.event_id) rows ≡ false
    → AnnouncedOnce (rows ++ r ∷ [])
AnnouncedOnce-append [] r h new = (refl, tt)
AnnouncedOnce-append (x ∷ rows) r h new = ground (
  arith,
  AnnouncedOnce-append rows r h.1,
  any-append (announces x.event_id) rows r,
  eq_iff x.event_id r.event_id,
  eq_iff r.event_id x.event_id,
)

module _ (py : Builtins) (fallback_id : String) (fallback_time : DateTime) where
  outboxed :
      (db : Database) (stored : Event) (topic : String) (now : ℕ)
      → let db' = insert_outbox py fallback_id fallback_time db stored topic now in
        (any (announces stored.id) db'.outbox ≡ true)
        × (AnnouncedOnce db.outbox → AnnouncedOnce db'.outbox)
        × (db'.events ≡ db.events)
  unfolding insert_outbox
  outboxed db stored topic now = elim (Bool-cases (any (announces stored.id) db.outbox)) [
    | inl there ↦ (ground arith, (λ h. ground arith), ground arith)
    | inr new ↦
        let row : OutboxRow =
          outbox_row py fallback_id fallback_time (db.outbox_autoincrement + 1) stored topic now in
        (
          ground (
            arith,
            new,
            any-append (announces stored.id) db.outbox row,
            eq_iff stored.id stored.id,
          ),
          (λ h. ground (arith, AnnouncedOnce-append db.outbox row h new)),
          ground arith,
        )
  ]

  -- What a transaction that appends with a topic leaves behind.
  abbrev pub Committed : Event → Database → Result Event × Database → Type 0
  Committed event db (ok stored, db') =
      (any (announces stored.id) db'.outbox ≡ true)
      × AnnouncedOnce db'.outbox
      × ((r : EventRow) × (find_row event.id db'.events ≡ some r))
  Committed event db (err x, db') = db' ≡ db

  find_row-append :
      (k : String) (rows : List EventRow) (r : EventRow)
      → k ≡ r.event_id
      → (x : EventRow) × (find_row k (rows ++ r ∷ []) ≡ some x)
  find_row-append k [] r h = (r, ground (arith, eq_iff k r.event_id))
  find_row-append k (x ∷ rows) r h = elim (Bool-cases (k == x.event_id)) [
    | inl same ↦ (x, rw same)
    | inr other ↦ let (y, e) = find_row-append k rows r h in (y, rw (other, e))
  ]

  append_event_stored :
      (db : Database) (event : Event) (expected : Option ℕ) (stored : Event) (db' : Database)
      → append_event py fallback_id fallback_time db event expected ≡ ok (stored, db')
      → ((r : EventRow) × (find_row event.id db'.events ≡ some r)) × (db'.outbox ≡ db.outbox)
  unfolding append_event
  append_event_stored db event expected stored db' e =
      elim (Option-cases (find_row event.id db.events)) [
        | inl new ↦
            let p : insert_event py fallback_id fallback_time db event ≡ db' = ground arith in
            let (r, found) =
              find_row-append event.id db.events
                (event_row py fallback_id fallback_time (db.events_autoincrement + 1) event) refl in
            (
              (r, ap (λ (d : Database). find_row event.id d.events) (sym p) ∙ found),
              ap (λ (d : Database). d.outbox) (sym p),
            )
        | inr (x, known) ↦
            let p : db ≡ db' = ground arith in
            (
              (x, ap (λ (d : Database). find_row event.id d.events) (sym p) ∙ known),
              ap (λ (d : Database). d.outbox) (sym p),
            )
      ]

  -- An append with a topic either raises and leaves the whole database as it was, or commits both:
  -- the event's identity is in `events`, and one outbox row announces the stored event. The outbox rows
  -- before must announce distinct events.
  pub append_sync-Committed :
      (db : Database) (event : Event) (topic : String) (expected : Option ℕ) (now : ℕ)
      → AnnouncedOnce db.outbox
      → Committed event db
          (append_sync py fallback_id fallback_time db event (some topic) expected now)
  unfolding append_sync
  append_sync-Committed db event topic expected now distinct =
      go (append_event py fallback_id fallback_time db event expected) refl
    where
      go :
          (r : Result (Event × Database))
          → append_event py fallback_id fallback_time db event expected ≡ r
          → Committed event db
              (append_sync py fallback_id fallback_time db event (some topic) expected now)
      go (err x) e = rw (e, append_sync) refl
      go (ok (stored, db')) e =
          let ((r, found), same) = append_event_stored db event expected stored db' e in
          let (announced, once, kept) = outboxed db' stored topic now in
          rw (e, append_sync)
            (
              announced,
              once (subst AnnouncedOnce (sym same) distinct),
              (r, ap (find_row event.id) kept ∙ found),
            )
