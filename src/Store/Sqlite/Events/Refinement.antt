-- ===== src/Store/Sqlite/Events/Refinement.antt =====
-- src/noema/store.py, `SQLiteEventStore`: the canonical log that the rows of `events` decode to.
use noema_agent_sdk.Common.{
  ℕ, suc, ◌+◌, ◌≡◌, refl, sym, ap, subst, ◌∙◌, String, false, Option, none, some, List, [], ◌∷◌,
  ◌++◌, length, All, ok, err, arith, inl, inr, Bool-cases, ◌==◌, string_eq, All-append,
  length-append, nat_beq, if◌then◌else◌, concurrent_append,
}
use noema_agent_sdk.Common.Int.{pos}
use noema_agent_sdk.Common.Text.{is_empty}
use noema_agent_sdk.Event.{DateTime, Event, post_init, with_sequence}
use noema_agent_sdk.Event.Codec.{Builtins, to_dict, from_dict-to_dict}
use noema_agent_sdk.Store.Canonical.{
  Log, Numbered, Distinct, find_id, log_append, log_append-Numbered, log_append-Distinct,
}
use noema_agent_sdk.Store.Sqlite.Tables.{EventRow}
use noema_agent_sdk.Store.Sqlite.Events.{
  SqliteStore, event_row, row_to_event, rows_to_events, find_row, latest_sequence_sync,
  insert_event, append_sync,
}

-- An event that the constructor accepts and that has an identity.
abbrev pub IsStorable : Event → Type 0
IsStorable e = (post_init e ≡ ok e) × (is_empty e.id ≡ false)

with_sequence-IsStorable : (e : Event) (n : ℕ) → IsStorable e → IsStorable (with_sequence e n)
unfolding post_init with_sequence
with_sequence-IsStorable e n h = ground arith

module _ (py : Builtins) (fallback_id : String) (fallback_time : DateTime) where
  -- the rows of a log that begins at sequence n
  abbrev pub rows_from : ℕ → Log → List EventRow
  rows_from n [] = []
  rows_from n (e ∷ es) = event_row py fallback_id fallback_time n e ∷ rows_from (suc n) es

  row_to_event-event_row :
      (n : ℕ) (e : Event)
      → IsStorable e
      → e.sequence ≡ some (pos n)
      → row_to_event py fallback_id fallback_time (event_row py fallback_id fallback_time n e)
        ≡ ok e
  unfolding row_to_event to_dict
  row_to_event-event_row n e h p =
      ground (arith, from_dict-to_dict py fallback_id fallback_time e h.0 h.1)

  pub rows_to_events-rows_from :
      (n : ℕ) (es : Log)
      → All IsStorable es
      → Numbered n es
      → rows_to_events py fallback_id fallback_time (rows_from n es) ≡ ok es
  unfolding rows_to_events
  rows_to_events-rows_from n [] h g = refl
  rows_to_events-rows_from n (e ∷ es) h g =
      ground
        (arith, row_to_event-event_row n e h.0 g.0, rows_to_events-rows_from (suc n) es h.1 g.1)

  rows_from-append :
      (n : ℕ) (es : Log) (e : Event)
      → rows_from n (es ++ e ∷ [])
        ≡ rows_from n es ++ event_row py fallback_id fallback_time (n + length es) e ∷ []
  rows_from-append n [] e = ground arith
  rows_from-append n (x ∷ es) e = ground (arith, rows_from-append (suc n) es e)

  find_row-none :
      (k : String) (n : ℕ) (es : Log) → find_id k es ≡ none → find_row k (rows_from n es) ≡ none
  find_row-none k n [] h = refl
  find_row-none k n (e ∷ es) h = ground (arith, find_row-none k (suc n) es)

  find_row-some :
      (k : String) (n : ℕ) (es : Log) (x : Event)
      → All IsStorable es
      → Numbered n es
      → find_id k es ≡ some x
      → (r : EventRow) × (find_row k (rows_from n es) ≡ some r)
        × (row_to_event py fallback_id fallback_time r ≡ ok x)
  find_row-some k n [] x h g p = cc
  find_row-some k n (e ∷ es) x h g p = elim (Bool-cases (k == e.id)) [
    | inl same ↦ (
      event_row py fallback_id fallback_time n e,
      rw same,
      (row_to_event-event_row n e h.0 g.0 ∙ ground arith),
    )
    | inr other ↦
        let (r, found, decoded) = find_row-some k (suc n) es x h.1 g.1 (ground arith) in
        (r, rw (other, found), decoded)
  ]

  abbrev last_from : ℕ → Log → ℕ
  last_from m [] = 0
  last_from m (e ∷ es) = m + suc (length es)

  latest-rows_from :
      (m : ℕ) (es : Log) → latest_sequence_sync (rows_from (suc m) es) ≡ last_from m es
  latest-rows_from m [] = refl
  latest-rows_from m (e ∷ []) = ground arith
  latest-rows_from m (e ∷ x ∷ es) = ground (arith, latest-rows_from (suc m) (x ∷ es))

  -- the log that the rows decode to
  abbrev pub log : SqliteStore → Log
  log s = elim (rows_to_events py fallback_id fallback_time s.database.events) [
    | ok es ↦ es
    | err _ ↦ []
  ]

  pub record IsLog (s : SqliteStore) : Type 0 where
    pub opened : s.closed ≡ false
    pub rows : s.database.events ≡ rows_from 1 (log s)
    pub counter : s.database.events_autoincrement ≡ length (log s)
    pub storable : All IsStorable (log s)
    pub numbered : Numbered 1 (log s)
    pub distinct : Distinct (log s)

  -- A store whose rows are those of a good log stands for it.
  pub IsLog-of_rows :
      (s : SqliteStore) (es : Log)
      → s.closed ≡ false
      → s.database.events ≡ rows_from 1 es
      → s.database.events_autoincrement ≡ length es
      → All IsStorable es
      → Numbered 1 es
      → Distinct es
      → IsLog s × (log s ≡ es)
  IsLog-of_rows s es o r c a n d =
      let decoded : log s ≡ es = ground (
        arith,
        ap (rows_to_events py fallback_id fallback_time) r,
        rows_to_events-rows_from 1 es a n,
      ) in
      (
        record {
          opened = o;
          rows = r ∙ ap (rows_from 1) (sym decoded);
          counter = c ∙ ap length (sym decoded);
          storable = subst (All IsStorable) (sym decoded) a;
          numbered = subst (Numbered 1) (sym decoded) n;
          distinct = subst Distinct (sym decoded) d;
        },
        decoded,
      )

  unfoldable pub grown : SqliteStore → Event → SqliteStore
  grown s e = record s { database = insert_event py fallback_id fallback_time s.database e }

  pub grown-IsLog :
      (s : SqliteStore) (e : Event)
      → IsLog s
      → IsStorable e
      → find_id e.id (log s) ≡ none
      → IsLog (grown s e) × (log (grown s e) ≡ log s ++ with_sequence e (length (log s) + 1) ∷ [])
  unfolding grown
  grown-IsLog s e v h new =
      let es : Log = log s in
      let stored : Event = with_sequence e (length es + 1) in
      let next : log_append es e ≡ (stored, es ++ stored ∷ []) =
        unfold log_append in ground arith in
      IsLog-of_rows (grown s e) (es ++ stored ∷ []) v.opened
        (unfold with_sequence in ground (arith, v.rows, v.counter, rows_from-append 1 es stored))
        (ground (arith, v.counter, length-append es (stored ∷ [])))
        (All-append IsStorable es (stored ∷ []) v.storable (with_sequence-IsStorable e _ h, tt))
        (subst (λ p. Numbered 1 p.1) next (log_append-Numbered es e v.numbered))
        (subst (λ p. Distinct p.1) next (log_append-Distinct es e v.distinct))

  -- What `_append_sync` does without an outbox topic, by what the log knows of the identity.
  pub known_lem :
      (s : SqliteStore) (e x : Event) (expected : Option ℕ) (now : ℕ)
      → IsLog s
      → find_id e.id (log s) ≡ some x
      → append_sync py fallback_id fallback_time s.database e none expected now ≡ (ok x, s.database)
  unfolding append_sync
  known_lem s e x expected now v p =
      let (r, found, decoded) = find_row-some e.id 1 (log s) x v.storable v.numbered p in
      ground (arith, v.rows, found, decoded, ap (find_row e.id) v.rows)

  pub head_lem :
      (s : SqliteStore) → IsLog s → latest_sequence_sync s.database.events ≡ length (log s)
  head_lem s v =
      let last : (es : Log) → last_from 0 es ≡ length es =
        λ es. (elim es as (λ l. last_from 0 l ≡ length l) [ [] ↦ refl | x ∷ xs ↦ omega arith ]) in
      ap latest_sequence_sync v.rows ∙ latest-rows_from 0 (log s) ∙ last (log s)

  pub new_lem :
      (s : SqliteStore) (e : Event) (now : ℕ)
      → IsLog s
      → find_id e.id (log s) ≡ none
      → append_sync py fallback_id fallback_time s.database e none none now
        ≡ (ok (with_sequence e (length (log s) + 1)), (grown s e).database)
  unfolding append_sync grown
  new_lem s e now v p = ground (
    arith,
    ap (find_row e.id) v.rows,
    find_row-none e.id 1 (log s) p,
    ap (λ n. with_sequence e (n + 1)) v.counter,
  )

  pub new_at_lem :
      (s : SqliteStore) (e : Event) (expected now : ℕ)
      → IsLog s
      → find_id e.id (log s) ≡ none
      → append_sync py fallback_id fallback_time s.database e none (some expected) now ≡ (
          if nat_beq (length (log s)) expected
          then (ok (with_sequence e (length (log s) + 1)), (grown s e).database)
          else (err (concurrent_append expected (length (log s))), s.database))
  unfolding append_sync grown
  new_at_lem s e expected now v p = ground (
    arith,
    ap (find_row e.id) v.rows,
    find_row-none e.id 1 (log s) p,
    head_lem s v,
    ap (λ n. with_sequence e (n + 1)) v.counter,
  )
