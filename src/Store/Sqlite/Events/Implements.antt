-- ===== src/Store/Sqlite/Events/Implements.antt =====
-- src/noema/store.py, `SQLiteEventStore` as an `EventStore` over the canonical log.
use noema_agent_sdk.Common.{
  ℕ, zero, suc, ◌+◌, ◌≡◌, refl, sym, ap, ◌∙◌, String, Bool, true, none, some, [], ◌∷◌, length,
  All-drop, All-take, filter, take, drop, Result, ok, err, arith, inl, inr, Option-cases,
  Bool-cases, ◌&&◌, ◌<◌, nat_beq, concurrent_append, value_error,
}
use noema_agent_sdk.Common.Int.{ℤ, pos, negsuc, ltb_ℤ}
use noema_agent_sdk.Event.{DateTime, Event, with_sequence}
use noema_agent_sdk.Event.Codec.{Builtins}
use noema_agent_sdk.Store.Canonical.{
  Log, Numbered-after, Numbered-take, find_id, log_append, log_append_if_head,
}
use noema_agent_sdk.Store.Interface.{EventStore, IsEventStore}
use noema_agent_sdk.Store.Sqlite.Tables.{EventRow}
use noema_agent_sdk.Store.Sqlite.Events.{
  SqliteStore, event_row, append, append_if_head, read, latest_sequence, rows_to_events,
}
use noema_agent_sdk.Store.Sqlite.Events.Refinement.{
  IsStorable, log, IsLog, grown, grown-IsLog, known_lem, head_lem, new_lem, new_at_lem, rows_from,
  rows_to_events-rows_from,
}

module _ (py : Builtins) (fallback_id : String) (fallback_time : DateTime) where
  -- A result and a state that refine those of the canonical log.
  abbrev pub Refines : Result Event × SqliteStore → Result Event × Log → Type 0
  Refines (r, s) (r', es) =
      IsLog py fallback_id fallback_time s × (r ≡ r') × (log py fallback_id fallback_time s ≡ es)

  Refines-of :
      (a : Result Event × SqliteStore) (b : Result Event × Log) (r : Result Event) {s : SqliteStore}
      {es : Log}
      → a ≡ (r, s)
      → b ≡ (r, es)
      → IsLog py fallback_id fallback_time s
      → log py fallback_id fallback_time s ≡ es
      → Refines a b
  Refines-of a b r p q v l = rw (p, q) (v, refl, l)

  -- On an open store whose rows decode to a canonical log, `append` of an event with an identity
  -- returns what the canonical log's append returns, and leaves rows that decode to its next state.
  pub append_lem :
      (now : ℕ) (s : SqliteStore) (e : Event)
      → IsLog py fallback_id fallback_time s
      → IsStorable e
      → Refines (append py fallback_id fallback_time now s e) (
        ok (log_append (log py fallback_id fallback_time s) e).0,
        (log_append (log py fallback_id fallback_time s) e).1,
      )
  unfolding append log_append grown
  append_lem now s e v h = elim (Option-cases (find_id e.id (log py fallback_id fallback_time s))) [
    | inl new ↦
        let (v', grew) = grown-IsLog py fallback_id fallback_time s e v h new in
        Refines-of _ _ (ok (with_sequence e (length (log py fallback_id fallback_time s) + 1)))
          (ground (arith, v.opened, new_lem py fallback_id fallback_time s e now v new))
          (ground (arith, new)) v' grew
    | inr (x, known) ↦
        Refines-of _ _ (ok x)
          (ground (arith, v.opened, known_lem py fallback_id fallback_time s e x none now v known))
          (ground (arith, known)) v refl
  ]

  -- `append_if_head` agrees with the canonical log on every branch: an identity that is stored, a head
  -- that has moved, a negative head, and the append.
  pub append_if_head_lem :
      (now : ℕ) (s : SqliteStore) (e : Event) (n : ℤ)
      → IsLog py fallback_id fallback_time s
      → IsStorable e
      → Refines
          (append_if_head py fallback_id fallback_time now s e n)
          (log_append_if_head (log py fallback_id fallback_time s) e n)
  unfolding append_if_head log_append_if_head grown
  append_if_head_lem now s e (negsuc n) v h =
      Refines-of _ _ (err (value_error "expected event head sequence cannot be negative"))
        (ground (arith, v.opened)) refl v refl
  append_if_head_lem now s e (pos n) v h =
      elim (Option-cases (find_id e.id (log py fallback_id fallback_time s))) [
        | inl new ↦
            let (v', grew) = grown-IsLog py fallback_id fallback_time s e v h new in
            elim (Bool-cases (nat_beq (length (log py fallback_id fallback_time s)) n)) [
              | inl same ↦
                  Refines-of _ _
                    (ok (with_sequence e (length (log py fallback_id fallback_time s) + 1)))
                    (ground (
                      arith,
                      v.opened,
                      same,
                      new_at_lem py fallback_id fallback_time s e n now v new,
                    ))
                    (ground (arith, new, same)) v' grew
              | inr other ↦
                  Refines-of _ _
                    (err (concurrent_append n (length (log py fallback_id fallback_time s))))
                    (ground (
                      arith,
                      v.opened,
                      other,
                      new_at_lem py fallback_id fallback_time s e n now v new,
                    ))
                    (ground (arith, new, other)) v refl
            ]
        | inr (x, known) ↦
            Refines-of _ _ (ok x)
              (ground (
                arith,
                v.opened,
                known_lem py fallback_id fallback_time s e x (some n) now v known,
              ))
              (ground (arith, known)) v refl
      ]

  abbrev after : ℕ → EventRow → Bool
  after k r = ltb_ℤ (pos k) (pos r.sequence) && true

  after_all :
      (k n : ℕ) (es : Log)
      → k < n
      → filter (after k) (rows_from py fallback_id fallback_time n es)
        ≡ rows_from py fallback_id fallback_time n es
  after_all k n [] lt = refl
  after_all k n (e ∷ es) lt = ground (arith, after_all k (suc n) es)

  filter-after :
      (k n m : ℕ) (es : Log)
      → suc k ≡ n + m
      → filter (after k) (rows_from py fallback_id fallback_time n es)
        ≡ rows_from py fallback_id fallback_time (n + m) (drop m es)
  filter-after k n zero es p =
      let e : n + 0 ≡ n = omega arith in
      after_all k n es (omega arith) ∙ ap (λ i. rows_from py fallback_id fallback_time i es) (sym e)
  filter-after k n (suc m) [] p = refl
  filter-after k n (suc m) (e ∷ es) p =
      let q : suc n + m ≡ n + suc m = omega arith in
      ground (
        arith,
        filter-after k (suc n) m es,
        ap (λ i. rows_from py fallback_id fallback_time i (drop m es)) q,
      )

  take-rows_from :
      (k n : ℕ) (es : Log)
      → take k (rows_from py fallback_id fallback_time n es)
        ≡ rows_from py fallback_id fallback_time n (take k es)
  take-rows_from zero n es = refl
  take-rows_from (suc k) n [] = refl
  take-rows_from (suc k) n (e ∷ es) =
      ap (◌∷◌ (event_row py fallback_id fallback_time n e)) (take-rows_from k (suc n) es)

  rows_after :
      (s : SqliteStore) (k : ℕ)
      → IsLog py fallback_id fallback_time s
      → filter (after k) s.database.events
        ≡ rows_from py fallback_id fallback_time
            (suc k)
            (drop k (log py fallback_id fallback_time s))
  rows_after s k v =
      let es : Log = log py fallback_id fallback_time s in
      let e : 1 + k ≡ suc k = omega arith in
      ap (filter (after k)) v.rows
      ∙ filter-after k 1 k es (omega arith)
      ∙ ap (λ i. rows_from py fallback_id fallback_time i (drop k es)) e

  read_all :
      (s : SqliteStore) (k : ℕ)
      → IsLog py fallback_id fallback_time s
      → read py fallback_id fallback_time s (pos k) none none
        ≡ ok (drop k (log py fallback_id fallback_time s))
  unfolding read
  read_all s k v =
      let es : Log = log py fallback_id fallback_time s in
      ground (
        arith,
        v.opened,
        ap (rows_to_events py fallback_id fallback_time) (rows_after s k v),
        rows_to_events-rows_from py fallback_id fallback_time (suc k) (drop k es)
            (All-drop IsStorable k es v.storable) (Numbered-after k es v.numbered),
      )

  -- A read with a limit decodes the rows to that slice of the canonical log.
  pub read_limit_lem :
      (s : SqliteStore) (k n : ℕ)
      → IsLog py fallback_id fallback_time s
      → read py fallback_id fallback_time s (pos k) (some (pos n)) none
        ≡ ok (take n (drop k (log py fallback_id fallback_time s)))
  unfolding read
  read_limit_lem s k n v =
      let es : Log = log py fallback_id fallback_time s in
      ground (
        arith,
        v.opened,
        ap (λ rs. rows_to_events py fallback_id fallback_time (take n rs)) (rows_after s k v),
        ap (rows_to_events py fallback_id fallback_time) (take-rows_from n (suc k) (drop k es)),
        rows_to_events-rows_from py fallback_id fallback_time (suc k) (take n (drop k es))
            (All-take IsStorable n (drop k es) (All-drop IsStorable k es v.storable))
            (Numbered-take (suc k) n (drop k es) (Numbered-after k es v.numbered)),
      )

  module _ (now : ℕ) where
    abbrev pub sqlite_event_store : EventStore SqliteStore
    sqlite_event_store = record {
      append = append py fallback_id fallback_time now;
      append_if_head = append_if_head py fallback_id fallback_time now;
      read = read py fallback_id fallback_time;
      latest_sequence = latest_sequence;
    }

    -- On an open store whose rows decode to a canonical log, and for events that have an identity,
    -- every operation of the SQLite store returns what the canonical log says, on every branch, and
    -- leaves rows that decode to the canonical log's next state.
    pub sqlite_event_store-IsEventStore :
        IsEventStore sqlite_event_store
          (IsLog py fallback_id fallback_time)
          IsStorable
          (log py fallback_id fallback_time)
    unfolding latest_sequence
    sqlite_event_store-IsEventStore = record {
      numbered = λ s v. v.numbered;
      distinct = λ s v. v.distinct;
      append_Inv = λ s e v h. (append_lem now s e v h).0;
      append_result = λ s e v h. (append_lem now s e v h).1;
      append_log = λ s e v h. (append_lem now s e v h).2;
      append_if_head_Inv = λ s e n v h. (append_if_head_lem now s e n v h).0;
      append_if_head_result = λ s e n v h. (append_if_head_lem now s e n v h).1;
      append_if_head_log = λ s e n v h. (append_if_head_lem now s e n v h).2;
      read_all = λ s k v. read_all s k v;
      read_limit = λ s k n v. read_limit_lem s k n v;
      latest_sequence_lem =
          λ s v. ground (arith, v.opened, head_lem py fallback_id fallback_time s v);
    }
