-- ===== src/Store/Copy.antt =====
-- src/noema/store.py, `copy_events`, between any two stores. The loop has fuel.
use noema_agent_sdk.Common.{
  String, ℕ, zero, suc, ◌+◌, ◌<◌, ◌≡◌, refl, sym, ap, ◌∙◌, Option, none, some, List, [], ◌∷◌, ◌++◌,
  length, take, drop, Result, ok, err, All, arith, subst, inl, inr, List-cases, length-append, ◌==◌,
  string_eq, eq_iff, false, take-append-drop, drop-length-take, drop-drop, All-take, All-drop,
}
use mathlib.Core.List.{append-nil, append_assoc}
use noema_agent_sdk.Common.Int.{ℤ, pos}
use noema_agent_sdk.Event.{Event, with_sequence}
use noema_agent_sdk.Store.Canonical.{
  Log, Numbered, Distinct, log_append, find_id, Numbered-after, Numbered-take,
}
use noema_agent_sdk.Store.Interface.{EventStore, IsEventStore}

-- `event.sequence or cursor`
abbrev or_cursor : Option ℤ → ℤ → ℤ
or_cursor none c = c
or_cursor (some (pos zero)) c = c
or_cursor (some n) c = n

module _ {S T : Type 0} (source : EventStore S) (target : EventStore T) where
  -- the `for` loop over a batch: the cursor, the count and the target
  copy_batch : List Event → ℤ → ℕ → T → Result (ℤ × ℕ) × T
  copy_batch [] cursor copied t = (ok (cursor, copied), t)
  copy_batch (e ∷ es) cursor copied t =
      let (r, t') = target.append t e in
      elim r [
        | ok _ ↦ copy_batch es (or_cursor e.sequence cursor) (copied + 1) t'
        | err x ↦ (err x, t')
      ]

  -- the `while True` loop; `none` means that the fuel ran out
  copy_loop : ℕ → ℕ → S → ℤ → ℕ → T → Option (Result ℕ × T)
  copy_loop limit zero s cursor copied t = none
  copy_loop limit (suc fuel) s cursor copied t =
      elim (source.read s cursor (some (pos limit)) none) [
        | err x ↦ some (err x, t)
        | ok batch ↦ elim batch [
          | [] ↦ some (ok copied, t)
          | e ∷ es ↦
              let (r, t') = copy_batch (e ∷ es) cursor copied t in
              elim r [ err x ↦ some (err x, t') | ok p ↦ copy_loop limit fuel s p.0 p.1 t' ]
        ]
      ]

  unfoldable pub copy_events : ℕ → S → T → Option (Result ℕ × T)
  unfolding copy_batch copy_loop
  copy_events fuel s t = copy_loop 500 fuel s (pos 0) 0 t

-- The canonical log after a list of appends.
abbrev pub append_all : Log → List Event → Log
append_all es [] = es
append_all es (e ∷ rest) = append_all (log_append es e).1 rest

append_all-append :
    (es xs ys : List Event) → append_all es (xs ++ ys) ≡ append_all (append_all es xs) ys
append_all-append es [] ys = refl
append_all-append es (x ∷ xs) ys = append_all-append (log_append es x).1 xs ys

before-ne :
    (k : String) (es : Log) (x : Event) (rest : List Event)
    → find_id k (es ++ x ∷ rest) ≡ none
    → (k == x.id) ≡ false
before-ne k [] x rest h = ground arith
before-ne k (e ∷ es) x rest h = ground (arith, before-ne k es x rest)

new_after :
    (es : Log) (x : Event) (rest : List Event) → Distinct (es ++ x ∷ rest) → find_id x.id es ≡ none
new_after [] x rest h = refl
new_after (e ∷ es) x rest h = ground (
  arith,
  new_after es x rest h.1,
  before-ne e.id es x rest h.0,
  eq_iff e.id x.id,
  eq_iff x.id e.id,
)

log_append_next :
    (es : Log) (x : Event)
    → find_id x.id es ≡ none
    → x.sequence ≡ some (pos (suc (length es)))
    → (log_append es x).1 ≡ es ++ x ∷ []
unfolding log_append with_sequence
log_append_next es x new next =
    let same : with_sequence x (length es + 1) ≡ x = ground arith in ground arith

-- Appending the rest of a log to its beginning restores it: each event is new there, and gets the
-- sequence that it has.
append_all-restores :
    (es xs : List Event)
    → Distinct (es ++ xs)
    → Numbered (suc (length es)) xs
    → append_all es xs ≡ es ++ xs
append_all-restores es [] d h = sym (append-nil es)
append_all-restores es (x ∷ xs) d h =
    let shift : (es ++ x ∷ []) ++ xs ≡ es ++ x ∷ xs = append_assoc es (x ∷ []) xs in
    let longer : suc (length es) + 1 ≡ suc (length (es ++ x ∷ [])) + 0 =
      omega (arith, length-append es (x ∷ [])) in
    ap (λ l. append_all l xs) (log_append_next es x (new_after es x xs d) h.0)
    ∙ append_all-restores (es ++ x ∷ []) xs (subst Distinct (sym shift) d)
        (subst (λ n. Numbered n xs) (omega (arith, length-append es (x ∷ []))) h.1)
    ∙ shift

module _ {S T : Type 0} {source : EventStore S} {target : EventStore T} {Inv : S → Type 0}
    {Inv' : T → Type 0} {Accepts Accepts' : Event → Type 0} {log : S → Log} {log' : T → Log}
    (from : IsEventStore source Inv Accepts log) (to : IsEventStore target Inv' Accepts' log') where
  copy_batch_lem :
      (es : List Event) (k copied : ℕ) (t : T)
      → Numbered (suc k) es
      → All Accepts' es
      → Inv' t
      → (t' : T) × (copy_batch source target es (pos k) copied t
          ≡ (ok (pos (k + length es), copied + length es), t'))
        × Inv' t'
        × (log' t' ≡ append_all (log' t) es)
  unfolding copy_batch
  copy_batch_lem [] k copied t h a v = (t, ground arith, v, refl)
  copy_batch_lem (e ∷ es) k copied t h a v =
      let t1 : T = (target.append t e).1 in
      let (t', step, v', grown) =
        copy_batch_lem es (suc k) (copied + 1) t1 h.1 a.1 (to.append_Inv t e v a.0) in
      (t', ground (arith, to.append_result t e v a.0), v', cc (to.append_log t e v a.0))

  -- The last round: nothing is left after the cut.
  copy_loop_done :
      (limit fuel k copied : ℕ) (s : S) (t : T)
      → Inv s
      → drop k (log s) ≡ []
      → copy_loop source target (suc limit) (suc fuel) s (pos k) copied t ≡ some (ok copied, t)
  unfolding copy_loop
  copy_loop_done limit fuel k copied s t v e =
      ground (arith, from.read_limit s k (suc limit) v, ap (take (suc limit)) e)

  -- Any other round appends the next batch and moves the cursor past it.
  copy_loop_round :
      (limit fuel k copied : ℕ) (s : S) (t : T) (x : Event) (rest : List Event)
      → Inv s
      → Inv' t
      → All Accepts' (log s)
      → drop k (log s) ≡ x ∷ rest
      → let batch = take (suc limit) (drop k (log s)) in
        (t' : T) × (copy_loop source target (suc limit) (suc fuel) s (pos k) copied t
          ≡ copy_loop source target
              (suc limit)
              fuel
              s
              (pos (k + length batch))
              (copied + length batch)
              t')
        × Inv' t'
        × (log' t' ≡ append_all (log' t) batch)
  unfolding copy_loop
  copy_loop_round limit fuel k copied s t x rest v w a e =
      let p : take (suc limit) (drop k (log s)) ≡ x ∷ take limit rest = ap (take (suc limit)) e in
      let numbered : Numbered (suc k) (x ∷ take limit rest) =
        subst (Numbered (suc k)) p
          (Numbered-take (suc k) (suc limit) _ (Numbered-after k _ (from.numbered s v))) in
      let accepted : All Accepts' (x ∷ take limit rest) =
        subst (All Accepts') p (All-take Accepts' (suc limit) _ (All-drop Accepts' k _ a)) in
      let (t', step, w', grown) =
        copy_batch_lem (x ∷ take limit rest) k copied t numbered accepted w in
      (
        t',
        ground (arith, from.read_limit s k (suc limit) v, step, p),
        w',
        grown ∙ ap (append_all (log' t)) (sym p),
      )

  -- With fuel for one round more than there are events left, the loop copies them all.
  copy_loop_lem :
      (limit fuel k copied : ℕ) (s : S) (t : T)
      → Inv s
      → Inv' t
      → All Accepts' (log s)
      → length (drop k (log s)) < fuel
      → (t' : T) × (copy_loop source target (suc limit) fuel s (pos k) copied t
          ≡ some (ok (copied + length (drop k (log s))), t'))
        × Inv' t'
        × (log' t' ≡ append_all (log' t) (drop k (log s)))
  copy_loop_lem limit zero k copied s t v w a enough = absurd (omega arith)
  copy_loop_lem limit (suc fuel) k copied s t v w a enough = elim (List-cases (drop k (log s))) [
    | inl e ↦ (
      t,
      copy_loop_done limit fuel k copied s t v e
          ∙ (let p : copied ≡ copied + length (drop k (log s)) = omega (arith, ap length e) in
              ap (λ n. some (ok n, t)) p),
      w,
      ap (append_all (log' t)) (sym e),
    )
    | inr (x, rest, e) ↦
        let xs : List Event = drop k (log s) in
        let batch : List Event = take (suc limit) xs in
        let m : ℕ = length batch in
        let (t1, step, w1, grown1) = copy_loop_round limit fuel k copied s t x rest v w a e in
        let left : drop (k + m) (log s) ≡ drop (suc limit) xs =
          sym (drop-drop k m (log s)) ∙ drop-length-take (suc limit) xs in
        let some_read : length batch ≡ suc (length (take limit rest)) =
          ap (λ ys. length (take (suc limit) ys)) e in
        let total : length (drop (k + m) (log s)) + m ≡ length xs = omega (
          arith,
          ap length left,
          ap length (take-append-drop (suc limit) xs),
          length-append batch (drop (suc limit) xs),
        ) in
        let (t2, run, w2, grown2) =
          copy_loop_lem limit fuel (k + m) (copied + m) s t1 v w1 a (omega arith) in
        let count : copied + m + length (drop (k + m) (log s)) ≡ copied + length xs = omega arith in
        (
          t2,
          step ∙ run ∙ ap (λ n. some (ok n, t2)) count,
          w2,
          grown2
              ∙ cc (
                grown1,
                left,
                append_all-append (log' t) batch (drop (suc limit) xs),
                take-append-drop (suc limit) xs,
              ),
        )
  ]

  -- A copy ends when its fuel is more than the number of events: it counts them all, and the target
  -- stands for its log with each of them appended in order.
  pub copy_events-eq-append_all :
      (fuel : ℕ) (s : S) (t : T)
      → Inv s
      → Inv' t
      → All Accepts' (log s)
      → length (log s) < fuel
      → (t' : T) × (copy_events source target fuel s t ≡ some (ok (length (log s)), t'))
        × Inv' t'
        × (log' t' ≡ append_all (log' t) (log s))
  unfolding copy_events
  copy_events-eq-append_all fuel s t v w a enough =
      let (t', run, w', grown) = copy_loop_lem 499 fuel 0 0 s t v w a enough in
      (
        t',
        run
            ∙ (let p : 0 + length (log s) ≡ length (log s) = omega arith in
                ap (λ n. some (ok n, t')) p),
        w',
        grown,
      )

  -- Between stores that meet the laws of the interface, and when the target accepts the events of the
  -- source, a copy into a store with an empty log, with more fuel than events, returns the number of
  -- events and gives the target the log of the source, sequences included.
  pub copy_events_empty :
      (fuel : ℕ) (s : S) (t : T)
      → Inv s
      → Inv' t
      → All Accepts' (log s)
      → length (log s) < fuel
      → log' t ≡ []
      → (t' : T) × (copy_events source target fuel s t ≡ some (ok (length (log s)), t'))
        × Inv' t'
        × (log' t' ≡ log s)
  copy_events_empty fuel s t v w a enough new =
      let (t', run, w', grown) = copy_events-eq-append_all fuel s t v w a enough in
      (
        t',
        run,
        w',
        grown
            ∙ ap (λ es. append_all es (log s)) new
            ∙ append_all-restores [] (log s) (from.distinct s v) (from.numbered s v),
      )
