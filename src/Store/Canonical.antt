-- ===== src/Store/Canonical.antt =====
-- The abstract content of an event store: the canonical log, a list of events in which the n-th
-- has sequence n and no identity occurs twice.
use noema_agent_sdk.Common.{
  ℕ, zero, suc, ◌+◌, ◌≡◌, refl, subst, take, drop, String, Option, none, some, List, [], ◌∷◌, ◌++◌,
  length, find, if◌then◌else◌, nat_beq, ◌==◌, string_eq, arith, eq_iff, Result, ok, err,
  value_error, ◌⊎◌, inr, concurrent_append,
}
use noema_agent_sdk.Common.Int.{ℤ, pos, negsuc}
use noema_agent_sdk.Event.{Event, with_sequence}

abbrev pub Log : Type 0
Log = List Event

-- The event of the log with an identity.
abbrev pub find_id : String → Log → Option Event
find_id k = find (λ e. k == e.id)

-- The events carry the sequences n, n + 1, and so on.
abbrev pub Numbered : ℕ → Log → Type 0
Numbered n [] = Unit {0}
Numbered n (e ∷ es) = (e.sequence ≡ some (pos n)) × Numbered (suc n) es

-- No two events share an identity.
abbrev pub Distinct : Log → Type 0
Distinct [] = Unit {0}
Distinct (e ∷ es) = (find_id e.id es ≡ none) × Distinct es

-- What `EventStore.append` promises: an identity is stored once.
unfoldable pub log_append : Log → Event → Event × Log
log_append es event = elim (find_id event.id es) [
  | some existing ↦ (existing, es)
  | none ↦ let stored = with_sequence event (length es + 1) in (stored, es ++ stored ∷ [])
]

-- What `EventStore.append_if_head` promises.
unfoldable pub log_append_if_head : Log → Event → ℤ → Result Event × Log
unfolding log_append
log_append_if_head es event (negsuc _) =
    (err (value_error "expected event head sequence cannot be negative"), es)
log_append_if_head es event (pos expected) = elim (find_id event.id es) [
  | some existing ↦ (ok existing, es)
  | none ↦
      if nat_beq (length es) expected
      then (ok (log_append es event).0, (log_append es event).1)
      else (err (concurrent_append expected (length es)), es)
]

pub Numbered-append :
    (n : ℕ) (es : Log) (e : Event)
    → Numbered n es
    → e.sequence ≡ some (pos (n + length es))
    → Numbered n (es ++ e ∷ [])
Numbered-append n [] e h p = ground arith
Numbered-append n (x ∷ es) e h p = ground (arith, Numbered-append (suc n) es e h.1)

pub find_id-append :
    (k : String) (es : Log) (e : Event)
    → find_id k (es ++ e ∷ [])
      ≡ (elim (find_id k es) [ none ↦ if k == e.id then some e else none | some x ↦ some x ])
find_id-append k [] e = refl
find_id-append k (x ∷ es) e = ground (arith, find_id-append k es e)

pub Distinct-append :
    (es : Log) (e : Event) → Distinct es → find_id e.id es ≡ none → Distinct (es ++ e ∷ [])
Distinct-append [] e h p = (refl, tt)
Distinct-append (x ∷ es) e h p =
    ground (
      arith,
      Distinct-append es e h.1,
      find_id-append x.id es e,
      eq_iff e.id x.id,
      eq_iff x.id e.id,
    )

pub log_append-Numbered : (es : Log) (e : Event) → Numbered 1 es → Numbered 1 (log_append es e).1
unfolding log_append with_sequence
log_append-Numbered es e h =
    ground (arith, Numbered-append 1 es (with_sequence e (length es + 1)) h)

pub log_append-Distinct : (es : Log) (e : Event) → Distinct es → Distinct (log_append es e).1
unfolding log_append with_sequence
log_append-Distinct es e h = ground (arith, Distinct-append es (with_sequence e (length es + 1)) h)

-- A conditional append either raises and leaves the log, or does what `append` does.
pub log_append_if_head_cases :
    (es : Log) (e : Event) (expected : ℤ)
    → (log_append_if_head es e expected ≡ (ok (log_append es e).0, (log_append es e).1))
      ⊎ ((log_append_if_head es e expected).1 ≡ es)
unfolding log_append_if_head log_append
log_append_if_head_cases es e (pos n) = ground arith
log_append_if_head_cases es e (negsuc n) = inr refl

Numbered-drop : (n k : ℕ) (es : Log) → Numbered n es → Numbered (n + k) (drop k es)
Numbered-drop n zero es h = let p : n ≡ n + 0 = omega arith in subst (λ m. Numbered m es) p h
Numbered-drop n (suc k) [] h = tt
Numbered-drop n (suc k) (e ∷ es) h =
    let p : suc n + k ≡ n + suc k = omega arith in
    subst (λ m. Numbered m (drop k es)) p (Numbered-drop (suc n) k es h.1)

-- What follows the first k events is numbered from k + 1.
pub Numbered-after : (k : ℕ) (es : Log) → Numbered 1 es → Numbered (suc k) (drop k es)
Numbered-after k es h =
    let p : 1 + k ≡ suc k = omega arith in
    subst (λ m. Numbered m (drop k es)) p (Numbered-drop 1 k es h)

pub Numbered-take : (n k : ℕ) (es : Log) → Numbered n es → Numbered n (take k es)
Numbered-take n zero es h = tt
Numbered-take n (suc k) [] h = tt
Numbered-take n (suc k) (e ∷ es) h = (h.0, Numbered-take (suc n) k es h.1)
