-- ===== src/Store/Sqlite/Inbox/Rows.antt =====
-- The table `inbox` as a map from its primary key, and what a statement does to it.
use noema_agent_sdk.Common.{
  ℕ, ◌≡◌, refl, String, Bool, true, Option, none, some, List, [], ◌∷◌, ◌++◌, find, arith,
  if◌then◌else◌, string_eq, eq_iff,
}
use noema_agent_sdk.Store.Sqlite.Tables.{InboxRow, update_where, count_where}
use noema_agent_sdk.Store.Sqlite.Inbox.{has_key, is_held}

-- The row of a message and a consumer.
abbrev pub row_of : String → String → List InboxRow → Option InboxRow
row_of m c = find (has_key m c)

-- PRIMARY KEY (message_id, consumer_id)
abbrev pub Unique : List InboxRow → Type 0
Unique [] = Unit {0}
Unique (r ∷ rs) = (row_of r.message_id r.consumer_id rs ≡ none) × Unique rs

-- An update that keeps the key of each row.
abbrev pub KeepsKeys : (InboxRow → InboxRow) → Type 0
KeepsKeys f =
    (r : InboxRow) → ((f r).message_id ≡ r.message_id) × ((f r).consumer_id ≡ r.consumer_id)

pub row_of-update_where :
    (p : InboxRow → Bool) (f : InboxRow → InboxRow) (m c : String) (table : List InboxRow)
    → KeepsKeys f
    → row_of m c (update_where p f table)
      ≡ (elim (row_of m c table) [ none ↦ none | some r ↦ some (if p r then f r else r) ])
row_of-update_where p f m c [] keep = refl
row_of-update_where p f m c (r ∷ rs) keep =
    ground (arith, keep r, row_of-update_where p f m c rs keep)

pub row_of-append :
    (m c : String) (table : List InboxRow) (r : InboxRow)
    → row_of m c (table ++ r ∷ []) ≡ (elim (row_of m c table) [
      | none ↦ if has_key m c r then some r else none
      | some x ↦ some x
    ])
row_of-append m c [] r = refl
row_of-append m c (x ∷ table) r = ground (arith, row_of-append m c table r)

pub Unique-update_where :
    (p : InboxRow → Bool) (f : InboxRow → InboxRow) (table : List InboxRow)
    → KeepsKeys f
    → Unique table
    → Unique (update_where p f table)
Unique-update_where p f [] keep h = tt
Unique-update_where p f (r ∷ rs) keep h = ground (
  arith,
  keep r,
  row_of-update_where p f r.message_id r.consumer_id rs keep,
  Unique-update_where p f rs keep h.1,
)

pub Unique-append :
    (table : List InboxRow) (r : InboxRow)
    → Unique table
    → row_of r.message_id r.consumer_id table ≡ none
    → Unique (table ++ r ∷ [])
Unique-append [] r h new = (refl, tt)
Unique-append (x ∷ table) r h new = ground (
  arith,
  Unique-append table r h.1,
  row_of-append x.message_id x.consumer_id table r,
  eq_iff x.message_id r.message_id,
  eq_iff r.message_id x.message_id,
  eq_iff x.consumer_id r.consumer_id,
  eq_iff r.consumer_id x.consumer_id,
)

-- What is found under a key has that key.
pub row_of-has_key :
    (m c : String) (table : List InboxRow) (r : InboxRow)
    → row_of m c table ≡ some r
    → has_key m c r ≡ true
row_of-has_key m c [] r h = cc
row_of-has_key m c (x ∷ table) r h = ground (arith, row_of-has_key m c table r)

none_held :
    (m c : String) (token : ℕ) (table : List InboxRow)
    → row_of m c table ≡ none
    → count_where (is_held m c token) table ≡ 0
none_held m c token [] h = refl
none_held m c token (r ∷ rs) h = ground (arith, none_held m c token rs)

-- A statement guarded by a token selects nothing, or the one row with the key.
pub count-is_held :
    (m c : String) (token : ℕ) (table : List InboxRow)
    → Unique table
    → count_where (is_held m c token) table
      ≡ (elim (row_of m c table) [ none ↦ 0 | some r ↦ if is_held m c token r then 1 else 0 ])
count-is_held m c token [] h = refl
count-is_held m c token (r ∷ rs) h = ground (
  arith,
  count-is_held m c token rs h.1,
  none_held m c token rs,
  eq_iff m r.message_id,
  eq_iff c r.consumer_id,
)

pub update_where_none :
    (p : InboxRow → Bool) (f : InboxRow → InboxRow) (table : List InboxRow)
    → count_where p table ≡ 0
    → update_where p f table ≡ table
update_where_none p f [] h = refl
update_where_none p f (r ∷ rs) h = ground (arith, update_where_none p f rs)
