-- ===== src/Store/Sqlite/Outbox/Rows.antt =====
-- The table `outbox` as a map from row ids, and what an UPDATE does to it. Row ids ascend, so a
-- statement on an id concerns one row.
use noema_agent_sdk.Common.{
  ℕ, suc, ◌<◌, ◌≤◌, ◌≡◌, ◌≢◌, refl, Bool, Option, none, some, List, [], ◌∷◌, find, filter, take,
  All, All-take, arith, nat_beq, if◌then◌else◌, zero, inl, inr, Bool-cases,
}
use noema_agent_sdk.Common.Int.{ℤ, pos, negsuc}
use noema_agent_sdk.Store.Sqlite.Tables.{OutboxRow, update_where, count_where, sql_limit}
use noema_agent_sdk.Store.Sqlite.Outbox.{is_held, is_ready}

-- The row with an id.
abbrev pub row_at : ℕ → List OutboxRow → Option OutboxRow
row_at id = find (λ (r : OutboxRow). nat_beq r.id id)

-- Row ids ascend, from a bound on.
abbrev pub Ascending : ℕ → List OutboxRow → Type 0
Ascending n [] = Unit {0}
Ascending n (r ∷ rs) = (n ≤ r.id) × Ascending (suc r.id) rs

-- An update that keeps ids changes what is found under an id by what it does to that row.
pub row_at-update_where :
    (p : OutboxRow → Bool) (f : OutboxRow → OutboxRow) (id : ℕ) (table : List OutboxRow)
    → ((r : OutboxRow) → (f r).id ≡ r.id)
    → row_at id (update_where p f table)
      ≡ (elim (row_at id table) [ none ↦ none | some r ↦ some (if p r then f r else r) ])
row_at-update_where p f id [] keep = refl
row_at-update_where p f id (r ∷ rs) keep =
    ground (arith, keep r, row_at-update_where p f id rs keep)

pub Ascending-update_where :
    (p : OutboxRow → Bool) (f : OutboxRow → OutboxRow) (n : ℕ) (table : List OutboxRow)
    → ((r : OutboxRow) → (f r).id ≡ r.id)
    → Ascending n table
    → Ascending n (update_where p f table)
Ascending-update_where p f n [] keep h = tt
Ascending-update_where p f n (r ∷ rs) keep h =
    ground (arith, keep r, Ascending-update_where p f (suc r.id) rs keep h.1)

row_at_below :
    (id n : ℕ) (table : List OutboxRow) → Ascending n table → id < n → row_at id table ≡ none
row_at_below id n [] h lt = refl
row_at_below id n (r ∷ rs) h lt = ground (arith, row_at_below id (suc r.id) rs h.1)

-- A statement that is guarded by a token selects nothing, or the one row with the id.
pub count-is_held :
    (id token n : ℕ) (table : List OutboxRow)
    → Ascending n table
    → count_where (is_held id token) table
      ≡ (elim (row_at id table) [ none ↦ 0 | some r ↦ if is_held id token r then 1 else 0 ])
count-is_held id token n [] h = refl
count-is_held id token n (r ∷ rs) h =
    ground (arith, count-is_held id token (suc r.id) rs h.1, row_at_below id (suc r.id) rs h.1)

-- An update whose statement selects no row changes nothing.
pub update_where_none :
    (p : OutboxRow → Bool) (f : OutboxRow → OutboxRow) (table : List OutboxRow)
    → count_where p table ≡ 0
    → update_where p f table ≡ table
update_where_none p f [] h = refl
update_where_none p f (r ∷ rs) h = ground (arith, update_where_none p f rs)

-- Rows that are in the table, open, and with distinct ids: what a claim's SELECT returns.
abbrev pub Selected : List OutboxRow → List OutboxRow → Type 0
Selected table [] = Unit {0}
Selected table (r ∷ rs) =
    (row_at r.id table ≡ some r)
    × (r.published_at ≡ none)
    × All (λ (x : OutboxRow). x.id ≢ r.id) rs
    × Selected table rs

Selected-take :
    (table rows : List OutboxRow) (k : ℕ) → Selected table rows → Selected table (take k rows)
Selected-take table rows zero h = tt
Selected-take table [] (suc k) h = tt
Selected-take table (r ∷ rs) (suc k) h =
    (h.0, h.1, All-take (λ (x : OutboxRow). x.id ≢ r.id) k rs h.2, Selected-take table rs k h.3)

-- A row put in front whose id is smaller hides nothing.
Selected-cons :
    (r : OutboxRow) (table rows : List OutboxRow)
    → All (λ (x : OutboxRow). suc r.id ≤ x.id) rows
    → Selected table rows
    → Selected (r ∷ table) rows
Selected-cons r table [] a h = tt
Selected-cons r table (x ∷ rows) a h =
    (ground (arith, a.0, h.0), h.1, h.2, Selected-cons r table rows a.1 h.3)

All-weaken :
    (n m : ℕ) (rows : List OutboxRow)
    → m ≤ n
    → All (λ (x : OutboxRow). n ≤ x.id) rows
    → All (λ (x : OutboxRow). m ≤ x.id) rows
All-weaken n m [] le h = tt
All-weaken n m (x ∷ rows) le h = (omega arith, All-weaken n m rows le h.1)

All-distinct :
    (n : ℕ) (rows : List OutboxRow)
    → All (λ (x : OutboxRow). suc n ≤ x.id) rows
    → All (λ (x : OutboxRow). x.id ≢ n) rows
All-distinct n [] h = tt
All-distinct n (x ∷ rows) h = (omega arith, All-distinct n rows h.1)

All-above :
    (p : OutboxRow → Bool) (n : ℕ) (table : List OutboxRow)
    → Ascending n table
    → All (λ (x : OutboxRow). n ≤ x.id) (filter p table)
All-above p n [] h = tt
All-above p n (r ∷ rs) h = elim (Bool-cases (p r)) [
  | inl e ↦
      rw e
        (h.0, All-weaken (suc r.id) n (filter p rs) (omega arith) (All-above p (suc r.id) rs h.1))
  | inr e ↦
      rw e (All-weaken (suc r.id) n (filter p rs) (omega arith) (All-above p (suc r.id) rs h.1))
]

pub filter-Selected :
    (now n : ℕ) (table : List OutboxRow)
    → Ascending n table
    → Selected table (filter (is_ready now) table)
filter-Selected now n [] h = tt
filter-Selected now n (r ∷ rs) h =
    let above : All (λ (x : OutboxRow). suc r.id ≤ x.id) (filter (is_ready now) rs) =
      All-above (is_ready now) (suc r.id) rs h.1 in
    let rest : Selected (r ∷ rs) (filter (is_ready now) rs) =
      Selected-cons r rs (filter (is_ready now) rs) above (filter-Selected now (suc r.id) rs h.1) in
    elim (Bool-cases (is_ready now r)) [
      | inl e ↦ rw e (ground arith, ground arith, All-distinct r.id _ above, rest)
      | inr e ↦ rw e rest
    ]

pub limit-Selected :
    (now n : ℕ) (limit : ℤ) (table : List OutboxRow)
    → Ascending n table
    → Selected table (sql_limit limit (filter (is_ready now) table))
limit-Selected now n (pos k) table h =
    Selected-take table (filter (is_ready now) table) k (filter-Selected now n table h)
limit-Selected now n (negsuc k) table h = filter-Selected now n table h
