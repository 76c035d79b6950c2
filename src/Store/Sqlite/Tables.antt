-- ===== src/Store/Sqlite/Tables.antt =====
-- src/noema/store.py, the schema that `SQLiteEventStore._initialize` creates, and SQL as functions.
use noema_agent_sdk.Common.{
  ℕ, ◌+◌, String, Bool, true, false, Option, none, some, List, [], ◌∷◌, if◌then◌else◌, take,
}
use noema_agent_sdk.Common.Int.{ℤ, pos, negsuc}
use noema_agent_sdk.Event.{JsonObject}

-- the table `events`
pub record EventRow : Type 0 where
  pub sequence : ℕ
  pub event_id : String
  pub event_type : String
  pub source : String
  pub subject : Option String
  pub timestamp : String
  pub correlation_id : Option String
  pub causation_id : Option String
  pub priority : ℤ
  pub payload_json : JsonObject
  pub metadata_json : JsonObject
  pub schema_version : ℤ

-- the table `outbox`
pub record OutboxRow : Type 0 where
  pub id : ℕ
  pub event_id : String
  pub topic : String
  pub event_json : JsonObject
  pub attempts : ℕ
  pub available_at : ℕ
  pub lease_owner : Option String
  pub lease_until : Option ℕ
  pub fencing_token : ℕ
  pub last_error : Option String
  pub created_at : ℕ
  pub published_at : Option ℕ

pub data InboxStatus : Type 0 where
  processing pending completed : InboxStatus

-- the table `inbox`
pub record InboxRow : Type 0 where
  pub message_id : String
  pub consumer_id : String
  pub status : InboxStatus
  pub attempts : ℕ
  pub available_at : ℕ
  pub lease_until : Option ℕ
  pub fencing_token : ℕ
  pub last_error : Option String
  pub received_at : ℕ
  pub completed_at : Option ℕ

-- Rows stand in the order of their ids. The two counters are those of AUTOINCREMENT.
pub record Database : Type 0 where
  pub events : List EventRow
  pub events_autoincrement : ℕ
  pub outbox : List OutboxRow
  pub outbox_autoincrement : ℕ
  pub inbox : List InboxRow

abbrev pub empty_database : Database
empty_database = record {
  events = [];
  events_autoincrement = 0;
  outbox = [];
  outbox_autoincrement = 0;
  inbox = [];
}

module _ {ℓ} {A : Type ℓ} where
  -- UPDATE … SET … WHERE …
  abbrev pub update_where : (A → Bool) → (A → A) → List A → List A
  update_where p f [] = []
  update_where p f (x ∷ xs) = (if p x then f x else x) ∷ update_where p f xs

  -- the number of rows that WHERE selects: `cursor.rowcount` of an UPDATE
  abbrev pub count_where : (A → Bool) → List A → ℕ
  count_where p [] = 0
  count_where p (x ∷ xs) = (if p x then 1 else 0) + count_where p xs

  -- LIMIT; a negative one is none
  abbrev pub sql_limit : ℤ → List A → List A
  sql_limit (pos n) xs = take n xs
  sql_limit (negsuc _) xs = xs

-- `value IS NULL`
abbrev pub is_null {ℓ} : {A : Type ℓ} → Option A → Bool
is_null none = true
is_null (some _) = false
