-- ===== src/Work/Values.antt =====
-- src/noema/work/models.py, the enums, checks and readings that the contracts share;
-- src/noema/continuity/reconcile.py, `ActionPrerequisite`.
use Prim.Native.String.{◌++◌}
use noema_agent_sdk.Common.{
  String, Option, Bool, true, false, not, none, some, List, [], ◌∷◌, ◌&&◌, if◌then◌else◌, ◌==◌,
  string_eq, nat_eq, any, ltb, nat_beq, Result, ok, err, ◌>>=◌, ◌>>◌, raise_if, or_raise,
  value_error, key_error, type_error,
}
use noema_agent_sdk.Common.Int.{ℤ, pos, negsuc}
use noema_agent_sdk.Common.Text.{is_blank}
use noema_agent_sdk.Common.Sort.{is_unique}
use noema_agent_sdk.Event.{DateTime, JsonValue, JsonItems, JsonObject, get_field}
use noema_agent_sdk.Event.Codec.{Builtins}
use noema_agent_sdk.Authority.{AuthorityLevel, authority_value}

pub data WorkNodeKind : Type 0 where
  analyze prepare execute verify release : WorkNodeKind

pub data PresenceStatus : Type 0 where
  available busy offline : PresenceStatus

pub data CompetenceBasis : Type 0 where
  seeded evidence : CompetenceBasis

pub record ActionPrerequisite : Type 0 where
  pub source_id : String
  pub minimum_freshness : String
  pub minimum_confidence : String

-- What the code takes from Python: the codec's builtins, floats as the texts that `repr` gives
-- them, and the first 32 digits of the SHA-256 of a mapping's canonical JSON text, whose encoder
-- refuses a float that is not finite; and `==` of JSON values.
pub record Platform : Type 0 where
  pub py : Builtins
  pub is_finite : String → Bool
  pub float_leb : String → String → Bool
  pub float_eqb : String → String → Bool
  pub float_of : JsonValue → Result String
  pub product : String → String → String
  pub is_close : String → String → Bool
  pub digest : JsonObject → Result String
  pub json_eqb : JsonValue → JsonValue → Bool

abbrev pub kind_value : WorkNodeKind → String
kind_value analyze = "analyze"
kind_value prepare = "prepare"
kind_value execute = "execute"
kind_value verify = "verify"
kind_value release = "release"

abbrev pub is_verify : WorkNodeKind → Bool
is_verify verify = true
is_verify _ = false

abbrev pub status_value : PresenceStatus → String
status_value available = "available"
status_value busy = "busy"
status_value offline = "offline"

abbrev pub basis_value : CompetenceBasis → String
basis_value seeded = "seeded"
basis_value evidence = "evidence"

abbrev pub is_nil {ℓ} : {A : Type ℓ} → List A → Bool
is_nil [] = true
is_nil (_ ∷ _) = false

unfoldable pub require_text : String → String → Result (Unit {0})
require_text value name = raise_if (is_blank value) (value_error (name ++ " must be non-empty"))

unfoldable pub require_aware : DateTime → String → Result (Unit {0})
require_aware t name = raise_if (not t.is_aware) (value_error (name ++ " must be timezone-aware"))

unfoldable pub unique_text : List String → String → Bool → Result (Unit {0})
unique_text values name required = do
  raise_if (required && is_nil values) (value_error (name ++ " must not be empty"))
  raise_if (any is_blank values) (value_error (name ++ " values must be non-empty"))
  raise_if (not (is_unique values)) (value_error (name ++ " values must be unique"))

-- Two aware datetimes are compared by their instants.
abbrev pub is_before : DateTime → DateTime → Bool
is_before t u = ltb t.instant u.instant

-- An aware and a naive datetime differ.
abbrev pub same_time : DateTime → DateTime → Bool
same_time t u = nat_beq t.instant u.instant && (if t.is_aware then u.is_aware else not u.is_aware)

abbrev chars : String → List JsonValue
chars String.[] = []
chars (String.◌∷◌ c s) = JsonValue.str (String.◌∷◌ c String.[]) ∷ chars s

abbrev pub items : JsonItems → List JsonValue
items JsonItems.nil = []
items (JsonItems.cons v vs) = v ∷ items vs

abbrev keys : JsonObject → List JsonValue
keys JsonObject.end = []
keys (JsonObject.field k v d) = JsonValue.str k ∷ keys d

-- `for item in value`
unfoldable pub iterate : JsonValue → Result (List JsonValue)
iterate (JsonValue.list vs) = ok (items vs)
iterate (JsonValue.str s) = ok (chars s)
iterate (JsonValue.dict d) = ok (keys d)
iterate _ = err (type_error "object is not iterable")

abbrev iterate_optional : Option JsonValue → Result (List JsonValue)
iterate_optional none = ok []
iterate_optional (some v) = iterate v

-- `data.get(key, ())`, iterated
abbrev pub iterate_at : String → JsonObject → Result (List JsonValue)
iterate_at k d = iterate_optional (get_field k d)

-- `tuple(f(value) for value in values)`
abbrev pub traverse {ℓ κ} : {A : Type ℓ} {B : Type κ} → (A → Result B) → List A → Result (List B)
traverse f [] = ok []
traverse f (x ∷ xs) = do y ← f x; ys ← traverse f xs; ok (y ∷ ys)

abbrev pub to_items {ℓ} : {A : Type ℓ} → (A → JsonValue) → List A → JsonItems
to_items f [] = JsonItems.nil
to_items f (x ∷ xs) = JsonItems.cons (f x) (to_items f xs)

abbrev pub str_list : List String → JsonValue
str_list xs = JsonValue.list (to_items JsonValue.str xs)

-- A mapping, written as the pairs of its fields.
abbrev pub object : List (String × JsonValue) → JsonObject
object [] = JsonObject.end
object ((k, v) ∷ d) = JsonObject.field k v (object d)

-- `{**d, …}` for new keys
abbrev pub extend : JsonObject → JsonObject → JsonObject
extend JsonObject.end e = e
extend (JsonObject.field k v d) e = JsonObject.field k v (extend d e)

-- A value that has to be a mapping, as its `__getitem__` is called with a key.
abbrev pub mapping : JsonValue → Result JsonObject
mapping (JsonValue.dict d) = ok d
mapping _ = err (type_error "not a mapping")

-- `data[key]`
abbrev pub value_at : String → JsonObject → Result JsonValue
value_at k d = or_raise (get_field k d) (key_error k)

-- `WorkNodeKind(value)` and its like
unfoldable pub kind_of : String → Result WorkNodeKind
kind_of s =
    if s == "analyze"
    then ok analyze
    else if s == "prepare"
    then ok prepare
    else if s == "execute"
    then ok execute
    else if s == "verify"
    then ok verify
    else if s == "release"
    then ok release
    else err (value_error "not a valid WorkNodeKind")

unfoldable pub status_of : String → Result PresenceStatus
status_of s =
    if s == "available"
    then ok available
    else if s == "busy"
    then ok busy
    else if s == "offline"
    then ok offline
    else err (value_error "not a valid PresenceStatus")

unfoldable pub basis_of : String → Result CompetenceBasis
basis_of s =
    if s == "seeded"
    then ok seeded
    else if s == "evidence"
    then ok evidence
    else err (value_error "not a valid CompetenceBasis")

unfoldable pub authority_of : ℤ → Result AuthorityLevel
authority_of (pos n) =
    if n == 0
    then ok AuthorityLevel.observe
    else if n == 1
    then ok AuthorityLevel.propose
    else if n == 2
    then ok AuthorityLevel.act_reversible
    else if n == 3
    then ok AuthorityLevel.act_irreversible
    else if n == 4
    then ok AuthorityLevel.administer
    else err (value_error "not a valid AuthorityLevel")
authority_of (negsuc _) = err (value_error "not a valid AuthorityLevel")

abbrev pub authority_json : AuthorityLevel → JsonValue
authority_json a = JsonValue.int (pos (authority_value a))
