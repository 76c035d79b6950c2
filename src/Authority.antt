-- ===== src/Authority.antt =====
-- src/noema/authority.py and src/noema/capabilities.py: action intents, capabilities, autonomy
-- profiles and the policy engine. The floats are compared and no more, NaN and infinities included.
pub mod Policy
use noema_agent_sdk.Common.{
  ℕ, ◌+◌, String, Bool, true, false, not, Option, none, some, List, [], ◌∷◌, ◌++◌, ◌&&◌, ◌||◌,
  if◌then◌else◌, ltb, leb, Result, ok, err, ◌>>=◌, ◌>>◌, raise_if, value_error,
}
use noema_agent_sdk.Common.Int.{ℤ, pos, ltb_ℤ}
use noema_agent_sdk.Common.Float.{Float, dyadic, float_lt, float_le}
use noema_agent_sdk.Common.Text.{is_empty}
use noema_agent_sdk.Event.{JsonObject}

pub data AuthorityLevel : Type 0 where
  observe propose act_reversible act_irreversible administer : AuthorityLevel

pub data RiskLevel : Type 0 where
  negligible low medium high critical : RiskLevel

-- the values of the two IntEnums
abbrev pub authority_value : AuthorityLevel → ℕ
authority_value observe = 0
authority_value propose = 1
authority_value act_reversible = 2
authority_value act_irreversible = 3
authority_value administer = 4

abbrev pub risk_value : RiskLevel → ℕ
risk_value negligible = 0
risk_value low = 1
risk_value medium = 2
risk_value high = 3
risk_value critical = 4

pub record ActionIntent : Type 0 where
  pub capability : String
  pub arguments : JsonObject
  pub rationale : String
  pub expected_value : Float
  pub information_value : Float
  pub risk_reduction : Float
  pub attention_cost : Float
  pub switching_cost : Float
  pub branch_cost : Float
  pub risk : RiskLevel
  pub reversible : Bool
  pub required_authority : AuthorityLevel
  pub confidence : Float
  pub alternatives : List String
  pub falsifiers : List String
  pub idempotency_key : Option String
  pub intent_id : String
  pub metadata : JsonObject

-- `ActionIntent.__post_init__`
unfoldable pub post_init : ActionIntent → Result ActionIntent
post_init i = do
  raise_if (is_empty i.capability) (value_error "action intent requires a capability")
  raise_if (not (float_le (dyadic 0 0) i.confidence && float_le i.confidence (dyadic 1 0)))
      (value_error "confidence must be between 0 and 1")
  raise_if (float_lt i.attention_cost (dyadic 0 0))
      (value_error "attention_cost cannot be negative")
  ok i

pub record AutonomyProfile : Type 0 where
  pub authority_ceiling : AuthorityLevel
  pub max_risk : RiskLevel
  pub allow_irreversible : Bool
  pub min_confidence : Float
  pub max_attention_per_action : Float
  pub require_falsifiers_above_risk : RiskLevel

-- the default profile
abbrev pub default_profile : AutonomyProfile
default_profile = record {
  authority_ceiling = act_reversible;
  max_risk = medium;
  allow_irreversible = false;
  min_confidence = dyadic 1 1;
  max_attention_per_action = dyadic 20 0;
  require_falsifiers_above_risk = high;
}

-- `AutonomyProfile.sovereign`
unfoldable pub sovereign : AutonomyProfile
sovereign = record {
  authority_ceiling = administer;
  max_risk = critical;
  allow_irreversible = true;
  min_confidence = dyadic 0 0;
  max_attention_per_action = Float.infinity;
  require_falsifiers_above_risk = critical;
}

pub record AuthorizationDecision : Type 0 where
  pub allowed : Bool
  pub reason : String
  pub effective_authority : AuthorityLevel
  pub effective_risk : RiskLevel

pub record CapabilitySpec : Type 0 where
  pub name : String
  pub description : String
  pub input_schema : JsonObject
  pub output_schema : JsonObject
  pub risk_level : RiskLevel
  pub reversible : Bool
  pub idempotent : Bool
  pub required_authority : AuthorityLevel
  pub timeout_seconds : Float
  pub max_retries : ℤ
  pub tags : List String

-- `CapabilitySpec.__post_init__`
unfoldable spec_post_init : CapabilitySpec → Result CapabilitySpec
spec_post_init c = do
  raise_if (is_empty c.name) (value_error "capability name must be non-empty")
  raise_if (float_le c.timeout_seconds (dyadic 0 0))
      (value_error "capability timeout must be positive")
  raise_if (ltb_ℤ c.max_retries (pos 0)) (value_error "max_retries cannot be negative")
  ok c

-- Python's `max` on members of an IntEnum: the first one, on a tie.
abbrev pub max_authority : AuthorityLevel → AuthorityLevel → AuthorityLevel
max_authority a b = if ltb (authority_value a) (authority_value b) then b else a

abbrev pub max_risk_level : RiskLevel → RiskLevel → RiskLevel
max_risk_level a b = if ltb (risk_value a) (risk_value b) then b else a

abbrev pub is_nil : List String → Bool
is_nil [] = true
is_nil (_ ∷ _) = false

-- The guards of `authorize`, in its order.
abbrev pub lacks_authority : AutonomyProfile → ActionIntent → CapabilitySpec → Bool
lacks_authority p i c =
    ltb (authority_value p.authority_ceiling)
      (authority_value (max_authority i.required_authority c.required_authority))

abbrev pub too_risky : AutonomyProfile → ActionIntent → CapabilitySpec → Bool
too_risky p i c = ltb (risk_value p.max_risk) (risk_value (max_risk_level i.risk c.risk_level))

abbrev pub is_irreversible : AutonomyProfile → ActionIntent → CapabilitySpec → Bool
is_irreversible p i c = not (i.reversible && c.reversible) && not p.allow_irreversible

abbrev pub lacks_falsifiers : AutonomyProfile → ActionIntent → CapabilitySpec → Bool
lacks_falsifiers p i c =
    leb (risk_value p.require_falsifiers_above_risk)
      (risk_value (max_risk_level i.risk c.risk_level))
    && is_nil i.falsifiers

-- The reason of the first guard that holds.
unfoldable pub profile_denial : AutonomyProfile → ActionIntent → CapabilitySpec → Option String
profile_denial p i c =
    if lacks_authority p i c
    then some "required authority exceeds agent authority ceiling"
    else if too_risky p i c
    then some "effective risk exceeds agent risk ceiling"
    else if is_irreversible p i c
    then some "irreversible actions are disabled by the autonomy profile"
    else if float_lt i.confidence p.min_confidence
    then some "intent confidence is below the autonomy threshold"
    else if float_lt p.max_attention_per_action i.attention_cost
    then some "action exceeds the per-action attention budget"
    else if lacks_falsifiers p i c
    then some "high-risk actions require explicit falsifiers"
    else none

-- A custom rule may read the situation; what it is made of does not matter here.
abbrev pub PolicyRule : Type 0 → Type 0
PolicyRule Situation = ActionIntent → CapabilitySpec → Situation → Option String

pub record PolicyEngine (Situation : Type 0) : Type 0 where
  pub profile : AutonomyProfile
  pub rules : List (PolicyRule Situation)

module _ {Situation : Type 0} where
  -- `add_rule`
  unfoldable pub add_rule : PolicyEngine Situation → PolicyRule Situation → PolicyEngine Situation
  add_rule e rule = record e { rules = e.rules ++ rule ∷ [] }

  -- the loop over the rules: the first denial that is not empty
  unfoldable pub first_denial :
      List (PolicyRule Situation) → ActionIntent → CapabilitySpec → Situation → Option String
  first_denial [] i c s = none
  first_denial (rule ∷ rules) i c s =
      let rest = first_denial rules i c s in
      elim (rule i c s) [
        | none ↦ rest
        | some denial ↦ if is_empty denial then rest else some denial
      ]

  -- `authorize`
  unfoldable pub authorize :
      PolicyEngine Situation → ActionIntent → CapabilitySpec → Situation → AuthorizationDecision
  authorize e i c s = elim (profile_denial e.profile i c) [
    | some denial ↦ decide false denial
    | none ↦ elim (first_denial e.rules i c s) [
      | some denial ↦ decide false denial
      | none ↦ decide true "authorized"
    ]
  ]
    where
      decide : Bool → String → AuthorizationDecision
      decide allowed why = record {
        allowed = allowed;
        reason = why;
        effective_authority = max_authority i.required_authority c.required_authority;
        effective_risk = max_risk_level i.risk c.risk_level;
      }
