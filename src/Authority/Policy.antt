-- ===== src/Authority/Policy.antt =====
-- src/noema/authority.py, `PolicyEngine.authorize` against the bounds of a profile.
use noema_agent_sdk.Common.{
  ℕ, ◌≤◌, ◌<◌, ◌≡◌, ◌↔◌, ◌⊎◌, inl, inr, refl, String, Bool, true, false, not, Option, none, some,
  List, [], ◌∷◌, ◌&&◌, ltb, leb, Option-cases, Bool-cases, if◌then◌else◌, arith,
}
use noema_agent_sdk.Common.Float.{float_lt, NotAbove, float_lt-NotAbove}
use noema_agent_sdk.Common.Text.{is_empty}
use noema_agent_sdk.Authority.{
  AuthorityLevel, RiskLevel, authority_value, risk_value, ActionIntent, AutonomyProfile,
  CapabilitySpec, PolicyEngine, PolicyRule, authorize, first_denial, is_nil, max_authority,
  max_risk_level, profile_denial, lacks_authority, too_risky, is_irreversible, lacks_falsifiers,
}

-- The bounds of a profile on an intent for a capability.
pub record IsPermitted (p : AutonomyProfile) (i : ActionIntent) (c : CapabilitySpec) : Type 0 where
  pub intent_authority : authority_value i.required_authority ≤ authority_value p.authority_ceiling
  pub capability_authority :
      authority_value c.required_authority ≤ authority_value p.authority_ceiling
  pub intent_risk : risk_value i.risk ≤ risk_value p.max_risk
  pub capability_risk : risk_value c.risk_level ≤ risk_value p.max_risk
  pub reversible_or_allowed :
      ((i.reversible ≡ true) × (c.reversible ≡ true)) ⊎ (p.allow_irreversible ≡ true)
  pub confident : NotAbove p.min_confidence i.confidence
  pub affordable : NotAbove i.attention_cost p.max_attention_per_action
  pub falsifiable :
      ((risk_value i.risk < risk_value p.require_falsifiers_above_risk)
        × (risk_value c.risk_level < risk_value p.require_falsifiers_above_risk))
      ⊎ (is_nil i.falsifiers ≡ false)

six_guards :
    (b1 b2 b3 b4 b5 b6 : Bool) (w1 w2 w3 w4 w5 w6 : String)
    → ((if b1
          then some w1
          else if b2
          then some w2
          else if b3
          then some w3
          else if b4
          then some w4
          else if b5
          then some w5
          else if b6
          then some w6
          else none)
        ≡ none)
      ↔ ((b1 ≡ false) × (b2 ≡ false) × (b3 ≡ false) × (b4 ≡ false) × (b5 ≡ false) × (b6 ≡ false))
six_guards b1 b2 b3 b4 b5 b6 w1 w2 w3 w4 w5 w6 = ground arith

max_authority_within :
    (a b : AuthorityLevel) (n : ℕ)
    → (ltb n (authority_value (max_authority a b)) ≡ false)
      ↔ ((authority_value a ≤ n) × (authority_value b ≤ n))
max_authority_within a b n = ground arith

max_risk_within :
    (a b : RiskLevel) (n : ℕ)
    → (ltb n (risk_value (max_risk_level a b)) ≡ false) ↔ ((risk_value a ≤ n) × (risk_value b ≤ n))
max_risk_within a b n = ground arith

max_risk_below :
    (a b : RiskLevel) (n : ℕ) (fs : List String)
    → ((leb n (risk_value (max_risk_level a b)) && is_nil fs) ≡ false)
      ↔ (((risk_value a < n) × (risk_value b < n)) ⊎ (is_nil fs ≡ false))
max_risk_below a b n fs = ground arith

reversible_within :
    (a b allow : Bool)
    → ((not (a && b) && not allow) ≡ false) ↔ (((a ≡ true) × (b ≡ true)) ⊎ (allow ≡ true))
reversible_within a b allow = ground arith

-- The guards let an action pass exactly within the bounds of the profile.
profile_denial-IsPermitted :
    (p : AutonomyProfile) (i : ActionIntent) (c : CapabilitySpec)
    → (profile_denial p i c ≡ none) ↔ IsPermitted p i c
unfolding profile_denial
profile_denial-IsPermitted p i c =
    let guards : (profile_denial p i c ≡ none) ↔ (
        (lacks_authority p i c ≡ false)
        × (too_risky p i c ≡ false)
        × (is_irreversible p i c ≡ false)
        × (float_lt i.confidence p.min_confidence ≡ false)
        × (float_lt p.max_attention_per_action i.attention_cost ≡ false)
        × (lacks_falsifiers p i c ≡ false)) =
      six_guards (lacks_authority p i c) (too_risky p i c) (is_irreversible p i c)
        (float_lt i.confidence p.min_confidence)
        (float_lt p.max_attention_per_action i.attention_cost) (lacks_falsifiers p i c)
        "required authority exceeds agent authority ceiling"
        "effective risk exceeds agent risk ceiling"
        "irreversible actions are disabled by the autonomy profile"
        "intent confidence is below the autonomy threshold"
        "action exceeds the per-action attention budget"
        "high-risk actions require explicit falsifiers" in
    let authority =
      max_authority_within i.required_authority c.required_authority
        (authority_value p.authority_ceiling) in
    let risk = max_risk_within i.risk c.risk_level (risk_value p.max_risk) in
    let undo = reversible_within i.reversible c.reversible p.allow_irreversible in
    let sure = float_lt-NotAbove p.min_confidence i.confidence in
    let paid = float_lt-NotAbove i.attention_cost p.max_attention_per_action in
    let falsified =
      max_risk_below i.risk c.risk_level (risk_value p.require_falsifiers_above_risk)
        i.falsifiers in
    (
      λ h.
          let (g1, g2, g3, g4, g5, g6) = guards.0 h in
          record {
            intent_authority = (authority.0 g1).0;
            capability_authority = (authority.0 g1).1;
            intent_risk = (risk.0 g2).0;
            capability_risk = (risk.0 g2).1;
            reversible_or_allowed = undo.0 g3;
            confident = sure.0 g4;
            affordable = paid.0 g5;
            falsifiable = falsified.0 g6;
          },
      λ h. guards.1 (
        authority.1 (h.intent_authority, h.capability_authority),
        risk.1 (h.intent_risk, h.capability_risk),
        undo.1 h.reversible_or_allowed,
        sure.1 h.confident,
        paid.1 h.affordable,
        falsified.1 h.falsifiable,
      ),
    )

-- What a rule answered is no objection: nothing, or an empty text.
abbrev pub Silent : Option String → Type 0
Silent none = Unit {0}
Silent (some denial) = is_empty denial ≡ true

module _ {Situation : Type 0} (i : ActionIntent) (c : CapabilitySpec) (s : Situation) where
  abbrev pub AllSilent : List (PolicyRule Situation) → Type 0
  AllSilent [] = Unit {0}
  AllSilent (rule ∷ rules) = Silent (rule i c s) × AllSilent rules

  first_denial-none :
      (rules : List (PolicyRule Situation)) → (first_denial rules i c s ≡ none) ↔ AllSilent rules
  unfolding first_denial
  first_denial-none [] = (λ h. tt, λ h. refl)
  first_denial-none (rule ∷ rules) =
      let rest : (first_denial rules i c s ≡ none) ↔ AllSilent rules = first_denial-none rules in
      elim (Option-cases (rule i c s)) [
        | inl e ↦ rw e (λ h. (tt, rest.0 h), λ h. rest.1 h.1)
        | inr (d, e) ↦ elim (Bool-cases (is_empty d)) [
          | inl b ↦ rw (e, b) (λ h. (refl, rest.0 h), λ h. rest.1 h.1)
          | inr b ↦ rw (e, b) (λ h. ground arith, λ h. ground arith)
        ]
      ]

  -- An action is authorized exactly when the authority and the risk of the intent and its capability
  -- are within the profile's, both are reversible or the profile allows what is not, the confidence
  -- is not below and the attention cost not above the profile's bounds (a NaN is neither), falsifiers
  -- are given where the risk asks for them, and no rule of the engine objects.
  pub authorize_iff :
      (e : PolicyEngine Situation)
      → ((authorize e i c s).allowed ≡ true) ↔ (IsPermitted e.profile i c × AllSilent e.rules)
  unfolding authorize
  authorize_iff e =
      let permitted : (profile_denial e.profile i c ≡ none) ↔ IsPermitted e.profile i c =
        profile_denial-IsPermitted e.profile i c in
      let silent : (first_denial e.rules i c s ≡ none) ↔ AllSilent e.rules =
        first_denial-none e.rules in
      elim (Option-cases (profile_denial e.profile i c)) [
        | inr (why, denied) ↦
            rw (denied, authorize)
              (λ h. ground arith, λ h. let none_found = permitted.1 h.0 in ground arith)
        | inl passed ↦ elim (Option-cases (first_denial e.rules i c s)) [
          | inr (why, denied) ↦
              rw (passed, denied, authorize)
                (λ h. ground arith, λ h. let none_found = silent.1 h.1 in ground arith)
          | inl found ↦
              (λ h. (permitted.0 passed, silent.0 found), λ h. rw (passed, found, authorize) refl)
        ]
      ]
