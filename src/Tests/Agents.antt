-- ===== src/Tests/Agents.antt =====
-- Attention accounts, an authorized action, and the checkpoints of one consumer.
use noema_agent_sdk.Common.{
  ℕ, ◌+◌, ◌*◌, ◌/◌, ◌^◌, leb, if◌then◌else◌, ◌≡◌, ◌↔◌, refl, String, Bool, true, false, Option,
  none, some, List, [], ◌∷◌, ok, inl, inr, arith,
}
use noema_agent_sdk.Common.Int.{ℤ, pos, negsuc, ◌+ℤ◌, ◌-ℤ◌}
use noema_agent_sdk.Common.Float.{Float, dyadic}
use noema_agent_sdk.Common.Dict.{insert, lookup}
use noema_agent_sdk.Common.Text.{is_blank}
use noema_agent_sdk.Event.{Event, JsonObject, post_init, with_sequence, get_field}
use noema_agent_sdk.Attention.{
  Arithmetic, AttentionAccount, open_account, acquire, replenish, sum_values,
}
use noema_agent_sdk.Attention.Conservation.{AccountCall}
use noema_agent_sdk.Attention.Overdraft.{IsDouble, replenish_overdraws}
use noema_agent_sdk.Authority.{
  ActionIntent, CapabilitySpec, PolicyEngine, authorize, default_profile, low, act_reversible,
}
use noema_agent_sdk.Authority.Policy.{authorize_iff, IsPermitted, AllSilent}
use noema_agent_sdk.Checkpoints.{
  ConsumerCheckpoint, checkpoint_post_init, to_event, from_event, rebuild, apply_all, apply,
  check_regression, processing_lag, to_dict,
}
use noema_agent_sdk.Checkpoints.Codec.{from_event-to_event}
use noema_agent_sdk.Checkpoints.Monotone.{IsCovered, rebuild_covers}
use noema_agent_sdk.Tests.Fixtures.{python, noon, event_one}

abbrev account : AttentionAccount
account = record {
  capacity = pos 10;
  available = pos 10;
  leases = [];
  spent_total = pos 0;
  counter = 0;
}

abbrev calls : List AccountCall
calls =
    AccountCall.acquires (pos 4) ∷ AccountCall.settles 1 (some (pos 9)) ∷ AccountCall.refills ∷ []

-- Integers up to 2 ^ 53 in size are kept, and greater ones are rounded to even ones.
abbrev doubles : Arithmetic
doubles = record { round = nearest; sum = λ d. nearest (sum_values d) }
  where
    even : ℕ → ℕ
    even n = if leb n (2 ^ 53) then n else 2 * (n / 2)

    nearest : ℤ → ℤ
    nearest (pos n) = pos (even n)
    nearest (negsuc n) = pos 0 -ℤ pos (even (n + 1))

ten-IsDouble : IsDouble doubles 9
unfolding ◌+ℤ◌ ◌-ℤ◌
ten-IsDouble = record { zero = refl; same = refl; opposite = refl; twice = refl }

abbrev overdrawn : AttentionAccount
overdrawn =
    (acquire doubles (pos 10)
      (replenish doubles (some (pos 10)) (acquire doubles (pos 10) account).1)).1

replenish_overdraws_example :
    (sum_values overdrawn.leases ≡ pos 10 +ℤ pos 10)
    × (overdrawn.capacity ≡ pos 10)
    × ((replenish doubles none overdrawn).available ≡ negsuc 9)
unfolding open_account
replenish_overdraws_example = replenish_overdraws doubles 9 account ten-IsDouble refl

-- An intent whose attention cost is NaN.
abbrev intent : ActionIntent
intent = record {
  capability = "note";
  arguments = JsonObject.end;
  rationale = "";
  expected_value = dyadic 1 0;
  information_value = dyadic 0 0;
  risk_reduction = dyadic 0 0;
  attention_cost = Float.nan;
  switching_cost = dyadic 0 0;
  branch_cost = dyadic 0 0;
  risk = low;
  reversible = true;
  required_authority = act_reversible;
  confidence = dyadic 5 3;
  alternatives = [];
  falsifiers = [];
  idempotency_key = none;
  intent_id = "intent";
  metadata = JsonObject.end;
}

abbrev capability : CapabilitySpec
capability = record {
  name = "note";
  description = "";
  input_schema = JsonObject.end;
  output_schema = JsonObject.end;
  risk_level = low;
  reversible = true;
  idempotent = false;
  required_authority = act_reversible;
  timeout_seconds = dyadic 30 0;
  max_retries = pos 0;
  tags = [];
}

abbrev engine : PolicyEngine Bool
engine = record { profile = default_profile; rules = (λ i c s. if_busy s) ∷ [] }
  where
    if_busy : Bool → Option String
    if_busy true = some "busy"
    if_busy false = none

authorize_iff_example : ((authorize engine intent capability false).allowed ≡ true) ↔ (
    IsPermitted engine.profile intent capability × AllSilent intent capability false engine.rules)
authorize_iff_example = authorize_iff intent capability false engine

abbrev checkpoint : ConsumerCheckpoint
checkpoint = record {
  consumer_id = "agent";
  last_completed_sequence = pos 3;
  observed_head_sequence = pos 5;
  epoch_id = none;
  event_sequence = none;
}

abbrev recorded : Event
recorded = record {
  type = "runtime.consumer_checkpoint_advanced";
  source = "agent";
  payload = to_dict checkpoint;
  subject = some "agent";
  id = "consumer-checkpoint:0";
  timestamp = noon;
  correlation_id = none;
  causation_id = none;
  priority = pos 0;
  sequence = none;
  metadata = JsonObject.end;
  schema_version = pos 1;
}

from_event-to_event_example :
    from_event python (with_sequence recorded 6)
    ≡ ok (record checkpoint { event_sequence = some (pos 6) })
unfolding checkpoint_post_init to_event post_init is_blank
from_event-to_event_example =
    from_event-to_event python (λ d. "0") checkpoint "agent" noon none recorded 6 refl refl
      (omega arith)

abbrev first : ConsumerCheckpoint
first = record checkpoint { event_sequence = some (pos 6) }

rebuild_covers_example : IsCovered (("agent", first) ∷ []) "agent" first
unfolding rebuild apply_all apply check_regression insert lookup with_sequence from_event to_dict
    get_field processing_lag is_blank checkpoint_post_init ◌-ℤ◌
rebuild_covers_example =
    rebuild_covers python (event_one ∷ with_sequence recorded 6 ∷ []) (("agent", first) ∷ [])
      (with_sequence recorded 6) first refl (inr (inl refl)) refl
