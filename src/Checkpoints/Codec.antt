-- ===== src/Checkpoints/Codec.antt =====
-- src/noema/checkpoints.py: `to_event` and `from_event`.
use noema_agent_sdk.Common.{
  String, true, Option, none, some, string_eq, beq_self, ok, ◌≡◌, refl, subst, arith, ℕ, ◌<◌,
}
use noema_agent_sdk.Common.Int.{ℤ, pos}
use noema_agent_sdk.Event.{DateTime, JsonObject, Event, get_field, post_init, with_sequence}
use noema_agent_sdk.Event.Codec.{Builtins, opt_str, optional_str}
use noema_agent_sdk.Checkpoints.{
  ConsumerCheckpoint, checkpoint_post_init, processing_lag, to_dict, to_event, from_event, int_beq,
}

int_beq_self : (a : ℤ) → int_beq a a ≡ true
int_beq_self a = ground arith

at_sequence :
    (c : ConsumerCheckpoint) (n : ℕ)
    → checkpoint_post_init c ≡ ok c
    → 0 < n
    → checkpoint_post_init (record c { event_sequence = some (pos n) })
      ≡ ok (record c { event_sequence = some (pos n) })
unfolding checkpoint_post_init
at_sequence c n valid h = ground arith

post_init-eq : (e e' : Event) → post_init e ≡ ok e' → e ≡ e'
unfolding post_init
post_init-eq e e' h = ground arith

module _ (py : Builtins) where
  optional_str-opt_str : (o : Option String) → optional_str py (some (opt_str o)) ≡ o
  optional_str-opt_str none = refl
  optional_str-opt_str (some s) = refl

  -- A checkpoint that its constructor accepts, recorded as an event and read back once the store
  -- has numbered the event, is the same checkpoint with that number.
  pub from_event-to_event :
      (digest : JsonObject → String) (c : ConsumerCheckpoint) (source : String) (now : DateTime)
      (cause : Option String) (event : Event) (n : ℕ)
      → checkpoint_post_init c ≡ ok c
      → to_event digest c source now cause ≡ ok event
      → 0 < n
      → from_event py (with_sequence event n) ≡ ok (record c { event_sequence = some (pos n) })
  unfolding to_event from_event with_sequence to_dict get_field processing_lag
  from_event-to_event digest c source now cause event n valid made h =
      subst
        (λ ev. from_event py (with_sequence ev n) ≡ ok (record c { event_sequence = some (pos n) }))
        (post_init-eq _ event made)
        (rw (optional_str-opt_str c.epoch_id, at_sequence c n valid h) ground
          (arith, beq_self c.consumer_id, int_beq_self (processing_lag c)))
