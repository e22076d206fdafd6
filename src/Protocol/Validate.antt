-- ===== src/Protocol/Validate.antt =====
-- core/common/src/protocol/envelope.rs: the rule that the orchestrator's side checks of an envelope.
use helter_skelter.Prelude.{
  Text, Option, none, some, ◌≡◌, refl, Bool, true, false, if◌then◌else◌, ◌&&◌,
}
use helter_skelter.Protocol.{
  Payload, hello, heartbeat, observation_snapshot, command_request, command_result, shutdown,
  acknowledge, Envelope,
}

pub data Kind : Type 0 where
  of_hello of_heartbeat of_observation_snapshot of_command_request of_command_result of_shutdown
        of_ack :
      Kind

unfoldable pub kind : Payload → Kind
kind (hello h) = of_hello
kind (heartbeat h) = of_heartbeat
kind (observation_snapshot s) = of_observation_snapshot
kind (command_request r) = of_command_request
kind (command_result r) = of_command_result
kind (shutdown s) = of_shutdown
kind (acknowledge a) = of_ack

-- `matches!(self.kind(), Kind::CommandResult | Kind::Ack)`.
abbrev pub is_answer : Kind → Bool
is_answer of_command_result = true
is_answer of_ack = true
is_answer _ = false

unfoldable pub requires_correlation_id : Payload → Bool
unfolding kind
requires_correlation_id p = is_answer (kind p)

abbrev pub is_none {ℓ} : {A : Type ℓ} → Option A → Bool
is_none none = true
is_none (some x) = false

-- The kind that `MissingCorrelationId` carries; none is `Ok`.
unfoldable pub validate : Envelope → Option Kind
unfolding requires_correlation_id
validate e =
    if requires_correlation_id e.payload && is_none e.correlation_id
    then some (kind e.payload)
    else none

-- The correlation id, where the payload requires one, is allowed.
abbrev pub IsAllowed : (Text → Type 0) → Option Text → Type 0
IsAllowed allowed none = ⊥
IsAllowed allowed (some id) = allowed id

abbrev pub IsRequired : Bool → Type 0 → Type 0
IsRequired true P = P
IsRequired false P = Unit

abbrev pub IsCorrelated : (Text → Type 0) → Envelope → Type 0
IsCorrelated allowed e =
    IsRequired (requires_correlation_id e.payload) (IsAllowed allowed e.correlation_id)

pub validate-IsCorrelated :
    (allowed : Text → Type 0) (e : Envelope) → IsCorrelated allowed e → validate e ≡ none
unfolding validate requires_correlation_id
validate-IsCorrelated allowed e h = known (requires_correlation_id e.payload) e.correlation_id h
  where
    known :
        (b : Bool) (id : Option Text)
        → IsRequired b (IsAllowed allowed id)
        → (if b && is_none id then some (kind e.payload) else none) ≡ none
    known true none h = elim h [ ]
    known true (some id) h = refl
    known false none h = refl
    known false (some id) h = refl
