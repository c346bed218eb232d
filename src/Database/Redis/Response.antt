-- ===== src/Database/Redis/Response.antt =====
-- roboserver/database/redis.go: how the answer of a person to a registration goes over Redis, from
-- PublishRegistrationResponse to WaitForRegistrationResponse. PUBLISH is a parameter that says whether
-- it succeeded, and what ends the wait is an argument.
use robomesh.Prelude.{
  Bool, true, false, Option, none, some, ◌≡◌, refl, Text, text_eq, codes, if◌then◌else◌,
}
use robomesh.Database.Keys.{registration_response_channel}

unfoldable pub response_text : Bool → Text
response_text accepted = if accepted then codes "accept" else codes "reject"

unfoldable pub publish_registration_response : (Text → Text → Bool) → Text → Bool → Bool
publish_registration_response publish uuid accepted =
    publish (registration_response_channel uuid) (response_text accepted)

-- A message on the channel, the channel closed, or the context done.
pub data Wakeup : Type 0 where
  received : Text → Wakeup
  channel_closed context_done : Wakeup

-- `none` is an error.
unfoldable pub wait_for_registration_response : Wakeup → Option Bool
wait_for_registration_response (received payload) = some (text_eq payload (codes "accept"))
wait_for_registration_response channel_closed = none
wait_for_registration_response context_done = none

-- The answer that is sent is the answer that is read.
pub wait_for_registration_response-response_text :
    (accepted : Bool)
    → wait_for_registration_response (received (response_text accepted)) ≡ some accepted
unfolding wait_for_registration_response response_text robomesh.Prelude.Bytes.text_eq
wait_for_registration_response-response_text true = refl
wait_for_registration_response-response_text false = refl
