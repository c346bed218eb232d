-- ===== src/Examples/Requests.antt =====
-- The theorems of Http/Robots on a request that provisions a robot and on one for a session without a
-- registration, of Http/Handlers on a robot without a handler, and the theorem of Auth/Verify/Unusable on a raw key.
use robomesh.Prelude.{
  Bool, true, false, Option, none, some, List, [], ◌∷◌, ◌≡◌, ◌≢◌, refl, Text, codes,
}
use robomesh.Prelude.Assoc.{Map}
use robomesh.Prelude.Bytes.{text_eq}
use robomesh.Prelude.Results.{Result, ok}
use robomesh.Prelude.Hex.{hex_decode}
use robomesh.Database.Postgres.{RobotRecord}
use robomesh.Auth.Verify.{Crypto, verify_robot_signature, is_valid_public_key}
use robomesh.Auth.Verify.Unusable.{verify_robot_signature-raw_p256}
use robomesh.Http.Robots.{
  HttpError, ProvisionRequest, EphemeralRequest, EphemeralSession, provision_robot,
  create_ephemeral_session,
}
use robomesh.Http.Robots.Created.{
  Provisioned, Created, provision_robot-Provisioned, create_ephemeral_session-Created,
}
use robomesh.Http.Handlers.{start_handler}
use robomesh.Http.Handlers.Started.{Started, start_handler-Started}
use robomesh.Examples.Parts.{client_laws, registry_laws, arm, value}
use robomesh.Examples.Connections.{env, draws, world}

abbrev newcomer : ProvisionRequest
newcomer = record { uuid = codes "arm-3"; public_key = codes "pk3"; device_type = codes "arm" }

abbrev provisioned_arm : List RobotRecord
provisioned_arm = (provision_robot env.auth (some newcomer) (arm ∷ [])).0

newcomer-ok : (provision_robot env.auth (some newcomer) (arm ∷ [])).1 ≡ ok (codes "arm-3")
unfolding provision_robot is_valid_public_key robomesh.Examples.Parts.register_row
    robomesh.Examples.Parts.row_of text_eq
newcomer-ok = refl

provision_robot-Provisioned_example :
    Provisioned env.auth registry_laws (arm ∷ []) provisioned_arm (some newcomer) (codes "arm-3")
provision_robot-Provisioned_example =
    provision_robot-Provisioned env.auth registry_laws (some newcomer) (arm ∷ []) (codes "arm-3")
      newcomer-ok

abbrev visitor : EphemeralRequest
visitor = record { uuid = codes "arm-9"; device_type = codes "arm"; ip = [] }

abbrev opened : Map Text × Result HttpError EphemeralSession
opened = create_ephemeral_session env.auth draws (codes "10.0.0.9") (some visitor) (arm ∷ []) []

abbrev no_session : EphemeralSession
no_session = record { uuid = []; session_id = []; token = [] }

visitor-ok : opened.1 ≡ ok (value no_session opened.1)
unfolding create_ephemeral_session robomesh.Database.Redis.get_active_robot
    robomesh.Prelude.Assoc.lookup robomesh.Examples.Parts.row_of text_eq
    robomesh.Auth.Nonce.generate_session_id robomesh.Prelude.Hex.hex_encode
    robomesh.Auth.Jwt.issue_session_jwt robomesh.Database.Redis.set_active_robot
visitor-ok = refl

create_ephemeral_session-Created_example :
    Created env.auth client_laws draws
      (codes "10.0.0.9")
      (some visitor)
      (arm ∷ [])
      []
      opened.0
      (value no_session opened.1)
create_ephemeral_session-Created_example =
    create_ephemeral_session-Created env.auth client_laws draws (codes "10.0.0.9") (some visitor)
      (arm ∷ []) [] (value no_session opened.1) visitor-ok

-- No text is PEM, and every encoding of a point is one.
abbrev raw_keys : Crypto
raw_keys = record {
  pem_decode = λ t. none;
  parse_pkix = λ b. none;
  ed25519_verify = λ k n s. text_eq n s;
  sha256 = λ t. t;
  ecdsa_verify = λ k h r s. false;
  p256_unmarshal = λ t. true;
}

abbrev or_empty : Option Text → Text
or_empty none = []
or_empty (some t) = t

abbrev raw_key : Text
raw_key =
    codes
      "0400112233445566778899aabbccddeeff00112233445566778899aabbccddeeff00112233445566778899aabbccddeeff00112233445566778899aabbccddeeff"

abbrev raw_bytes : Text
raw_bytes = or_empty (hex_decode raw_key)

raw_key-decoded : hex_decode raw_key ≡ some raw_bytes
unfolding hex_decode
raw_key-decoded = refl

verify_robot_signature-raw_p256_example :
    (is_valid_public_key raw_keys raw_key ≡ true)
    × (verify_robot_signature raw_keys raw_key (codes "aa") (codes "bb") ≢ ok tt)
unfolding hex_decode
verify_robot_signature-raw_p256_example =
    verify_robot_signature-raw_p256 raw_keys raw_key raw_bytes (codes "aa") (codes "bb") refl
      raw_key-decoded refl refl

started-ok : (start_handler env draws arm.uuid world).1 ≡ ok 12
unfolding start_handler robomesh.HandlerEngine.Manager.try_start_spawning
    robomesh.Prelude.Assoc.lookup robomesh.HandlerEngine.Manager.empty
    robomesh.Database.Redis.get_active_robot robomesh.Database.Redis.set_robot_public_key
    robomesh.Prelude.Assoc.insert text_eq robomesh.Database.Keys.robot_public_key_key
    robomesh.Database.Keys.robot_key robomesh.Examples.Parts.row_of
    robomesh.Auth.Nonce.generate_session_id robomesh.Prelude.Hex.hex_encode
started-ok = refl

start_handler-Started_example :
    Started env world (start_handler env draws arm.uuid world).0 arm.uuid 12
start_handler-Started_example = start_handler-Started env draws arm.uuid world 12 started-ok
