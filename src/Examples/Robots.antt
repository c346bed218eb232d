-- ===== src/Examples/Robots.antt =====
-- The theorems of Auth on a registered robot.
use robomesh.Prelude.{
  ℕ, ◌+◌, ◌*◌, ◌≤◌, ◌<◌, Bool, true, false, Option, none, some, List, [], ◌∷◌, ◌++◌, ◌≡◌, ◌≢◌, ◌↔◌,
  refl, Text, codes, arith, if◌then◌else◌, length, leb,
}
use robomesh.Prelude.Bytes.{contains, text_eq}
use robomesh.Prelude.Hex.{IsBytes, hex_value, hex_encode, hex_decode}
use robomesh.Prelude.Int.{ℤ, pos, ◌≤ℤ◌, ◌<ℤ◌}
use robomesh.Prelude.Assoc.{Map, lookup, insert}
use robomesh.Prelude.Results.{Result, ok, err, or_fail}
use robomesh.Conn.{Conn}
use robomesh.Database.Postgres.{RobotRecord}
use robomesh.Database.Redis.{HeartbeatState, get_heartbeat, set_heartbeat, get_active_robot}
use robomesh.Database.Keys.{heartbeat_key, robot_key}
use robomesh.Examples.Codecs.{read_text, read_int, put_int, read_number}
use robomesh.Auth.Verify.{verify_robot_signature}
use robomesh.Auth.Verify.Sound.{Authentic, verify_robot_signature_iff}
use robomesh.Auth.Nonce.{generate_nonce, generate_session_id}
use robomesh.Auth.Jwt.{
  JwtClaims, token_expired, session_claims, user_claims, issue_session_jwt, issue_user_jwt,
  validate_session_jwt,
}
use robomesh.Auth.Jwt.Tokens.{
  Signed, validate_session_jwt-issue_session_jwt, validate_session_jwt-issue_user_jwt,
  validate_session_jwt-Signed,
}
use robomesh.Auth.Handshake.{
  AuthEnv, Draws, HandshakeResult, HandshakeError, bad_signature, perform_handshake,
}
use robomesh.Auth.Handshake.Outcome.{Dialogue, perform_handshake-Dialogue, perform_handshake_failed}
use robomesh.Auth.Heartbeat.{
  HeartbeatEnv, HeartbeatPayload, HeartbeatResult, HeartbeatError, stale_sequence, heartbeat_ttl,
  process_heartbeat,
}
use robomesh.Auth.Heartbeat.Ttl.{heartbeat_ttl_overflow}
use robomesh.Auth.Heartbeat.Accepted.{Checked, process_heartbeat-Checked}
use robomesh.Auth.Heartbeat.Replay.{process_heartbeat_increasing}
use robomesh.Examples.Parts.{
  client_laws, redis, registry, crypto, jwt_lib, jwt_laws, jwt_config, value, arm, day, row_of,
  heartbeat_codec-RoundTrips, claims_codec-RoundTrips, user_claims_codec-RoundTrips,
}

verify_robot_signature_iff_example :
    (verify_robot_signature crypto arm.public_key (codes "6162") (codes "6162") ≡ ok tt)
    ↔ Authentic crypto arm.public_key (codes "6162") (codes "6162")
verify_robot_signature_iff_example =
    verify_robot_signature_iff crypto arm.public_key (codes "6162") (codes "6162")

abbrev draws : Draws
draws = record {
  nonce_bytes = some (codes "ab");
  session_bytes = some (codes "12345678");
  nano = codes "9";
  issued_at = 1000;
  connected_at = 1000;
}

abbrev auth_env : AuthEnv (Map Text) (List RobotRecord)
auth_env = record {
  redis = redis;
  pg = registry;
  crypto = crypto;
  jwt_lib = jwt_lib;
  jwt_config = jwt_config;
  redis_ttl = day;
}

abbrev dialogue : Text → Conn (Map Text)
dialogue signature = record { world = []; input = codes "arm-1" ∷ signature ∷ []; output = [] }

abbrev shaken : Result HandshakeError HandshakeResult × Conn (Map Text)
shaken = perform_handshake auth_env (arm ∷ []) (codes "10.0.0.7") draws (dialogue (codes "6162"))

abbrev nobody : HandshakeResult
nobody = record { uuid = []; device_type = []; ip = []; session_jwt = []; session_id = [] }

shaken-ok : shaken ≡ (ok (value nobody shaken.0), shaken.1)
unfolding perform_handshake robomesh.Conn.◌>>=◌ robomesh.Conn.scan robomesh.Prelude.Bytes.trim_space
    robomesh.Conn.expect robomesh.Examples.Parts.row_of robomesh.Prelude.Bytes.text_eq
    generate_nonce verify_robot_signature robomesh.Prelude.Hex.hex_decode
    robomesh.Prelude.Hex.hex_encode robomesh.Conn.demand generate_session_id issue_session_jwt
    robomesh.Database.Redis.set_active_robot
shaken-ok = refl

perform_handshake-Dialogue_example :
    Dialogue auth_env
      (arm ∷ [])
      (codes "10.0.0.7")
      draws
      (dialogue (codes "6162"))
      shaken.1
      (value nobody shaken.0)
perform_handshake-Dialogue_example =
    perform_handshake-Dialogue auth_env (arm ∷ []) (codes "10.0.0.7") draws
      (dialogue (codes "6162")) (value nobody shaken.0) shaken.1 shaken-ok

perform_handshake_failed_example :
    (perform_handshake auth_env
      (arm ∷ [])
      (codes "10.0.0.7")
      draws
      (dialogue (codes "0000"))).1.world
    ≡ []
unfolding perform_handshake robomesh.Conn.◌>>=◌ robomesh.Conn.scan robomesh.Prelude.Bytes.trim_space
    robomesh.Conn.expect robomesh.Examples.Parts.row_of robomesh.Prelude.Bytes.text_eq
    generate_nonce verify_robot_signature robomesh.Prelude.Hex.hex_decode
    robomesh.Prelude.Hex.hex_encode
perform_handshake_failed_example =
    perform_handshake_failed auth_env (arm ∷ []) (codes "10.0.0.7") draws (dialogue (codes "0000"))
      bad_signature refl (λ e. cc)

-- Heartbeats number 7 and then 8; the payload is the number and the requested time to live.
abbrev parse : Text → Option HeartbeatPayload
parse [] = none
parse (x ∷ t) = some (record { seq = pos x; ttl = pos 60; extra_data = t })

abbrev heartbeat_env : HeartbeatEnv (Map Text) (List RobotRecord)
heartbeat_env = record {
  redis = redis;
  pg = registry;
  crypto = crypto;
  parse_payload = parse;
  redis_ttl = day;
}

abbrev beat : Map Text → ℕ → Text → Map Text × Result HeartbeatError HeartbeatResult
beat s n signature =
    process_heartbeat heartbeat_env (arm ∷ []) s (codes "arm-1") (n ∷ []) signature
      (codes "10.0.0.7") 1000

abbrev beaten : ℕ → HeartbeatResult
beaten n = record {
  uuid = codes "arm-1";
  ip = codes "10.0.0.7";
  payload = record { seq = pos n; ttl = pos 60; extra_data = [] };
}

beat_first : (beat [] 7 (codes "07")).1 ≡ ok (beaten 7)
unfolding process_heartbeat robomesh.Examples.Parts.row_of robomesh.Prelude.Bytes.text_eq
    verify_robot_signature robomesh.Prelude.Hex.hex_decode robomesh.Prelude.Hex.hex_encode
    get_heartbeat robomesh.Prelude.Assoc.lookup robomesh.Database.Redis.set_heartbeat
beat_first = refl

process_heartbeat-Checked_example :
    Checked heartbeat_env (arm ∷ []) [] (codes "arm-1") (7 ∷ []) (codes "07") (beaten 7).payload
    × (codes "arm-1" ≡ codes "arm-1")
    × (codes "10.0.0.7" ≡ codes "10.0.0.7")
process_heartbeat-Checked_example =
    process_heartbeat-Checked heartbeat_env (arm ∷ []) [] (codes "arm-1") (7 ∷ []) (codes "07")
      (codes "10.0.0.7") 1000 (beaten 7) beat_first

abbrev after_first : Map Text
after_first = (beat [] 7 (codes "07")).0

beat_stale : (beat after_first 7 (codes "07")).1 ≡ err stale_sequence
unfolding process_heartbeat row_of text_eq verify_robot_signature hex_decode hex_encode
    get_heartbeat lookup set_heartbeat get_active_robot insert heartbeat_key robot_key read_text
    read_int put_int read_number
beat_stale = refl

abbrev seventh : HeartbeatState
seventh = record { uuid = codes "arm-1"; ip = codes "10.0.0.7"; last_seq = pos 7; last_seen = 1000 }

state_first : get_heartbeat redis after_first (codes "arm-1") ≡ ok seventh
unfolding process_heartbeat row_of text_eq verify_robot_signature hex_decode hex_encode
    get_heartbeat lookup set_heartbeat get_active_robot insert heartbeat_key robot_key read_text
    read_int put_int read_number
state_first = refl

beat_second : (beat after_first 8 (codes "08")).1 ≡ ok (beaten 8)
unfolding process_heartbeat row_of text_eq verify_robot_signature hex_decode hex_encode
    get_heartbeat lookup set_heartbeat get_active_robot insert heartbeat_key robot_key read_text
    read_int put_int read_number
beat_second = refl

process_heartbeat_increasing_example : pos 7 <ℤ pos 8
process_heartbeat_increasing_example =
    process_heartbeat_increasing heartbeat_env client_laws heartbeat_codec-RoundTrips (arm ∷ [])
      (arm ∷ []) [] (codes "arm-1") (7 ∷ []) (8 ∷ []) (codes "07") (codes "08") (codes "10.0.0.7")
      (codes "10.0.0.7") 1000 1000 (beaten 7) (beaten 8) seventh beat_first state_first beat_second

heartbeat_ttl_overflow_example : heartbeat_ttl day (pos 9300000000) <ℤ pos 0
heartbeat_ttl_overflow_example = heartbeat_ttl_overflow day 9300000000 (omega arith) (omega arith)

abbrev session_token : Text
session_token = value [] (
    issue_session_jwt jwt_lib jwt_config (codes "arm-1") (codes "arm") (codes "10.0.0.7")
      (codes "sess_1") 1000)

session_token-issued :
    issue_session_jwt jwt_lib jwt_config
      (codes "arm-1")
      (codes "arm")
      (codes "10.0.0.7")
      (codes "sess_1")
      1000
    ≡ ok session_token
unfolding issue_session_jwt
session_token-issued = refl

validate_session_jwt-issue_session_jwt_example :
    validate_session_jwt jwt_lib jwt_config 4601 session_token ≡ (
      if leb 4601 (1000 + 3600)
      then ok (
          session_claims jwt_lib jwt_config
            (codes "arm-1")
            (codes "arm")
            (codes "10.0.0.7")
            (codes "sess_1")
            1000)
      else err token_expired)
validate_session_jwt-issue_session_jwt_example =
    validate_session_jwt-issue_session_jwt jwt_lib jwt_laws jwt_config claims_codec-RoundTrips
      (codes "arm-1") (codes "arm") (codes "10.0.0.7") (codes "sess_1") session_token 1000 4601
      (omega arith) session_token-issued

abbrev user_token : Text
user_token = value [] (issue_user_jwt jwt_lib jwt_config (codes "eve") (some (codes "t1")) 1000)

user_token-issued :
    issue_user_jwt jwt_lib jwt_config (codes "eve") (some (codes "t1")) 1000 ≡ ok user_token
unfolding issue_user_jwt
user_token-issued = refl

abbrev eve : JwtClaims
eve = record {
  sub = codes "eve";
  device_type = [];
  ip = [];
  iat = pos 1000;
  exp = pos 4600;
  session_id = codes "t1";
}

abbrev user_json : Text
user_json = value [] (
    or_fail
      (jwt_lib.user_claims_codec.marshal
        (record { sub = codes "eve"; iat = pos 1000; exp = pos 4600; token_id = codes "t1" }))
      tt)

validate_session_jwt-issue_user_jwt_example :
    validate_session_jwt jwt_lib jwt_config 2000 user_token ≡ ok eve
unfolding user_claims robomesh.Prelude.Int.int64_of_bits robomesh.Examples.Codecs.read_text
    robomesh.Examples.Codecs.read_int robomesh.Examples.Codecs.put_int
validate_session_jwt-issue_user_jwt_example =
    validate_session_jwt-issue_user_jwt jwt_lib jwt_laws jwt_config user_claims_codec-RoundTrips
      (codes "eve") (codes "t1") user_token user_json 1000 2000 eve user_token-issued refl refl
      (omega arith)

session_token-valid :
    validate_session_jwt jwt_lib jwt_config 2000 session_token
    ≡ ok (
        session_claims jwt_lib jwt_config
          (codes "arm-1")
          (codes "arm")
          (codes "10.0.0.7")
          (codes "sess_1")
          1000)
unfolding validate_session_jwt robomesh.Prelude.Bytes.split3 issue_session_jwt
    robomesh.Examples.Parts.shift robomesh.Examples.Codecs.put_int
    robomesh.Prelude.Int.int64_of_bits robomesh.Prelude.Bytes.text_eq
    robomesh.Examples.Codecs.read_text robomesh.Examples.Parts.unshift
    robomesh.Examples.Codecs.read_int
session_token-valid = refl

validate_session_jwt-Signed_example :
    Signed jwt_lib (codes "key") session_token × (pos 2000 ≤ℤ pos 4600)
unfolding session_claims robomesh.Prelude.Int.int64_of_bits
validate_session_jwt-Signed_example =
    validate_session_jwt-Signed jwt_lib jwt_config 2000 session_token
      (session_claims jwt_lib jwt_config (codes "arm-1") (codes "arm") (codes "10.0.0.7")
        (codes "sess_1") 1000)
      session_token-valid
