-- ===== src/Examples/Datagrams.antt =====
-- The theorems of Transport.Challenge, Transport.Udp and Transport.Mqtt.Protocol on two messages of a
-- registered robot: the request of a nonce and the answer to it.
use robomesh.Prelude.{
  ℕ, Bool, true, false, Option, none, some, List, [], ◌∷◌, ◌≡◌, ◌≢◌, refl, ap, inl, inr, Bool-cases,
  Text, codes, text_eq, arith, if◌then◌else◌,
}
use robomesh.Prelude.Assoc.{Map, lookup}
use robomesh.Prelude.Bytes.{contains}
use robomesh.Prelude.Results.{Result, ok}
use robomesh.Database.Postgres.{RobotRecord}
use robomesh.Database.Keys.{udp_nonce_key, mqtt_nonce_key}
use robomesh.HandlerEngine.Manager.{empty}
use robomesh.Auth.Handshake.{Draws}
use robomesh.Auth.Jwt.{issue_session_jwt}
use robomesh.Transport.World.{World, times_out}
use robomesh.Transport.Challenge.{Granted, redeem}
use robomesh.Transport.Challenge.Redeemed.{PlainKeys}
use robomesh.Transport.Challenge.Once.{Attempt, redeem_each, redeem-once}
use robomesh.Transport.Kept.{udp_nonce_key-Foreign}
use robomesh.Transport.Udp.{UdpPacket, UdpServer, Arrival, handle_packet, after_packets}
use robomesh.Transport.Udp.Granting.{Granting, Requested, granted_jwt, packets-Granting}
use robomesh.Transport.Mqtt.Protocol.{
  MqttServer, Publication, respond, auth_body, auth_topic, hooks, after_messages,
}
use robomesh.Transport.Mqtt.Protocol.Steps.{published_jwt}
use robomesh.Transport.Mqtt.Protocol.Granting.{messages-Granting}
use robomesh.Transport.Mqtt.Protocol.Answers.{hooks-answers}
use robomesh.Examples.Parts.{
  client_laws, client_laws-empty, jwt_lib, jwt_config, value, arm, row_of,
}
use robomesh.Examples.Connections.{env}

abbrev draws : Draws
draws = record {
  nonce_bytes = some (codes "ab");
  session_bytes = some (codes "12345678");
  nano = codes "9";
  issued_at = 1000;
  connected_at = 1000;
}

abbrev packet : Text → UdpPacket
packet signature = record {
  packet_type = codes "auth";
  uuid = codes "arm-1";
  nonce = [];
  signature = signature;
  jwt = [];
  payload = [];
}

-- A packet is the signature of a request of arm-1.
abbrev server : UdpServer (Map Text) (List RobotRecord)
server = record { env = env; parse_packet = λ t. some (packet t); parse_payload = λ t. none }

abbrev at : Arrival
at = record {
  addr = codes "10.0.0.7:9";
  ip = codes "10.0.0.7";
  draws = draws;
  wait = times_out;
  now = 1000;
}

abbrev world : World (Map Text) (List RobotRecord)
world = record {
  redis = [];
  pg = arm ∷ [];
  engine = record { manager = empty; procs = [] };
  published = [];
}

abbrev token : Text
token = value [] (
    issue_session_jwt jwt_lib jwt_config (codes "arm-1") (codes "arm") (codes "10.0.0.7")
      (codes "sess_3132333435363738") 1000)

plain_keys : PlainKeys env.auth (arm ∷ [])
unfolding row_of contains
plain_keys u robot h = elim (Bool-cases (text_eq arm.uuid u)) [
  | inl e ↦ ground arith
  | inr e ↦ ground arith
]

sent :
    granted_jwt
      (handle_packet server at (codes "6162") (after_packets server ((at, []) ∷ []) world)).1
    ≡ some token
unfolding granted_jwt handle_packet robomesh.Prelude.Bytes.text_eq lookup after_packets row_of
    robomesh.Auth.Nonce.generate_nonce robomesh.Prelude.Assoc.insert robomesh.Prelude.Hex.hex_encode
    robomesh.Prelude.Bytes.split3 robomesh.Auth.Verify.verify_robot_signature
    robomesh.Prelude.Hex.hex_decode robomesh.Auth.Nonce.generate_session_id issue_session_jwt
    robomesh.Database.Redis.set_active_robot robomesh.HandlerEngine.Manager.get empty
    robomesh.HandlerEngine.Manager.try_start_spawning robomesh.Transport.World.spawn_marked
    robomesh.Transport.World.attach
sent = refl

packets-Granting_example :
    Granting server client_laws
      (Requested server ((at, []) ∷ []))
      (arm ∷ [])
      at
      (codes "6162")
      token
packets-Granting_example =
    packets-Granting server client_laws ((at, []) ∷ []) at (codes "6162") world
      ((omega arith, (omega arith, tt)), tt) plain_keys
      (λ uuid. client_laws-empty (udp_nonce_key uuid)) sent

abbrev answer : World (Map Text) (List RobotRecord)
answer = after_packets server ((at, []) ∷ []) world

abbrev redeemed : Map Text × Result (Option Text) Granted
redeemed =
    redeem env.auth (udp_nonce_key (codes "arm-1")) (codes "arm-1") (codes "6162")
      (codes "10.0.0.7") draws answer.redis

abbrev granted : Granted
granted = record {
  device_type = codes "arm";
  session_id = codes "sess_3132333435363738";
  jwt = token;
}

redeemed-ok : redeemed.1 ≡ ok granted
unfolding redeem after_packets handle_packet robomesh.Prelude.Bytes.text_eq lookup row_of
    robomesh.Auth.Nonce.generate_nonce robomesh.Prelude.Assoc.insert robomesh.Prelude.Hex.hex_encode
    robomesh.Prelude.Bytes.split3 robomesh.Auth.Verify.verify_robot_signature
    robomesh.Prelude.Hex.hex_decode robomesh.Auth.Nonce.generate_session_id issue_session_jwt
    robomesh.Database.Redis.set_active_robot
redeemed-ok = refl

abbrev repeated : Attempt
repeated = record {
  key = udp_nonce_key (codes "arm-1");
  uuid = codes "arm-1";
  signature = codes "6162";
  ip = codes "10.0.0.7";
  draws = draws;
}

redeem-once_example :
    (redeem env.auth
      (udp_nonce_key (codes "arm-1"))
      (codes "arm-1")
      (codes "6162")
      (codes "10.0.0.7")
      draws
      (redeem_each env.auth (repeated ∷ []) redeemed.0)).1
    ≢ ok granted
redeem-once_example =
    redeem-once env.auth client_laws (udp_nonce_key (codes "arm-1")) (codes "arm-1") (codes "6162")
      (codes "10.0.0.7") draws answer.redis granted (udp_nonce_key-Foreign (codes "arm-1"))
      redeemed-ok (repeated ∷ []) (codes "arm-1") (codes "6162") (codes "10.0.0.7") draws granted

abbrev forwarding : UdpPacket
forwarding = record (packet []) { packet_type = codes "message"; jwt = token; payload = codes "{}" }

abbrev broker : MqttServer (Map Text) (List RobotRecord)
broker = record {
  env = env;
  parse_auth = λ t. some (record { uuid = []; signature = t; nonce = [] });
  parse_heartbeat = λ t. none;
  parse_payload = λ t. none;
}

abbrev request : Text → Publication
request signature = record {
  remote = codes "10.0.0.7";
  topic = codes "robomesh/auth/arm-1/request";
  payload = signature;
  draws = draws;
  now = 1000;
}

answered :
    (hooks broker (request (codes "6162")) (after_messages broker (request [] ∷ []) world)).1
    ≡ some (auth_topic (codes "arm-1"), auth_body (record (respond (codes "ok")) { jwt = token }))
unfolding hooks robomesh.Prelude.Bytes.has_prefix robomesh.Prelude.Bytes.trim_suffix
    robomesh.Prelude.Bytes.trim_prefix contains lookup after_messages row_of
    robomesh.Auth.Nonce.generate_nonce robomesh.Prelude.Assoc.insert robomesh.Prelude.Hex.hex_encode
    robomesh.Prelude.Bytes.split3 robomesh.Auth.Verify.verify_robot_signature
    robomesh.Prelude.Hex.hex_decode robomesh.Auth.Nonce.generate_session_id issue_session_jwt
    robomesh.Database.Redis.set_active_robot robomesh.Prelude.Bytes.text_eq
    robomesh.Prelude.Bytes.strip_prefix robomesh.HandlerEngine.Manager.get auth_topic
answered = refl

published :
    published_jwt
      (hooks broker (request (codes "6162")) (after_messages broker (request [] ∷ []) world)).1
    ≡ some token
unfolding published_jwt robomesh.Prelude.Bytes.text_eq
published = ap published_jwt answered

messages-Granting_example :
    robomesh.Transport.Mqtt.Protocol.Granting.Granting broker client_laws
      (robomesh.Transport.Mqtt.Protocol.Granting.Requested broker
        (request (codes "6162") ∷ request [] ∷ []))
      (arm ∷ [])
      (request (codes "6162"))
      token
messages-Granting_example =
    messages-Granting broker client_laws (request [] ∷ []) (request (codes "6162")) world
      ((omega arith, (omega arith, tt)), ((omega arith, (omega arith, tt)), tt)) plain_keys
      (λ uuid. client_laws-empty (mqtt_nonce_key uuid)) published

hooks-answers_example :
    hooks broker (record (request (codes "6162")) { topic = auth_topic (codes "arm-1") }) world
    ≡ (world, none)
hooks-answers_example =
    hooks-answers broker (request (codes "6162")) (request (codes "6162"))
      (after_messages broker (request [] ∷ []) world) world (auth_topic (codes "arm-1"))
      (auth_body (record (respond (codes "ok")) { jwt = token })) answered
