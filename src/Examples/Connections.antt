-- ===== src/Examples/Connections.antt =====
-- The theorems of Transport on one connection.
use robomesh.Prelude.{
  ℕ, Bool, true, false, Option, none, some, List, [], ◌∷◌, ◌++◌, ◌≡◌, refl, Text, codes, arith,
}
use robomesh.Prelude.Assoc.{Map, lookup, insert}
use robomesh.Prelude.Bytes.{contains, text_eq, trim_space}
use robomesh.Prelude.Results.{Result, ok}
use robomesh.Prelude.Hex.{hex_encode}
use robomesh.Conn.{Conn, ◌>>=◌, scan, expect, demand}
use robomesh.Database.Redis.{
  set_robot_public_key, get_active_robot, set_active_robot, get_pending_robot, set_pending_robot,
  remove_pending_robot,
}
use robomesh.Database.Keys.{robot_key, robot_public_key_key, pending_key}
use robomesh.HandlerEngine.Registry.{is_valid_device_type}
use robomesh.Auth.Nonce.{generate_session_id}
use robomesh.Auth.Jwt.{issue_session_jwt}
use robomesh.Database.Postgres.{RobotRecord}
use robomesh.HandlerEngine.Manager.{empty}
use robomesh.HandlerEngine.Process.{HandlerProcess, tcp_link, send_disconnect}
use robomesh.HandlerEngine.Heap.{modify}
use robomesh.Auth.Handshake.{Draws, HandshakeResult}
use robomesh.Transport.World.{World, ServerEnv, times_out}
use robomesh.Transport.Tcp.Register.{RegisterError, Approval, register}
use robomesh.Transport.Tcp.Register.Accepted.{Registered, register-Registered}
use robomesh.Transport.Tcp.Session.{session_loop}
use robomesh.Transport.Tcp.Session.Forwarded.{payloads, deliver, session_loop-payloads}
use robomesh.Transport.Tcp.Dispatch.{Circumstances, handle_connection}
use robomesh.Transport.Tcp.Dispatch.Commands.{refusals, handle_connection-refusals}
use robomesh.Transport.Mqtt.{on_acl_check}
use robomesh.Transport.Mqtt.Reading.{auth_response, on_acl_check-PrivateTopic}
use robomesh.Examples.Parts.{redis, registry, crypto, jwt_lib, jwt_config, value, arm, day, row_of}

abbrev pub env : ServerEnv (Map Text) (List RobotRecord)
env = record {
  auth = record {
    redis = redis;
    pg = registry;
    crypto = crypto;
    jwt_lib = jwt_lib;
    jwt_config = jwt_config;
    redis_ttl = day;
  };
  start_script = λ t. some 12;
  subscribe = λ t. none;
}

abbrev hp : HandlerProcess
hp = record {
  uuid = codes "arm-2";
  device_type = codes "arm";
  ip = codes "10.0.0.8";
  session_id = codes "s";
  pid = 12;
  closed = false;
  write_ch = [];
  robot_send = none;
  subscriptions = [];
  forward_heartbeats = false;
}

abbrev pub world : World (Map Text) (List RobotRecord)
world = record {
  redis = (set_robot_public_key redis [] (codes "arm-2") (codes "pk2") day).0;
  pg = arm ∷ [];
  engine = record { manager = empty; procs = hp ∷ [] };
  published = [];
}

abbrev conn : List Text → Conn (World (Map Text) (List RobotRecord))
conn lines = record { world = world; input = lines; output = [] }

abbrev pub draws : Draws
draws = record {
  nonce_bytes = none;
  session_bytes = some (codes "12345678");
  nano = codes "9";
  issued_at = 1000;
  connected_at = 1000;
}

abbrev approval : Approval (Map Text) (List RobotRecord)
approval = record { requested_at = 900; meanwhile = λ w. w; answer = some true }

abbrev newcomer : Conn (World (Map Text) (List RobotRecord))
newcomer = conn (codes "arm-3" ∷ codes "arm" ∷ codes "pk3" ∷ codes "hello" ∷ [])

abbrev admitted : Result RegisterError HandshakeResult × Conn (World (Map Text) (List RobotRecord))
admitted = register env (codes "10.0.0.9") draws approval newcomer

abbrev nobody : HandshakeResult
nobody = record { uuid = []; device_type = []; ip = []; session_jwt = []; session_id = [] }

admitted-ok :
    register env (codes "10.0.0.9") draws approval newcomer
    ≡ (ok (value nobody admitted.0), admitted.1)
unfolding register ◌>>=◌ scan expect demand trim_space row_of text_eq get_active_robot lookup
    set_robot_public_key insert robot_public_key_key robot_key get_pending_robot pending_key
    is_valid_device_type set_pending_robot remove_pending_robot set_active_robot generate_session_id
    issue_session_jwt hex_encode
admitted-ok = refl

register-Registered_example :
    Registered env (codes "10.0.0.9") draws approval newcomer admitted.1 (value nobody admitted.0)
register-Registered_example =
    register-Registered env (codes "10.0.0.9") draws approval newcomer (value nobody admitted.0)
      admitted.1 admitted-ok

abbrev session : HandshakeResult
session = record {
  uuid = codes "arm-2";
  device_type = codes "arm";
  ip = codes "10.0.0.8";
  session_jwt = codes "jwt";
  session_id = codes "s";
}

abbrev lines : List Text
lines = codes "a" ∷ codes "PERSIST" ∷ codes " " ∷ codes "PERSIST" ∷ codes "b" ∷ []

session_loop-payloads_example :
    (session_loop env session 0 (λ i. false) 0 lines (conn [], false)).world.engine
    ≡ modify
        (λ p. send_disconnect (codes "tcp_closed") (deliver (payloads false lines) p))
        0
        world.engine
session_loop-payloads_example =
    session_loop-payloads env session 0 (λ i. false) 0 lines (conn []) false (λ i. refl)

on_acl_check-PrivateTopic_example :
    on_acl_check
      (codes "arm-2")
      (codes "robomesh/auth/" ++ (codes "arm-1" ++ codes "/response"))
      false
    ≡ text_eq (codes "arm-1") (codes "arm-2")
on_acl_check-PrivateTopic_example =
    on_acl_check-PrivateTopic (codes "arm-2") (codes "arm-1") _ auth_response

abbrev circumstances : Circumstances (Map Text) (List RobotRecord)
circumstances = record {
  ip = codes "10.0.0.8";
  link = tcp_link (codes "10.0.0.8");
  draws = draws;
  approval = approval;
  wait = times_out;
  done = λ i. false;
  clock = λ i. 1000;
}

handle_connection-refusals_example :
    handle_connection env (λ t. none) circumstances (conn (codes "hello" ∷ [] ∷ []))
    ≡ record { world = world; input = []; output = [] ++ refusals (codes "hello" ∷ [] ∷ []) }
unfolding robomesh.Prelude.Bytes.text_eq robomesh.Prelude.Bytes.trim_space
    robomesh.Prelude.Bytes.has_prefix
handle_connection-refusals_example =
    handle_connection-refusals env (λ t. none) circumstances (conn (codes "hello" ∷ [] ∷ []))
      (refl, (refl, tt))
