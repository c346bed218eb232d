-- ===== src/Transport/Tcp/Dispatch.antt =====
-- The commands of roboserver/tcp_server/tcp_server.go: handleConnection, handleAuthAndSession,
-- handleHeartbeat and heartbeatLoop. Both databases are present, so the answers NO_DATABASE do not
-- occur. The read limit of the scanner and the recovery from panics are not modelled.
pub mod Commands
use robomesh.Prelude.{
  ℕ, suc, Bool, true, false, Option, none, some, List, [], ◌∷◌, ◌++◌, Text, codes, text_eq,
  and_then, if◌then◌else◌,
}
use robomesh.Prelude.Bytes.{is_empty, trim_space, has_prefix, split3, cut_last}
use robomesh.Prelude.Results.{Result, ok, err}
use robomesh.Conn.{Conn}
use robomesh.Database.Redis.{RedisHandler}
use robomesh.HandlerEngine.Process.{Link}
use robomesh.Auth.Handshake.{HandshakeResult, HandshakeError, Draws, perform_handshake}
use robomesh.Auth.Heartbeat.{
  HeartbeatEnv, HeartbeatPayload, HeartbeatResult, HeartbeatError, process_heartbeat,
}
use robomesh.Transport.World.{World, ServerEnv, Event, Wait}
use robomesh.Transport.Tcp.Register.{RegisterError, Approval, register}
use robomesh.Transport.Tcp.Session.{say, enter_session_mode}

-- What a connection meets: its address and where the server can write to the robot, the draws and
-- clock readings, the answer to a registration, the wait for another's spawn, and for each line that
-- is read whether the context is done by then and the clock.
pub record Circumstances (S D : Type 0) : Type 0 where
  pub ip : Text
  pub link : Link
  pub draws : Draws
  pub approval : Approval S D
  pub wait : Wait
  pub done : ℕ → Bool
  pub clock : ℕ → ℕ

-- HEARTBEAT <UUID> <payload> <signature>: the payload may hold spaces.
unfoldable pub split_heartbeat : Text → Option (Text × Text × Text)
split_heartbeat message = and_then (split3 b' ' message) λ (command, uuid, rest).
    and_then (cut_last b' ' rest) λ (payload, signature). some (uuid, payload, signature)

module _ {S D : Type 0} (env : ServerEnv S D) (parse_payload : Text → Option HeartbeatPayload) where
  abbrev pub heartbeat_env : HeartbeatEnv S D
  heartbeat_env = record {
    redis = env.auth.redis;
    pg = env.auth.pg;
    crypto = env.auth.crypto;
    parse_payload = parse_payload;
    redis_ttl = env.auth.redis_ttl;
  }

  abbrev after_heartbeat :
      Conn (World S D) → S × Result HeartbeatError HeartbeatResult → Conn (World S D)
  after_heartbeat c (s', err e) =
      say env (codes "ERROR HEARTBEAT_REJECTED")
        (record c { world = record c.world { redis = s' } })
  after_heartbeat c (s', ok result) =
      let event : Event = record {
        event_type = codes "robot." ++ (result.uuid ++ codes ".heartbeat");
        subject = result.uuid;
      } in
      say env (codes "HEARTBEAT_OK") (record c {
        world = record c.world { redis = s'; published = c.world.published ++ event ∷ [] };
      })

  unfoldable pub handle_heartbeat : Text → ℕ → Text → Conn (World S D) → Conn (World S D)
  unfolding split_heartbeat
  handle_heartbeat ip now message c = elim (split_heartbeat message) [
    | none ↦ say env (codes "ERROR INVALID_HEARTBEAT_FORMAT") c
    | some (uuid, payload, signature) ↦
        after_heartbeat c
          (process_heartbeat heartbeat_env c.world.pg c.world.redis uuid payload signature ip now)
  ]

  unfoldable pub heartbeat_line : Text → ℕ → Text → Conn (World S D) → Conn (World S D)
  unfolding handle_heartbeat has_prefix
  heartbeat_line ip now message c =
      if is_empty message
      then c
      else (if has_prefix message (codes "HEARTBEAT ")
          then handle_heartbeat ip now message c
          else say env (codes "ERROR EXPECTED_HEARTBEAT") c)

  unfoldable pub heartbeat_loop :
      Circumstances S D → ℕ → List Text → Conn (World S D) → Conn (World S D)
  unfolding heartbeat_line
  heartbeat_loop x n [] c = record c { input = [] }
  heartbeat_loop x n (line ∷ rest) c =
      let next =
        heartbeat_loop x (suc n) rest (heartbeat_line x.ip (x.clock n) (trim_space line) c) in
      if x.done n then record c { input = rest } else next

  abbrev after_handshake :
      Circumstances S D
      → Conn (World S D)
      → Result HandshakeError HandshakeResult × Conn S
      → Conn (World S D)
  after_handshake x c (r, c') =
      let c'' : Conn (World S D) = record {
        world = record c.world { redis = c'.world };
        input = c'.input;
        output = c'.output;
      } in
      elim r [
        | err e ↦ c''
        | ok result ↦ enter_session_mode env result true x.link x.wait x.done c''
      ]

  unfoldable pub handle_auth_and_session : Circumstances S D → Conn (World S D) → Conn (World S D)
  handle_auth_and_session x c = after_handshake x c (
      perform_handshake env.auth c.world.pg x.ip x.draws
        (record { world = c.world.redis; input = c.input; output = c.output }))

  abbrev after_register :
      Circumstances S D → Result RegisterError HandshakeResult × Conn (World S D) → Conn (World S D)
  after_register x (err e, c) = c
  after_register x (ok result, c) = enter_session_mode env result false x.link x.wait x.done c

  unfoldable pub handle_register_and_session :
      Circumstances S D → Conn (World S D) → Conn (World S D)
  handle_register_and_session x c = after_register x (register env x.ip x.draws x.approval c)

  -- The default of the switch, for a line that is not blank.
  unfoldable pub refuse : Text → Conn (World S D) → Conn (World S D)
  refuse message c =
      if is_empty message then c else say env (codes "ERROR EXPECTED_AUTH_OR_REGISTER") c

  -- The lines up to the first command; that command takes over the connection.
  unfoldable pub connection_loop :
      Circumstances S D → ℕ → List Text → Conn (World S D) → Conn (World S D)
  unfolding refuse heartbeat_loop handle_auth_and_session handle_register_and_session
  connection_loop x n [] c = record c { input = [] }
  connection_loop x n (line ∷ rest) c =
      let message = trim_space line in
      let here = record c { input = rest } in
      let next = connection_loop x (suc n) rest (refuse message c) in
      if is_empty message
      then next
      else (if text_eq message (codes "AUTH")
          then handle_auth_and_session x here
          else (if text_eq message (codes "REGISTER")
              then handle_register_and_session x here
              else (if has_prefix message (codes "HEARTBEAT ")
                  then heartbeat_loop x (suc n) rest
                      (handle_heartbeat x.ip (x.clock n) message here)
                  else next)))

  unfoldable pub handle_connection : Circumstances S D → Conn (World S D) → Conn (World S D)
  unfolding connection_loop
  handle_connection x c = connection_loop x 0 c.input c
