-- ===== src/Transport/Tcp/Register.antt =====
-- REGISTER (handleRegisterAndSession of roboserver/tcp_server/tcp_server.go): a new robot names
-- itself, waits for a person to accept it, and is given a session. Both databases are present. What
-- others do while it waits, and their answer, are arguments.
pub mod Collected
pub mod Activated
pub mod Accepted
use robomesh.Prelude.{
  ℕ, Bool, true, false, not, Option, none, some, List, [], ◌∷◌, ◌++◌, Text, codes, if◌then◌else◌,
}
use robomesh.Prelude.Bytes.{is_empty, trim_space}
use robomesh.Prelude.Int.{ℤ, pos}
use robomesh.Prelude.Results.{Result, ok, err}
use robomesh.Conn.{Conn, Handler, ◌>>=◌, ◌>>◌, pure, write, scan, require, expect, demand}
use robomesh.Database.Redis.{
  ActiveRobot, PendingRobot, DbError, get_active_robot, get_pending_robot, set_active_robot,
  set_pending_robot, remove_pending_robot, set_robot_public_key,
}
use robomesh.HandlerEngine.Registry.{is_valid_device_type}
use robomesh.Auth.Jwt.{issue_session_jwt}
use robomesh.Auth.Nonce.{generate_session_id}
use robomesh.Auth.Handshake.{HandshakeResult, Draws, is_ok, to_option, is_none, server_error}
use robomesh.Transport.World.{World, ServerEnv, Event}

pub data RegisterError : Type 0 where
  input_unread input_empty already_registered already_active already_pending : RegisterError
  invalid_device_type not_stored timed_out rejected panicked jwt_failed not_activated :
      RegisterError

-- The answer of WaitForRegistrationResponse, `none` for its error, with what happened before it.
pub record Approval (S D : Type 0) : Type 0 where
  pub requested_at : ℕ
  pub meanwhile : World S D → World S D
  pub answer : Option Bool

-- What the robot says of itself.
pub record Request : Type 0 where
  pub uuid : Text
  pub device_type : Text
  pub public_key : Text

-- 5 * time.Minute
abbrev pub pending_ttl : ℤ
pending_ttl = pos 300000000000

abbrev pub approved : Option Bool → Bool
approved (some true) = true
approved (some false) = false
approved none = false

module _ {S D : Type 0} (env : ServerEnv S D) where
  abbrev pub set_redis : World S D → S → World S D
  set_redis w s = record w { redis = s }

  unfoldable pub read_handshake_input : Text → Text → Handler (World S D) RegisterError Text
  read_handshake_input prompt empty_error = do
    write prompt
    line ← scan input_unread
    require (not (is_empty (trim_space line))) (codes "ERROR " ++ empty_error) input_empty
    pure (trim_space line)

  -- A failing read counts as no entry in each of the three tests.
  unfoldable pub check_unused : Text → Handler (World S D) RegisterError (Unit {0})
  check_unused uuid c =
      (do
        require (is_none (env.auth.pg.get_robot_by_uuid c.world.pg uuid))
            (codes "ERROR UUID_ALREADY_REGISTERED") already_registered
        require (not (is_ok (get_active_robot env.auth.redis c.world.redis uuid)))
            (codes "ERROR UUID_ALREADY_ACTIVE") already_active
        require (not (is_ok (get_pending_robot env.auth.redis c.world.redis uuid)))
            (codes "ERROR UUID_ALREADY_PENDING") already_pending
        pure tt)
        c

  -- Steps 1 to 3.
  unfoldable pub collect_request : Handler (World S D) RegisterError Request
  unfolding read_handshake_input check_unused
  collect_request = do
    uuid ← read_handshake_input (codes "REGISTER_CHALLENGE") (codes "EMPTY_UUID")
    check_unused uuid
    device_type ← read_handshake_input (codes "SEND_DEVICE_TYPE") (codes "EMPTY_DEVICE_TYPE")
    require (is_valid_device_type device_type) (codes "ERROR INVALID_DEVICE_TYPE")
        invalid_device_type
    public_key ← read_handshake_input (codes "SEND_PUBLIC_KEY") (codes "EMPTY_PUBLIC_KEY")
    pure (record { uuid = uuid; device_type = device_type; public_key = public_key })

  -- Step 4.
  unfoldable pub store_pending : Text → ℕ → Request → Handler (World S D) RegisterError (Unit {0})
  unfolding require
  store_pending ip now request c =
      let robot : PendingRobot = record {
        uuid = request.uuid;
        ip = ip;
        device_type = request.device_type;
        public_key = request.public_key;
        requested_at = now;
      } in
      let (s', e) = set_pending_robot env.auth.redis c.world.redis robot pending_ttl in
      require (is_none e) (codes "ERROR REGISTRATION_FAILED") not_stored
        (record c { world = set_redis c.world s' })

  -- Steps 5 and 6 up to the answer: the event, the wait, and the end of the pending entry.
  unfoldable pub wait_for_answer :
      Text → Approval S D → Handler (World S D) RegisterError (Unit {0})
  wait_for_answer uuid approval c =
      let event : Event = record { event_type = codes "robot.registering"; subject = uuid } in
      let waiting = record c.world { published = c.world.published ++ event ∷ [] } in
      let answered = approval.meanwhile waiting in
      let s' = (remove_pending_robot env.auth.redis answered.redis uuid).0 in
      (
        ok tt,
        record c {
          world = set_redis answered s';
          output = c.output ++ codes "REGISTER_PENDING" ∷ [];
        },
      )

  unfoldable pub check_answer : Option Bool → Handler (World S D) RegisterError (Unit {0})
  check_answer answer = do
    accepted ← expect answer (codes "ERROR REGISTRATION_TIMEOUT") timed_out
    require accepted (codes "REGISTER_REJECTED") rejected

  -- Step 7, from `ttl := …` on: the session and, with its error ignored, the public key.
  unfoldable pub store_active : Request → ActiveRobot → Handler (World S D) RegisterError (Unit {0})
  store_active request robot c =
      let (s', e) = set_active_robot env.auth.redis c.world.redis robot env.auth.redis_ttl in
      elim e [
        | some x ↦ (
          err not_activated,
          record c { world = set_redis c.world s'; output = c.output ++ server_error ∷ [] },
        )
        | none ↦
            let s'' =
              (set_robot_public_key env.auth.redis s' request.uuid request.public_key
                env.auth.redis_ttl).0 in
            (ok tt, record c { world = set_redis c.world s'' })
      ]

  unfoldable pub activate :
      Text → Draws → Request → Handler (World S D) RegisterError HandshakeResult
  unfolding store_active
  activate ip draws request = do
    session_id ← demand (generate_session_id draws.session_bytes draws.nano) panicked
    jwt ←
        expect
          (to_option (
            issue_session_jwt env.auth.jwt_lib env.auth.jwt_config request.uuid request.device_type
              ip session_id draws.issued_at))
          server_error jwt_failed
    store_active request (record {
      uuid = request.uuid;
      ip = ip;
      device_type = request.device_type;
      session_jwt = jwt;
      pid = 0;
      connected_at = draws.connected_at;
    })
    write (codes "REGISTER_OK " ++ jwt)
    pure (record {
      uuid = request.uuid;
      device_type = request.device_type;
      ip = ip;
      session_jwt = jwt;
      session_id = session_id;
    })

  -- Up to the call of enterSessionMode.
  unfoldable pub register :
      Text → Draws → Approval S D → Handler (World S D) RegisterError HandshakeResult
  unfolding collect_request store_pending wait_for_answer check_answer activate
  register ip draws approval = do
    request ← collect_request
    store_pending ip approval.requested_at request
    wait_for_answer request.uuid approval
    check_answer approval.answer
    activate ip draws request
