-- ===== src/Auth/Handshake.antt =====
-- roboserver/auth/handshake.go: the challenge-response handshake on a TCP connection. The random
-- bytes and the clock readings that it draws are arguments, in the order of use.
pub mod Outcome
use robomesh.Prelude.{
  ℕ, Bool, true, false, not, Option, none, some, ◌++◌, Text, codes, if◌then◌else◌, ◌≡◌, refl, arith,
}
use robomesh.Prelude.Bytes.{is_empty, trim_space}
use robomesh.Prelude.Int.{ℤ}
use robomesh.Prelude.Results.{Result, ok, err}
use robomesh.Conn.{Conn, Handler, ◌>>=◌, ◌>>◌, pure, write, scan, require, expect, demand}
use robomesh.Database.Redis.{RedisHandler, ActiveRobot, DbError, set_active_robot}
use robomesh.Database.Postgres.{Postgres, RobotRecord}
use robomesh.Auth.Verify.{Crypto, VerifyError, verify_robot_signature}
use robomesh.Auth.Jwt.{JwtLib, JwtConfig, JwtError, issue_session_jwt}
use robomesh.Auth.Nonce.{generate_nonce, generate_session_id}

pub record HandshakeResult : Type 0 where
  pub uuid : Text
  pub device_type : Text
  pub ip : Text
  pub session_jwt : Text
  pub session_id : Text

pub data HandshakeError : Type 0 where
  uuid_unread empty_uuid robot_not_found blacklisted nonce_failed : HandshakeError
  signature_unread empty_signature bad_signature panicked jwt_failed store_failed : HandshakeError

pub record AuthEnv (S D : Type 0) : Type 0 where
  pub redis : RedisHandler S
  pub pg : Postgres D
  pub crypto : Crypto
  pub jwt_lib : JwtLib
  pub jwt_config : JwtConfig
  pub redis_ttl : ℤ

pub record Draws : Type 0 where
  pub nonce_bytes : Option Text
  pub session_bytes : Option Text
  pub nano : Text
  pub issued_at : ℕ
  pub connected_at : ℕ

abbrev pub is_ok : {E A : Type 0} → Result E A → Bool
is_ok r = elim r [ ok a ↦ true | err e ↦ false ]

abbrev pub to_option : {E A : Type 0} → Result E A → Option A
to_option r = elim r [ ok a ↦ some a | err e ↦ none ]

abbrev pub is_none : {A : Type 0} → Option A → Bool
is_none o = elim o [ none ↦ true | some a ↦ false ]

pub is_ok-eq : {E : Type 0} (r : Result E (Unit {0})) → is_ok r ≡ true → r ≡ ok tt
is_ok-eq (ok u) h = refl
is_ok-eq (err e) h = cc

pub to_option-some : {E A : Type 0} (r : Result E A) {a : A} → to_option r ≡ some a → r ≡ ok a
to_option-some (ok a) h = ground arith
to_option-some (err e) h = cc

pub is_none-eq : {A : Type 0} (o : Option A) → is_none o ≡ true → o ≡ none
is_none-eq none h = refl
is_none-eq (some a) h = cc

abbrev pub server_error : Text
server_error = codes "ERROR SERVER_ERROR"

module _ {S D : Type 0} (env : AuthEnv S D) where
  -- A nil error goes on; another is reported and ends the handshake.
  unfoldable pub store_session : ActiveRobot → Handler S HandshakeError (Unit {0})
  unfolding require
  store_session robot c =
      let (s', e) = set_active_robot env.redis c.world robot env.redis_ttl in
      require (is_none e) server_error store_failed (record c { world = s' })

  -- Steps 3 to 6, for a robot that was found.
  unfoldable pub challenge :
      Text → Text → Draws → RobotRecord → Handler S HandshakeError HandshakeResult
  unfolding store_session
  challenge ip uuid draws robot = do
    nonce ← expect (generate_nonce draws.nonce_bytes) server_error nonce_failed
    write (codes "NONCE " ++ nonce)
    line ← scan signature_unread
    let signature = trim_space line
    require (not (is_empty signature)) (codes "ERROR EMPTY_SIGNATURE") empty_signature
    require (is_ok (verify_robot_signature env.crypto robot.public_key nonce signature))
        (codes "ERROR INVALID_SIGNATURE") bad_signature
    session_id ← demand (generate_session_id draws.session_bytes draws.nano) panicked
    jwt ←
        expect
          (to_option (
            issue_session_jwt env.jwt_lib env.jwt_config uuid robot.device_type ip session_id
              draws.issued_at))
          server_error jwt_failed
    store_session (record {
      uuid = uuid;
      ip = ip;
      device_type = robot.device_type;
      session_jwt = jwt;
      pid = 0;
      connected_at = draws.connected_at;
    })
    write (codes "AUTH_OK " ++ jwt)
    pure (record {
      uuid = uuid;
      device_type = robot.device_type;
      ip = ip;
      session_jwt = jwt;
      session_id = session_id;
    })

  unfoldable pub perform_handshake : D → Text → Draws → Handler S HandshakeError HandshakeResult
  unfolding challenge
  perform_handshake d ip draws = do
    write (codes "AUTH_CHALLENGE")
    line ← scan uuid_unread
    let uuid = trim_space line
    require (not (is_empty uuid)) (codes "ERROR EMPTY_UUID") empty_uuid
    robot ← expect (env.pg.get_robot_by_uuid d uuid) (codes "ERROR UNKNOWN_ROBOT") robot_not_found
    require (not robot.is_blacklisted) (codes "ERROR BLACKLISTED") blacklisted
    challenge ip uuid draws robot
