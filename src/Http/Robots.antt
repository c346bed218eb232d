-- ===== src/Http/Robots.antt =====
-- roboserver/http_server: the registry of robots over HTTP, provision.go, and the sessions without a
-- registration of ephemeral.go. Both databases are present. A body that cannot be decoded is `none`,
-- and a reply is the status code with what is encoded. The middleware that asks for a session is in
-- UserSession.
pub mod Created
use robomesh.Prelude.{
  ℕ, ◌+◌, Bool, true, false, not, ◌&&◌, ◌||◌, Option, none, some, List, [], ◌∷◌, ◌++◌, Text, codes,
  if◌then◌else◌,
}
use robomesh.Prelude.Bytes.{is_empty}
use robomesh.Prelude.Int.{ℤ}
use robomesh.Prelude.Results.{Result, ok, err, ◌>>=◌, ◌>>◌, guard, or_fail}
use robomesh.Database.Postgres.{RobotRecord}
use robomesh.Database.Redis.{
  ActiveRobot, HeartbeatState, get_active_robot, set_active_robot, remove_active_robot,
  get_heartbeat, get_pending_robot,
}
use robomesh.HandlerEngine.Manager.{get}
use robomesh.HandlerEngine.Process.{HandlerProcess, send_incoming}
use robomesh.HandlerEngine.Heap.{modify}
use robomesh.Auth.Verify.{is_valid_public_key}
use robomesh.Auth.Jwt.{issue_session_jwt}
use robomesh.Auth.Nonce.{generate_session_id}
use robomesh.Auth.Heartbeat.{HeartbeatEnv, HeartbeatResult, HeartbeatError, process_heartbeat}
use robomesh.Auth.Handshake.{AuthEnv, Draws, is_ok, is_none, to_option}
use robomesh.Transport.World.{World, Event}

-- http.Error with a status and a text, or the end in a panic.
pub data HttpError : Type 0 where
  http_error : ℕ → Text → HttpError
  panics : HttpError

pub record ProvisionRequest : Type 0 where
  pub uuid : Text
  pub public_key : Text
  pub device_type : Text

pub record EphemeralRequest : Type 0 where
  pub uuid : Text
  pub device_type : Text
  pub ip : Text

pub record EphemeralSession : Type 0 where
  pub uuid : Text
  pub session_id : Text
  pub token : Text

abbrev pub invalid_body : HttpError
invalid_body = http_error 400 (codes "Invalid request body")

module _ {S D : Type 0} (env : AuthEnv S D) where
  -- provisionRobot: what is checked before RegisterRobot.
  unfoldable pub check_provision : Option ProvisionRequest → Result HttpError ProvisionRequest
  check_provision body = do
    req ← or_fail body invalid_body
    guard (not (is_empty req.uuid || (is_empty req.public_key || is_empty req.device_type)))
        (http_error 400 (codes "uuid, public_key, and device_type are required"))
    guard (is_valid_public_key env.crypto req.public_key)
        (http_error 400 (codes "Invalid public key format"))
    ok req

  abbrev provisioned : Text → D × Bool → D × Result HttpError Text
  provisioned uuid (d, true) = (d, ok uuid)
  provisioned uuid (d, false) = (d, err (http_error 500 (codes "Failed to provision robot")))

  unfoldable pub provision_robot : Option ProvisionRequest → D → D × Result HttpError Text
  unfolding check_provision
  provision_robot body d = elim (check_provision body) [
    | err e ↦ (d, err e)
    | ok req ↦
        provisioned req.uuid (env.pg.register_robot d req.uuid req.public_key req.device_type)
  ]

  unfoldable pub get_robot_record : Text → D → Result HttpError RobotRecord
  get_robot_record uuid d =
      or_fail (env.pg.get_robot_by_uuid d uuid) (http_error 404 (codes "Robot not found"))

  abbrev blacklisted : Text → Bool → D × Bool → D × Result HttpError (Text × Bool)
  blacklisted uuid flag (d, true) = (d, ok (uuid, flag))
  blacklisted uuid flag (d, false) = (d, err (http_error 500 (codes "Failed to update blacklist")))

  unfoldable pub blacklist_robot : Text → Option Bool → D → D × Result HttpError (Text × Bool)
  blacklist_robot uuid none d = (d, err invalid_body)
  blacklist_robot uuid (some flag) d = blacklisted uuid flag (env.pg.blacklist_robot d uuid flag)

  unfoldable pub get_all_registered_robots : D → Result HttpError (List RobotRecord)
  get_all_registered_robots d =
      or_fail (env.pg.get_all_robots d) (http_error 500 (codes "Failed to get robots"))

  -- The session of the robot, `none` for one that is not online.
  unfoldable pub get_robot_status : Text → S → Option ActiveRobot
  get_robot_status uuid s = to_option (get_active_robot env.redis s uuid)

  -- createEphemeralSession up to the session that is stored, with the address that it is for.
  unfoldable pub check_ephemeral :
      Text → Option EphemeralRequest → D → S → Result HttpError EphemeralRequest
  check_ephemeral remote body d s = do
    req ← or_fail body invalid_body
    guard (not (is_empty req.uuid || is_empty req.device_type))
        (http_error 400 (codes "uuid and device_type are required"))
    guard (not (is_ok (get_active_robot env.redis s req.uuid)))
        (http_error 409 (codes "UUID already has an active session"))
    guard (is_none (env.pg.get_robot_by_uuid d req.uuid))
        (http_error 409 (codes "UUID belongs to a registered robot"))
    ok (record req { ip = if is_empty req.ip then remote else req.ip })

  unfoldable pub ephemeral_session : Draws → EphemeralRequest → Result HttpError EphemeralSession
  ephemeral_session draws req = do
    session_id ← or_fail (generate_session_id draws.session_bytes draws.nano) panics
    token ←
        or_fail
          (to_option (
            issue_session_jwt env.jwt_lib env.jwt_config req.uuid req.device_type req.ip session_id
              draws.issued_at))
          (http_error 500 (codes "Failed to create session"))
    ok (record { uuid = req.uuid; session_id = session_id; token = token })

  unfoldable pub store_ephemeral :
      Draws → EphemeralRequest → EphemeralSession → S → S × Result HttpError EphemeralSession
  store_ephemeral draws req session s =
      let robot : ActiveRobot = record {
        uuid = req.uuid;
        ip = req.ip;
        device_type = req.device_type;
        session_jwt = session.token;
        pid = 0;
        connected_at = draws.connected_at;
      } in
      let (s', e) = set_active_robot env.redis s robot env.redis_ttl in
      if is_none e
      then (s', ok session)
      else (s', err (http_error 500 (codes "Failed to store session")))

  unfoldable pub create_ephemeral_session :
      Draws → Text → Option EphemeralRequest → D → S → S × Result HttpError EphemeralSession
  unfolding check_ephemeral ephemeral_session store_ephemeral
  create_ephemeral_session draws remote body d s = elim (check_ephemeral remote body d s) [
    | err e ↦ (s, err e)
    | ok req ↦ elim (ephemeral_session draws req) [
      | err e ↦ (s, err e)
      | ok session ↦ store_ephemeral draws req session s
    ]
  ]

  -- deleteEphemeralSession does not look which kind of session it removes.
  unfoldable pub delete_ephemeral_session : Text → S → S × Result HttpError Text
  delete_ephemeral_session uuid s =
      let (s', e) = remove_active_robot env.redis s uuid in
      if is_none e
      then (s', ok uuid)
      else (s', err (http_error 500 (codes "Failed to remove session")))
