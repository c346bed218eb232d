-- ===== src/Http/Traffic.antt =====
-- roboserver/http_server: the answer of a person to a registration (register.go), the view of one
-- robot and the messages to its handler (robot.go), and heartbeats over HTTP (heartbeat.go). Both
-- databases and the bus are present; PUBLISH of Redis is an argument that says whether it succeeded.
use robomesh.Prelude.{
  ℕ, Bool, true, false, not, Option, none, some, List, [], ◌∷◌, ◌++◌, Text, codes, get_elem?,
  if◌then◌else◌,
}
use robomesh.Prelude.Bytes.{is_empty}
use robomesh.Prelude.Results.{Result, ok, err, ◌>>=◌, ◌>>◌, guard, or_fail}
use robomesh.Database.Postgres.{RobotRecord}
use robomesh.Database.Redis.Listing.{get_all_active_robots, get_all_pending_robots}
use robomesh.Database.Redis.{
  RedisHandler, PendingRobot, ActiveRobot, HeartbeatState, get_active_robot, get_heartbeat,
  get_pending_robot,
}
use robomesh.HandlerEngine.Manager.{get}
use robomesh.HandlerEngine.Process.{HandlerProcess, send_incoming}
use robomesh.HandlerEngine.Heap.{modify}
use robomesh.Auth.Heartbeat.{HeartbeatEnv, HeartbeatResult, HeartbeatError, process_heartbeat}
use robomesh.Auth.Handshake.{to_option, is_ok}
use robomesh.Transport.World.{World, Event}
use robomesh.Http.Robots.{HttpError, http_error, invalid_body}

pub record RegistrationResponse : Type 0 where
  pub uuid : Text
  pub accept : Bool

pub record HeartbeatBody : Type 0 where
  pub uuid : Text
  pub payload : Text
  pub signature : Text

-- What getRobotDetail encodes; a part is `none` where its key is missing or says so.
pub record RobotDetail : Type 0 where
  pub uuid : Text
  pub session : Option ActiveRobot
  pub heartbeat : Option HeartbeatState
  pub handler : Option HandlerProcess
  pub registration : Option RobotRecord

-- getActiveRobots and getPendingRegistrations, over SCAN.
module _ {S : Type 0} (redis : RedisHandler S) (scan : S → Text → List Text × Bool) where
  unfoldable pub get_active_robots : S → Result HttpError (List ActiveRobot)
  unfolding get_all_active_robots
  get_active_robots s =
      or_fail (get_all_active_robots redis scan s)
        (http_error 500 (codes "Failed to get active robots"))

  unfoldable pub get_pending_registrations : S → Result HttpError (List PendingRobot)
  unfolding get_all_pending_robots
  get_pending_registrations s =
      or_fail (get_all_pending_robots redis scan s)
        (http_error 500 (codes "Failed to get pending registrations"))

module _ {S D : Type 0} (env : HeartbeatEnv S D) where
  -- respondToRegistration: what it publishes on which robot's channel, `publish` of it, and the reply.
  unfoldable pub check_response :
      Option RegistrationResponse → S → Result HttpError RegistrationResponse
  check_response body s = do
    req ← or_fail body invalid_body
    guard (not (is_empty req.uuid)) (http_error 400 (codes "uuid is required"))
    guard (is_ok (get_pending_robot env.redis s req.uuid))
        (http_error 404 (codes "No pending registration found for this UUID"))
    ok req

  abbrev reply_to : RegistrationResponse → Bool → Result HttpError (Text × Text)
  reply_to req true = ok (req.uuid, if req.accept then codes "accepted" else codes "rejected")
  reply_to req false = err (http_error 500 (codes "Failed to send response"))

  unfoldable pub respond_to_registration :
      (Text → Bool → Bool)
      → Option RegistrationResponse
      → S
      → Option (Text × Bool) × Result HttpError (Text × Text)
  unfolding check_response
  respond_to_registration publish body s = elim (check_response body s) [
    | err e ↦ (none, err e)
    | ok req ↦ (some (req.uuid, req.accept), reply_to req (publish req.uuid req.accept))
  ]

  abbrev running : Option ℕ → List HandlerProcess → Option HandlerProcess
  running none procs = none
  running (some a) procs = get_elem? procs a

  unfoldable pub get_robot_detail : Text → World S D → RobotDetail
  get_robot_detail uuid w = record {
    uuid = uuid;
    session = to_option (get_active_robot env.redis w.redis uuid);
    heartbeat = to_option (get_heartbeat env.redis w.redis uuid);
    handler = running (get w.engine.manager uuid) w.engine.procs;
    registration = env.pg.get_robot_by_uuid w.pg uuid;
  }

  unfoldable pub send_robot_message :
      Text → Option Text → World S D → World S D × Result HttpError Text
  unfolding send_incoming modify
  send_robot_message uuid none w = (w, err invalid_body)
  send_robot_message uuid (some message) w = elim (get w.engine.manager uuid) [
    | none ↦ (w, err (http_error 404 (codes "No handler running for this robot")))
    | some hp ↦ (record w { engine = modify (send_incoming message) hp w.engine }, ok uuid)
  ]

  abbrev heartbeat_reply :
      S × Result HeartbeatError HeartbeatResult
      → World S D
      → World S D × Result HttpError (Unit {0})
  heartbeat_reply (s, err e) w =
      (record w { redis = s }, err (http_error 401 (codes "Heartbeat rejected")))
  heartbeat_reply (s, ok result) w =
      let event : Event = record {
        event_type = codes "robot." ++ (result.uuid ++ codes ".heartbeat");
        subject = result.uuid;
      } in
      (record w { redis = s; published = w.published ++ event ∷ [] }, ok tt)

  unfoldable pub handle_heartbeat :
      Text → ℕ → Option HeartbeatBody → World S D → World S D × Result HttpError (Unit {0})
  unfolding process_heartbeat
  handle_heartbeat ip now none w = (w, err (http_error 400 (codes "Invalid request")))
  handle_heartbeat ip now (some req) w =
      heartbeat_reply (process_heartbeat env w.pg w.redis req.uuid req.payload req.signature ip now)
        w
