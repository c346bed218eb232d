-- ===== src/Transport/Challenge.antt =====
-- The two steps of authentication that the UDP and the MQTT server share line by line (handleAuth of
-- roboserver/udp_server/udp_server.go and of roboserver/mqtt_server/mqtt_server.go), up to the start
-- of the handler. A nonce waits in Redis, under a key of the server, together with what PostgreSQL
-- said about the robot. Both databases are present. A robot that is told no reason had its request
-- end in a panic, which the servers recover from.
pub mod Pending
pub mod Redeemed
pub mod Once
pub mod Guarded
use robomesh.Prelude.{Bool, Option, none, some, ◌++◌, ◌∷◌, Text, codes, if◌then◌else◌}
use robomesh.Prelude.Bytes.{is_empty, split3}
use robomesh.Prelude.Int.{ℤ, pos}
use robomesh.Prelude.Results.{Result, ok, err, ◌>>=◌, ◌>>◌, guard, or_fail}
use robomesh.Database.Client.{Reply, found, missing, failed}
use robomesh.Database.Redis.{ActiveRobot, RedisHandler, set_active_robot}
use robomesh.Database.Postgres.{RobotRecord}
use robomesh.Auth.Verify.{verify_robot_signature}
use robomesh.Auth.Jwt.{issue_session_jwt}
use robomesh.Auth.Nonce.{generate_nonce, generate_session_id}
use robomesh.Auth.Handshake.{AuthEnv, Draws, is_none, is_ok, to_option}
use robomesh.Transport.World.{World, ServerEnv}

-- 30 * time.Second
abbrev pub nonce_ttl : ℤ
nonce_ttl = pos 30000000000

-- fmt.Sprintf("%s|%s|%s", nonce, robot.PublicKey, robot.DeviceType)
unfoldable pub auth_cache : Text → RobotRecord → Text
auth_cache nonce robot = nonce ++ b'|' ∷ (robot.public_key ++ b'|' ∷ robot.device_type)

-- What a robot that proved its identity gets.
pub record Granted : Type 0 where
  pub device_type : Text
  pub session_id : Text
  pub jwt : Text

abbrev no_nonce : Text
no_nonce = codes "no pending nonce (send auth request first)"

abbrev waiting : Reply → Option Text
waiting (found v) = if is_empty v then none else some v
waiting missing = none
waiting failed = none

module _ {S D : Type 0} (env : AuthEnv S D) where
  -- Step 1: the state, and the nonce or why there is none.
  unfoldable pub issue_nonce : Text → Text → Option Text → D → S → S × Result (Option Text) Text
  unfolding auth_cache
  issue_nonce key uuid random d s = elim (env.pg.get_robot_by_uuid d uuid) [
    | none ↦ (s, err (some (codes "unknown robot")))
    | some robot ↦
        if robot.is_blacklisted
        then (s, err (some (codes "blacklisted")))
        else elim (generate_nonce random) [
          | none ↦ (s, err (some (codes "nonce generation failed")))
          | some nonce ↦
              ((env.redis.client.set s key (auth_cache nonce robot) nonce_ttl).0, ok nonce)
        ]
  ]

  -- The part of step 2 that only decides: the three parts of the cache and the session.
  unfoldable pub check_answer : Text → Text → Text → Draws → Reply → Result (Option Text) Granted
  check_answer uuid signature ip draws reply = do
    cache ← or_fail (waiting reply) (some no_nonce)
    (nonce, public_key, device_type) ←
        or_fail (split3 b'|' cache) (some (codes "corrupted auth state"))
    guard (is_ok (verify_robot_signature env.crypto public_key nonce signature))
        (some (codes "signature verification failed"))
    session_id ← or_fail (generate_session_id draws.session_bytes draws.nano) none
    jwt ←
        or_fail
          (to_option (
            issue_session_jwt env.jwt_lib env.jwt_config uuid device_type ip session_id
              draws.issued_at))
          (some (codes "failed to issue JWT"))
    ok (record { device_type = device_type; session_id = session_id; jwt = jwt })

  unfoldable pub store_granted :
      Text → Text → Draws → Granted → S → S × Result (Option Text) Granted
  store_granted uuid ip draws granted s =
      let robot : ActiveRobot = record {
        uuid = uuid;
        ip = ip;
        device_type = granted.device_type;
        session_jwt = granted.jwt;
        pid = 0;
        connected_at = draws.connected_at;
      } in
      let (s', e) = set_active_robot env.redis s robot env.redis_ttl in
      if is_none e then (s', ok granted) else (s', err (some (codes "failed to store session")))

  -- Step 2, up to the stored session. The cache is taken out whatever comes of it.
  unfoldable pub redeem : Text → Text → Text → Text → Draws → S → S × Result (Option Text) Granted
  unfolding check_answer store_granted
  redeem key uuid signature ip draws s =
      let (s', reply) = env.redis.client.get_del s key in
      elim (check_answer uuid signature ip draws reply) [
        | err e ↦ (s', err e)
        | ok granted ↦ store_granted uuid ip draws granted s'
      ]
