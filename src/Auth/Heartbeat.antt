-- ===== src/Auth/Heartbeat.antt =====
-- roboserver/auth/heartbeat_handler.go: the signed heartbeat that every transport accepts. The state
-- of Redis is passed along; `now` is time.Now().Unix().
pub mod Ttl
pub mod Accepted
pub mod Replay
use robomesh.Prelude.{
  ℕ, ◌+◌, ◌-◌, ◌*◌, ◌^◌, Bool, true, false, Option, none, some, Text, if◌then◌else◌, not,
}
use robomesh.Prelude.Int.{ℤ, pos, negsuc, ltb_ℤ, leb_ℤ, int64_of_bits}
use robomesh.Prelude.Hex.{hex_encode}
use robomesh.Prelude.Results.{Result, ok, err, ◌>>=◌, ◌>>◌, guard, or_fail}
use robomesh.Database.Redis.{
  RedisHandler, HeartbeatState, ActiveRobot, DbError, get_heartbeat, set_heartbeat,
  get_active_robot, set_active_robot,
}
use robomesh.Database.Postgres.{Postgres, RobotRecord}
use robomesh.Auth.Verify.{Crypto, VerifyError, verify_robot_signature}

pub record HeartbeatPayload : Type 0 where
  pub seq : ℤ
  pub ttl : ℤ
  pub extra_data : Text

pub record HeartbeatResult : Type 0 where
  pub uuid : Text
  pub ip : Text
  pub payload : HeartbeatPayload

pub data HeartbeatError : Type 0 where
  unknown_robot blacklisted bad_signature bad_payload stale_sequence store_failed : HeartbeatError

-- The databases, the key checks, json.Unmarshal at HeartbeatPayload and the configured time to live.
pub record HeartbeatEnv (S D : Type 0) : Type 0 where
  pub redis : RedisHandler S
  pub pg : Postgres D
  pub crypto : Crypto
  pub parse_payload : Text → Option HeartbeatPayload
  pub redis_ttl : ℤ

abbrev pub second : ℕ
second = 1000000000

-- 6 * time.Hour
abbrev pub max_heartbeat_ttl : ℤ
max_heartbeat_ttl = pos 21600000000000

-- time.Duration(t) * time.Second, as an int64.
unfoldable pub seconds : ℤ → ℤ
seconds (pos n) = int64_of_bits (n * second)
seconds (negsuc n) = int64_of_bits ((2 ^ 64 - second) * n + (2 ^ 64 - second))

unfoldable pub heartbeat_ttl : ℤ → ℤ → ℤ
unfolding seconds
heartbeat_ttl default t =
    if ltb_ℤ (pos 0) t
    then (if ltb_ℤ max_heartbeat_ttl (seconds t) then max_heartbeat_ttl else seconds t)
    else default

abbrev pub lift_verify : {E : Type 0} → Result VerifyError (Unit {0}) → E → Result E (Unit {0})
lift_verify (ok u) e = ok u
lift_verify (err x) e = err e

-- A heartbeat is fresh if no state of its robot can be read, or its number is above the last one.
unfoldable pub is_fresh : ℤ → Result DbError HeartbeatState → Bool
is_fresh seq (err e) = true
is_fresh seq (ok existing) = not (leb_ℤ seq existing.last_seq)

module _ {S D : Type 0} (env : HeartbeatEnv S D) where
  -- The part of ProcessHeartbeat that reads and decides.
  unfoldable pub check_heartbeat :
      D → S → Text → Text → Text → Result HeartbeatError HeartbeatPayload
  unfolding is_fresh
  check_heartbeat d s uuid payload_json signature = do
    robot ← or_fail (env.pg.get_robot_by_uuid d uuid) unknown_robot
    guard (not robot.is_blacklisted) blacklisted
    lift_verify
        (verify_robot_signature env.crypto robot.public_key (hex_encode payload_json) signature)
        bad_signature
    payload ← or_fail (env.parse_payload payload_json) bad_payload
    guard (is_fresh payload.seq (get_heartbeat env.redis s uuid)) stale_sequence
    ok payload

  -- The session of the robot, if there is one, is moved to the new address; an error is only logged.
  unfoldable pub refresh_session : S → Text → Text → ℤ → S
  refresh_session s uuid ip ttl = elim (get_active_robot env.redis s uuid) [
    | err e ↦ s
    | ok active ↦ (set_active_robot env.redis s (record active { ip = ip }) ttl).0
  ]

  unfoldable pub commit_heartbeat :
      S → Text → Text → ℕ → HeartbeatPayload → S × Result HeartbeatError HeartbeatResult
  unfolding refresh_session heartbeat_ttl
  commit_heartbeat s uuid ip now payload =
      let ttl = heartbeat_ttl env.redis_ttl payload.ttl in
      let state : HeartbeatState = record {
        uuid = uuid;
        ip = ip;
        last_seq = payload.seq;
        last_seen = now;
      } in
      let (s', e) = set_heartbeat env.redis s state ttl in
      elim e [
        | some x ↦ (s', err store_failed)
        | none ↦ (
          refresh_session s' uuid ip ttl,
          ok (record { uuid = uuid; ip = ip; payload = payload }),
        )
      ]

  unfoldable pub process_heartbeat :
      D → S → Text → Text → Text → Text → ℕ → S × Result HeartbeatError HeartbeatResult
  unfolding check_heartbeat commit_heartbeat
  process_heartbeat d s uuid payload_json signature ip now =
      elim (check_heartbeat d s uuid payload_json signature) [
        | err e ↦ (s, err e)
        | ok payload ↦ commit_heartbeat s uuid ip now payload
      ]
