-- ===== src/Database/Redis.antt =====
-- roboserver/database/redis.go: the records kept in Redis and the typed operations on them, over the
-- client of Database/Client and the keys of Database/Keys. A Go `error` result is `Option DbError`,
-- with `none` for nil. The listings by SCAN, the connection set-up and the health check are not here.
pub mod Laws
pub mod Listing
pub mod Response
use robomesh.Prelude.{
  ℕ, ◌<◌, Bool, true, false, Option, none, some, Text, codes, text_eq, if◌then◌else◌,
}
use robomesh.Prelude.Int.{ℤ, pos}
use robomesh.Prelude.Results.{Result, ok, err}
use robomesh.Database.Client.{RedisClient, Reply, found, missing, failed, Codec}
use robomesh.Database.Keys.{
  robot_key, robot_public_key_key, pending_key, heartbeat_key, user_key, user_session_key,
  ticket_key,
}

pub record ActiveRobot : Type 0 where
  pub uuid : Text
  pub ip : Text
  pub device_type : Text
  pub session_jwt : Text
  pub pid : ℕ
  pub connected_at : ℕ

pub record PendingRobot : Type 0 where
  pub uuid : Text
  pub ip : Text
  pub device_type : Text
  pub public_key : Text
  pub requested_at : ℕ

pub record HeartbeatState : Type 0 where
  pub uuid : Text
  pub ip : Text
  pub last_seq : ℤ
  pub last_seen : ℕ

pub record User : Type 0 where
  pub username : Text
  pub password_hash : Text

pub data DbError : Type 0 where
  marshal_failed unmarshal_failed redis_nil command_failed already_pending already_active : DbError

-- The handler: the client, and encoding/json at the types that are stored.
pub record RedisHandler (S : Type 0) : Type 0 where
  pub client : RedisClient S
  pub active_codec : Codec ActiveRobot
  pub pending_codec : Codec PendingRobot
  pub heartbeat_codec : Codec HeartbeatState
  pub user_codec : Codec User

abbrev error_of : {S : Type 0} → S × Bool → S × Option DbError
error_of (s, true) = (s, none)
error_of (s, false) = (s, some command_failed)

-- The reply to GET, read by json.Unmarshal.
unfoldable pub decode_reply : {A : Type 0} → Codec A → Reply → Result DbError A
decode_reply c (found t) = elim (c.unmarshal t) [ none ↦ err unmarshal_failed | some a ↦ ok a ]
decode_reply c missing = err redis_nil
decode_reply c failed = err command_failed

-- The reply to GET or GETDEL as a string.
unfoldable pub text_reply : Reply → Result DbError Text
text_reply (found t) = ok t
text_reply missing = err redis_nil
text_reply failed = err command_failed

module _ {S : Type 0} (h : RedisHandler S) where
  -- GET and json.Unmarshal
  unfoldable pub fetch : {A : Type 0} → Codec A → S → Text → Result DbError A
  unfolding decode_reply
  fetch c s key = decode_reply c (h.client.get s key)

  -- json.Marshal and SET
  unfoldable pub store : {A : Type 0} → Codec A → S → Text → A → ℤ → S × Option DbError
  store c s key a ttl = elim (c.marshal a) [
    | none ↦ (s, some marshal_failed)
    | some t ↦ error_of (h.client.set s key t ttl)
  ]

  -- GET as a string
  unfoldable pub fetch_text : S → Text → Result DbError Text
  unfolding text_reply
  fetch_text s key = text_reply (h.client.get s key)

  unfoldable pub set_active_robot : S → ActiveRobot → ℤ → S × Option DbError
  unfolding store
  set_active_robot s robot ttl = store h.active_codec s (robot_key robot.uuid) robot ttl

  unfoldable pub get_active_robot : S → Text → Result DbError ActiveRobot
  unfolding fetch
  get_active_robot s uuid = fetch h.active_codec s (robot_key uuid)

  unfoldable pub remove_active_robot : S → Text → S × Option DbError
  remove_active_robot s uuid = error_of (h.client.del s (robot_key uuid))

  -- EXISTS: `none` is an error.
  unfoldable pub is_robot_active : S → Text → Option Bool
  is_robot_active s uuid = h.client.exists s (robot_key uuid)

  unfoldable pub set_robot_public_key : S → Text → Text → ℤ → S × Option DbError
  set_robot_public_key s uuid key ttl =
      error_of (h.client.set s (robot_public_key_key uuid) key ttl)

  unfoldable pub get_robot_public_key : S → Text → Result DbError Text
  unfolding fetch_text
  get_robot_public_key s uuid = fetch_text s (robot_public_key_key uuid)

  unfoldable pub remove_robot_public_key : S → Text → S × Option DbError
  remove_robot_public_key s uuid = error_of (h.client.del s (robot_public_key_key uuid))

  -- Refused for a UUID that is pending or active.
  unfoldable pub set_pending_robot : S → PendingRobot → ℤ → S × Option DbError
  unfolding store
  set_pending_robot s robot ttl = elim (h.client.exists s (pending_key robot.uuid)) [
    | none ↦ (s, some command_failed)
    | some true ↦ (s, some already_pending)
    | some false ↦ elim (h.client.exists s (robot_key robot.uuid)) [
      | none ↦ (s, some command_failed)
      | some true ↦ (s, some already_active)
      | some false ↦ store h.pending_codec s (pending_key robot.uuid) robot ttl
    ]
  ]

  unfoldable pub get_pending_robot : S → Text → Result DbError PendingRobot
  unfolding fetch
  get_pending_robot s uuid = fetch h.pending_codec s (pending_key uuid)

  unfoldable pub remove_pending_robot : S → Text → S × Option DbError
  remove_pending_robot s uuid = error_of (h.client.del s (pending_key uuid))

  unfoldable pub set_heartbeat : S → HeartbeatState → ℤ → S × Option DbError
  unfolding store
  set_heartbeat s state ttl = store h.heartbeat_codec s (heartbeat_key state.uuid) state ttl

  unfoldable pub get_heartbeat : S → Text → Result DbError HeartbeatState
  unfolding fetch
  get_heartbeat s uuid = fetch h.heartbeat_codec s (heartbeat_key uuid)

  unfoldable pub remove_heartbeat : S → Text → S × Option DbError
  remove_heartbeat s uuid = error_of (h.client.del s (heartbeat_key uuid))

  unfoldable pub is_robot_online : S → Text → Option Bool
  is_robot_online s uuid = h.client.exists s (heartbeat_key uuid)

  -- A user is stored with no time to live.
  unfoldable pub set_user : S → User → S × Option DbError
  unfolding store
  set_user s user = store h.user_codec s (user_key user.username) user (pos 0)

  unfoldable pub get_user : S → Text → Result DbError User
  unfolding fetch
  get_user s username = fetch h.user_codec s (user_key username)

  unfoldable pub set_user_session : S → Text → Text → ℤ → S × Option DbError
  set_user_session s token username ttl =
      error_of (h.client.set s (user_session_key token) username ttl)

  unfoldable pub get_user_session : S → Text → Result DbError Text
  unfolding fetch_text
  get_user_session s token = fetch_text s (user_session_key token)

  unfoldable pub remove_user_session : S → Text → S × Option DbError
  remove_user_session s token = error_of (h.client.del s (user_session_key token))

  unfoldable pub set_ticket : S → Text → Text → ℤ → S × Option DbError
  set_ticket s ticket username ttl = error_of (h.client.set s (ticket_key ticket) username ttl)

  -- GETDEL: a ticket is read and deleted by one command.
  unfoldable pub consume_ticket : S → Text → S × Result DbError Text
  unfolding text_reply
  consume_ticket s ticket =
      let (s', r) = h.client.get_del s (ticket_key ticket) in (s', text_reply r)
