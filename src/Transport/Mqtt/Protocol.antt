-- ===== src/Transport/Mqtt/Protocol.antt =====
-- roboserver/mqtt_server: what the hooks of the broker do with a message that a client published
-- (protocolHook of mqtt_server.go, eventBusBridgeHook of bridge_hook.go), and what the server publishes
-- itself. Both databases and the bus are present; the broker and json.Unmarshal are parameters or
-- left out, and an answer is a topic with the value that is marshalled. A panic in a goroutine is no answer.
pub mod Dispatched
pub mod Steps
pub mod Granting
pub mod Answers
use robomesh.Prelude.{
  ℕ, Bool, true, false, not, ◌&&◌, Option, none, some, List, [], ◌∷◌, ◌++◌, Text, codes, text_eq,
  if◌then◌else◌,
}
use robomesh.Prelude.Bytes.{is_empty, contains, has_prefix, strip_prefix, trim_prefix, trim_suffix}
use robomesh.Prelude.Results.{Result, ok, err}
use robomesh.Database.Keys.{mqtt_nonce_key}
use robomesh.Database.Redis.{get_active_robot}
use robomesh.HandlerEngine.Manager.{get}
use robomesh.HandlerEngine.Process.{mqtt_link, send_incoming}
use robomesh.HandlerEngine.Heap.{modify}
use robomesh.Auth.Heartbeat.{
  HeartbeatEnv, HeartbeatPayload, HeartbeatResult, HeartbeatError, process_heartbeat,
}
use robomesh.Auth.Handshake.{Draws}
use robomesh.Transport.World.{World, ServerEnv, Event, times_out, attach}
use robomesh.Transport.Challenge.{Granted, issue_nonce, redeem}

pub record AuthRequest : Type 0 where
  pub uuid : Text
  pub signature : Text
  pub nonce : Text

pub record AuthResponse : Type 0 where
  pub status : Text
  pub nonce : Text
  pub jwt : Text
  pub error : Text

pub record HeartbeatRequest : Type 0 where
  pub payload : Text
  pub signature : Text

-- What the server publishes: the answer to a request, or the status and error of a heartbeat.
pub data Body : Type 0 where
  auth_body : AuthResponse → Body
  heartbeat_body : Text → Text → Body

-- A message of a client: its address, the topic and the payload, and what the clock and crypto/rand give.
pub record Publication : Type 0 where
  pub remote : Text
  pub topic : Text
  pub payload : Text
  pub draws : Draws
  pub now : ℕ

pub record MqttServer (S D : Type 0) : Type 0 where
  pub env : ServerEnv S D
  pub parse_auth : Text → Option AuthRequest
  pub parse_heartbeat : Text → Option HeartbeatRequest
  pub parse_payload : Text → Option HeartbeatPayload

abbrev pub respond : Text → AuthResponse
respond status = record { status = status; nonce = []; jwt = []; error = [] }

abbrev pub Answer : Type 0
Answer = Option (Text × Body)

unfoldable pub auth_topic : Text → Text
auth_topic uuid = codes "robomesh/auth/" ++ (uuid ++ codes "/response")

unfoldable pub heartbeat_topic : Text → Text
heartbeat_topic uuid = codes "robomesh/heartbeat/" ++ (uuid ++ codes "/response")

unfoldable pub to_robot_topic : Text → Text
to_robot_topic uuid = codes "robomesh/to_robot/" ++ uuid

abbrev pub auth_error : Text → Option Text → Answer
auth_error uuid none = none
auth_error uuid (some e) =
    some (auth_topic uuid, auth_body (record (respond (codes "error")) { error = e }))

abbrev pub nonce_answer : Text → Result (Option Text) Text → Answer
nonce_answer uuid (ok n) =
    some (auth_topic uuid, auth_body (record (respond (codes "nonce")) { nonce = n }))
nonce_answer uuid (err e) = auth_error uuid e

module _ {S D : Type 0} (server : MqttServer S D) where
  abbrev pub heartbeat_env : HeartbeatEnv S D
  heartbeat_env = record {
    redis = server.env.auth.redis;
    pg = server.env.auth.pg;
    crypto = server.env.auth.crypto;
    parse_payload = server.parse_payload;
    redis_ttl = server.env.auth.redis_ttl;
  }

  -- There is no wait for a handler that another connection starts, and the robot is told ok whatever
  -- became of the handler.
  unfoldable pub start_session :
      Text → Publication → S × Result (Option Text) Granted → World S D → World S D × Answer
  unfolding attach
  start_session uuid pk (s, err e) w = (record w { redis = s }, auth_error uuid e)
  start_session uuid pk (s, ok granted) w = (
    (attach server.env uuid granted.device_type pk.remote granted.session_id
        (some (mqtt_link (to_robot_topic uuid))) times_out (record w { redis = s })).0,
    some (auth_topic uuid, auth_body (record (respond (codes "ok")) { jwt = granted.jwt })),
  )

  unfoldable pub handle_auth : Text → Publication → World S D → World S D × Answer
  unfolding issue_nonce redeem start_session mqtt_nonce_key
  handle_auth uuid pk w = elim (server.parse_auth pk.payload) [
    | none ↦ (w, auth_error uuid (some (codes "invalid JSON")))
    | some req ↦
        let key = mqtt_nonce_key uuid in
        if is_empty req.signature
        then (let (s, r) = issue_nonce server.env.auth key uuid pk.draws.nonce_bytes w.pg w.redis in
            (record w { redis = s }, nonce_answer uuid r))
        else start_session uuid pk
            (redeem server.env.auth key uuid req.signature pk.remote pk.draws w.redis) w
  ]

  abbrev heartbeat_answer :
      Text → S × Result HeartbeatError HeartbeatResult → World S D → World S D × Answer
  heartbeat_answer uuid (s, err e) w = (
    record w { redis = s },
    some (heartbeat_topic uuid, heartbeat_body (codes "error") (codes "heartbeat rejected")),
  )
  heartbeat_answer uuid (s, ok result) w =
      let event : Event = record {
        event_type = codes "robot." ++ (result.uuid ++ codes ".heartbeat");
        subject = result.uuid;
      } in
      (
        record w { redis = s; published = w.published ++ event ∷ [] },
        some (heartbeat_topic uuid, heartbeat_body (codes "ok") []),
      )

  unfoldable pub handle_heartbeat : Text → Publication → World S D → World S D × Answer
  unfolding process_heartbeat
  handle_heartbeat uuid pk w = elim (server.parse_heartbeat pk.payload) [
    | none ↦ (w, none)
    | some req ↦
        heartbeat_answer uuid
          (process_heartbeat heartbeat_env w.pg w.redis uuid req.payload req.signature pk.remote
            pk.now)
          w
  ]

  unfoldable pub handle_message : Text → Publication → World S D → World S D
  unfolding send_incoming modify
  handle_message uuid pk w = elim (get_active_robot server.env.auth.redis w.redis uuid) [
    | err e ↦ w
    | ok active ↦ elim (get w.engine.manager uuid) [
      | none ↦ w
      | some hp ↦ record w { engine = modify (send_incoming pk.payload) hp w.engine }
    ]
  ]

  -- A text that can be the UUID of a topic.
  abbrev pub plain : Text → Bool
  plain uuid = not (is_empty uuid) && not (contains b'/' uuid)

  -- OnPublished of protocolHook.
  unfoldable pub on_published : Publication → World S D → World S D × Answer
  unfolding handle_auth handle_heartbeat handle_message
  on_published pk w =
      if has_prefix pk.topic (codes "robomesh/auth/")
      then (let uuid =
            trim_suffix (trim_prefix pk.topic (codes "robomesh/auth/")) (codes "/request") in
          if plain uuid then handle_auth uuid pk w else (w, none))
      else (if has_prefix pk.topic (codes "robomesh/heartbeat/")
          then (let uuid = trim_prefix pk.topic (codes "robomesh/heartbeat/") in
              if plain uuid then handle_heartbeat uuid pk w else (w, none))
          else (if has_prefix pk.topic (codes "robomesh/message/")
              then (let uuid = trim_prefix pk.topic (codes "robomesh/message/") in
                  if plain uuid then (handle_message uuid pk w, none) else (w, none))
              else (w, none)))

  -- OnPublished of eventBusBridgeHook: a message topic with something after the prefix is an event.
  unfoldable pub bridge : Publication → World S D → World S D
  bridge pk w = elim (strip_prefix (codes "robomesh/message/") pk.topic) [
    | none ↦ w
    | some rest ↦ if is_empty rest then w else record w {
      published =
          w.published
          ++ record { event_type = codes "mqtt.message." ++ rest; subject = pk.payload } ∷ [];
    }
  ]

  -- The two hooks in the order in which Start adds them.
  unfoldable pub hooks : Publication → World S D → World S D × Answer
  unfolding on_published bridge
  hooks pk w = on_published pk (bridge pk w)

  -- Messages of clients, the last of them in front: the state after them.
  unfoldable pub after_messages : List Publication → World S D → World S D
  unfolding hooks
  after_messages [] w = w
  after_messages (pk ∷ before) w = (hooks pk (after_messages before w)).0

-- The subscription of setupOutboundBridge: data that is no map is `none`, and so is a UUID that is
-- missing or no string; the topic and the payload that are published, if any.
unfoldable pub outbound :
    {P : Type 0} → (P → Option Text) → Option (Option Text × P) → Option (Text × Text)
unfolding to_robot_topic
outbound marshal none = none
outbound marshal (some (none, payload)) = none
outbound marshal (some (some uuid, payload)) =
    if is_empty uuid
    then none
    else elim (marshal payload) [ none ↦ none | some json ↦ some (to_robot_topic uuid, json) ]
