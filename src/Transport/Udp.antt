-- ===== src/Transport/Udp.antt =====
-- roboserver/udp_server/udp_server.go: what one datagram does to the server and how it is answered.
-- Both databases and the bus are present; a panic in a packet's goroutine is no answer. The address
-- is the text by which RobotSend reaches the robot, with its IP; json.Unmarshal is a parameter, and
-- an answer is the record that is marshalled.
pub mod Guarded
pub mod Granting
pub mod Forwarded
use robomesh.Prelude.{
  ℕ, Bool, true, false, not, ◌&&◌, ◌||◌, Option, none, some, List, [], ◌∷◌, ◌++◌, Text, codes,
  text_eq, if◌then◌else◌,
}
use robomesh.Prelude.Bytes.{is_empty}
use robomesh.Prelude.Results.{Result, ok, err}
use robomesh.Database.Keys.{udp_nonce_key}
use robomesh.Database.Redis.{remove_active_robot}
use robomesh.HandlerEngine.Manager.{get}
use robomesh.HandlerEngine.Process.{udp_link, send_incoming}
use robomesh.HandlerEngine.Heap.{modify}
use robomesh.Auth.Jwt.{JwtClaims, JwtError, validate_session_jwt}
use robomesh.Auth.Heartbeat.{
  HeartbeatEnv, HeartbeatPayload, HeartbeatResult, HeartbeatError, process_heartbeat,
}
use robomesh.Auth.Handshake.{Draws}
use robomesh.Transport.World.{
  World, ServerEnv, Event, Wait, Attachment, attached, spawn_failed, unavailable, shutting_down,
  attach,
}
use robomesh.Transport.Challenge.{Granted, issue_nonce, redeem}

pub record UdpPacket : Type 0 where
  pub packet_type : Text
  pub uuid : Text
  pub nonce : Text
  pub signature : Text
  pub jwt : Text
  pub payload : Text

pub record UdpResponse : Type 0 where
  pub response_type : Text
  pub status : Text
  pub nonce : Text
  pub jwt : Text
  pub error : Text

abbrev pub respond : Text → Text → UdpResponse
respond response_type status = record {
  response_type = response_type;
  status = status;
  nonce = [];
  jwt = [];
  error = [];
}

abbrev pub refuse : Text → Text → UdpResponse
refuse response_type error = record (respond response_type (codes "error")) { error = error }

-- What a datagram meets: where it came from, what the clock, crypto/rand and a wait give.
pub record Arrival : Type 0 where
  pub addr : Text
  pub ip : Text
  pub draws : Draws
  pub wait : Wait
  pub now : ℕ

-- The server, json.Unmarshal at a packet and at the payload of a heartbeat.
pub record UdpServer (S D : Type 0) : Type 0 where
  pub env : ServerEnv S D
  pub parse_packet : Text → Option UdpPacket
  pub parse_payload : Text → Option HeartbeatPayload

abbrev auth_error : Option Text → Option UdpResponse
auth_error none = none
auth_error (some e) = some (refuse (codes "auth_response") e)

abbrev nonce_answer : Result (Option Text) Text → Option UdpResponse
nonce_answer (ok n) = some (record (respond (codes "auth_response") (codes "nonce")) { nonce = n })
nonce_answer (err e) = auth_error e

module _ {S D : Type 0} (server : UdpServer S D) where
  abbrev pub heartbeat_env : HeartbeatEnv S D
  heartbeat_env = record {
    redis = server.env.auth.redis;
    pg = server.env.auth.pg;
    crypto = server.env.auth.crypto;
    parse_payload = server.parse_payload;
    redis_ttl = server.env.auth.redis_ttl;
  }

  abbrev drop_session : Text → World S D → World S D
  drop_session uuid w = record w {
    redis = (remove_active_robot server.env.auth.redis w.redis uuid).0;
  }

  abbrev pub attach_answer : Text → Text → World S D × Attachment → World S D × Option UdpResponse
  attach_answer uuid jwt (w, attached a) =
      (w, some (record (respond (codes "auth_response") (codes "ok")) { jwt = jwt }))
  attach_answer uuid jwt (w, spawn_failed) =
      (drop_session uuid w, auth_error (some (codes "handler spawn failed")))
  attach_answer uuid jwt (w, unavailable) =
      (drop_session uuid w, auth_error (some (codes "handler unavailable")))
  attach_answer uuid jwt (w, shutting_down) = (w, none)

  -- From the session that is stored to the answer.
  unfoldable pub start_session :
      Text → Arrival → S × Result (Option Text) Granted → World S D → World S D × Option UdpResponse
  unfolding attach
  start_session uuid at (s, err e) w = (record w { redis = s }, auth_error e)
  start_session uuid at (s, ok granted) w = attach_answer uuid granted.jwt (
      attach server.env uuid granted.device_type at.ip granted.session_id (some (udp_link at.addr))
        at.wait (record w { redis = s }))

  unfoldable pub handle_auth : Arrival → UdpPacket → World S D → World S D × Option UdpResponse
  unfolding issue_nonce redeem start_session udp_nonce_key
  handle_auth at pkt w =
      let key = udp_nonce_key pkt.uuid in
      if is_empty pkt.uuid
      then (w, auth_error (some (codes "uuid required")))
      else (if is_empty pkt.signature
          then (let (s, r) =
                issue_nonce server.env.auth key pkt.uuid at.draws.nonce_bytes w.pg w.redis in
              (record w { redis = s }, nonce_answer r))
          else start_session pkt.uuid at
              (redeem server.env.auth key pkt.uuid pkt.signature at.ip at.draws w.redis) w)

  abbrev heartbeat_answer :
      S × Result HeartbeatError HeartbeatResult → World S D → World S D × Option UdpResponse
  heartbeat_answer (s, err e) w = (
    record w { redis = s },
    some (refuse (codes "heartbeat_response") (codes "heartbeat rejected")),
  )
  heartbeat_answer (s, ok result) w =
      let event : Event = record {
        event_type = codes "robot." ++ (result.uuid ++ codes ".heartbeat");
        subject = result.uuid;
      } in
      (
        record w { redis = s; published = w.published ++ event ∷ [] },
        some (respond (codes "heartbeat_response") (codes "ok")),
      )

  unfoldable pub handle_heartbeat : Arrival → UdpPacket → World S D → World S D × Option UdpResponse
  unfolding process_heartbeat
  handle_heartbeat at pkt w =
      if is_empty pkt.uuid || (is_empty pkt.signature || is_empty pkt.payload)
      then (
        w,
        some (refuse (codes "heartbeat_response") (codes "uuid, payload, and signature required")),
      )
      else heartbeat_answer
          (process_heartbeat heartbeat_env w.pg w.redis pkt.uuid pkt.payload pkt.signature at.ip
            at.now)
          w

  -- The token is valid and names the robot.
  abbrev pub names : Text → Result JwtError JwtClaims → Bool
  names uuid (err e) = false
  names uuid (ok claims) = text_eq claims.sub uuid

  unfoldable pub handle_message : Arrival → UdpPacket → World S D → World S D × Option UdpResponse
  unfolding validate_session_jwt send_incoming modify
  handle_message at pkt w =
      let refused : Text → World S D × Option UdpResponse =
        λ e. (w, some (refuse (codes "message_response") e)) in
      if is_empty pkt.uuid || is_empty pkt.jwt
      then refused (codes "uuid and jwt required")
      else (if names pkt.uuid
            (validate_session_jwt server.env.auth.jwt_lib server.env.auth.jwt_config at.now pkt.jwt)
          then elim (get w.engine.manager pkt.uuid) [
            | none ↦ refused (codes "no handler running")
            | some hp ↦ (
              record w { engine = modify (send_incoming pkt.payload) hp w.engine },
              some (respond (codes "message_response") (codes "ok")),
            )
          ]
          else refused (codes "invalid or mismatched JWT"))

  unfoldable pub handle_packet : Arrival → Text → World S D → World S D × Option UdpResponse
  unfolding handle_auth handle_heartbeat handle_message
  handle_packet at packet w = elim (server.parse_packet packet) [
    | none ↦ (w, some (refuse (codes "error") (codes "invalid JSON")))
    | some pkt ↦
        if text_eq pkt.packet_type (codes "auth")
        then handle_auth at pkt w
        else (if text_eq pkt.packet_type (codes "heartbeat")
            then handle_heartbeat at pkt w
            else (if text_eq pkt.packet_type (codes "message")
                then handle_message at pkt w
                else (w, some (refuse (codes "error") (codes "unknown packet type")))))
  ]

  -- Datagrams, the last of them in front: the state after them.
  unfoldable pub after_packets : List (Arrival × Text) → World S D → World S D
  unfolding handle_packet
  after_packets [] w = w
  after_packets ((at, packet) ∷ before) w = (handle_packet at packet (after_packets before w)).0
