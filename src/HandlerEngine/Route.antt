-- ===== src/HandlerEngine/Route.antt =====
-- The requests of a handler script: routeEnvelope and what it calls in
-- roboserver/handler_engine/process.go, and handleConnectRobotRequest with resolveRobotIP of
-- reverse_connect.go up to the dialling, which runs in the background.
pub mod Outcome
pub mod Handled
pub mod Answered
use robomesh.Prelude.{
  ℕ, Bool, true, false, Option, none, some, List, [], ◌∷◌, ◌++◌, Text, codes, text_eq,
  if◌then◌else◌, ◌||◌,
}
use robomesh.Prelude.Bytes.{is_empty}
use robomesh.Prelude.Int.{ℤ, pos, leb_ℤ}
use robomesh.Prelude.Results.{Result, ok, err}
use robomesh.Database.Client.{Codec, Reply, found, missing, failed}
use robomesh.Database.Keys.{redis_data_key}
use robomesh.Database.Redis.{
  RedisHandler, HeartbeatState, ActiveRobot, DbError, get_heartbeat, get_active_robot,
}
use robomesh.Database.Postgres.{Postgres, RobotRecord}
use robomesh.HandlerEngine.Message.{
  Value, null, bool, number, str, array, object, Fields, end, field, Envelope, Answer, nothing,
  word, flag, value, robot, robots, Failure, no_failure, message, from_error, Message, response,
}
use robomesh.HandlerEngine.Process.{HandlerProcess, Link, Subscription, send_to_script, robot_link}

pub record ConnectRequest : Type 0 where
  pub port : ℤ
  pub protocol : Text
  pub ip : Text

pub data Protocol : Type 0 where
  tcp udp : Protocol

-- A reverse connection that was started in the background: whom it answers, and where it dials.
pub record Dial : Type 0 where
  pub protocol : Protocol
  pub request_id : Text
  pub ip : Text
  pub port : ℤ

-- The process with what it can reach: Redis, the events published, the payloads handed to the
-- robot's link and the connections being dialled.
pub record Context (S : Type 0) : Type 0 where
  pub hp : HandlerProcess
  pub redis : S
  pub published : List (Text × Value)
  pub robot_out : List (Link × Text)
  pub dials : List Dial

-- hp.db, hp.rds and hp.bus, of which the last two may be nil; JSON; whether a link takes a payload;
-- and the identity under which the bus subscribes to a topic, if it does.
pub record RouteEnv (S D : Type 0) : Type 0 where
  pub pg : Postgres D
  pub rds : Option (RedisHandler S)
  pub has_bus : Bool
  pub json : Codec Value
  pub parse_connect : Text → Option ConnectRequest
  pub deliver : Link → Text → Bool
  pub subscribe : Text → Option Subscription

abbrev pub Action : Type 0 → Type 0
Action S = Context S → Context S

-- env.Data.(string), .(bool) and .(map[string]interface{})
abbrev pub as_string : Value → Option Text
as_string (str t) = some t
as_string _ = none

abbrev pub as_bool : Value → Option Bool
as_bool (bool b) = some b
as_bool _ = none

abbrev pub as_object : Value → Option Fields
as_object (object f) = some f
as_object _ = none

-- params[key], which is nil for a key that is missing.
unfoldable pub member : Text → Fields → Value
member key end = null
member key (field k v r) = if text_eq k key then v else member key r

-- key, _ := params["key"].(string)
abbrev pub string_or_empty : Option Text → Text
string_or_empty none = []
string_or_empty (some t) = t

module _ {S : Type 0} where
  unfoldable pub send_response : Text → Answer → Failure → Action S
  send_response id answer failure c = record c {
    hp = send_to_script (response id answer failure) c.hp;
  }

  -- A value that is missing is answered by a text of the package,
  unfoldable pub need : {A : Type 0} → Text → Option A → Text → (A → Action S) → Action S
  need id none text k = send_response id nothing (message text)
  need id (some a) text k = k a

  -- and an error by its own text.
  unfoldable pub attempt : {A : Type 0} → Text → Option A → (A → Action S) → Action S
  attempt id none k = send_response id nothing from_error
  attempt id (some a) k = k a

  unfoldable pub attempt_write : Text → S × Bool → Action S → Action S
  attempt_write id (s, true) k c = k (record c { redis = s })
  attempt_write id (s, false) k c = send_response id nothing from_error (record c { redis = s })

  -- The reply to a GET of handler data: JSON is parsed, other text is given as it is.
  unfoldable pub answer_data : Text → Codec Value → Reply → Action S
  answer_data id json missing c = send_response id nothing from_error c
  answer_data id json failed c = send_response id nothing from_error c
  answer_data id json (found t) c = elim (json.unmarshal t) [
    | some v ↦ send_response id (value v) no_failure c
    | none ↦ send_response id (word t) no_failure c
  ]

module _ {S D : Type 0} (env : RouteEnv S D) where
  -- Where hp.rds is nil a write of handler data is skipped.
  unfoldable pub store_value : Text → Text → Text → Action S
  store_value id key text c = elim env.rds [
    | none ↦ send_response id (word (codes "stored")) no_failure c
    | some r ↦
        attempt_write id (r.client.set c.redis (redis_data_key c.hp.uuid key) text (pos 0))
          (send_response id (word (codes "stored")) no_failure) c
  ]

  unfoldable pub load_value : Text → Text → Action S
  load_value id key c = elim env.rds [
    | none ↦ send_response id nothing (message (codes "redis not available")) c
    | some r ↦ answer_data id env.json (r.client.get c.redis (redis_data_key c.hp.uuid key)) c
  ]

  unfoldable pub delete_value : Text → Text → Action S
  delete_value id key c = elim env.rds [
    | none ↦ send_response id (word (codes "deleted")) no_failure c
    | some r ↦
        attempt_write id (r.client.del c.redis (redis_data_key c.hp.uuid key))
          (send_response id (word (codes "deleted")) no_failure) c
  ]

  unfoldable pub store_data : Text → Fields → Action S
  store_data id params =
      if is_empty (string_or_empty (as_string (member (codes "key") params)))
      then send_response id nothing (message (codes "key is required"))
      else need id (env.json.marshal (member (codes "value") params))
          (codes "failed to marshal value")
          (store_value id (string_or_empty (as_string (member (codes "key") params))))

  unfoldable pub handle_database_request : D → Envelope → Action S
  handle_database_request d e =
      if text_eq e.method (codes "get_robot")
      then need e.id (as_string e.content) (codes "data must be a robot UUID string") (λ uuid.
        attempt e.id (env.pg.get_robot_by_uuid d uuid) λ r. send_response e.id (robot r) no_failure)
      else (if text_eq e.method (codes "list_robots")
          then attempt e.id (env.pg.get_all_robots d)
              (λ rs. send_response e.id (robots rs) no_failure)
          else (if text_eq e.method (codes "get_robots_by_type")
              then need e.id (as_string e.content) (codes "data must be a device type string") (λ t.
                attempt e.id (env.pg.get_robots_by_type d t)
                  λ rs. send_response e.id (robots rs) no_failure)
              else (if text_eq e.method (codes "store_data")
                  then need e.id (as_object e.content)
                      (codes "data must be an object with 'key' and 'value' fields")
                      (store_data e.id)
                  else (if text_eq e.method (codes "get_data")
                      then need e.id (as_string e.content) (codes "data must be a key string")
                          (load_value e.id)
                      else (if text_eq e.method (codes "delete_data")
                          then need e.id (as_string e.content) (codes "data must be a key string")
                              (delete_value e.id)
                          else send_response e.id nothing
                              (message (codes "unknown database method: " ++ e.method)))))))

  -- SendToRobot, and the answer that tells how it went.
  unfoldable pub send_to_robot : Text → Text → Option Link → Action S
  send_to_robot id payload none =
      send_response id nothing (message (codes "no robot connection available"))
  send_to_robot id payload (some link) =
      if env.deliver link payload
      then (λ c.
          send_response id (word (codes "sent")) no_failure
            (record c { robot_out = c.robot_out ++ (link, payload) ∷ [] }))
      else send_response id nothing from_error

  unfoldable pub handle_robot_request : Envelope → Action S
  handle_robot_request e c =
      need e.id (env.json.marshal e.content) (codes "failed to marshal robot payload")
        (λ payload. send_to_robot e.id payload (robot_link c.hp)) c

  unfoldable pub handle_event_bus_request : Envelope → Action S
  handle_event_bus_request e =
      if env.has_bus
      then (λ c. send_response e.id (word (codes "published")) no_failure (record c {
        published =
            c.published
            ++ (if is_empty e.method then codes "handler_event" else e.method, e.content) ∷ [];
      }))
      else send_response e.id nothing (message (codes "event bus not available"))

  -- enableHeartbeatForwarding; nothing changes where there is no bus or the subscription fails.
  unfoldable pub enable_heartbeat_forwarding : HandlerProcess → HandlerProcess
  enable_heartbeat_forwarding hp =
      if env.has_bus
      then elim (env.subscribe (codes "robot." ++ (hp.uuid ++ codes ".heartbeat"))) [
        | none ↦ hp
        | some s ↦ record hp {
          subscriptions = hp.subscriptions ++ s ∷ [];
          forward_heartbeats = true;
        }
      ]
      else hp

  unfoldable pub set_forwarding : Bool → HandlerProcess → HandlerProcess
  set_forwarding true hp = if hp.forward_heartbeats then hp else enable_heartbeat_forwarding hp
  set_forwarding false hp = record hp { forward_heartbeats = false }

  unfoldable pub forward_heartbeats : Text → Bool → Action S
  forward_heartbeats id enable c =
      let hp = set_forwarding enable c.hp in
      send_response id (flag hp.forward_heartbeats) no_failure (record c { hp = hp })

  unfoldable pub subscribe_topic : Text → Text → Action S
  subscribe_topic id topic =
      if env.has_bus
      then attempt id (env.subscribe topic) (λ s c.
        send_response id (word (codes "subscribed")) no_failure
          (record c { hp = record c.hp { subscriptions = c.hp.subscriptions ++ s ∷ [] } }))
      else send_response id nothing (message (codes "event bus not available"))

  unfoldable pub handle_config_request : Envelope → Action S
  handle_config_request e =
      if text_eq e.method (codes "forward_heartbeats")
      then need e.id (as_bool e.content) (codes "data must be a boolean") (forward_heartbeats e.id)
      else (if text_eq e.method (codes "subscribe")
          then need e.id (as_string e.content) (codes "data must be an event type string")
              (subscribe_topic e.id)
          else send_response e.id nothing (message (codes "unknown config method: " ++ e.method)))

  -- The heartbeat state first, then the session, then the address at the spawn.
  unfoldable pub resolve_robot_ip : Context S → Text
  resolve_robot_ip c = elim env.rds [
    | none ↦ c.hp.ip
    | some r ↦ elim (get_heartbeat r c.redis c.hp.uuid) [
      | ok hb ↦ hb.ip
      | err e ↦ elim (get_active_robot r c.redis c.hp.uuid) [ ok a ↦ a.ip | err e' ↦ c.hp.ip ]
    ]
  ]

  -- The switch on the protocol, "tcp" where none is named.
  unfoldable pub dial : Text → Text → Text → ℤ → Action S
  dial id protocol ip port =
      if is_empty protocol || text_eq protocol (codes "tcp")
      then start tcp
      else (if text_eq protocol (codes "udp")
          then start udp
          else send_response id nothing (message (codes "unsupported protocol: " ++ protocol)))
    where
      start : Protocol → Action S
      start p c = record c {
        dials = c.dials ++ record { protocol = p; request_id = id; ip = ip; port = port } ∷ [];
      }

  unfoldable pub handle_connect_robot_request : Envelope → Action S
  handle_connect_robot_request e c = elim (env.json.marshal e.content) [
    | none ↦ send_response e.id nothing (message (codes "invalid connect request data")) c
    | some text ↦ elim (env.parse_connect text) [
      | none ↦ send_response e.id nothing from_error c
      | some req ↦
          let ip = if is_empty req.ip then resolve_robot_ip c else req.ip in
          if leb_ℤ req.port (pos 0)
          then send_response e.id nothing (message (codes "port is required")) c
          else (if is_empty ip
              then send_response e.id nothing (message (codes "cannot determine robot IP")) c
              else dial e.id req.protocol ip req.port c)
    ]
  ]

  unfoldable pub route_envelope : D → Envelope → Action S
  route_envelope d e =
      if text_eq e.target (codes "database")
      then handle_database_request d e
      else (if text_eq e.target (codes "robot")
          then handle_robot_request e
          else (if text_eq e.target (codes "event_bus")
              then handle_event_bus_request e
              else (if text_eq e.target (codes "config")
                  then handle_config_request e
                  else (if text_eq e.target (codes "connect_robot")
                      then handle_connect_robot_request e
                      else send_response e.id nothing
                          (message (codes "unknown target: " ++ e.target))))))
