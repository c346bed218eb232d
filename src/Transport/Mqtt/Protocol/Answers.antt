-- ===== src/Transport/Mqtt/Protocol/Answers.antt =====
-- roboserver/mqtt_server/mqtt_server.go and bridge_hook.go: what the hooks do with the messages that
-- the server publishes itself, which the broker shows to the same hooks.
use mathlib.Core.Path.{subst}
use robomesh.Prelude.{
  ℕ, true, false, Option, none, some, [], ◌∷◌, ◌++◌, ◌≡◌, refl, ap, inl, inr, Bool-cases,
  Option-cases, Text, codes, length, length-append, text_eq-ne, arith,
}
use robomesh.Prelude.Bytes.{
  is_empty, text_eq, contains, has_prefix, strip_prefix, trim_prefix, trim_suffix,
}
use robomesh.Prelude.Results.{Result, ok, err}
use robomesh.Database.Keys.{mqtt_nonce_key}
use robomesh.Auth.Heartbeat.{HeartbeatError, HeartbeatResult, process_heartbeat}
use robomesh.Transport.World.{World}
use robomesh.Transport.Challenge.{Granted, issue_nonce, redeem}
use robomesh.Transport.Mqtt.Reading.{PrivateTopic, auth_response, heartbeat_response, to_robot}
use robomesh.Transport.Mqtt.Protocol.Dispatched.{
  auth_uuid, Dispatched, ignored, authenticates, beats, messages, on_published-Dispatched,
}
use robomesh.Transport.Mqtt.Protocol.{
  Publication, MqttServer, Answer, auth_topic, heartbeat_topic, auth_error, nonce_answer,
  heartbeat_env, heartbeat_answer, start_session, handle_auth, handle_heartbeat, on_published,
  bridge, hooks, Body,
}

contains-append : (c : ℕ) (s t : Text) → contains c t ≡ true → contains c (s ++ t) ≡ true
unfolding contains
contains-append c [] t h = h
contains-append c (x ∷ s) t h = ground (arith, contains-append c s t h)

-- A request suffix is not cut from a response topic.
slash_stays :
    (u : Text) → contains b'/' (trim_suffix (u ++ codes "/response") (codes "/request")) ≡ true
unfolding contains trim_suffix text_eq
slash_stays [] = refl
slash_stays (x ∷ u) =
    let longer : text_eq (x ∷ (u ++ codes "/response")) (codes "/request") ≡ false =
      text_eq-ne (x ∷ (u ++ codes "/response")) (codes "/request")
        λ e. omega (arith, ap length e, length-append u (codes "/response")) in
    ground (arith, slash_stays u, longer)

module _ {S D : Type 0} (server : MqttServer S D) where
  -- A message on a topic of the server's answers does nothing.
  hooks-PrivateTopic :
      (uuid topic : Text) (pk : Publication) (w : World S D)
      → PrivateTopic uuid topic
      → hooks server (record pk { topic = topic }) w ≡ (w, none)
  unfolding hooks bridge on_published has_prefix strip_prefix trim_prefix
  hooks-PrivateTopic uuid topic pk w auth_response = ground (arith, slash_stays uuid)
  hooks-PrivateTopic uuid topic pk w heartbeat_response =
      ground (arith, contains-append b'/' uuid (codes "/response") slash)
    where
      slash : contains b'/' (codes "/response") ≡ true
      slash = unfold contains in refl
  hooks-PrivateTopic uuid topic pk w to_robot = refl

  -- The topic of an answer is one of the server's, of some robot.
  abbrev OnPrivateTopic : Answer → Type 0
  OnPrivateTopic none = Unit {0}
  OnPrivateTopic (some (topic, body)) = (uuid : Text) × PrivateTopic uuid topic

  auth_error-Private : (uuid : Text) (e : Option Text) → OnPrivateTopic (auth_error uuid e)
  unfolding auth_topic
  auth_error-Private uuid none = tt
  auth_error-Private uuid (some e) = (uuid, auth_response)

  nonce_answer-Private :
      (uuid : Text) (r : Result (Option Text) Text) → OnPrivateTopic (nonce_answer uuid r)
  unfolding auth_topic
  nonce_answer-Private uuid (ok n) = (uuid, auth_response)
  nonce_answer-Private uuid (err e) = auth_error-Private uuid e

  start_session-Private :
      (uuid : Text) (pk : Publication) (r : S × Result (Option Text) Granted) (w : World S D)
      → OnPrivateTopic (start_session server uuid pk r w).1
  unfolding start_session auth_topic
  start_session-Private uuid pk (s, ok g) w = (uuid, auth_response)
  start_session-Private uuid pk (s, err e) w = auth_error-Private uuid e

  handle_auth-Private :
      (uuid : Text) (pk : Publication) (w : World S D)
      → OnPrivateTopic (handle_auth server uuid pk w).1
  unfolding handle_auth
  handle_auth-Private uuid pk w = elim (Option-cases (server.parse_auth pk.payload)) [
    | inl e ↦ rw (handle_auth, e) (auth_error-Private uuid (some (codes "invalid JSON")))
    | inr (req, e) ↦ elim (Bool-cases (is_empty req.signature)) [
      | inl s ↦
          rw (handle_auth, e, s)
            (nonce_answer-Private uuid
              (issue_nonce server.env.auth (mqtt_nonce_key uuid) uuid pk.draws.nonce_bytes w.pg
                w.redis).1)
      | inr s ↦
          rw (handle_auth, e, s)
            (start_session-Private uuid pk
              (redeem server.env.auth (mqtt_nonce_key uuid) uuid req.signature pk.remote pk.draws
                w.redis)
              w)
    ]
  ]

  heartbeat_answer-Private :
      (uuid : Text) (r : S × Result HeartbeatError HeartbeatResult) (w : World S D)
      → OnPrivateTopic (heartbeat_answer server uuid r w).1
  unfolding heartbeat_topic
  heartbeat_answer-Private uuid (s, ok x) w = (uuid, heartbeat_response)
  heartbeat_answer-Private uuid (s, err e) w = (uuid, heartbeat_response)

  handle_heartbeat-Private :
      (uuid : Text) (pk : Publication) (w : World S D)
      → OnPrivateTopic (handle_heartbeat server uuid pk w).1
  unfolding handle_heartbeat
  handle_heartbeat-Private uuid pk w = elim (Option-cases (server.parse_heartbeat pk.payload)) [
    | inl e ↦ rw (handle_heartbeat, e) tt
    | inr (req, e) ↦
        rw (handle_heartbeat, e)
          (heartbeat_answer-Private uuid
            (process_heartbeat (heartbeat_env server) w.pg w.redis uuid req.payload req.signature
              pk.remote pk.now)
            w)
  ]

  Dispatched-Private :
      {pk : Publication} {w : World S D} {r : World S D × Answer}
      → Dispatched server pk w r
      → OnPrivateTopic r.1
  Dispatched-Private ignored = tt
  Dispatched-Private {pk = pk} {w = w} authenticates = handle_auth-Private (auth_uuid pk.topic) pk w
  Dispatched-Private {pk = pk} {w = w} (beats uuid) = handle_heartbeat-Private uuid pk w
  Dispatched-Private (messages uuid) = tt

  -- What the server publishes in answer to any message is on a topic on which its own hooks do
  -- nothing, whoever sends there and whatever the payload is: no answer is answered again.
  pub hooks-answers :
      (pk echo : Publication) (w w' : World S D) (topic : Text) (body : Body)
      → (hooks server pk w).1 ≡ some (topic, body)
      → hooks server (record echo { topic = topic }) w' ≡ (w', none)
  unfolding hooks
  hooks-answers pk echo w w' topic body h =
      let (uuid, p) =
        subst OnPrivateTopic h
          (Dispatched-Private (on_published-Dispatched server pk (bridge server pk w))) in
      hooks-PrivateTopic uuid topic echo w' p
