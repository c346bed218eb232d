-- ===== src/Transport/Mqtt/Protocol/Steps.antt =====
-- roboserver/mqtt_server/mqtt_server.go: each handler of a message, the nonces that it leaves in Redis
-- and the tokens that it publishes.
use mathlib.Core.Path.{subst}
use robomesh.Prelude.{
  true, false, Option, none, some, ◌≡◌, refl, sym, ◌∙◌, inl, inr, Bool-cases, Option-cases,
  some_inj, none≢some, Text, text_eq_iff, codes, arith, if◌then◌else◌,
}
use robomesh.Prelude.Bytes.{is_empty, text_eq, strip_prefix}
use robomesh.Prelude.Results.{Result, ok, err, Result-cases}
use robomesh.Database.Client.{RedisLaws}
use robomesh.Database.Keys.{mqtt_nonce_key}
use robomesh.Database.Keys.Schema.{render, render_ne, mqtt_nonce}
use robomesh.Database.Redis.{get_active_robot}
use robomesh.HandlerEngine.Manager.{get}
use robomesh.HandlerEngine.Process.{mqtt_link}
use robomesh.Auth.Heartbeat.{HeartbeatError, HeartbeatResult, process_heartbeat}
use robomesh.Transport.World.{World, times_out, attach}
use robomesh.Transport.Kept.{mqtt_nonce_key-Foreign, attach-Kept, process_heartbeat-other}
use robomesh.Transport.Challenge.{Granted, issue_nonce, redeem}
use robomesh.Transport.Challenge.Pending.{Pending, Drawn}
use robomesh.Transport.Challenge.Guarded.{
  NonceKeys, Guarded, same-Guarded, issue_nonce-Guarded, redeem-Guarded,
}
use robomesh.Transport.Challenge.Redeemed.{PlainKeys, Proven, redeem-Proven}
use robomesh.Transport.Mqtt.Protocol.{
  AuthRequest, auth_body, heartbeat_body, Publication, MqttServer, Answer, to_robot_topic,
  auth_error, nonce_answer, heartbeat_env, heartbeat_answer, start_session, handle_auth,
  handle_heartbeat, handle_message, bridge,
}

pub mqtt_nonce_key-NonceKeys : NonceKeys mqtt_nonce_key
unfolding render
mqtt_nonce_key-NonceKeys = record {
  apart = λ u v n. render_ne (mqtt_nonce u) (mqtt_nonce v) (λ e. differ u v n (name_inj u v e));
  foreign = mqtt_nonce_key-Foreign;
}
  where
    name_inj : (u v : Text) → mqtt_nonce u ≡ mqtt_nonce v → u ≡ v
    name_inj u v e = cc

    differ : (u v : Text) → text_eq u v ≡ false → u ≡ v → ⊥
    differ u v n e = ground (arith, text_eq_iff u v)

-- The token of an answer that says ok.
unfoldable pub published_jwt : Answer → Option Text
published_jwt none = none
published_jwt (some (topic, auth_body r)) =
    if text_eq r.status (codes "ok") then some r.jwt else none
published_jwt (some (topic, heartbeat_body status error)) = none

auth_error-none : (uuid : Text) (e : Option Text) → published_jwt (auth_error uuid e) ≡ none
unfolding published_jwt text_eq
auth_error-none uuid none = refl
auth_error-none uuid (some e) = refl

nonce_answer-none :
    (uuid : Text) (r : Result (Option Text) Text) → published_jwt (nonce_answer uuid r) ≡ none
unfolding published_jwt text_eq
nonce_answer-none uuid (ok n) = refl
nonce_answer-none uuid (err e) = auth_error-none uuid e

module _ {S D : Type 0} (server : MqttServer S D) (laws : RedisLaws server.env.auth.redis.client)
    (Source : Text → Text → Type 0) where
  -- The registry is still this one, and every nonce of the MQTT server waits for its robot.
  abbrev pub Clean : D → World S D → Type 0
  Clean d w = (w.pg ≡ d) × Guarded server.env.auth laws Source mqtt_nonce_key w.pg w.redis

  -- A state that is clean, with an answer that grants no token but to a robot that proved its identity.
  pub record Step (d : D) (pk : Publication) (uuid : Text) (r : World S D × Answer) : Type 0 where
    pub clean : Clean d r.0
    pub granted :
        (token : Text)
        → published_jwt r.1 ≡ some token
        → (req : AuthRequest) × (g : Granted) × (server.parse_auth pk.payload ≡ some req)
          × (g.jwt ≡ token)
          × Proven server.env.auth Source d uuid req.signature pk.remote pk.draws.issued_at g

  pub silent :
      (d : D) (pk : Publication) (uuid : Text) (r : World S D × Answer)
      → Clean d r.0
      → published_jwt r.1 ≡ none
      → Step d pk uuid r
  silent d pk uuid r c n = record { clean = c; granted = λ token h. absurd (none≢some (sym n ∙ h)) }

  start_session-Step :
      (d : D) (pk : Publication) (uuid : Text) (req : AuthRequest) (w : World S D)
      → PlainKeys server.env.auth d
      → server.parse_auth pk.payload ≡ some req
      → Clean d w
      → Step d pk uuid (
          start_session server uuid pk
            (redeem server.env.auth
              (mqtt_nonce_key uuid)
              uuid
              req.signature
              pk.remote
              pk.draws
              w.redis)
            w)
  unfolding start_session published_jwt text_eq
  start_session-Step d pk uuid req w keys parsed c =
      let key = mqtt_nonce_key uuid in
      let r = redeem server.env.auth key uuid req.signature pk.remote pk.draws w.redis in
      let guarded =
        redeem-Guarded server.env.auth laws Source mqtt_nonce_key mqtt_nonce_key-NonceKeys uuid
          req.signature pk.remote pk.draws w.pg w.redis c.1 in
      elim (Result-cases r.1) [
        | inr (e, h) ↦
            let quiet =
              silent d pk uuid (record w { redis = r.0 }, auth_error uuid e) (c.0, guarded)
                (auth_error-none uuid e) in
            rw (start_session, h) quiet
        | inl (g, h) ↦
            let w' : World S D = record w { redis = r.0 } in
            let kept = λ (u : Text).
              attach-Kept server.env laws (mqtt_nonce_key u) (mqtt_nonce_key-Foreign u) uuid
                g.device_type pk.remote g.session_id (some (mqtt_link (to_robot_topic uuid)))
                times_out w' in
            let after =
              (attach server.env uuid g.device_type pk.remote g.session_id
                (some (mqtt_link (to_robot_topic uuid))) times_out w').0 in
            let before : Pending server.env.auth laws Source key uuid d w.redis =
              subst (λ x. Pending server.env.auth laws Source key uuid x w.redis) c.0 (c.1 uuid) in
            rw (start_session, h)
              record {
                clean = (
                  (kept uuid).0 ∙ c.0,
                  same-Guarded server.env.auth laws Source mqtt_nonce_key w'.pg after.pg w'.redis
                      after.redis (kept uuid).0 (λ u. (kept u).1) guarded,
                );
                granted = λ token e. (
                  req,
                  g,
                  parsed,
                  some_inj e,
                  redeem-Proven server.env.auth laws Source key uuid req.signature pk.remote
                      pk.draws d w.redis g keys before h,
                );
              }
      ]

  -- Where a message asks for a nonce, the bytes are drawn for this robot.
  abbrev pub DrawsFor : Text → Publication → Type 0
  DrawsFor uuid pk =
      (req : AuthRequest)
      → server.parse_auth pk.payload ≡ some req
      → is_empty req.signature ≡ true
      → Drawn (Source uuid) pk.draws.nonce_bytes

  pub handle_auth-Step :
      (d : D) (pk : Publication) (uuid : Text) (w : World S D)
      → DrawsFor uuid pk
      → PlainKeys server.env.auth d
      → Clean d w
      → Step d pk uuid (handle_auth server uuid pk w)
  unfolding handle_auth
  handle_auth-Step d pk uuid w random keys c = elim (Option-cases (server.parse_auth pk.payload)) [
    | inl e ↦
        let quiet =
          silent d pk uuid (w, auth_error uuid (some (codes "invalid JSON"))) c
            (auth_error-none uuid (some (codes "invalid JSON"))) in
        rw (handle_auth, e) quiet
    | inr (req, e) ↦ elim (Bool-cases (is_empty req.signature)) [
      | inl s ↦
          let r =
            issue_nonce server.env.auth (mqtt_nonce_key uuid) uuid pk.draws.nonce_bytes w.pg
              w.redis in
          let guarded =
            issue_nonce-Guarded server.env.auth laws Source mqtt_nonce_key mqtt_nonce_key-NonceKeys
              uuid pk.draws.nonce_bytes w.pg w.redis (random req e s) c.1 in
          let quiet =
            silent d pk uuid (record w { redis = r.0 }, nonce_answer uuid r.1) (c.0, guarded)
              (nonce_answer-none uuid r.1) in
          rw (handle_auth, e, s) quiet
      | inr s ↦
          let session = start_session-Step d pk uuid req w keys e c in
          rw (handle_auth, e, s) session
    ]
  ]

  heartbeat_answer-Step :
      (d : D) (pk : Publication) (topic uuid : Text) (r : S × Result HeartbeatError HeartbeatResult)
      (w : World S D)
      → Clean d (record w { redis = r.0 })
      → Step d pk topic (heartbeat_answer server uuid r w)
  unfolding published_jwt
  heartbeat_answer-Step d pk topic uuid (s, ok x) w c =
      silent d pk topic (heartbeat_answer server uuid (s, ok x) w) c refl
  heartbeat_answer-Step d pk topic uuid (s, err e) w c =
      silent d pk topic (heartbeat_answer server uuid (s, err e) w) c refl

  pub handle_heartbeat-Step :
      (d : D) (pk : Publication) (topic uuid : Text) (w : World S D)
      → Clean d w
      → Step d pk topic (handle_heartbeat server uuid pk w)
  unfolding handle_heartbeat published_jwt
  handle_heartbeat-Step d pk topic uuid w c =
      elim (Option-cases (server.parse_heartbeat pk.payload)) [
        | inl e ↦ let quiet = silent d pk topic (w, none) c refl in rw (handle_heartbeat, e) quiet
        | inr (req, e) ↦
            let henv = heartbeat_env server in
            let r =
              process_heartbeat henv w.pg w.redis uuid req.payload req.signature pk.remote pk.now in
            let guarded =
              same-Guarded server.env.auth laws Source mqtt_nonce_key w.pg w.pg w.redis r.0 refl
                (λ u.
                  process_heartbeat-other henv laws (mqtt_nonce_key u) (mqtt_nonce_key-Foreign u)
                    w.pg w.redis uuid req.payload req.signature pk.remote pk.now)
                c.1 in
            let answered = heartbeat_answer-Step d pk topic uuid r w (c.0, guarded) in
            rw (handle_heartbeat, e) answered
      ]

  pub handle_message-Clean :
      (d : D) (pk : Publication) (uuid : Text) (w : World S D)
      → Clean d w
      → Clean d (handle_message server uuid pk w)
  unfolding handle_message
  handle_message-Clean d pk uuid w c =
      elim (Result-cases (get_active_robot server.env.auth.redis w.redis uuid)) [
        | inr (e, h) ↦ rw (handle_message, h) c
        | inl (robot, h) ↦ elim (Option-cases (get w.engine.manager uuid)) [
          | inl g ↦ rw (handle_message, h, g) c
          | inr (hp, g) ↦ rw (handle_message, h, g) c
        ]
      ]

  pub bridge-Clean :
      (d : D) (pk : Publication) (w : World S D) → Clean d w → Clean d (bridge server pk w)
  unfolding bridge
  bridge-Clean d pk w c = elim (Option-cases (strip_prefix (codes "robomesh/message/") pk.topic)) [
    | inl e ↦ rw (bridge, e) c
    | inr (rest, e) ↦ elim (Bool-cases (is_empty rest)) [
      | inl n ↦ rw (bridge, e, n) c
      | inr n ↦ rw (bridge, e, n) c
    ]
  ]
