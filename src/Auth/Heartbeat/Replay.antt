-- ===== src/Auth/Heartbeat/Replay.antt =====
-- Replay protection of roboserver/auth/heartbeat_handler.go: while the state of a robot can be read,
-- the numbers of its accepted heartbeats strictly increase.
use robomesh.Prelude.{
  ℕ, false, some, ◌≡◌, inl, inr, sym, ◌∙◌, ap, Text, text_eq, arith, some_inj, Option-cases,
}
use robomesh.Prelude.Int.{ℤ, ◌<ℤ◌}
use robomesh.Prelude.Results.{ok, err≢ok, Result-cases}
use robomesh.Database.Client.{Codec, RedisLaws, RoundTrips}
use robomesh.Database.Keys.Schema.{active, heartbeat, render, render_ne}
use robomesh.Database.Redis.{
  HeartbeatState, get_heartbeat, set_heartbeat, get_active_robot, set_active_robot, store,
}
use robomesh.Database.Redis.Laws.{store_done, store_other, fetch_found}
use robomesh.Auth.Heartbeat.{
  HeartbeatEnv, HeartbeatPayload, HeartbeatResult, refresh_session, commit_heartbeat,
  check_heartbeat, process_heartbeat, heartbeat_ttl,
}
use robomesh.Auth.Heartbeat.Accepted.{commit_heartbeat-ok, process_heartbeat-Checked}

module _ {S D : Type 0} (env : HeartbeatEnv S D) (l : RedisLaws env.redis.client) where
  open l use {contents}

  active_ne_heartbeat : (u v : Text) → text_eq (render (active u)) (render (heartbeat v)) ≡ false
  active_ne_heartbeat u v = render_ne (active u) (heartbeat v) (λ e. different e)
    where
      different : active u ≡ heartbeat v → ⊥
      different e = cc

  -- Moving the session does not touch the heartbeat state of any robot.
  refresh_session_other :
      (s : S) (uuid ip v : Text) (ttl : ℤ)
      → contents (refresh_session env s uuid ip ttl) (render (heartbeat v))
        ≡ contents s (render (heartbeat v))
  unfolding refresh_session set_active_robot render
  refresh_session_other s uuid ip v ttl = elim (Result-cases (get_active_robot env.redis s uuid)) [
    | inr (e, h) ↦ ground arith
    | inl (a, h) ↦
        rw (h, refresh_session)
          (store_other env.redis l env.redis.active_codec s (render (active a.uuid))
            (record a { ip = ip }) ttl (render (heartbeat v)) (active_ne_heartbeat a.uuid v))
  ]

  -- The state that is read back after a heartbeat was committed is the one that it wrote.
  commit_heartbeat-state :
      RoundTrips env.redis.heartbeat_codec
      → (s : S) (uuid ip : Text) (now : ℕ) (p : HeartbeatPayload) (r : HeartbeatResult)
        (st : HeartbeatState)
      → (commit_heartbeat env s uuid ip now p).1 ≡ ok r
      → get_heartbeat env.redis (commit_heartbeat env s uuid ip now p).0 uuid ≡ ok st
      → st.last_seq ≡ p.seq
  unfolding commit_heartbeat get_heartbeat set_heartbeat render
  commit_heartbeat-state rt s uuid ip now p r st h got =
      elim (Option-cases (store env.redis codec s key state ttl).1) [
        | inr (x, e) ↦ ground arith
        | inl e ↦
            let (t, m, there) = store_done env.redis l codec s key state ttl e in
            let (u, there', dec) =
              fetch_found env.redis l codec (refresh_session env s' uuid ip ttl) key
                (rw (e, commit_heartbeat) at got) in
            let moved : contents (refresh_session env s' uuid ip ttl) key ≡ contents s' key =
              refresh_session_other s' uuid ip uuid ttl in
            let same : u ≡ t = some_inj (sym there' ∙ moved ∙ there) in
            let back : codec.unmarshal t ≡ some state = rt state t m in
            ap (λ (z : HeartbeatState). z.last_seq)
              (some_inj (sym dec ∙ ap codec.unmarshal same ∙ back))
      ]
    where
      codec : Codec HeartbeatState
      codec = env.redis.heartbeat_codec

      key : Text
      key = render (heartbeat uuid)

      ttl : ℤ
      ttl = heartbeat_ttl env.redis_ttl p.ttl

      state : HeartbeatState
      state = record { uuid = uuid; ip = ip; last_seq = p.seq; last_seen = now }

      s' : S
      s' = (store env.redis codec s key state ttl).0

  process_heartbeat-state :
      RoundTrips env.redis.heartbeat_codec
      → (d : D) (s : S) (uuid json sig ip : Text) (now : ℕ) (r : HeartbeatResult)
        (st : HeartbeatState)
      → (process_heartbeat env d s uuid json sig ip now).1 ≡ ok r
      → get_heartbeat env.redis (process_heartbeat env d s uuid json sig ip now).0 uuid ≡ ok st
      → st.last_seq ≡ r.payload.seq
  unfolding process_heartbeat
  process_heartbeat-state rt d s uuid json sig ip now r st h got =
      elim (Result-cases (check_heartbeat env d s uuid json sig)) [
        | inr (e, c) ↦ absurd (err≢ok (rw (c, process_heartbeat) at h))
        | inl (p, c) ↦
            let h' = rw (c, process_heartbeat) at h in
            let (_, _, same) = commit_heartbeat-ok env s uuid ip now p h' in
            commit_heartbeat-state rt s uuid ip now p r st h' (rw (c, process_heartbeat) at got)
            ∙ ap (λ (q : HeartbeatPayload). q.seq) (sym same)
      ]

  -- Right after an accepted heartbeat, and while the state of the robot can be read, another
  -- heartbeat of that robot is accepted only with a greater number. The client keeps the laws of
  -- Redis, and the state survives JSON.
  pub process_heartbeat_increasing :
      RoundTrips env.redis.heartbeat_codec
      → (d d' : D) (s : S) (uuid json json' sig sig' ip ip' : Text) (now now' : ℕ)
        (r r' : HeartbeatResult) (st : HeartbeatState)
      → (process_heartbeat env d s uuid json sig ip now).1 ≡ ok r
      → get_heartbeat env.redis (process_heartbeat env d s uuid json sig ip now).0 uuid ≡ ok st
      → (process_heartbeat env d'
          (process_heartbeat env d s uuid json sig ip now).0
          uuid
          json'
          sig'
          ip'
          now').1
        ≡ ok r'
      → r.payload.seq <ℤ r'.payload.seq
  process_heartbeat_increasing rt d d' s uuid json json' sig sig' ip ip' now now' r r' st h got
        again =
      rw (← process_heartbeat-state rt d s uuid json sig ip now r st h got)
        ((process_heartbeat-Checked env d' _ uuid json' sig' ip' now' r' again).0.fresh st got)
