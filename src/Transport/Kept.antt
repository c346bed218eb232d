-- ===== src/Transport/Kept.antt =====
-- Which keys of Redis the start of a handler (SpawnHandlerProcess of
-- roboserver/handler_engine/process.go) and a heartbeat (roboserver/auth/heartbeat_handler.go) leave
-- alone: all but those of sessions and heartbeats; and neither writes to PostgreSQL.
use robomesh.Prelude.{
  ℕ, false, Option, none, some, ◌≡◌, refl, ◌∙◌, inl, inr, Bool-cases, Option-cases, Text, text_eq,
}
use robomesh.Prelude.Int.{ℤ}
use robomesh.Prelude.Results.{Result-cases}
use robomesh.Database.Client.{RedisLaws}
use robomesh.Database.Keys.{robot_key, heartbeat_key, udp_nonce_key, mqtt_nonce_key}
use robomesh.Database.Keys.Schema.{render, render_ne, active, heartbeat, udp_nonce, mqtt_nonce}
use robomesh.Database.Redis.{
  RedisHandler, ActiveRobot, HeartbeatState, get_active_robot, set_active_robot,
  remove_active_robot, set_heartbeat,
}
use robomesh.Database.Redis.Laws.{store_other}
use robomesh.HandlerEngine.Process.{Link}
use robomesh.HandlerEngine.Manager.{get, try_start_spawning}
use robomesh.Auth.Heartbeat.{
  HeartbeatEnv, HeartbeatPayload, refresh_session, commit_heartbeat, check_heartbeat,
  process_heartbeat, heartbeat_ttl,
}
use robomesh.Transport.World.{
  World, ServerEnv, Wait, appears, times_out, shuts_down, after_wait, after_spawn, store_pid,
  reattach_at, spawn_handler_process, spawn_marked, attach,
}

-- The key is of no session and of no heartbeat.
pub record Foreign (key : Text) : Type 0 where
  pub no_session : (u : Text) → text_eq (robot_key u) key ≡ false
  pub no_heartbeat : (u : Text) → text_eq (heartbeat_key u) key ≡ false

pub udp_nonce_key-Foreign : (uuid : Text) → Foreign (udp_nonce_key uuid)
unfolding render
udp_nonce_key-Foreign uuid = record {
  no_session = λ u. render_ne (active u) (udp_nonce uuid) (λ e. cc);
  no_heartbeat = λ u. render_ne (heartbeat u) (udp_nonce uuid) (λ e. cc);
}

pub mqtt_nonce_key-Foreign : (uuid : Text) → Foreign (mqtt_nonce_key uuid)
unfolding render
mqtt_nonce_key-Foreign uuid = record {
  no_session = λ u. render_ne (active u) (mqtt_nonce uuid) (λ e. cc);
  no_heartbeat = λ u. render_ne (heartbeat u) (mqtt_nonce uuid) (λ e. cc);
}

module _ {S : Type 0} (h : RedisHandler S) (laws : RedisLaws h.client) (key : Text)
    (f : Foreign key) where
  pub set_active_robot-other :
      (s : S) (robot : ActiveRobot) (ttl : ℤ)
      → laws.contents (set_active_robot h s robot ttl).0 key ≡ laws.contents s key
  unfolding set_active_robot
  set_active_robot-other s robot ttl =
      store_other h laws h.active_codec s (robot_key robot.uuid) robot ttl key
        (f.no_session robot.uuid)

  pub set_heartbeat-other :
      (s : S) (state : HeartbeatState) (ttl : ℤ)
      → laws.contents (set_heartbeat h s state ttl).0 key ≡ laws.contents s key
  unfolding set_heartbeat
  set_heartbeat-other s state ttl =
      store_other h laws h.heartbeat_codec s (heartbeat_key state.uuid) state ttl key
        (f.no_heartbeat state.uuid)

  pub remove_active_robot-other :
      (s : S) (uuid : Text)
      → laws.contents (remove_active_robot h s uuid).0 key ≡ laws.contents s key
  unfolding remove_active_robot
  remove_active_robot-other s uuid = elim (Bool-cases (h.client.del s (robot_key uuid)).1) [
    | inl e ↦ rw e (laws.del_other s (robot_key uuid) key (f.no_session uuid))
    | inr e ↦ rw e (laws.del_other s (robot_key uuid) key (f.no_session uuid))
  ]

module _ {S D : Type 0} (env : ServerEnv S D) (laws : RedisLaws env.auth.redis.client) (key : Text)
    (f : Foreign key) where
  store_pid-other :
      (uuid : Text) (pid : ℕ) (s : S)
      → laws.contents (store_pid env uuid pid s) key ≡ laws.contents s key
  unfolding store_pid
  store_pid-other uuid pid s = elim (Result-cases (get_active_robot env.auth.redis s uuid)) [
    | inl (robot, e) ↦
        rw (e, store_pid)
          (set_active_robot-other env.auth.redis laws key f s (record robot { pid = pid })
            env.auth.redis_ttl)
    | inr (x, e) ↦ rw (e, store_pid) refl
  ]

  -- PostgreSQL is the same, and so is what Redis has at the key.
  abbrev pub Kept : World S D → World S D → Type 0
  Kept before after =
      (after.pg ≡ before.pg) × (laws.contents after.redis key ≡ laws.contents before.redis key)

  spawn_marked-Kept :
      (uuid device_type ip session_id : Text) (link : Option Link) (w : World S D)
      → Kept w (spawn_marked env uuid device_type ip session_id link w).0
  unfolding spawn_marked spawn_handler_process
  spawn_marked-Kept uuid device_type ip session_id link w =
      elim (Option-cases (env.start_script device_type)) [
        | inl e ↦ rw (spawn_marked, spawn_handler_process, e) (refl, refl)
        | inr (pid, e) ↦
            rw (spawn_marked, spawn_handler_process, e) (refl, store_pid-other uuid pid w.redis)
      ]

  after_spawn-Kept :
      (w : World S D) (r : World S D × Option ℕ) → Kept w r.0 → Kept w (after_spawn env r).0
  after_spawn-Kept w (w', none) k = k
  after_spawn-Kept w (w', some a) k = k

  after_wait-Kept :
      (wait : Wait) (link : Option Link) (ip session_id : Text) (w : World S D)
      → Kept w (after_wait env wait link ip session_id w).0
  unfolding reattach_at
  after_wait-Kept (appears a) link ip session_id w = (refl, refl)
  after_wait-Kept times_out link ip session_id w = (refl, refl)
  after_wait-Kept shuts_down link ip session_id w = (refl, refl)

  pub attach-Kept :
      (uuid device_type ip session_id : Text) (link : Option Link) (wait : Wait) (w : World S D)
      → Kept w (attach env uuid device_type ip session_id link wait w).0
  unfolding attach reattach_at
  attach-Kept uuid device_type ip session_id link wait w =
      let tried = try_start_spawning w.engine.manager uuid in
      let marked : World S D = record w { engine = record w.engine { manager = tried.0 } } in
      let spawned = spawn_marked env uuid device_type ip session_id link marked in
      let kept = spawn_marked-Kept uuid device_type ip session_id link marked in
      elim (Option-cases (get w.engine.manager uuid)) [
        | inr (a, e) ↦ rw (attach, e) (refl, refl)
        | inl e ↦ elim (Bool-cases tried.1) [
          | inl mine ↦ let started = after_spawn-Kept w spawned kept in rw (attach, e, mine) started
          | inr other ↦
              let waited = after_wait-Kept wait link ip session_id w in rw (attach, e, other) waited
        ]
      ]

module _ {S D : Type 0} (env : HeartbeatEnv S D) (laws : RedisLaws env.redis.client) (key : Text)
    (f : Foreign key) where
  refresh_session-other :
      (s : S) (uuid ip : Text) (ttl : ℤ)
      → laws.contents (refresh_session env s uuid ip ttl) key ≡ laws.contents s key
  unfolding refresh_session
  refresh_session-other s uuid ip ttl = elim (Result-cases (get_active_robot env.redis s uuid)) [
    | inl (robot, e) ↦
        rw (e, refresh_session)
          (set_active_robot-other env.redis laws key f s (record robot { ip = ip }) ttl)
    | inr (x, e) ↦ rw (e, refresh_session) refl
  ]

  commit_heartbeat-other :
      (s : S) (uuid ip : Text) (now : ℕ) (payload : HeartbeatPayload)
      → laws.contents (commit_heartbeat env s uuid ip now payload).0 key ≡ laws.contents s key
  unfolding commit_heartbeat
  commit_heartbeat-other s uuid ip now payload =
      let ttl = heartbeat_ttl env.redis_ttl payload.ttl in
      let state : HeartbeatState = record {
        uuid = uuid;
        ip = ip;
        last_seq = payload.seq;
        last_seen = now;
      } in
      let set = set_heartbeat env.redis s state ttl in
      let kept = set_heartbeat-other env.redis laws key f s state ttl in
      elim (Option-cases set.1) [
        | inr (x, e) ↦ rw (commit_heartbeat, e) kept
        | inl e ↦
            let refreshed = refresh_session-other set.0 uuid ip ttl ∙ kept in
            rw (commit_heartbeat, e) refreshed
      ]

  pub process_heartbeat-other :
      (d : D) (s : S) (uuid payload_json signature ip : Text) (now : ℕ)
      → laws.contents (process_heartbeat env d s uuid payload_json signature ip now).0 key
        ≡ laws.contents s key
  unfolding process_heartbeat
  process_heartbeat-other d s uuid payload_json signature ip now =
      elim (Result-cases (check_heartbeat env d s uuid payload_json signature)) [
        | inr (x, e) ↦ rw (process_heartbeat, e) refl
        | inl (payload, e) ↦
            rw (process_heartbeat, e) (commit_heartbeat-other s uuid ip now payload)
      ]
