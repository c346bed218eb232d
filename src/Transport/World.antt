-- ===== src/Transport/World.antt =====
-- What the transports share: the state of the server that they change, the start of a handler
-- (SpawnHandlerProcess of roboserver/handler_engine/process.go) and the choice between a running
-- handler, a new one and one that another connection is starting.
use robomesh.Prelude.{ℕ, Option, none, some, List, [], ◌∷◌, ◌++◌, Text, codes, if◌then◌else◌}
use robomesh.Prelude.Results.{ok, err}
use robomesh.Database.Redis.{get_active_robot, set_active_robot}
use robomesh.HandlerEngine.Manager.{HandlerManager, get, try_start_spawning, finish_spawning}
use robomesh.HandlerEngine.Process.{Link, Subscription, reattach}
use robomesh.HandlerEngine.Heap.{Engine, install, modify}
use robomesh.Auth.Handshake.{AuthEnv}

-- An event on the bus: its type and what it is about.
pub record Event : Type 0 where
  pub event_type : Text
  pub subject : Text

pub record World (S D : Type 0) : Type 0 where
  pub redis : S
  pub pg : D
  pub engine : Engine
  pub published : List Event

-- Databases and keys; ResolveHandlerScript with the start of the script, which gives a process id;
-- and the subscription of a topic by the bus.
pub record ServerEnv (S D : Type 0) : Type 0 where
  pub auth : AuthEnv S D
  pub start_script : Text → Option ℕ
  pub subscribe : Text → Option Subscription

-- What a connection that waits for another's spawn finds: the handler, the deadline or a shutdown.
pub data Wait : Type 0 where
  appears : ℕ → Wait
  times_out shuts_down : Wait

-- A handler that is ready, a spawn that failed, or a wait in vain.
pub data Attachment : Type 0 where
  attached : ℕ → Attachment
  spawn_failed unavailable shutting_down : Attachment

module _ {S D : Type 0} (env : ServerEnv S D) where
  -- The process id goes into the session of the robot, if it has one; an error is ignored.
  unfoldable pub store_pid : Text → ℕ → S → S
  store_pid uuid pid s = elim (get_active_robot env.auth.redis s uuid) [
    | err e ↦ s
    | ok active ↦
        (set_active_robot env.auth.redis s (record active { pid = pid }) env.auth.redis_ttl).0
  ]

  abbrev pub subscriptions_of : Option Subscription → List Subscription
  subscriptions_of none = []
  subscriptions_of (some x) = x ∷ []

  -- The result has the address of the process, or `none` where the script could not be started.
  unfoldable pub spawn_handler_process :
      Text → Text → Text → Text → Option Link → World S D → World S D × Option ℕ
  unfolding store_pid install
  spawn_handler_process uuid device_type ip session_id link w =
      elim (env.start_script device_type) [
        | none ↦ (w, none)
        | some pid ↦
            let topic = codes "handler." ++ (uuid ++ codes ".message") in
            let (engine, a) =
              install uuid device_type ip session_id pid link
                (subscriptions_of (env.subscribe topic)) w.engine in
            (record w { redis = store_pid uuid pid w.redis; engine = engine }, some a)
      ]

  -- A connection that was let through TryStartSpawning spawns and then clears the mark.
  unfoldable pub spawn_marked :
      Text → Text → Text → Text → Option Link → World S D → World S D × Option ℕ
  unfolding spawn_handler_process
  spawn_marked uuid device_type ip session_id link w =
      let (w', r) = spawn_handler_process uuid device_type ip session_id link w in
      (
        record w' {
          engine = record w'.engine { manager = finish_spawning w'.engine.manager uuid };
        },
        r,
      )

  abbrev set_manager : World S D → HandlerManager ℕ → World S D
  set_manager w m = record w { engine = record w.engine { manager = m } }

  unfoldable pub reattach_at : ℕ → Option Link → Text → Text → World S D → World S D
  reattach_at a link ip session_id w = record w {
    engine = modify (reattach link ip session_id) a w.engine;
  }

  abbrev pub after_wait : Wait → Option Link → Text → Text → World S D → World S D × Attachment
  after_wait (appears a) link ip session_id w = (reattach_at a link ip session_id w, attached a)
  after_wait times_out link ip session_id w = (w, unavailable)
  after_wait shuts_down link ip session_id w = (w, shutting_down)

  abbrev pub after_spawn : World S D × Option ℕ → World S D × Attachment
  after_spawn (w, some a) = (w, attached a)
  after_spawn (w, none) = (w, spawn_failed)

  -- Reattach to the handler of the robot, start one, or wait for the connection that is starting it.
  unfoldable pub attach :
      Text → Text → Text → Text → Option Link → Wait → World S D → World S D × Attachment
  unfolding reattach_at spawn_marked
  attach uuid device_type ip session_id link wait w = elim (get w.engine.manager uuid) [
    | some a ↦ (reattach_at a link ip session_id w, attached a)
    | none ↦
        let (m, mine) = try_start_spawning w.engine.manager uuid in
        if mine
        then after_spawn (spawn_marked uuid device_type ip session_id link (set_manager w m))
        else after_wait wait link ip session_id w
  ]
