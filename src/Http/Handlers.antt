-- ===== src/Http/Handlers.antt =====
-- roboserver/http_server/handler.go: the handlers that a person lists, starts and kills over HTTP.
-- Both databases are present. The types of handlers are read from the file system and are not here,
-- and the stream of logs is not either.
pub mod Started
use robomesh.Prelude.{
  ℕ, Bool, true, false, Option, none, some, List, [], ◌++◌, Text, codes, get_elem?, if◌then◌else◌,
}
use robomesh.Prelude.Assoc.{Map, is_some}
use robomesh.Prelude.Results.{Result, ok, err}
use robomesh.Database.Redis.{get_active_robot, get_heartbeat}
use robomesh.HandlerEngine.Manager.{
  HandlerManager, get, has, list_all, try_start_spawning, finish_spawning,
}
use robomesh.HandlerEngine.Process.{HandlerProcess, Subscription}
use robomesh.HandlerEngine.Heap.{Engine, kill}
use robomesh.Auth.Nonce.{generate_session_id}
use robomesh.Auth.Handshake.{Draws, to_option}
use robomesh.Transport.World.{World, ServerEnv, spawn_handler_process}
use robomesh.Http.Robots.{HttpError, http_error, panics}

-- What getHandlerStatus encodes.
pub record HandlerStatus : Type 0 where
  pub uuid : Text
  pub active : Bool
  pub process : Option HandlerProcess

module _ {S D : Type 0} (env : ServerEnv S D) where
  abbrev pid_at : List HandlerProcess → ℕ → ℕ
  pid_at procs a = elim (get_elem? procs a) [ none ↦ 0 | some hp ↦ hp.pid ]

  unfoldable pub list_handlers : World S D → Map ℕ
  unfolding list_all
  list_handlers w = list_all (pid_at w.engine.procs) w.engine.manager

  abbrev process_at : List HandlerProcess → Option ℕ → Option HandlerProcess
  process_at procs none = none
  process_at procs (some a) = get_elem? procs a

  unfoldable pub get_handler_status : Text → World S D → HandlerStatus
  get_handler_status uuid w = record {
    uuid = uuid;
    active = has w.engine.manager uuid;
    process = process_at w.engine.procs (get w.engine.manager uuid);
  }

  -- The type and the address of the robot: those of its session, or the registered type with the
  -- address of its last heartbeat.
  unfoldable pub robot_info : Text → World S D → Option (Text × Text)
  robot_info uuid w = elim (get_active_robot env.auth.redis w.redis uuid) [
    | ok active ↦ some (active.device_type, active.ip)
    | err e ↦ elim (env.auth.pg.get_robot_by_uuid w.pg uuid) [
      | none ↦ none
      | some robot ↦ some (
        robot.device_type,
        elim (get_heartbeat env.auth.redis w.redis uuid) [ ok hb ↦ hb.ip | err e ↦ [] ],
      )
    ]
  ]

  -- The process id, which is what the answer has.
  abbrev started : World S D × Option ℕ → World S D × Result HttpError ℕ
  started (w, none) = (w, err (http_error 500 (codes "Failed to start handler")))
  started (w, some a) = (w, ok (pid_at w.engine.procs a))

  -- startHandler from the look-up of the robot to the answer.
  unfoldable pub start_marked : Draws → Text → World S D → World S D × Result HttpError ℕ
  unfolding robot_info spawn_handler_process
  start_marked draws uuid w = elim (robot_info uuid w) [
    | none ↦ (w, err (http_error 404 (codes "Robot not found")))
    | some (device_type, ip) ↦ elim (generate_session_id draws.session_bytes draws.nano) [
      | none ↦ (w, err panics)
      | some session_id ↦
          started
            (spawn_handler_process env uuid device_type ip (codes "manual-" ++ session_id) none w)
    ]
  ]

  abbrev with_manager : World S D → HandlerManager ℕ → World S D
  with_manager w m = record w { engine = record w.engine { manager = m } }

  -- The mark is removed in every case, also when the handler panics.
  unfoldable pub start_handler : Draws → Text → World S D → World S D × Result HttpError ℕ
  unfolding start_marked
  start_handler draws uuid w =
      let (m, mine) = try_start_spawning w.engine.manager uuid in
      if mine
      then (let (w', reply) = start_marked draws uuid (with_manager w m) in
          (with_manager w' (finish_spawning w'.engine.manager uuid), reply))
      else (w, err (http_error 409 (codes "Handler already running or being started")))

  abbrev killed :
      World S D → Text → Engine × Option (List Subscription) → World S D × Result HttpError Text
  killed w uuid (e, none) =
      (w, err (http_error 404 (codes "no handler running for robot " ++ uuid)))
  killed w uuid (e, some cancelled) = (record w { engine = e }, ok uuid)

  unfoldable pub kill_handler : Text → World S D → World S D × Result HttpError Text
  unfolding kill
  kill_handler uuid w = killed w uuid (kill uuid w.engine)
