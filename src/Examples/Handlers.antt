-- ===== src/Examples/Handlers.antt =====
-- The theorems of HandlerEngine on one handler.
use robomesh.Prelude.{
  ℕ, zero, suc, ◌≤◌, Bool, true, false, Option, none, some, List, [], ◌∷◌, ◌++◌, ◌≡◌, inl, inr,
  refl, Text, codes, arith, length, ltb, if◌then◌else◌, get_elem?,
}
use robomesh.Prelude.Bytes.{contains}
use robomesh.Prelude.Assoc.{Map}
use robomesh.Database.Client.{Codec}
use robomesh.Database.Postgres.{RobotRecord}
use robomesh.HandlerEngine.Manager.{get, empty, try_start_spawning}
use robomesh.HandlerEngine.Manager.Spawning.{
  System, Phase, starting, start, Reach, here, next, update, init, spawning_exclusive,
  register_vacant,
}
use robomesh.HandlerEngine.Message.{Value, null, str, Envelope, disconnect}
use robomesh.HandlerEngine.Process.{HandlerProcess, Link, tcp_link, write_capacity, close}
use robomesh.HandlerEngine.Process.Life.{receives, calls, calls-close}
use robomesh.HandlerEngine.Heap.{Engine, kill}
use robomesh.HandlerEngine.Heap.Stopping.{kill_running}
use robomesh.HandlerEngine.Route.{Context, RouteEnv, route_envelope}
use robomesh.HandlerEngine.Route.Answered.{Connects, route_envelope-Answers}
use robomesh.HandlerEngine.Route.Outcome.{Outcome}
use robomesh.Examples.Parts.{redis, registry, arm}

-- Connection 3 has started on robot u.
abbrev u : Text
u = codes "arm-1"

abbrev started : System ℕ
started = record {
  manager = (try_start_spawning empty u).0;
  phase = update (λ i. Phase.idle) 3 (starting u);
}

started-Reach : Reach init started
unfolding try_start_spawning empty robomesh.Prelude.Assoc.lookup
started-Reach = next here (start 3 u (try_start_spawning empty u).0 refl refl)

spawning_exclusive_example : ◌≡◌ {A = ℕ} 3 3
spawning_exclusive_example = spawning_exclusive started started-Reach 3 3 u refl refl

register_vacant_example :
    (get started.manager u ≡ none)
    × (try_start_spawning started.manager u ≡ (started.manager, false))
register_vacant_example = register_vacant started started-Reach 3 u refl

abbrev link : Option Link
link = some (tcp_link (codes "10.0.0.7"))

abbrev hp : HandlerProcess
hp = record {
  uuid = u;
  device_type = codes "arm";
  ip = codes "10.0.0.7";
  session_id = codes "s";
  pid = 12;
  closed = false;
  write_ch = [];
  robot_send = link;
  subscriptions = [];
  forward_heartbeats = false;
}

calls-close_example :
    ((calls (close (codes "x") hp).0 (receives (codes "b") ∷ [])).closed ≡ true)
    × ((calls (close (codes "x") hp).0 (receives (codes "b") ∷ [])).write_ch ≡ (
        if ltb (length hp.write_ch) write_capacity
        then hp.write_ch ++ disconnect u (codes "x") ∷ []
        else hp.write_ch))
calls-close_example = calls-close hp (codes "x") (receives (codes "b") ∷ []) refl

abbrev engine : Engine
engine = record { manager = record { handlers = (u, 0) ∷ []; spawning = [] }; procs = hp ∷ [] }

engine-get : get engine.manager u ≡ some 0
unfolding get robomesh.Prelude.Assoc.lookup robomesh.Prelude.Bytes.text_eq
engine-get = refl

kill_running_example :
    (get (kill u engine).0.manager u ≡ none)
    × (get_elem? (kill u engine).0.procs 0 ≡ some (close (codes "killed") hp).0)
    × ((close (codes "killed") hp).0.closed ≡ true)
    × ((kill u engine).1 ≡ some [])
    × (kill u (kill u engine).0 ≡ ((kill u engine).0, none))
kill_running_example = kill_running engine u 0 hp engine-get refl refl refl

-- JSON of strings only.
abbrev json : Codec Value
json = record { marshal = λ v. elim v [ str t ↦ some t | _ ↦ none ]; unmarshal = λ t. some (str t) }

abbrev route_env : RouteEnv (Map Text) (List RobotRecord)
route_env = record {
  pg = registry;
  rds = some redis;
  has_bus = true;
  json = json;
  parse_connect = λ t. none;
  deliver = λ l t. true;
  subscribe = λ t. none;
}

abbrev context : Context (Map Text)
context = record { hp = hp; redis = []; published = []; robot_out = []; dials = [] }

abbrev request : Envelope
request = record {
  id = codes "1";
  target = codes "database";
  method = codes "list_robots";
  content = null;
}

route_envelope-Answers_example :
    Outcome
      (Connects route_env request)
      (codes "1")
      context
      (route_envelope route_env (arm ∷ []) request context)
route_envelope-Answers_example =
    route_envelope-Answers route_env (arm ∷ []) request context
      (record { open_queue = refl; room = omega arith })
