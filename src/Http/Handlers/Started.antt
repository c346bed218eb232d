-- ===== src/Http/Handlers/Started.antt =====
-- roboserver/http_server/handler.go: when startHandler starts a handler, and what is running then.
use mathlib.Core.Path.{subst}
use robomesh.Prelude.{
  ℕ, true, false, Option, none, some, List, [], ◌∷◌, ◌++◌, ◌≡◌, refl, sym, ap, ◌∙◌, none≢some,
  some_inj, inl, inr, Bool-cases, Option-cases, Text, codes, length, get_elem?, text_eq_refl, arith,
}
use robomesh.Prelude.Assoc.{lookup, lookup-insert, lookup-delete}
use robomesh.Prelude.Results.{ok, err, err≢ok, ok_inj}
use robomesh.HandlerEngine.Manager.{get, flag, register, try_start_spawning, finish_spawning}
use robomesh.HandlerEngine.Message.{connect}
use robomesh.HandlerEngine.Process.{HandlerProcess, new_process, send_to_script, offer}
use robomesh.HandlerEngine.Heap.{install}
use robomesh.Auth.Nonce.{generate_session_id}
use robomesh.Auth.Handshake.{Draws}
use robomesh.Transport.World.{World, ServerEnv, subscriptions_of, spawn_handler_process}
use robomesh.Http.Handlers.{
  http_error, panics, pid_at, started, with_manager, robot_info, start_marked, start_handler,
}

get_elem?-last :
    (ps : List HandlerProcess) (p : HandlerProcess) → get_elem? (ps ++ p ∷ []) (length ps) ≡ some p
get_elem?-last [] p = refl
get_elem?-last (q ∷ ps) p = get_elem?-last ps p

module _ {S D : Type 0} (env : ServerEnv S D) where
  -- No handler was running or being started; now one is, for this robot and without a link to it, and
  -- no mark is left.
  pub record Started (before after : World S D) (uuid : Text) (pid : ℕ) : Type 0 where
    pub vacant : get before.engine.manager uuid ≡ none
    pub unmarked : flag (lookup uuid before.engine.manager.spawning) ≡ false
    pub device_type : Text
    pub ip : Text
    pub known : robot_info env uuid before ≡ some (device_type, ip)
    pub started_script : env.start_script device_type ≡ some pid
    pub address : ℕ
    pub running : get after.engine.manager uuid ≡ some address
    pub process : HandlerProcess
    pub at_address : get_elem? after.engine.procs address ≡ some process
    pub named : process.uuid ≡ uuid
    pub with_pid : process.pid ≡ pid
    pub live : process.closed ≡ false
    pub unlinked : process.robot_send ≡ none
    pub cleared : flag (lookup uuid after.engine.manager.spawning) ≡ false

  abbrev made : Text → Text → Text → Text → ℕ → HandlerProcess
  made uuid device_type ip session_id pid =
      record (send_to_script (connect uuid device_type ip session_id)
        (new_process uuid device_type ip session_id pid none)) {
          subscriptions =
              subscriptions_of env (env.subscribe (codes "handler." ++ (uuid ++ codes ".message")));
        }

  made_fields :
      (u t ip sid : Text) (pid : ℕ)
      → ((made u t ip sid pid).uuid ≡ u)
        × ((made u t ip sid pid).pid ≡ pid)
        × ((made u t ip sid pid).closed ≡ false)
        × ((made u t ip sid pid).robot_send ≡ none)
  unfolding send_to_script offer new_process
  made_fields u t ip sid pid = ground arith

  -- The process of a spawn, and where it is.
  record Spawned (w : World S D) (u t ip sid : Text) (after : World S D) (reply : Option ℕ)
      (pid : ℕ) : Type 0 where
    script : env.start_script t ≡ some pid
    running : get after.engine.manager u ≡ some (length w.engine.procs)
    at_address : get_elem? after.engine.procs (length w.engine.procs) ≡ some (made u t ip sid pid)
    replied : reply ≡ some (length w.engine.procs)

  spawn-Spawned :
      (w : World S D) (u t ip sid : Text) (pid : ℕ)
      → env.start_script t ≡ some pid
      → Spawned w u t ip sid
          (spawn_handler_process env u t ip sid none w).0
          (spawn_handler_process env u t ip sid none w).1
          pid
  unfolding spawn_handler_process install get register
  spawn-Spawned w u t ip sid pid e =
      rw (spawn_handler_process, e)
        (record {
          script = e;
          running = ground (
            arith,
            lookup-insert u u (length w.engine.procs) w.engine.manager.handlers,
            text_eq_refl u,
          );
          at_address = get_elem?-last w.engine.procs (made u t ip sid pid);
          replied = refl;
        })

  record Ready (w after : World S D) (u : Text) (pid : ℕ) : Type 0 where
    t : Text
    ip : Text
    known : robot_info env u w ≡ some (t, ip)
    script : env.start_script t ≡ some pid
    process : HandlerProcess
    address : ℕ
    running : get after.engine.manager u ≡ some address
    at_address : get_elem? after.engine.procs address ≡ some process
    fields :
        (process.uuid ≡ u)
        × (process.pid ≡ pid)
        × (process.closed ≡ false)
        × (process.robot_send ≡ none)

  started-at :
      (p : World S D × Option ℕ) (a : ℕ) (hp : HandlerProcess)
      → p.1 ≡ some a
      → get_elem? p.0.engine.procs a ≡ some hp
      → ((started env p).0 ≡ p.0) × ((started env p).1 ≡ ok hp.pid)
  started-at (w, none) a hp h e = absurd (none≢some h)
  started-at (w, some b) a hp h e = (refl, rw (some_inj h, pid_at, e) refl)

  spawned-Ready :
      (w : World S D) (u t ip sid : Text) (pid : ℕ)
      → robot_info env u w ≡ some (t, ip)
      → (started env (spawn_handler_process env u t ip sid none w)).1 ≡ ok pid
      → Ready w (started env (spawn_handler_process env u t ip sid none w)).0 u pid
  unfolding spawn_handler_process
  spawned-Ready w u t ip sid pid e h = elim (Option-cases (env.start_script t)) [
    | inl n ↦
        let refused : err (http_error 500 (codes "Failed to start handler")) ≡ ok pid =
          rw (spawn_handler_process, n) at h in
        absurd (err≢ok refused)
    | inr (x, n) ↦
        let s = spawn-Spawned w u t ip sid x n in
        let p = spawn_handler_process env u t ip sid none w in
        let (same, answer) =
          started-at p (length w.engine.procs) (made u t ip sid x) s.replied s.at_address in
        let (named, numbered, live, unlinked) = made_fields u t ip sid x in
        let its : x ≡ pid = sym numbered ∙ ok_inj (sym answer ∙ h) in
        let ready : Ready w p.0 u pid = record {
          t = t;
          ip = ip;
          known = e;
          script = n ∙ ap some its;
          process = made u t ip sid x;
          address = length w.engine.procs;
          running = s.running;
          at_address = s.at_address;
          fields = (named, numbered ∙ its, live, unlinked);
        } in
        subst (λ v. Ready w v u pid) (sym same) ready
  ]

  start_marked-Ready :
      (draws : Draws) (w : World S D) (u : Text) (pid : ℕ)
      → (start_marked env draws u w).1 ≡ ok pid
      → Ready w (start_marked env draws u w).0 u pid
  unfolding start_marked
  start_marked-Ready draws w u pid h = elim (Option-cases (robot_info env u w)) [
    | inl n ↦
        let refused : err (http_error 404 (codes "Robot not found")) ≡ ok pid =
          rw (start_marked, n) at h in
        absurd (err≢ok refused)
    | inr ((t, ip), known) ↦
        elim (Option-cases (generate_session_id draws.session_bytes draws.nano)) [
          | inl n ↦
              let refused : err panics ≡ ok pid = rw (start_marked, known, n) at h in
              absurd (err≢ok refused)
          | inr (sid, n) ↦
              let answer : (started env
                    (spawn_handler_process env u t ip (codes "manual-" ++ sid) none w)).1
                  ≡ ok pid =
                rw (start_marked, known, n) at h in
              let ready = spawned-Ready w u t ip (codes "manual-" ++ sid) pid known answer in
              rw (start_marked, known, n) ready
        ]
  ]

  finished :
      (w after : World S D) (u : Text) (pid : ℕ)
      → (try_start_spawning w.engine.manager u).1 ≡ true
      → Ready (with_manager env w (try_start_spawning w.engine.manager u).0) after u pid
      → Started w (with_manager env after (finish_spawning after.engine.manager u)) u pid
  unfolding try_start_spawning finish_spawning get robot_info
  finished w after u pid r ready =
      let (named, numbered, live, unlinked) = ready.fields in
      record {
        vacant = ground arith;
        unmarked = ground arith;
        device_type = ready.t;
        ip = ready.ip;
        known = ready.known;
        started_script = ready.script;
        address = ready.address;
        running = ready.running;
        process = ready.process;
        at_address = ready.at_address;
        named = named;
        with_pid = numbered;
        live = live;
        unlinked = unlinked;
        cleared = ground (arith, lookup-delete u u after.engine.manager.spawning, text_eq_refl u);
      }

  -- If starting a handler over HTTP succeeds, the robot had no handler and nobody was starting one; it
  -- is known, its script was started, the process is registered, open and without a link to the robot,
  -- and the mark is gone.
  pub start_handler-Started :
      (draws : Draws) (uuid : Text) (w : World S D) (pid : ℕ)
      → (start_handler env draws uuid w).1 ≡ ok pid
      → Started w (start_handler env draws uuid w).0 uuid pid
  unfolding start_handler
  start_handler-Started draws uuid w pid h =
      elim (Bool-cases (try_start_spawning w.engine.manager uuid).1) [
        | inr r ↦
            let refused : err (http_error 409 (codes "Handler already running or being started"))
                ≡ ok pid =
              rw (start_handler, r) at h in
            absurd (err≢ok refused)
        | inl r ↦
            let marked = with_manager env w (try_start_spawning w.engine.manager uuid).0 in
            let run : (start_marked env draws uuid marked).1 ≡ ok pid =
              rw (start_handler, r) at h in
            let ready = start_marked-Ready draws marked uuid pid run in
            rw (start_handler, r)
              (finished w (start_marked env draws uuid marked).0 uuid pid r ready)
      ]
