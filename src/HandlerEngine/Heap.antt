-- ===== src/HandlerEngine/Heap.antt =====
-- The handler processes of the server as a heap, with the manager's map from UUIDs to addresses:
-- `*HandlerProcess` is shared between the manager and the connections (roboserver/handler_engine).
-- Here are Stop, Kill and StopAll, and SpawnHandlerProcess from the start of the script on.
pub mod Stopping
use robomesh.Prelude.{
  ℕ, zero, suc, Bool, true, false, Option, none, some, List, [], ◌∷◌, ◌++◌, Text, codes, length,
  get_elem?, if◌then◌else◌,
}
use robomesh.HandlerEngine.Message.{connect}
use robomesh.HandlerEngine.Manager.{HandlerManager, get, register, unregister}
use robomesh.HandlerEngine.Process.{
  HandlerProcess, Link, Subscription, new_process, send_to_script, close,
}

pub record Engine : Type 0 where
  pub manager : HandlerManager ℕ
  pub procs : List HandlerProcess

unfoldable pub modify_at :
    (HandlerProcess → HandlerProcess) → List HandlerProcess → ℕ → List HandlerProcess
modify_at f [] a = []
modify_at f (p ∷ ps) zero = f p ∷ ps
modify_at f (p ∷ ps) (suc a) = p ∷ modify_at f ps a

-- A method call through a pointer.
unfoldable pub modify : (HandlerProcess → HandlerProcess) → ℕ → Engine → Engine
unfolding modify_at
modify f a e = record e { procs = modify_at f e.procs a }

-- Stop: the subscriptions are cancelled by the caller, who owns the bus.
unfoldable pub stop : Text → ℕ → Engine → Engine × List Subscription
unfolding modify close
stop reason a e = elim (get_elem? e.procs a) [
  | none ↦ (e, [])
  | some hp ↦ if hp.closed then (e, []) else (
    record (modify (λ p. (close reason p).0) a e) { manager = unregister e.manager hp.uuid },
    (close reason hp).1,
  )
]

-- `none` is the error that no handler is running.
unfoldable pub kill : Text → Engine → Engine × Option (List Subscription)
unfolding stop
kill uuid e = elim (get e.manager uuid) [
  | none ↦ (e, none)
  | some a ↦ let (e', cancelled) = stop (codes "killed") a e in (e', some cancelled)
]

-- The loop of StopAll, over the snapshot of the handlers.
unfoldable pub stop_each : Text → List ℕ → Engine → Engine × List Subscription
unfolding stop
stop_each reason [] e = (e, [])
stop_each reason (a ∷ rest) e =
    let (e', cancelled) = stop reason a e in
    let (e'', more) = stop_each reason rest e' in (e'', cancelled ++ more)

unfoldable pub stop_all : Text → Engine → Engine × List Subscription
unfolding stop_each
stop_all reason e = stop_each reason (values e.manager.handlers) e
  where
    values : List (Text × ℕ) → List ℕ
    values [] = []
    values ((u, a) ∷ r) = a ∷ values r

-- From `hp := &HandlerProcess{…}` to the connect message: the new process is registered and told of
-- its robot. The result has its address.
unfoldable pub install :
    Text → Text → Text → Text → ℕ → Option Link → List Subscription → Engine → Engine × ℕ
unfolding new_process send_to_script register
install uuid device_type ip session_id pid robot_send subscriptions e =
    let fresh = new_process uuid device_type ip session_id pid robot_send in
    let hp = send_to_script (connect uuid device_type ip session_id) fresh in
    (
      record {
        manager = register e.manager uuid (length e.procs);
        procs = e.procs ++ record hp { subscriptions = subscriptions } ∷ [];
      },
      length e.procs,
    )
