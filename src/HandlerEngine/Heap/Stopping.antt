-- ===== src/HandlerEngine/Heap/Stopping.antt =====
-- Stopping a handler (roboserver/handler_engine/manager.go and process.go): it leaves the manager, is
-- closed, gives up its subscriptions, and cannot be stopped again.
use robomesh.Prelude.{
  ℕ, zero, suc, true, false, none, some, List, [], ◌∷◌, ◌≡◌, Text, codes, text_eq_refl, get_elem?,
  arith,
}
use robomesh.Prelude.Assoc.{lookup-delete}
use robomesh.HandlerEngine.Manager.{get, unregister}
use robomesh.HandlerEngine.Process.{HandlerProcess, close}
use robomesh.HandlerEngine.Heap.{Engine, modify_at, modify, stop, kill}

get_elem?-modify_at :
    (f : HandlerProcess → HandlerProcess) (ps : List HandlerProcess) (a : ℕ) (hp : HandlerProcess)
    → get_elem? ps a ≡ some hp
    → get_elem? (modify_at f ps a) a ≡ some (f hp)
unfolding modify_at
get_elem?-modify_at f [] a hp h = cc
get_elem?-modify_at f (p ∷ ps) zero hp h = ground arith
get_elem?-modify_at f (p ∷ ps) (suc a) hp h = get_elem?-modify_at f ps a hp h

kill-missing : (e : Engine) (uuid : Text) → get e.manager uuid ≡ none → kill uuid e ≡ (e, none)
unfolding kill
kill-missing e uuid h = rw (h, kill)

-- A handler that is registered under its own UUID and is not closed has, after Kill, left the
-- manager, and its process is closed with its subscriptions cancelled; a second Kill changes
-- nothing and reports that nothing is running.
pub kill_running :
    (e : Engine) (uuid : Text) (a : ℕ) (hp : HandlerProcess)
    → get e.manager uuid ≡ some a
    → get_elem? e.procs a ≡ some hp
    → hp.uuid ≡ uuid
    → hp.closed ≡ false
    → (get (kill uuid e).0.manager uuid ≡ none)
      × (get_elem? (kill uuid e).0.procs a ≡ some (close (codes "killed") hp).0)
      × ((close (codes "killed") hp).0.closed ≡ true)
      × ((kill uuid e).1 ≡ some hp.subscriptions)
      × (kill uuid (kill uuid e).0 ≡ ((kill uuid e).0, none))
unfolding kill stop modify close get unregister
kill_running e uuid a hp there at same live = (
  gone,
  rw (there, kill)
      (ground (arith, get_elem?-modify_at (λ p. (close (codes "killed") p).0) e.procs a hp)),
  ground arith,
  ground arith,
  kill-missing _ uuid gone,
)
  where
    gone : get (kill uuid e).0.manager uuid ≡ none
    gone = ground (arith, lookup-delete uuid uuid e.manager.handlers, text_eq_refl uuid)
