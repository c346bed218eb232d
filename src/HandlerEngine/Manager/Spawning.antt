-- ===== src/HandlerEngine/Manager/Spawning.antt =====
-- Connections that start handlers at the same time (roboserver/handler_engine/manager.go, with the
-- calls of it in tcp_server.go, udp_server.go, mqtt_server.go and http_server/handler.go): each
-- method of the manager holds its lock, so a run is an interleaving of the steps below.
use robomesh.Prelude.{
  ℕ, true, false, Option, none, some, ◌≡◌, ◌⊎◌, inl, inr, ap, Text, text_eq_iff, ◌==◌,
  if◌then◌else◌, arith,
}
use robomesh.Prelude.Assoc.{lookup, insert, lookup-insert, lookup-delete}
use robomesh.HandlerEngine.Manager.{
  HandlerManager, register, unregister, get, try_start_spawning, finish_spawning, empty, flag,
}

-- Where a connection stands: elsewhere, between TryStartSpawning and Register, or between Register
-- and FinishSpawning.
pub data Phase : Type 0 where
  idle : Phase
  starting registered : Text → Phase

pub record System (H : Type 0) : Type 0 where
  pub manager : HandlerManager H
  pub phase : ℕ → Phase

abbrev pub update : (ℕ → Phase) → ℕ → Phase → ℕ → Phase
update f i p j = if i == j then p else f j

pub data Step {H : Type 0} (s : System H) : System H → Type 0 where
  -- TryStartSpawning returns true
  start :
      (i : ℕ) (u : Text) (m : HandlerManager H)
      → s.phase i ≡ idle
      → try_start_spawning s.manager u ≡ (m, true)
      → Step s (record { manager = m; phase = update s.phase i (starting u) })
  -- SpawnHandlerProcess reaches Register
  spawn :
      (i : ℕ) (u : Text) (hp : H)
      → s.phase i ≡ starting u
      → Step s
          (record { manager = register s.manager u hp; phase = update s.phase i (registered u) })
  -- FinishSpawning, after a spawn that succeeded or failed
  finish :
      (i : ℕ) (u : Text)
      → (s.phase i ≡ starting u) ⊎ (s.phase i ≡ registered u)
      → Step s (record { manager = finish_spawning s.manager u; phase = update s.phase i idle })
  -- the Stop of some handler
  remove : (u : Text) → Step s (record s { manager = unregister s.manager u })

pub data Reach {H : Type 0} (s : System H) : System H → Type 0 where
  here : Reach s s
  next : {t u : System H} → Reach s t → Step t u → Reach s u

-- The robot that a connection is starting a handler for.
abbrev pub target : Phase → Option Text
target idle = none
target (starting u) = some u
target (registered u) = some u

pub record Inv {H : Type 0} (s : System H) : Type 0 where
  pub marked :
      (i : ℕ) (u : Text) → target (s.phase i) ≡ some u → flag (lookup u s.manager.spawning) ≡ true
  pub exclusive :
      (i j : ℕ) (u : Text) → target (s.phase i) ≡ some u → target (s.phase j) ≡ some u → i ≡ j
  pub vacant : (i : ℕ) (u : Text) → s.phase i ≡ starting u → get s.manager u ≡ none

module _ {H : Type 0} where
  try_start_spawning-true :
      (m m' : HandlerManager H) (u : Text)
      → try_start_spawning m u ≡ (m', true)
      → (get m u ≡ none)
        × (flag (lookup u m.spawning) ≡ false)
        × (m' ≡ record m { spawning = insert u true m.spawning })
  unfolding try_start_spawning get
  try_start_spawning-true m m' u e = ground arith

  start-Inv :
      (s : System H) (i : ℕ) (u : Text)
      → get s.manager u ≡ none
      → flag (lookup u s.manager.spawning) ≡ false
      → Inv s
      → Inv (record {
        manager = record s.manager { spawning = insert u true s.manager.spawning };
        phase = update s.phase i (starting u);
      })
  unfolding get
  start-Inv s i u free unmarked v = record {
    marked = λ j w q.
        ground (arith, v.marked j w, lookup-insert u w true s.manager.spawning, text_eq_iff u w);
    exclusive = λ j k w q r. ground (arith, v.exclusive j k w, v.marked j w, v.marked k w);
    vacant = λ j w q. ground (arith, v.vacant j w);
  }

  spawn-Inv :
      (s : System H) (i : ℕ) (u : Text) (hp : H)
      → s.phase i ≡ starting u
      → Inv s
      → Inv (record { manager = register s.manager u hp; phase = update s.phase i (registered u) })
  unfolding register get
  spawn-Inv s i u hp p v = record {
    marked = λ j w q. ground (arith, v.marked j w, v.marked i u);
    exclusive =
        λ j k w q r. ground (arith, v.exclusive j k w, v.exclusive i k w, v.exclusive j i w);
    vacant = λ j w q. ground (
      arith,
      v.vacant j w,
      v.exclusive i j u,
      lookup-insert u w hp s.manager.handlers,
      text_eq_iff u w,
    );
  }

  finish-Inv :
      (s : System H) (i : ℕ) (u : Text)
      → target (s.phase i) ≡ some u
      → Inv s
      → Inv (record { manager = finish_spawning s.manager u; phase = update s.phase i idle })
  unfolding finish_spawning get
  finish-Inv s i u p v = record {
    marked = λ j w q. ground (
      arith,
      v.marked j w,
      v.exclusive i j u,
      lookup-delete u w s.manager.spawning,
      text_eq_iff u w,
    );
    exclusive = λ j k w q r. ground (arith, v.exclusive j k w);
    vacant = λ j w q. ground (arith, v.vacant j w);
  }

  remove-Inv :
      (s : System H) (u : Text) → Inv s → Inv (record s { manager = unregister s.manager u })
  unfolding unregister get
  remove-Inv s u v = record {
    marked = v.marked;
    exclusive = v.exclusive;
    vacant = λ j w q. ground (arith, v.vacant j w, lookup-delete u w s.manager.handlers);
  }

  Step-Inv : {s t : System H} → Step s t → Inv s → Inv t
  Step-Inv {s} (start i u m p e) v =
      let (free, unmarked, same) = try_start_spawning-true s.manager m u e in
      rw same (start-Inv s i u free unmarked v)
  Step-Inv {s} (spawn i u hp p) v = spawn-Inv s i u hp p v
  Step-Inv {s} (finish i u (inl p)) v = finish-Inv s i u (ap target p) v
  Step-Inv {s} (finish i u (inr p)) v = finish-Inv s i u (ap target p) v
  Step-Inv {s} (remove u) v = remove-Inv s u v

  -- No connection has started anything.
  abbrev pub init : System H
  init = record { manager = empty; phase = λ i. idle }

  init-Inv : Inv init
  init-Inv = record { marked = λ i u q. cc; exclusive = λ i j u q r. cc; vacant = λ i u q. cc }

  Reach-Inv : {s t : System H} → Inv s → Reach s t → Inv t
  Reach-Inv v here = v
  Reach-Inv v (next r st) = Step-Inv st (Reach-Inv v r)

  -- However the steps of the connections interleave, from a start where none is at work, two of
  -- them are never at work on the handler of one robot.
  pub spawning_exclusive :
      (s : System H)
      → Reach init s
      → (i j : ℕ) (u : Text) → target (s.phase i) ≡ some u
      → target (s.phase j) ≡ some u
      → i ≡ j
  spawning_exclusive s r = (Reach-Inv init-Inv r).exclusive

  -- However the connections interleave, a connection that is between TryStartSpawning and Register
  -- finds no handler of its robot registered, so that its own replaces none; and every
  -- TryStartSpawning for that robot is refused meanwhile.
  pub register_vacant :
      (s : System H)
      → Reach init s
      → (i : ℕ) (u : Text) → s.phase i ≡ starting u
      → (get s.manager u ≡ none) × (try_start_spawning s.manager u ≡ (s.manager, false))
  unfolding try_start_spawning
  register_vacant s r i u p =
      let v = Reach-Inv init-Inv r in (v.vacant i u p, ground (arith, v.marked i u))
