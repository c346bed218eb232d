-- ===== src/HandlerEngine/Manager.antt =====
-- roboserver/handler_engine/manager.go: which robots have a handler, and which are about to get one.
-- The type of handlers is a parameter here; Kill and StopAll, which stop processes, are in Process.
pub mod Spawning
use robomesh.Prelude.{ℕ, Bool, true, false, Option, none, some, List, [], ◌∷◌, Text, if◌then◌else◌}
use robomesh.Prelude.Assoc.{is_some, Map, lookup, insert, delete}

pub record HandlerManager (H : Type 0) : Type 0 where
  pub handlers : Map H
  pub spawning : Map Bool

-- A missing entry of a map of Booleans reads as false.
abbrev pub flag : Option Bool → Bool
flag o = elim o [ none ↦ false | some b ↦ b ]

module _ {H : Type 0} where
  unfoldable pub empty : HandlerManager H
  empty = record { handlers = []; spawning = [] }

  unfoldable pub register : HandlerManager H → Text → H → HandlerManager H
  register m uuid hp = record m { handlers = insert uuid hp m.handlers }

  unfoldable pub unregister : HandlerManager H → Text → HandlerManager H
  unregister m uuid = record m { handlers = delete uuid m.handlers }

  unfoldable pub get : HandlerManager H → Text → Option H
  get m uuid = lookup uuid m.handlers

  unfoldable pub has : HandlerManager H → Text → Bool
  has m uuid = is_some (lookup uuid m.handlers)

  unfoldable pub try_start_spawning : HandlerManager H → Text → HandlerManager H × Bool
  try_start_spawning m uuid =
      if is_some (lookup uuid m.handlers)
      then (m, false)
      else (if flag (lookup uuid m.spawning)
          then (m, false)
          else (record m { spawning = insert uuid true m.spawning }, true))

  unfoldable pub finish_spawning : HandlerManager H → Text → HandlerManager H
  finish_spawning m uuid = record m { spawning = delete uuid m.spawning }

  -- The UUIDs with a value of their handlers; in the program, the process ids.
  unfoldable pub list_all : (H → ℕ) → HandlerManager H → Map ℕ
  list_all pid m = go m.handlers
    where
      go : Map H → Map ℕ
      go [] = []
      go ((uuid, hp) ∷ r) = (uuid, pid hp) ∷ go r
