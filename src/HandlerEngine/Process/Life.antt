-- ===== src/HandlerEngine/Process/Life.antt =====
-- The queue and the life of a handler process (roboserver/handler_engine/process.go) under every
-- sequence of its methods.

use robomesh.Prelude.{
  ℕ, zero, suc, ◌≤◌, true, false, Option, List, [], ◌∷◌, ◌++◌, ◌≡◌, refl, ◌∙◌, Text, length, arith,
  ltb, if◌then◌else◌,
}
use robomesh.HandlerEngine.Message.{Message, connect, disconnect, incoming}
use robomesh.HandlerEngine.Process.{
  HandlerProcess, Link, write_capacity, send_to_script, reattach, send_incoming, send_disconnect,
  close,
}

-- The calls that other goroutines make on a process.
pub data Call : Type 0 where
  sends : Message → Call
  reattaches : Option Link → Text → Text → Call
  receives : Text → Call
  disconnects : Text → Call
  stops : Text → Call

pub call : HandlerProcess → Call → HandlerProcess
unfolding send_to_script reattach send_incoming send_disconnect close
call hp (sends m) = send_to_script m hp
call hp (reattaches l ip s) = reattach l ip s hp
call hp (receives p) = send_incoming p hp
call hp (disconnects r) = send_disconnect r hp
call hp (stops r) = (close r hp).0

pub calls : HandlerProcess → List Call → HandlerProcess
calls hp [] = hp
calls hp (c ∷ cs) = calls (call hp c) cs

call_closed :
    (hp : HandlerProcess) (c : Call)
    → hp.closed ≡ true
    → ((call hp c).closed ≡ true) × ((call hp c).write_ch ≡ hp.write_ch)
unfolding call
call_closed hp (sends m) h = ground arith
call_closed hp _ h = ground arith

calls_closed :
    (hp : HandlerProcess) (cs : List Call)
    → hp.closed ≡ true
    → ((calls hp cs).closed ≡ true) × ((calls hp cs).write_ch ≡ hp.write_ch)
unfolding calls
calls_closed hp [] h = (h, refl)
calls_closed hp (c ∷ cs) h =
    let (shut, same) = call_closed hp c h in
    let (shut', same') = calls_closed (call hp c) cs shut in (shut', same' ∙ same)

-- The disconnect message of Stop, on a process that is not closed, is the last one that the script
-- is sent: it is queued if there is room, and nothing follows it whatever is called later.
pub calls-close :
    (hp : HandlerProcess) (reason : Text) (cs : List Call)
    → hp.closed ≡ false
    → ((calls (close reason hp).0 cs).closed ≡ true)
      × ((calls (close reason hp).0 cs).write_ch ≡ (
          if ltb (length hp.write_ch) write_capacity
          then hp.write_ch ++ disconnect hp.uuid reason ∷ []
          else hp.write_ch))
unfolding close
calls-close hp reason cs live =
    let (shut, same) = calls_closed (close reason hp).0 cs (ground arith) in
    (shut, same ∙ ground arith)

-- The messages that calls send to the script of a process: none after the disconnect message of Stop.
abbrev pub sent : Text → Text → List Call → List Message
sent uuid device_type [] = []
sent uuid device_type (sends m ∷ cs) = m ∷ sent uuid device_type cs
sent uuid device_type (reattaches l ip s ∷ cs) =
    connect uuid device_type ip s ∷ sent uuid device_type cs
sent uuid device_type (receives p ∷ cs) = incoming uuid p ∷ sent uuid device_type cs
sent uuid device_type (disconnects r ∷ cs) = disconnect uuid r ∷ sent uuid device_type cs
sent uuid device_type (stops r ∷ cs) = disconnect uuid r ∷ []

unfoldable pub take {ℓ} : {A : Type ℓ} → ℕ → List A → List A
take zero xs = []
take (suc n) [] = []
take (suc n) (x ∷ xs) = x ∷ take n xs

-- A call on a process that is not closed queues its message where there is room.
record Queued (hp after : HandlerProcess) (m : Message) : Type 0 where
  queue : after.write_ch ≡ take write_capacity (hp.write_ch ++ m ∷ [])
  live : after.closed ≡ false
  uuid : after.uuid ≡ hp.uuid
  device_type : after.device_type ≡ hp.device_type
  bounded : length after.write_ch ≤ write_capacity

offered : HandlerProcess → Message → List Message
offered hp m =
    if ltb (length hp.write_ch) write_capacity then hp.write_ch ++ m ∷ [] else hp.write_ch
