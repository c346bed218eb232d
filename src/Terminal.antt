-- ===== src/Terminal.antt =====
-- roboserver/terminal: the terminal on the local port, terminal.go with the commands of init.go,
-- robot_commands.go and event_bus_commands.go. What is written is a value for each format string; a
-- command that only reads and writes is in Commands.
pub mod Commands
pub mod Balanced
use robomesh.Prelude.{
  ℕ, Bool, true, false, Option, none, some, List, [], ◌∷◌, ◌++◌, Text, text_eq, codes,
  if◌then◌else◌,
}
use robomesh.Prelude.Assoc.{Map, lookup, insert, delete}
use robomesh.Prelude.Bytes.{fields}
use robomesh.Terminal.Commands.{
  Moment, Effect, Line, Command, writes, text, subscribe, unsubscribe, command_of, run_command,
}
use robomesh.Auth.Handshake.{AuthEnv}

-- What the connection asks the bus for: a subscription, under the number of its cancel function, and
-- the call of that function.
pub data Call : Type 0 where
  subscribed cancelled : ℕ → Call

-- CommandContext: the cancel functions by event type, and what has been done.
pub record Session : Type 0 where
  pub subscriptions : Map ℕ
  pub calls : List Call
  pub effects : List Effect

abbrev pub idle : Session
idle = record { subscriptions = []; calls = []; effects = [] }

unfoldable pub perform : List Effect → Session → Session
perform es s = record s { effects = s.effects ++ es }

-- The existing subscription for the event type is cancelled after the new one is made.
abbrev pub cancel_existing : Option ℕ → List Call
cancel_existing none = []
cancel_existing (some i) = cancelled i ∷ []

-- The error of a command, `none` without one. The answer of the bus is `none` where it fails; the
-- errors that other packages return are left out of the texts here and in Commands.
unfoldable pub subscribe_command : Option ℕ → List Text → Session → Session × Option Text
unfolding perform
subscribe_command answer [] s = (s, some (codes "usage: subscribe <event_type>"))
subscribe_command none (event_type ∷ _) s = (s, some (codes "failed to subscribe"))
subscribe_command (some i) (event_type ∷ _) s = (
  perform (writes (text (codes "Subscribed to event type: " ++ event_type)) ∷ []) (record s {
    subscriptions = insert event_type i s.subscriptions;
    calls = s.calls ++ subscribed i ∷ cancel_existing (lookup event_type s.subscriptions);
  }),
  none,
)

unfoldable pub unsubscribe_command : List Text → Session → Session × Option Text
unfolding perform
unsubscribe_command [] s = (s, some (codes "usage: unsubscribe <event_type>"))
unsubscribe_command (event_type ∷ _) s = elim (lookup event_type s.subscriptions) [
  | none ↦
      (perform (writes (text (codes "Not subscribed to event type: " ++ event_type)) ∷ []) s, none)
  | some i ↦ (
    perform (writes (text (codes "Unsubscribed from event type: " ++ event_type)) ∷ []) (record s {
      subscriptions = delete event_type s.subscriptions;
      calls = s.calls ++ cancelled i ∷ [];
    }),
    none,
  )
]

-- The deferred loop over the subscriptions.
unfoldable pub cancel_all : Map ℕ → List Call
cancel_all [] = []
cancel_all ((topic, i) ∷ r) = cancelled i ∷ cancel_all r

unfoldable pub end_session : Session → Session
unfolding cancel_all
end_session s = record s { subscriptions = []; calls = s.calls ++ cancel_all s.subscriptions }

module _ {S D : Type 0} (env : AuthEnv S D) (scan : S → Text → List Text × Bool) where
  abbrev dispatch : Option Command → Text → Moment S D → List Text → Session → Session × Option Text
  dispatch (some subscribe) name at args s = subscribe_command at.subscription args s
  dispatch (some unsubscribe) name at args s = unsubscribe_command args s
  dispatch (some c) name at args s =
      let (es, e) = run_command env scan c at args in (perform es s, e)
  dispatch none name at args s = (s, some (codes "unknown command: " ++ name))

  unfoldable pub execute_command : Text → Moment S D → List Text → Session → Session × Option Text
  unfolding subscribe_command unsubscribe_command run_command perform
  execute_command name at args s = dispatch (command_of name) name at args s

  -- A line without words only gives the prompt.
  unfoldable pub run_line : Moment S D → List Text → Session → Session × Option Text
  unfolding execute_command
  run_line at [] s = (s, none)
  run_line at (command ∷ args) s = execute_command command at args s

  -- What follows a command: the end for the error "exit", else the error, and the prompt.
  unfoldable pub report : Option Text → Session → Session
  unfolding perform
  report none s = perform (writes (text (codes "> ")) ∷ []) s
  report (some e) s =
      perform (writes (text (codes "Error: " ++ e)) ∷ writes (text (codes "> ")) ∷ []) s

  abbrev ends : Option Text → Bool
  ends none = false
  ends (some e) = text_eq e (codes "exit")

  -- The loop over the lines, each with what it finds; the server may be shutting down before it is read.
  unfoldable pub terminal_loop : List (Moment S D × Text) → Session → Session
  unfolding run_line report perform fields
  terminal_loop [] s = s
  terminal_loop ((at, line) ∷ rest) s =
      let (s', e) = run_line at (fields line) s in
      let more = terminal_loop rest (report e s') in
      if at.shutting_down
      then perform (writes (text (codes "Terminal session ended.")) ∷ []) s
      else (if ends e then s' else more)

  unfoldable pub terminal_connection : List (Moment S D × Text) → Session
  unfolding terminal_loop end_session perform
  terminal_connection lines = end_session (
      terminal_loop lines (
        perform
          (writes (text (codes "=== Robomesh Terminal ==="))
            ∷ writes (text (codes "Type 'help' for available commands."))
            ∷ writes (text (codes "> "))
            ∷ [])
          idle))
