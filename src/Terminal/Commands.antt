-- ===== src/Terminal/Commands.antt =====
-- roboserver/terminal/init.go and robot_commands.go, with publish of event_bus_commands.go: the
-- commands that leave the subscriptions of the connection alone. The table of init.go is read in its
-- order, where Go's map promises none.
use robomesh.Prelude.{
  ℕ, Bool, true, false, Option, none, some, List, [], ◌∷◌, ◌++◌, Text, text_eq, codes, map, leb,
  length, if◌then◌else◌,
}
use robomesh.Prelude.Assoc.{Map, lookup}
use robomesh.Prelude.Results.{ok, err}
use robomesh.Database.Postgres.{RobotRecord}
use robomesh.Database.Redis.{ActiveRobot, PendingRobot, get_active_robot, get_pending_robot}
use robomesh.Database.Redis.Listing.{get_all_active_robots, get_all_pending_robots}
use robomesh.Auth.Verify.{take}
use robomesh.Auth.Handshake.{AuthEnv, is_ok}

pub data Command : Type 0 where
  list robots pending accept reject stop help status exit quit subscribe unsubscribe publish :
      Command

pub record CommandInfo : Type 0 where
  pub description : Text
  pub usage : Text
  pub handler : Command

abbrev command : Text → Text → Text → Command → Text × CommandInfo
command name description usage handler =
    (name, record { description = description; usage = usage; handler = handler })

-- RegisterCommand, for each command.
abbrev pub default_registry : Map CommandInfo
default_registry =
    command (codes "list") (codes "List active robots (from Redis)") (codes "list") list
    ∷ command (codes "robots") (codes "List registered robots (from PostgreSQL)") (codes "robots")
        robots
    ∷ command (codes "pending") (codes "List pending robot registrations") (codes "pending") pending
    ∷ command (codes "accept") (codes "Accept a pending robot registration") (codes "accept <uuid>")
        accept
    ∷ command (codes "reject") (codes "Reject a pending robot registration") (codes "reject <uuid>")
        reject
    ∷ command (codes "stop") (codes "Stop the program or robot") (codes "stop program|<robot_id>")
        stop
    ∷ command (codes "help") (codes "Show available commands") (codes "help [command]") help
    ∷ command (codes "status") (codes "Get robot status") (codes "status <uuid>") status
    ∷ command (codes "exit") (codes "Exit terminal session") (codes "exit") exit
    ∷ command (codes "quit") (codes "Exit terminal session") (codes "quit") quit
    ∷ command (codes "subscribe") (codes "Subscribe to robot events")
        (codes "subscribe <event_type>") subscribe
    ∷ command (codes "unsubscribe") (codes "Unsubscribe from robot events")
        (codes "unsubscribe <event_type>") unsubscribe
    ∷ command (codes "publish") (codes "Publish an event to robots")
        (codes "publish <event_type> <data>") publish
    ∷ []

unfoldable pub command_of : Text → Option Command
command_of name = elim (lookup name default_registry) [
  | none ↦ none
  | some info ↦ some info.handler
]

-- A text, or the arguments of a format.
pub data Line : Type 0 where
  text : Text → Line
  active_robot : ActiveRobot → Line
  registered_robot : RobotRecord → Line
  pending_robot : PendingRobot → Text → Line
  command_line : Text × CommandInfo → Line

pub data Effect : Type 0 where
  writes : Line → Effect
  -- PublishRegistrationResponse, and PublishEvent
  responds : Text → Bool → Effect
  publishes : Text → Text → Effect
  -- the cancel function of the server
  shuts_down : Effect

-- What a command finds: the databases, and what the bus answers to a subscription (a number for the
-- cancel function), an event and a registration response.
pub record Moment (S D : Type 0) : Type 0 where
  pub redis : S
  pub pg : D
  pub subscription : Option ℕ
  pub publishes_event : Bool
  pub publishes_response : Bool
  pub shutting_down : Bool

unfoldable pub truncate : Text → ℕ → Text
truncate s n = if leb (length s) n then s else take n s

abbrev lines : Text → Text → Option (List Line) → List Effect × Option Text
lines none_of title none = ([], some (codes "failed to get robots"))
lines none_of title (some []) = (writes (text none_of) ∷ [], none)
lines none_of title (some (x ∷ xs)) = (writes (text title) ∷ map writes (x ∷ xs), none)

abbrev mapped : {A : Type 0} → (A → Line) → Option (List A) → Option (List Line)
mapped f none = none
mapped f (some xs) = some (map f xs)

module _ {S D : Type 0} (env : AuthEnv S D) (scan : S → Text → List Text × Bool) where
  abbrev answered : Text → Bool → Bool → List Effect × Option Text
  answered uuid accepted true = (
    responds uuid accepted
        ∷ writes
            (text ((if accepted then codes "Accepted robot " else codes "Rejected robot ") ++ uuid))
        ∷ [],
    none,
  )
  answered uuid accepted false = (
    responds uuid accepted ∷ [],
    some (if accepted then codes "failed to accept" else codes "failed to reject"),
  )

  -- acceptCommand and rejectCommand.
  unfoldable pub respond_command : Bool → Moment S D → List Text → List Effect × Option Text
  respond_command accepted at [] =
      ([], some (if accepted then codes "usage: accept <uuid>" else codes "usage: reject <uuid>"))
  respond_command accepted at (uuid ∷ _) =
      if is_ok (get_pending_robot env.redis at.redis uuid)
      then answered uuid accepted at.publishes_response
      else ([], some (codes "no pending registration found for " ++ uuid))

  unfoldable pub stop_command : List Text → List Effect × Option Text
  stop_command [] = ([], some (codes "usage: stop program|<robot_id>"))
  stop_command (target ∷ _) =
      if text_eq target (codes "program")
      then (writes (text (codes "Stopping program...")) ∷ shuts_down ∷ [], none)
      else (writes (text (codes "Stopping robot " ++ (target ++ codes "..."))) ∷ [], none)

  unfoldable pub help_command : List Text → List Effect × Option Text
  help_command [] = (
    (writes (text (codes "Available commands:"))
          ∷ map (λ c. writes (command_line c)) default_registry)
        ++ writes (text (codes "Use 'help <command>' for detailed usage.")) ∷ [],
    none,
  )
  help_command (name ∷ _) = elim (lookup name default_registry) [
    | none ↦ ([], some (codes "unknown command: " ++ name))
    | some info ↦ (writes (command_line (name, info)) ∷ [], none)
  ]

  unfoldable pub status_command : Moment S D → List Text → List Effect × Option Text
  status_command at [] = ([], some (codes "usage: status <uuid>"))
  status_command at (uuid ∷ _) = elim (get_active_robot env.redis at.redis uuid) [
    | err e ↦ (writes (text (codes "Robot " ++ (uuid ++ codes ": offline"))) ∷ [], none)
    | ok active ↦ (writes (active_robot active) ∷ [], none)
  ]

  unfoldable pub publish_command : Moment S D → List Text → List Effect × Option Text
  publish_command at (event_type ∷ payload ∷ _) =
      if at.publishes_event
      then (publishes event_type payload ∷ writes (text (codes "Published event")) ∷ [], none)
      else (publishes event_type payload ∷ [], some (codes "failed to publish"))
  publish_command at _ = ([], some (codes "usage: publish <event_type> <data>"))

  abbrev exit_command : List Effect × Option Text
  exit_command = (writes (text (codes "Goodbye!")) ∷ [], some (codes "exit"))

  unfoldable pub run_command : Command → Moment S D → List Text → List Effect × Option Text
  unfolding respond_command stop_command help_command status_command publish_command
  run_command list at args =
      lines (codes "No active robots.") (codes "Active robots:")
        (mapped active_robot (get_all_active_robots env.redis scan at.redis))
  run_command robots at args =
      lines (codes "No registered robots.") (codes "Registered robots:")
        (mapped registered_robot (env.pg.get_all_robots at.pg))
  run_command pending at args =
      lines (codes "No pending registrations.") (codes "Pending registrations:") (
        mapped (λ r. pending_robot r (truncate r.public_key 16))
          (get_all_pending_robots env.redis scan at.redis))
  run_command accept at args = respond_command true at args
  run_command reject at args = respond_command false at args
  run_command stop at args = stop_command args
  run_command help at args = help_command args
  run_command status at args = status_command at args
  run_command publish at args = publish_command at args
  run_command exit at args = exit_command
  run_command quit at args = exit_command
  -- these two are in the parent
  run_command subscribe at args = ([], none)
  run_command unsubscribe at args = ([], none)
