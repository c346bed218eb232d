-- ===== src/Examples/Terminals.antt =====
-- The theorem of Terminal on a connection that subscribes twice to one event type and leaves.
use robomesh.Prelude.{
  ℕ, Bool, true, false, Option, none, some, List, [], ◌∷◌, ◌≡◌, refl, Text, codes,
}
use robomesh.Prelude.Assoc.{Map}
use robomesh.Database.Postgres.{RobotRecord}
use robomesh.Terminal.Commands.{Moment}
use robomesh.Terminal.{terminal_connection}
use robomesh.Terminal.Balanced.{made, dropped, terminal_connection-balanced}
use robomesh.Examples.Parts.{arm}
use robomesh.Examples.Connections.{env}

abbrev no_keys : Map Text → Text → List Text × Bool
no_keys s pattern = ([], true)

abbrev moment : ℕ → Moment (Map Text) (List RobotRecord)
moment i = record {
  redis = [];
  pg = arm ∷ [];
  subscription = some i;
  publishes_event = true;
  publishes_response = true;
  shutting_down = false;
}

abbrev typed : List (Moment (Map Text) (List RobotRecord) × Text)
typed =
    (moment 1, codes "subscribe robot.arm-1.heartbeat")
    ∷ (moment 2, codes "  subscribe robot.arm-1.heartbeat ")
    ∷ (moment 3, codes "robots")
    ∷ (moment 4, codes "exit")
    ∷ (moment 5, codes "subscribe late")
    ∷ []

terminal_connection-balanced_example :
    made 2 (terminal_connection env.auth no_keys typed).calls
    ≡ dropped 2 (terminal_connection env.auth no_keys typed).calls
terminal_connection-balanced_example = terminal_connection-balanced env.auth no_keys typed 2

only_two : made 2 (terminal_connection env.auth no_keys typed).calls ≡ 1
unfolding made terminal_connection robomesh.Terminal.Commands.command_of
    robomesh.Prelude.Assoc.lookup robomesh.Prelude.Bytes.text_eq robomesh.Prelude.Assoc.insert
only_two = refl

none_late : made 5 (terminal_connection env.auth no_keys typed).calls ≡ 0
unfolding made terminal_connection robomesh.Terminal.Commands.command_of
    robomesh.Prelude.Assoc.lookup robomesh.Prelude.Bytes.text_eq robomesh.Prelude.Assoc.insert
none_late = refl
