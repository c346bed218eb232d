-- ===== src/Examples/Keys.antt =====
-- The theorems of Database on a store in memory.
use robomesh.Prelude.{
  Bool, true, ◌↔◌, ℕ, Option, none, some, List, [], ◌∷◌, ◌++◌, ◌≡◌, ◌≢◌, refl, Text, codes,
}
use robomesh.Prelude.Int.{pos}
use robomesh.Prelude.Assoc.{Map}
use robomesh.Prelude.Results.{ok}
use robomesh.Database.Keys.{redis_data_key, robot_key, pending_key}
use robomesh.Database.Keys.Schema.{redis_data_key_collision}
use robomesh.Database.Redis.{
  ActiveRobot, PendingRobot, set_active_robot, set_ticket, consume_ticket,
}
use robomesh.Database.Redis.Laws.{consume_ticket_once}
use mathlib.Core.List.{Memᴰ}
use robomesh.Database.Redis.Listing.{get_all_active_robots}
use robomesh.Database.Redis.Listing.Listed.{ReadAt, get_all_active_robots_iff}
use robomesh.Examples.Parts.{redis, client_laws}

redis_data_key_collision_example :
    redis_data_key (codes "arm" ++ (codes ":data:" ++ codes "x")) (codes "pose")
    ≡ redis_data_key (codes "arm") (codes "x" ++ (codes ":data:" ++ codes "pose"))
redis_data_key_collision_example = redis_data_key_collision (codes "arm") (codes "x") (codes "pose")

abbrev active_arm : ActiveRobot
active_arm = record {
  uuid = codes "arm-1";
  ip = codes "10.0.0.7";
  device_type = codes "arm";
  session_jwt = codes "jwt";
  pid = 12;
  connected_at = 1000;
}

abbrev pending_arm : PendingRobot
pending_arm = record {
  uuid = codes "arm-2";
  ip = codes "10.0.0.8";
  device_type = codes "arm";
  public_key = codes "pk";
  requested_at = 1000;
}

abbrev with_ticket : Map Text
with_ticket = (set_ticket redis [] (codes "t1") (codes "eve") (pos 30000000000)).0

consume_ticket_once_example :
    (consume_ticket redis (consume_ticket redis with_ticket (codes "t1")).0 (codes "t1")).1
    ≢ ok (codes "eve")
unfolding consume_ticket robomesh.Prelude.Assoc.lookup set_ticket robomesh.Prelude.Assoc.insert
    robomesh.Prelude.Bytes.text_eq robomesh.Database.Keys.ticket_key
consume_ticket_once_example =
    consume_ticket_once redis client_laws with_ticket (codes "t1") (codes "eve") (codes "eve") refl

abbrev with_session : Map Text
with_session = (set_active_robot redis [] active_arm (pos 30000000000)).0

abbrev one_key : Map Text → Text → List Text × Bool
one_key s pattern = (robot_key (codes "arm-1") ∷ [], true)

with_session-listed : get_all_active_robots redis one_key with_session ≡ some (active_arm ∷ [])
unfolding get_all_active_robots robomesh.Prelude.Assoc.lookup set_active_robot
    robomesh.Prelude.Assoc.insert robomesh.Prelude.Bytes.text_eq robot_key
    robomesh.Examples.Codecs.read_text robomesh.Examples.Codecs.read_number
with_session-listed = refl

get_all_active_robots_iff_example :
    Memᴰ active_arm (active_arm ∷ [])
    ↔ ReadAt redis one_key redis.active_codec with_session
        (robot_key (codes "arm-1") ∷ [])
        active_arm
get_all_active_robots_iff_example =
    get_all_active_robots_iff redis one_key with_session (active_arm ∷ []) active_arm
      with_session-listed
