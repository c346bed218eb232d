-- ===== src/Database/Redis/Listing.antt =====
-- roboserver/database/redis.go: the listings of all robots of a kind, by SCAN with a pattern and a
-- GET of each key. A value that is gone or cannot be read is passed over. SCAN is a parameter: the
-- keys that its iterator gives and whether it ended without an error.
pub mod Listed
use robomesh.Prelude.{Bool, Option, none, some, List, [], ◌∷◌, Text, codes, if◌then◌else◌}
use robomesh.Prelude.Results.{ok, err}
use robomesh.Database.Client.{Codec}
use robomesh.Database.Redis.{RedisHandler, ActiveRobot, PendingRobot, HeartbeatState, fetch}

module _ {S : Type 0} (h : RedisHandler S) (scan : S → Text → List Text × Bool) where
  unfoldable pub collect : {A : Type 0} → Codec A → S → List Text → List A
  unfolding fetch
  collect c s [] = []
  collect c s (key ∷ keys) =
      let rest = collect c s keys in elim (fetch h c s key) [ err e ↦ rest | ok r ↦ r ∷ rest ]

  -- `none` is the error of the iterator.
  unfoldable pub list_matching : {A : Type 0} → Codec A → Text → S → Option (List A)
  unfolding collect
  list_matching c pattern s =
      let (keys, done) = scan s pattern in if done then some (collect c s keys) else none

  unfoldable pub get_all_active_robots : S → Option (List ActiveRobot)
  unfolding list_matching
  get_all_active_robots s = list_matching h.active_codec (codes "robot:*:active") s

  unfoldable pub get_all_pending_robots : S → Option (List PendingRobot)
  unfolding list_matching
  get_all_pending_robots s = list_matching h.pending_codec (codes "robot:*:pending") s

  unfoldable pub get_all_online_robots : S → Option (List HeartbeatState)
  unfolding list_matching
  get_all_online_robots s = list_matching h.heartbeat_codec (codes "robot:*:heartbeat") s
