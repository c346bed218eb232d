-- ===== src/Auth/Heartbeat/Ttl.antt =====
-- The time to live of a heartbeat state (roboserver/auth/heartbeat_handler.go): the cap of
-- MaxHeartbeatTTL, and the requests that an overflow takes past it.
use robomesh.Prelude.{ℕ, ◌*◌, ◌≤◌, arith}
use robomesh.Prelude.Int.{ℤ, pos, ◌≤ℤ◌, ◌<ℤ◌, int64_of_bits-small, int64_of_bits-negative}
use robomesh.Auth.Heartbeat.{heartbeat_ttl, max_heartbeat_ttl, second}

-- A request for 1 to 9223372036 seconds is granted a positive time to live, of at most six hours
-- and at most what was asked for.
pub heartbeat_ttl_capped :
    (default : ℤ) (n : ℕ)
    → 1 ≤ n
    → n ≤ 9223372036
    → (pos 0 <ℤ heartbeat_ttl default (pos n))
      × (heartbeat_ttl default (pos n) ≤ℤ max_heartbeat_ttl)
      × (heartbeat_ttl default (pos n) ≤ℤ pos (n * second))
unfolding heartbeat_ttl
heartbeat_ttl_capped default n lo hi =
    ground (arith, int64_of_bits-small (n * second) (omega arith))

-- A request for 9223372037 to 18446744073 seconds overflows int64: the time to live that is
-- granted is negative, and not the cap.
pub heartbeat_ttl_overflow :
    (default : ℤ) (n : ℕ)
    → 9223372037 ≤ n
    → n ≤ 18446744073
    → heartbeat_ttl default (pos n) <ℤ pos 0
unfolding heartbeat_ttl
heartbeat_ttl_overflow default n lo hi =
    ground (arith, int64_of_bits-negative (n * second) (omega arith) (omega arith))
