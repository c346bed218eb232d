-- ===== src/Http/LoginRate.antt =====
-- The limit on login attempts of roboserver/http_server/auth.go: the times of the attempts from each
-- address. Times are in nanoseconds; `now` is time.Now().
pub mod Counts
use robomesh.Prelude.{
  ℕ, ◌+◌, Bool, Option, none, some, List, [], ◌∷◌, ◌++◌, Text, length, leb, ltb, if◌then◌else◌,
}
use robomesh.Prelude.Assoc.{Map, lookup, insert, delete, keys}

abbrev pub Attempts : Type 0
Attempts = Map (List ℕ)

abbrev pub login_max_attempts : ℕ
login_max_attempts = 5

-- 5 * time.Minute
abbrev pub login_window : ℕ
login_window = 300000000000

-- The attempts after the cutoff, now - login_window.
unfoldable pub valid : ℕ → List ℕ → List ℕ
valid now [] = []
valid now (t ∷ ts) =
    let rest = valid now ts in if ltb now (t + login_window) then t ∷ rest else rest

-- A missing entry reads as no attempts.
unfoldable pub attempts : Attempts → Text → List ℕ
attempts m ip = elim (lookup ip m) [ none ↦ [] | some ts ↦ ts ]

-- Whether the address is over the limit.
unfoldable pub check_login_rate : ℕ → Text → Attempts → Attempts × Bool
unfolding valid attempts
check_login_rate now ip m =
    let kept = valid now (attempts m ip) in (insert ip kept m, leb login_max_attempts (length kept))

unfoldable pub record_login_attempt : ℕ → Text → Attempts → Attempts
unfolding attempts
record_login_attempt now ip m = insert ip (attempts m ip ++ now ∷ []) m

abbrev pub store_kept : Text → List ℕ → Attempts → Attempts
store_kept ip [] m = delete ip m
store_kept ip (t ∷ ts) m = insert ip (t ∷ ts) m

-- The body of the loop of cleanupRateLimiter.
unfoldable pub evict : ℕ → Text → Attempts → Attempts
unfolding valid attempts
evict now ip m = store_kept ip (valid now (attempts m ip)) m

unfoldable pub evict_each : ℕ → List Text → Attempts → Attempts
unfolding evict
evict_each now [] m = m
evict_each now (ip ∷ ips) m = evict_each now ips (evict now ip m)

-- One tick of cleanupRateLimiter.
unfoldable pub cleanup_rate_limiter : ℕ → Attempts → Attempts
unfolding evict_each
cleanup_rate_limiter now m = evict_each now (keys m) m
