-- ===== src/Relay/Heartbeat.antt =====
-- queue.go and relay/internal/config/config.go: how long a lease lasts, and how often it is renewed.
use gatew_ai.Base.{ℕ, ◌+◌, ◌*◌, ◌≤◌, ◌<◌, Option, none, some, arith}
use gatew_ai.Relay.{refresh_interval, lease_ttl_duration, second}

three_seconds : (c : Option ℕ) → 3 * second ≤ lease_ttl_duration c
unfolding lease_ttl_duration
three_seconds none = omega arith
three_seconds (some d) = ground arith

three_intervals :
    (c : Option ℕ) → 3 * refresh_interval (lease_ttl_duration c) ≤ lease_ttl_duration c
unfolding refresh_interval
three_intervals c = ground (arith, three_seconds c)

-- Whatever lease is configured: from the `n`th refresh on, if it succeeds, the lease lasts until the time
-- of the third refresh after it, so that two refreshes in a row may fail.
pub lease-refresh_interval :
    (c : Option ℕ) (n t : ℕ)
    → let ttl = lease_ttl_duration c in
      let every = refresh_interval ttl in t < n * every + 3 * every → t < n * every + ttl
lease-refresh_interval c n t h = omega (arith, h, three_intervals c)
