-- ===== src/Command.antt =====
-- cmd/agent.go: `ttlDuration`, the time to live that the HTTP interface passes on.
pub mod Ttl
pub mod Api
pub mod Flags
pub mod Tests
use openclaw_p2p.Prelude.{◌*◌, pos, leb_ℤ, if◌then◌else◌, ℤ, int64_mul}
use openclaw_p2p.Clock.{hour, second}

unfoldable pub ttl_duration : ℤ → ℤ
unfolding int64_mul
ttl_duration seconds =
    if leb_ℤ seconds (pos 0) then pos (24 * hour) else int64_mul seconds (pos second)
