-- ===== src/Command/Ttl.antt =====
-- Which times to live reach an envelope as they were asked for.
use openclaw_p2p.Clock.{second}
use openclaw_p2p.Sae.Build.{default_ttl, effective_ttl}
use openclaw_p2p.Command.{ttl_duration}
use openclaw_p2p.Prelude.{arith, ◌*◌, eqb, if◌then◌else◌, ◌≡◌, ◌≤◌, ℕ, pos}

-- A request for a number of seconds whose nanoseconds fit in an int64, up to 292 years, gives an
-- envelope that many seconds to live, to the nanosecond; a request for none gives it a day.
pub effective_ttl-ttl_duration :
    (n : ℕ)
    → n ≤ 9223372036
    → effective_ttl (ttl_duration (pos n)) ≡ (if eqb n 0 then default_ttl else pos (n * second))
unfolding ttl_duration
effective_ttl-ttl_duration n h = ground arith
