-- ===== src/Command/Tests.antt =====
-- Runs of `ttlDuration`.
use openclaw_p2p.Command.Ttl.{effective_ttl-ttl_duration}
use openclaw_p2p.Clock.{second}
use openclaw_p2p.Command.{ttl_duration}
use openclaw_p2p.Sae.Build.{default_ttl, effective_ttl}
use openclaw_p2p.Prelude.{arith, ◌*◌, refl, eqb, if◌then◌else◌, ◌≡◌, pos}

effective_ttl-ttl_duration_test :
    effective_ttl (ttl_duration (pos 60)) ≡ (if eqb 60 0 then default_ttl else pos (60 * second))
effective_ttl-ttl_duration_test = effective_ttl-ttl_duration 60 (ground arith)

-- One second above the bound the product wraps around, and the envelope gets a day.
ttl_overflow_test : effective_ttl (ttl_duration (pos 9223372037)) ≡ default_ttl
unfolding ttl_duration
ttl_overflow_test = refl
