-- ===== src/Policy.antt =====
-- internal/p2p/policy.go.
pub mod Bounds
pub mod Tests
use openclaw_p2p.Prelude.{ℤ, pos, Bool, leb_ℤ, if◌then◌else◌}

pub record Policy : Type 0 where
  pub conf_min : ℤ
  pub topic_limit : ℤ
  pub msg_size_limit : ℤ
  pub require_signature : Bool
  pub rate_limit_per_peer : ℤ

abbrev or_default : ℤ → ℤ → ℤ
or_default limit value = if leb_ℤ limit (pos 0) then value else limit

unfoldable pub normalize : Policy → Policy
normalize p = record p {
  conf_min = or_default p.conf_min (pos 700);
  topic_limit = or_default p.topic_limit (pos 8);
  msg_size_limit = or_default p.msg_size_limit (pos 1024);
  rate_limit_per_peer = or_default p.rate_limit_per_peer (pos 120);
}
