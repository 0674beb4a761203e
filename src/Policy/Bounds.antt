-- ===== src/Policy/Bounds.antt =====
-- What `Normalize` establishes.
use openclaw_p2p.Prelude.{arith, ◌<ℤ◌, pos, ℤ, ◌≡◌}
use openclaw_p2p.Policy.{or_default, normalize, Policy}

-- All four limits are positive.
pub record IsPositive (p : Policy) : Type 0 where
  pub conf_min : pos 0 <ℤ p.conf_min
  pub topic_limit : pos 0 <ℤ p.topic_limit
  pub msg_size_limit : pos 0 <ℤ p.msg_size_limit
  pub rate_limit_per_peer : pos 0 <ℤ p.rate_limit_per_peer

or_default_pos : (limit value : ℤ) → pos 0 <ℤ value → pos 0 <ℤ or_default limit value
or_default_pos limit value h = ground arith

or_default_keeps : (limit value : ℤ) → pos 0 <ℤ limit → or_default limit value ≡ limit
or_default_keeps limit value h = ground arith

normalize-IsPositive : (p : Policy) → IsPositive (normalize p)
unfolding normalize
normalize-IsPositive p = record {
  conf_min = or_default_pos p.conf_min (pos 700) (omega arith);
  topic_limit = or_default_pos p.topic_limit (pos 8) (omega arith);
  msg_size_limit = or_default_pos p.msg_size_limit (pos 1024) (omega arith);
  rate_limit_per_peer = or_default_pos p.rate_limit_per_peer (pos 120) (omega arith);
}

normalize_positive : (p : Policy) → IsPositive p → normalize p ≡ p
unfolding normalize
normalize_positive p h = rw (
  or_default_keeps p.conf_min (pos 700) h.conf_min,
  or_default_keeps p.topic_limit (pos 8) h.topic_limit,
  or_default_keeps p.msg_size_limit (pos 1024) h.msg_size_limit,
  or_default_keeps p.rate_limit_per_peer (pos 120) h.rate_limit_per_peer,
)

-- `Normalize` makes all four limits positive, and leaves a policy whose limits are already positive
-- as it is, so that a second call changes nothing.
pub normalize_lem :
    (p : Policy)
    → IsPositive (normalize p)
      × (IsPositive p → normalize p ≡ p)
      × (normalize (normalize p) ≡ normalize p)
normalize_lem p = (
  normalize-IsPositive p,
  normalize_positive p,
  normalize_positive (normalize p) (normalize-IsPositive p),
)
