-- ===== src/Policy/Tests.antt =====
-- A run of internal/p2p/policy.go.
use openclaw_p2p.Policy.{normalize, Policy}
use openclaw_p2p.Policy.Bounds.{normalize_lem, IsPositive}
use openclaw_p2p.Prelude.{◌≡◌, true, negsuc, pos}

abbrev lax : Policy
lax = record {
  conf_min = pos 0;
  topic_limit = pos 4;
  msg_size_limit = negsuc 0;
  require_signature = true;
  rate_limit_per_peer = pos 0;
}

normalize_lem_test :
    IsPositive (normalize lax)
    × (IsPositive lax → normalize lax ≡ lax)
    × (normalize (normalize lax) ≡ normalize lax)
normalize_lem_test = normalize_lem lax
