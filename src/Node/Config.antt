-- ===== src/Node/Config.antt =====
-- internal/p2p/node.go: `Config`, with the checks and the defaults of `NewNode`.
use openclaw_p2p.Error.{missing, fail_if, ◌>>◌}
use openclaw_p2p.Topics.{general_topic}
use openclaw_p2p.Error.{Check}
use openclaw_p2p.Policy.{Policy, normalize}
use openclaw_p2p.Prelude.{◌&&◌, pos, [], leb_ℤ, ◌==◌, ◌∷◌, Bool, if◌then◌else◌, List, ℤ, String}

pub record Config : Type 0 where
  pub profile : String
  pub profile_dir : String
  pub data_dir : String
  pub p2p_port : ℤ
  pub api_port : ℤ
  pub rendezvous : String
  pub bootstrap_peers : List String
  pub topics : List String
  pub policy : Policy

abbrev pub or_topics : List String → List String
or_topics [] = general_topic ∷ []
or_topics (topic ∷ rest) = topic ∷ rest

unfoldable pub with_defaults : Config → Config
unfolding normalize
with_defaults cfg = record cfg {
  rendezvous = if cfg.rendezvous == "" then "openagent/v1/default" else cfg.rendezvous;
  topics = or_topics cfg.topics;
  policy = normalize cfg.policy;
}

abbrev pub is_zero_port : ℤ → Bool
is_zero_port port = leb_ℤ port (pos 0) && leb_ℤ (pos 0) port

unfoldable pub check_config : Config → Check
check_config cfg = do
  fail_if (cfg.profile == "") (missing "profile")
  fail_if (is_zero_port cfg.p2p_port) (missing "p2p port")
  fail_if (cfg.data_dir == "") (missing "data dir")
