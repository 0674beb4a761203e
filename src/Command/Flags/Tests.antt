-- ===== src/Command/Flags/Tests.antt =====
-- Runs of the flags.
use openclaw_p2p.Command.Flags.Accepted.{config_of_lem, AbsIsPath}
use openclaw_p2p.Command.Flags.Lists.{set_list-append}
use openclaw_p2p.Error.{nil, ok}
use openclaw_p2p.Node.Config.{with_defaults, check_config, Config}
use openclaw_p2p.Command.Flags.{Flags, set_list, Paths, config_of}
use openclaw_p2p.Prelude.{false, ◌==◌, subst, true, refl, pos, ◌≡◌, [], ◌∷◌}

set_list_test : set_list ("a" ∷ []) " b,, c " ≡ "a" ∷ "b" ∷ "c" ∷ []
unfolding set_list
set_list_test = refl

set_list-append_test : set_list ("a" ∷ []) "b,c" ≡ set_list (set_list ("a" ∷ []) "b") "c"
set_list-append_test = set_list-append ("a" ∷ []) "b" "c"

abbrev paths : Paths
paths = record { abs = λ p. ok "/data"; join = λ parts. "joined" }

paths-AbsIsPath : AbsIsPath paths
paths-AbsIsPath p q h = let same : "/data" ≡ q = cc h in subst (λ x. (x == "") ≡ false) same refl

abbrev flags : Flags
flags = record {
  profile = "main";
  data_dir = "";
  profile_dir = "";
  rendezvous = "";
  port = pos 4001;
  api_port = pos 7401;
  conf_min = pos 700;
  topic_limit = pos 8;
  msg_size_limit = pos 1024;
  rate_limit = pos 120;
  bootstrap = [];
  topics = [];
}

abbrev made : Config
made = record {
  profile = "main";
  profile_dir = "";
  data_dir = "/data";
  p2p_port = pos 4001;
  api_port = pos 7401;
  rendezvous = "";
  bootstrap_peers = [];
  topics = "openagent/v1/general" ∷ [];
  policy = record {
    conf_min = pos 700;
    topic_limit = pos 8;
    msg_size_limit = pos 1024;
    require_signature = true;
    rate_limit_per_peer = pos 120;
  };
}

config_test : config_of paths flags ≡ ok made
unfolding config_of
config_test = refl

config_of_lem_example :
    (check_config (with_defaults made) ≡ nil)
    × ((with_defaults made).policy.require_signature ≡ true)
    × ((with_defaults made).topics ≡ "openagent/v1/general" ∷ [])
config_of_lem_example = config_of_lem paths flags made paths-AbsIsPath config_test refl
