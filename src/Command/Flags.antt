-- ===== src/Command/Flags.antt =====
-- cmd/p2p.go: the flags that take lists, and the configuration that `run` makes of the flags. Package
-- flag, which reads the arguments, and package filepath are arguments.
pub mod Lists
pub mod Accepted
pub mod Tests
use openclaw_p2p.Node.Config.{or_topics, Config}
use openclaw_p2p.Text.{trim_space, split}
use openclaw_p2p.Error.{missing, wrap, ok, fail_if, Result, ◌>>=◌, ◌>>◌}
use openclaw_p2p.Prelude.{true, [], ◌++◌, eqb, ◌∷◌, ◌==◌, Bool, List, ℕ, if◌then◌else◌, ℤ, String}

abbrev pub is_comma : ℕ → Bool
is_comma c = eqb c b','

-- the loop of `Set`
unfoldable pub append_items : List String → List String → List String
unfolding trim_space
append_items items [] = items
append_items items (item ∷ rest) =
    let trimmed = trim_space item in
    append_items (if trimmed == "" then items else items ++ trimmed ∷ []) rest

-- `stringListFlag.Set`
unfoldable pub set_list : List String → String → List String
unfolding append_items split
set_list items v = append_items items (split is_comma v)

-- What package flag reads, with its defaults.
pub record Flags : Type 0 where
  pub profile : String
  pub data_dir : String
  pub profile_dir : String
  pub rendezvous : String
  pub port : ℤ
  pub api_port : ℤ
  pub conf_min : ℤ
  pub topic_limit : ℤ
  pub msg_size_limit : ℤ
  pub rate_limit : ℤ
  pub bootstrap : List String
  pub topics : List String

-- filepath.Abs and filepath.Join, on the parts of a path
pub record Paths : Type 0 where
  pub abs : String → Result String
  pub join : List String → String

-- cfg := p2p.Config{…}
abbrev pub config_with : Flags → String → String → Config
config_with f data_dir profile_dir = record {
  profile = f.profile;
  profile_dir = profile_dir;
  data_dir = data_dir;
  p2p_port = f.port;
  api_port = f.api_port;
  rendezvous = f.rendezvous;
  bootstrap_peers = f.bootstrap;
  topics = or_topics f.topics;
  policy = record {
    conf_min = f.conf_min;
    topic_limit = f.topic_limit;
    msg_size_limit = f.msg_size_limit;
    require_signature = true;
    rate_limit_per_peer = f.rate_limit;
  };
}

module _ (paths : Paths) where
  abbrev pub root_dir : Flags → String
  root_dir f =
      if f.data_dir == "" then paths.join (".local" ∷ "profiles" ∷ f.profile ∷ []) else f.data_dir

  -- the profile directory, which is made absolute unless it is empty
  abbrev pub profile_path : String → Result String
  profile_path dir = if dir == "" then ok "" else wrap "resolve profile dir" (paths.abs dir)

  -- The part of `run` between the parsed flags and `NewNode`.
  unfoldable pub config_of : Flags → Result Config
  config_of f = do
    fail_if (f.profile == "") (missing "required --profile")
    data_dir ← wrap "resolve data dir" (paths.abs (root_dir f))
    profile_dir ← profile_path f.profile_dir
    ok (config_with f data_dir profile_dir)
