-- ===== src/Command/Flags/Accepted.antt =====
-- The configuration that `run` makes is one that `NewNode` takes.
use openclaw_p2p.Policy.{normalize}
use openclaw_p2p.Node.Config.{or_topics, is_zero_port, with_defaults, Config, check_config}
use openclaw_p2p.Command.Flags.{config_with, profile_path, root_dir, Flags, Paths, config_of}
use openclaw_p2p.Error.{>>=-eq-ok, missing, fail_then, nil, err, wrap, ok, Result}
use openclaw_p2p.Prelude.{subst, [], ◌∷◌, List, true, refl, false, ◌==◌, String, ◌≡◌}

-- filepath.Abs answers no empty path.
abbrev pub AbsIsPath : Paths → Type 0
AbsIsPath paths = (p q : String) → paths.abs p ≡ ok q → (q == "") ≡ false

wrapped-ok : {A : Type 0} (what : String) (r : Result A) (a : A) → wrap what r ≡ ok a → r ≡ ok a
wrapped-ok what (ok b) a h = h
wrapped-ok what (err e) a h = cc h

check_config_complete :
    (cfg : Config)
    → (cfg.profile == "") ≡ false
    → is_zero_port cfg.p2p_port ≡ false
    → (cfg.data_dir == "") ≡ false
    → check_config cfg ≡ nil
unfolding check_config
check_config_complete cfg profile port dir = rw (profile, port, dir) refl

or_topics_idem : (topics : List String) → or_topics (or_topics topics) ≡ or_topics topics
or_topics_idem [] = refl
or_topics_idem (topic ∷ rest) = refl

-- The configuration that `run` makes of the flags passes the checks of `NewNode`, unless the port
-- is 0; the node requires signatures, whatever the flags, and its topics are those of the flags, or
-- the general topic. (filepath.Abs answers no empty path.)
pub config_of_lem :
    (paths : Paths) (f : Flags) (cfg : Config)
    → AbsIsPath paths
    → config_of paths f ≡ ok cfg
    → is_zero_port f.port ≡ false
    → (check_config (with_defaults cfg) ≡ nil)
      × ((with_defaults cfg).policy.require_signature ≡ true)
      × ((with_defaults cfg).topics ≡ or_topics f.topics)
unfolding config_of with_defaults normalize
config_of_lem paths f cfg is_path h port =
    let (named, h1) = fail_then (f.profile == "") (missing "required --profile") _ h in
    let (dir, e, h2) = >>=-eq-ok (wrap "resolve data dir" (paths.abs (root_dir paths f))) _ h1 in
    let (profile, g, h3) = >>=-eq-ok (profile_path paths f.profile_dir) _ h2 in
    let rooted = is_path (root_dir paths f) dir (wrapped-ok "resolve data dir" _ dir e) in
    let same : config_with f dir profile ≡ cfg = cc h3 in
    subst
      (λ (c : Config).
        (check_config (with_defaults c) ≡ nil)
        × ((with_defaults c).policy.require_signature ≡ true)
        × ((with_defaults c).topics ≡ or_topics f.topics))
      same
      (
        check_config_complete (with_defaults (config_with f dir profile)) named port rooted,
        refl,
        or_topics_idem f.topics,
      )
