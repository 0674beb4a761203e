-- ===== src/Node/Start/Checked.antt =====
-- What `NewNode` checks of a configuration and fills in, written out.
use openclaw_p2p.Prelude.{
  ◌∙◌, sym, ne_of_test, ap, refl, true, ◌==◌, [], ◌∷◌, pos, false, String, ◌≢◌, ◌≡◌, ℤ, List,
}
use openclaw_p2p.Node.Config.{Config, check_config, or_topics, is_zero_port}
use openclaw_p2p.Error.{fail_then, fail_if-eq-ok, missing, nil}

-- The topics of a configuration, and the general one if it has none.
abbrev pub topics_or_general : List String → List String
topics_or_general [] = "openagent/v1/general" ∷ []
topics_or_general (topic ∷ rest) = topic ∷ rest

pub topics_or_general_lem : (topics : List String) → or_topics topics ≡ topics_or_general topics
topics_or_general_lem [] = refl
topics_or_general_lem (topic ∷ rest) = refl

port_of_test : (port : ℤ) → is_zero_port port ≡ false → port ≢ pos 0
port_of_test port h e = let zero : is_zero_port port ≡ true = ap is_zero_port e in cc (sym zero ∙ h)

-- A configuration that passes the checks has a profile, a port and a directory.
pub check_config_sound :
    (cfg : Config)
    → check_config cfg ≡ nil
    → (cfg.profile ≢ "") × (cfg.p2p_port ≢ pos 0) × (cfg.data_dir ≢ "")
unfolding check_config
check_config_sound cfg h =
    let (a, h1) = fail_then (cfg.profile == "") (missing "profile") _ h in
    let (b, h2) = fail_then (is_zero_port cfg.p2p_port) (missing "p2p port") _ h1 in
    let c = fail_if-eq-ok (cfg.data_dir == "") (missing "data dir") h2 in
    (ne_of_test cfg.profile "" a, port_of_test cfg.p2p_port b, ne_of_test cfg.data_dir "" c)
