-- ===== src/Node/Start/Started.antt =====
-- What a node is once `NewNode` has returned it.
use openclaw_p2p.Node.Start.Checked.{topics_or_general, topics_or_general_lem, check_config_sound}
use openclaw_p2p.Policy.{normalize}
use openclaw_p2p.Node.Publish.Delivered.{publish_task_received}
use openclaw_p2p.Sae.Validate.{decode_envelope}
use openclaw_p2p.Sae.Envelope.{SaeEnvelope}
use openclaw_p2p.Node.Publish.Draft.{PublishTaskInput, DraftInputs}
use openclaw_p2p.Node.Publish.{publish_task, PublishInputs}
use openclaw_p2p.Topics.{unique_strings}
use openclaw_p2p.Gossip.Topics.{to_each, AllSubscribed}
use openclaw_p2p.Node.Start.Services.{start_services_lem, HasServices}
use openclaw_p2p.Store.Open.{open_store}
use openclaw_p2p.Store.State.{Store}
use openclaw_p2p.Sae.Sign.{verify_publisher, did_from_pub_key}
use openclaw_p2p.Node.Config.{with_defaults, check_config, Config}
use openclaw_p2p.Node.Peers.{AddrInfo}
use openclaw_p2p.Error.{err, Check, wrap, ok, nil, Result}
use openclaw_p2p.Hosts.{
  identity_of, load_or_create_identity, Identity, KeyFile, create_host, KeyFormat,
}
use openclaw_p2p.Node.Start.{
  node_of, no_gossip, with_cancel, start_node, new_node, start_services, hosted_in, start_hosted,
  cancel, RunningNode, run_host, log_started, opened_in, World, prepare, StartInputs, Running,
}
use openclaw_p2p.Sae.Libs.{
  Bytes, NamesKey, JsonRoundTrips, Base64RoundTrips, SignaturesVerify, Libs,
}
use openclaw_p2p.Exec.{after_failure, Exec, lift, continue, ◌>>=◌, ◌>>◌, >>=-ok}
use openclaw_p2p.Prelude.{
  ◌==◌, if◌then◌else◌, pos, ◌≢◌, List, ◌++◌, ◌∙◌, sym, ap, refl, subst, ℤ, String, true, ◌≡◌,
}

-- Everything that a node runs.
abbrev pub all_running : Running
all_running = record { context = true; host = true; mdns = true; discovery = true }

module _ {L : Libs} {Addr : Type 0} (K : KeyFormat L) (new_multiaddr : String → Result Addr)
    (addr_info : Addr → Result (AddrInfo L)) (i : StartInputs L) where
  pub prepare-ok :
      (cfg : Config) (w : World)
      → (prepare K new_multiaddr addr_info i cfg w).0 ≡ nil
      → (check_config cfg ≡ nil)
        × (s : Store) × ((prepare K new_multiaddr addr_info i cfg w).1 ≡ record w { store = s })
  unfolding prepare
  prepare-ok cfg w = after (check_config cfg) (wrap "create data dir" i.mkdir)
    where
      opened :
          (r : Result Store)
          → (opened_in w r).0 ≡ nil
          → (s : Store) × ((opened_in w r).1 ≡ record w { store = s })
      opened (ok s) h = (s, refl)
      opened (err e) h = cc h

      opens : Exec World (Unit {0})
      opens v = opened_in v (open_store i.opening v.store)

      after :
          (a b : Check)
          → (continue a (λ _. lift b >> opens) w).0 ≡ nil
          → (a ≡ nil)
            × (s : Store) × ((continue a (λ _. lift b >> opens) w).1 ≡ record w { store = s })
      after (ok a) (ok b) h = let (s, e) = opened (open_store i.opening w.store) h in (refl, s, e)
      after (ok a) (err e) h = cc h
      after (err e) b h = cc h

  -- The identity of a host: the key that the key file holds or gets, the ID of the host, and the
  -- DID of the key.
  pub record IsIdentity (port : ℤ) (file : KeyFile) (identity : Identity L) : Type 0 where
    pub loaded : (load_or_create_identity K i.identity file).0 ≡ ok identity.priv_key
    pub hosted : i.new_host port identity.priv_key ≡ ok identity.peer_id
    pub pub_key : identity.pub_key ≡ L.get_public identity.priv_key
    pub did : identity.did ≡ did_from_pub_key L (L.get_public identity.priv_key)

  create_host-ok :
      (port : ℤ) (path : String) (file : KeyFile) (identity : Identity L)
      → (create_host K i.identity i.new_host port path file).0 ≡ ok identity
      → IsIdentity port file identity
  unfolding create_host
  create_host-ok port path file identity = loaded (load_or_create_identity K i.identity file) refl
    where
      named :
          (priv : L.PrivKey) (host_id : Result L.PeerId) (f : KeyFile)
          → (load_or_create_identity K i.identity file).0 ≡ ok priv
          → i.new_host port priv ≡ host_id
          → (continue
              (wrap "create host" host_id)
              (λ pid. lift (ok (identity_of K priv path pid)))
              f).0
            ≡ ok identity
          → IsIdentity port file identity
      named priv (ok pid) f e g h =
          let same : identity_of K priv path pid ≡ identity = cc h in
          subst (IsIdentity port file) same
            (record { loaded = e; hosted = g; pub_key = refl; did = refl })
      named priv (err x) f e g h = cc h

      loaded :
          (r : Result L.PrivKey × KeyFile)
          → (load_or_create_identity K i.identity file).0 ≡ r.0
          → (continue r.0
              (λ priv. lift (wrap "create host" (i.new_host port priv)) >>= λ pid.
                lift (ok (identity_of K priv path pid)))
              r.1).0
            ≡ ok identity
          → IsIdentity port file identity
      loaded (ok priv, f) e h = named priv (i.new_host port priv) f e refl h
      loaded (err x, f) e h = cc h

  -- The world after CreateHost.
  pub run_host-ok :
      (cfg : Config) (w : World) (identity : Identity L)
      → (run_host K new_multiaddr addr_info i cfg w).0 ≡ ok identity
      → IsIdentity cfg.p2p_port w.key_file identity
        × ((run_host K new_multiaddr addr_info i cfg w).1.running
            ≡ record w.running { host = true })
  run_host-ok cfg w identity h =
      let path = i.join_path cfg.data_dir "identity.key" in
      after (create_host K i.identity i.new_host cfg.p2p_port path w.key_file)
        (create_host-ok cfg.p2p_port path w.key_file identity) h
    where
      after :
          (r : Result (Identity L) × KeyFile)
          → (r.0 ≡ ok identity → IsIdentity cfg.p2p_port w.key_file identity)
          → (after_failure cancel (hosted_in w r)).0 ≡ ok identity
          → IsIdentity cfg.p2p_port w.key_file identity
            × ((after_failure cancel (hosted_in w r)).1.running ≡ record w.running { host = true })
      after (ok x, file) f h = (f h, refl)
      after (err e, file) f h = cc h

  -- The services run, the topics are subscribed to, and the node is the one of the host.
  start_hosted-ok :
      (cfg : Config) (identity : Identity L) (w : World) (r : RunningNode L)
      → (start_hosted K new_multiaddr addr_info i cfg identity w).0 ≡ ok r
      → (r ≡ record { config = cfg; identity = identity })
        × HasServices cfg w (start_hosted K new_multiaddr addr_info i cfg identity w).1
  unfolding log_started
  start_hosted-ok cfg identity w r h =
      let services = start_services K new_multiaddr addr_info i cfg identity.peer_id in
      let log = log_started K new_multiaddr addr_info i cfg identity.peer_id in
      let node : RunningNode L = record { config = cfg; identity = identity } in
      let rest : Exec World (RunningNode L) = log >> lift (ok node) in
      let (u, h1, e1) = >>=-ok services (λ _. rest) w h in
      let w1 = (services w).1 in
      let n1 = ap (λ (x : Result (RunningNode L) × World). x.0) (sym e1) ∙ h in
      let (u2, h2, e2) = >>=-ok log (λ _. lift (ok node)) w1 n1 in
      let has = start_services_lem K new_multiaddr addr_info i cfg identity.peer_id w h1 in
      let same : ok node ≡ ok r = ap (λ (x : Result (RunningNode L) × World). x.0) (sym e2) ∙ n1 in
      (
        cc same,
        subst (HasServices cfg w) (ap (λ (x : Result (RunningNode L) × World). x.1) (sym (e1 ∙ e2)))
            (record { running = has.running; subscribed = has.subscribed }),
      )

  -- A node that runs with a configuration, from the world before `NewNode` to the world after it.
  pub record IsStarted (cfg : Config) (w w' : World) (r : RunningNode L) : Type 0 where
    pub profile : cfg.profile ≢ ""
    pub port : cfg.p2p_port ≢ pos 0
    pub data_dir : cfg.data_dir ≢ ""
    pub config : r.config ≡ record cfg {
      rendezvous = if cfg.rendezvous == "" then "openagent/v1/default" else cfg.rendezvous;
      topics = topics_or_general cfg.topics;
      policy = normalize cfg.policy;
    }
    pub identity : IsIdentity cfg.p2p_port w.key_file r.identity
    pub running : w'.running ≡ all_running
    pub subscribed :
        AllSubscribed (unique_strings (topics_or_general cfg.topics)) no_gossip w'.gossip

  pub new_node_lem :
      (cfg : Config) (w : World) (r : RunningNode L)
      → (new_node K new_multiaddr addr_info i cfg w).0 ≡ ok r
      → IsStarted cfg w (new_node K new_multiaddr addr_info i cfg w).1 r
  unfolding new_node start_node with_defaults
  new_node_lem cfg w r h =
      let full = with_defaults cfg in
      let first = prepare K new_multiaddr addr_info i full in
      let host = run_host K new_multiaddr addr_info i full in
      let rest = start_hosted K new_multiaddr addr_info i full in
      let (u, h1, e1) = >>=-ok first (λ _. with_cancel >> (host >>= rest)) w h in
      let (checked, s, e) = prepare-ok full w h1 in
      let w1 = (with_cancel (first w).1).1 in
      let n1 = ap (λ (x : Result (RunningNode L) × World). x.0) (sym e1) ∙ h in
      let (identity, h2, e2) = >>=-ok host rest w1 n1 in
      let (is, same) = run_host-ok full w1 identity h2 in
      let n2 = ap (λ (x : Result (RunningNode L) × World). x.0) (sym e2) ∙ n1 in
      let (made, has) = start_hosted-ok full identity (host w1).1 r n2 in
      let done = ap (λ (x : Result (RunningNode L) × World). x.1) (e1 ∙ e2) in
      let sound = check_config_sound full checked in
      record {
        profile = sound.0;
        port = sound.1;
        data_dir = sound.2;
        config =
            ap (λ (x : RunningNode L). x.config) made
            ∙ ap (λ (ts : List String). record full { topics = ts })
                (topics_or_general_lem cfg.topics);
        identity =
            subst (IsIdentity cfg.p2p_port w.key_file)
              (sym (ap (λ (x : RunningNode L). x.identity) made))
              (subst (λ f. IsIdentity cfg.p2p_port f identity) (ap (λ (x : World). x.key_file) e)
                is);
        running =
            ap (λ (x : World). x.running) done
            ∙ has.running
            ∙ ap (λ (q : Running). record q { mdns = true; discovery = true }) same;
        subscribed =
            subst
              (λ ts.
                AllSubscribed (unique_strings ts) no_gossip
                  (new_node K new_multiaddr addr_info i cfg w).1.gossip)
              (topics_or_general_lem cfg.topics)
              (subst (λ g. AllSubscribed (unique_strings full.topics) no_gossip g)
                (ap (λ (x : World). x.gossip) (sym done)) has.subscribed);
      }

  -- The tasks that a started node publishes, now or later, are accepted by every receiver: each is decoded to the
  -- very task that `PublishTask` returned, and `VerifyPublisher` accepts it, without any assumption
  -- on the node itself. (Signatures verify, base64 and JSON decoding undo encoding, and a libp2p
  -- host has the ID of its key.)
  pub publish_task-new_node :
      SignaturesVerify L
      → Base64RoundTrips L
      → JsonRoundTrips L
      → ((port : ℤ) (priv : L.PrivKey) (pid : L.PeerId)
          → i.new_host port priv ≡ ok pid
          → NamesKey L pid (L.get_public priv))
      → (cfg : Config) (w later : World) (r : RunningNode L) (p : PublishInputs) (di : DraftInputs)
        (input : PublishTaskInput) (task : SaeEnvelope)
      → (new_node K new_multiaddr addr_info i cfg w).0 ≡ ok r
      → (let n = node_of r later in
          let published = publish_task L p i.pubsub di input n in
          published.0 ≡ ok task
          → (body : Bytes) × (published.1.gossip.published
              ≡ n.gossip.published ++ to_each body (unique_strings task.topics))
            × (decode_envelope L body ≡ ok task)
            × (verify_publisher L task ≡ nil))
  publish_task-new_node sv b64 json names cfg w later r p di input task h published =
      let is = (new_node_lem cfg w r h).identity in
      publish_task_received L p i.pubsub sv b64 json di input (node_of r later) task
        (names cfg.p2p_port r.identity.priv_key r.identity.peer_id is.hosted) is.did published
