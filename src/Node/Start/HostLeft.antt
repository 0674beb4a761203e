-- ===== src/Node/Start/HostLeft.antt =====
-- The host after a `NewNode`, failed or not.
use openclaw_p2p.Gossip.{subscribe_topics}
use openclaw_p2p.Node.Config.{with_defaults, Config}
use openclaw_p2p.Exec.Outcomes.{on_error-Keeps, >>=-Keeps, Keeps}
use openclaw_p2p.Node.Peers.{AddrInfo}
use openclaw_p2p.Error.{wrap, nil, err, ok, Check, Result}
use openclaw_p2p.Hosts.{KeyFile, Identity, create_host, KeyFormat}
use openclaw_p2p.Node.Start.{
  on_gossip_of, stop_discovery, start_discovery, close_mdns, hosted_in, cancel, with_cancel,
  run_subscriptions, run_gossip, RunningNode, run_discovery, start_hosted, prepare, mdns_in,
  gossip_in, run_host, run_mdns, start_node, start_gossip, start_mdns, start_services, new_node,
  log_started, StartInputs, World,
}
use openclaw_p2p.Sae.Libs.{Libs}
use openclaw_p2p.Exec.{after_failure, Exec, lift, continue, ◌>>=◌, ◌>>◌}
use openclaw_p2p.Prelude.{refl, String, true, ◌≡◌}

abbrev HostRuns : World → Type 0
HostRuns w = w.running.host ≡ true

module _ {L : Libs} {Addr : Type 0} (K : KeyFormat L) (new_multiaddr : String → Result Addr)
    (addr_info : Addr → Result (AddrInfo L)) (i : StartInputs L) where
  start_mdns-Keeps : Keeps HostRuns (start_mdns K new_multiaddr addr_info i)
  start_mdns-Keeps w h = after (wrap "setup mdns" i.mdns)
    where
      after : (c : Check) → HostRuns (mdns_in w c).1
      after (ok u) = h
      after (err e) = h

  start_gossip-Keeps : Keeps HostRuns (start_gossip K new_multiaddr addr_info i)
  start_gossip-Keeps w h = after i.new_gossip
    where
      after : (c : Check) → HostRuns (gossip_in w c).1
      after (ok u) = h
      after (err e) = h

  start_services-Keeps :
      (cfg : Config) (own : L.PeerId)
      → Keeps HostRuns (start_services K new_multiaddr addr_info i cfg own)
  unfolding start_services
  start_services-Keeps cfg own =
      let mdns = run_mdns K new_multiaddr addr_info i in
      let discovery = run_discovery K new_multiaddr addr_info i cfg own in
      let gossip = run_gossip K new_multiaddr addr_info i in
      let subscriptions = run_subscriptions K new_multiaddr addr_info i cfg in
      >>=-Keeps HostRuns mdns (λ _. discovery >> (gossip >> subscriptions))
        (on_error-Keeps HostRuns cancel (start_mdns K new_multiaddr addr_info i) (λ w h. h)
          start_mdns-Keeps)
        (λ _.
          >>=-Keeps HostRuns discovery (λ _. gossip >> subscriptions)
            (on_error-Keeps HostRuns (λ w. cancel (close_mdns w))
              (start_discovery K new_multiaddr addr_info i cfg own) (λ w h. h) (λ w h. h))
            (λ _.
              >>=-Keeps HostRuns gossip (λ _. subscriptions)
                (on_error-Keeps HostRuns (λ w. cancel (stop_discovery w))
                  (start_gossip K new_multiaddr addr_info i) (λ w h. h) start_gossip-Keeps)
                (λ _.
                  on_error-Keeps HostRuns (λ w. cancel (stop_discovery (close_mdns w)))
                    (on_gossip_of (subscribe_topics i.pubsub cfg.topics)) (λ w h. h) (λ w h. h))))

  start_hosted-Keeps :
      (cfg : Config) (identity : Identity L)
      → Keeps HostRuns (start_hosted K new_multiaddr addr_info i cfg identity)
  unfolding log_started
  start_hosted-Keeps cfg identity =
      let services = start_services K new_multiaddr addr_info i cfg identity.peer_id in
      let log = log_started K new_multiaddr addr_info i cfg identity.peer_id in
      let node : RunningNode L = record { config = cfg; identity = identity } in
      >>=-Keeps HostRuns services (λ _. log >> lift (ok node))
        (start_services-Keeps cfg identity.peer_id)
        (λ _. >>=-Keeps HostRuns log (λ _. lift (ok node)) (λ w h. h) (λ _ w h. h))

  run_host-HostRuns :
      (cfg : Config) (w : World) (identity : Identity L)
      → (run_host K new_multiaddr addr_info i cfg w).0 ≡ ok identity
      → HostRuns (run_host K new_multiaddr addr_info i cfg w).1
  unfolding create_host
  run_host-HostRuns cfg w identity = after (
      create_host K i.identity i.new_host cfg.p2p_port (i.join_path cfg.data_dir "identity.key")
        w.key_file)
    where
      after :
          (r : Result (Identity L) × KeyFile)
          → (after_failure cancel (hosted_in w r)).0 ≡ ok identity
          → HostRuns (after_failure cancel (hosted_in w r)).1
      after (ok x, file) h = refl
      after (err e, file) h = cc h

  -- Once `CreateHost` has succeeded, `NewNode` leaves the host open, also when it fails later on.
  pub new_node_host :
      (cfg : Config) (w : World) (identity : Identity L)
      → (prepare K new_multiaddr addr_info i (with_defaults cfg) w).0 ≡ nil
      → (run_host K new_multiaddr addr_info i
          (with_defaults cfg)
          (with_cancel (prepare K new_multiaddr addr_info i (with_defaults cfg) w).1).1).0
        ≡ ok identity
      → (new_node K new_multiaddr addr_info i cfg w).1.running.host ≡ true
  unfolding new_node start_node
  new_node_host cfg w identity p h =
      prepared (prepare K new_multiaddr addr_info i (with_defaults cfg) w) p h
    where
      host : Exec World (Identity L)
      host = run_host K new_multiaddr addr_info i (with_defaults cfg)

      rest : Identity L → Exec World (RunningNode L)
      rest = start_hosted K new_multiaddr addr_info i (with_defaults cfg)

      hosted :
          (r : Result (Identity L) × World)
          → r.0 ≡ ok identity
          → HostRuns r.1
          → HostRuns (continue r.0 rest r.1).1
      hosted (ok x, v) e h = start_hosted-Keeps (with_defaults cfg) x v h
      hosted (err x, v) e h = h

      prepared :
          (r : Check × World)
          → r.0 ≡ nil
          → (host (with_cancel r.1).1).0 ≡ ok identity
          → HostRuns (continue r.0 (λ _. with_cancel >> (host >>= rest)) r.1).1
      prepared (ok u, v) p h =
          hosted (host (with_cancel v).1) h
            (run_host-HostRuns (with_defaults cfg) (with_cancel v).1 identity h)
      prepared (err x, v) p h = cc p
