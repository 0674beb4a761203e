-- ===== src/Node/Start/Services.antt =====
-- The services of a node that have all been started.
use openclaw_p2p.Gossip.{subscribe_topics, Gossip}
use openclaw_p2p.Topics.{unique_strings}
use openclaw_p2p.Gossip.Topics.{subscribe_topics_lem, AllSubscribed}
use openclaw_p2p.Exec.Outcomes.{>>=-Keeps, Keeps}
use openclaw_p2p.Store.State.{Store}
use openclaw_p2p.Node.Config.{Config}
use openclaw_p2p.Discovery.{
  ensure_connected_peers, on_peers, parse_bootstrap_peers, join_rendezvous, RendezvousInputs,
  setup_rendezvous,
}
use openclaw_p2p.Node.Peers.{on_peer_discovered, AddrInfo}
use openclaw_p2p.Error.{err, ok, wrap, Check, nil, Result}
use openclaw_p2p.Hosts.{KeyFormat}
use openclaw_p2p.Sae.Libs.{Libs}
use openclaw_p2p.Node.Start.{
  run_subscriptions, start_services, close_mdns, gossip_in, mdns_in, stop_discovery, cancel,
  no_gossip, run_discovery, run_mdns, run_gossip, World, StartInputs,
}
use openclaw_p2p.Exec.{after_failure, Exec, lift, ◌>>=◌, ◌>>◌, >>=-ok}
use openclaw_p2p.Prelude.{
  subst, ◌∙◌, sym, some, false, ap, refl, List, Bool, Option, String, true, ◌≡◌,
}

-- The services are running, and the topics are subscribed to.
pub record HasServices (cfg : Config) (w w' : World) : Type 0 where
  pub running : w'.running ≡ record w.running { mdns = true; discovery = true }
  pub subscribed : AllSubscribed (unique_strings cfg.topics) no_gossip w'.gossip

module _ {L : Libs} {Addr : Type 0} (K : KeyFormat L) (new_multiaddr : String → Result Addr)
    (addr_info : Addr → Result (AddrInfo L)) (i : StartInputs L) where
  run_mdns-ok :
      (w : World)
      → (run_mdns K new_multiaddr addr_info i w).0 ≡ nil
      → (run_mdns K new_multiaddr addr_info i w).1
        ≡ record w { running = record w.running { mdns = true } }
  run_mdns-ok w = after (wrap "setup mdns" i.mdns)
    where
      after :
          (c : Check)
          → (after_failure cancel (mdns_in w c)).0 ≡ nil
          → (after_failure cancel (mdns_in w c)).1
            ≡ record w { running = record w.running { mdns = true } }
      after (ok u) h = refl
      after (err e) h = cc h

  run_gossip-ok :
      (w : World)
      → (run_gossip K new_multiaddr addr_info i w).0 ≡ nil
      → (run_gossip K new_multiaddr addr_info i w).1 ≡ record w { gossip = no_gossip }
  run_gossip-ok w = after i.new_gossip
    where
      after :
          (c : Check)
          → (after_failure (λ v. cancel (stop_discovery v)) (gossip_in w c)).0 ≡ nil
          → (after_failure (λ v. cancel (stop_discovery v)) (gossip_in w c)).1
            ≡ record w { gossip = no_gossip }
      after (ok u) h = refl
      after (err e) h = cc h

  -- The discovery's context stays live while the bootstrap peers are connected.
  abbrev Live : Bool × Store → Type 0
  Live x = x.0 ≡ true

  join_rendezvous-Keeps :
      (own : L.PeerId) (on_peer : Option (AddrInfo L → Store → Store)) (j : RendezvousInputs L)
      (bootstrap : List String)
      → Keeps Live (join_rendezvous new_multiaddr addr_info own on_peer j bootstrap)
  join_rendezvous-Keeps own on_peer j bootstrap =
      let dht : Exec (Bool × Store) (Unit {0}) = lift (wrap "create DHT" j.dht) in
      let infos : Exec (Bool × Store) (List (AddrInfo L)) =
        lift (parse_bootstrap_peers new_multiaddr addr_info bootstrap) in
      let connects : List (AddrInfo L) → Exec (Bool × Store) (Unit {0}) = λ peers.
        on_peers new_multiaddr addr_info own on_peer
          (ensure_connected_peers own on_peer j.visit peers) in
      let last : Exec (Bool × Store) (Unit {0}) = lift (wrap "bootstrap DHT" j.bootstrap) in
      >>=-Keeps Live dht (λ _. infos >>= λ peers. connects peers >> last) (λ x h. h)
        (λ _.
          >>=-Keeps Live infos (λ peers. connects peers >> last) (λ x h. h)
            (λ peers. >>=-Keeps Live (connects peers) (λ _. last) (λ x h. h) (λ _ x h. h)))

  run_discovery-ok :
      (cfg : Config) (own : L.PeerId) (w : World)
      → (run_discovery K new_multiaddr addr_info i cfg own w).0 ≡ nil
      → (run_discovery K new_multiaddr addr_info i cfg own w).1.running
        ≡ record w.running { discovery = true }
  unfolding setup_rendezvous
  run_discovery-ok cfg own w h =
      let on_peer : Option (AddrInfo L → Store → Store) =
        some (λ info t. on_peer_discovered L (i.peer info) own info t) in
      after
        (join_rendezvous new_multiaddr addr_info own on_peer i.rendezvous cfg.bootstrap_peers
          (true, w.store))
        (join_rendezvous-Keeps own on_peer i.rendezvous cfg.bootstrap_peers (true, w.store) refl) h
    where
      placed : Check × (Bool × Store) → Check × World
      placed (c, (live, s)) =
          (c, record w { store = s; running = record w.running { discovery = live } })

      after :
          (x : Check × (Bool × Store))
          → x.1.0 ≡ true
          → (after_failure
              (λ v. cancel (close_mdns v))
              (placed (after_failure (λ y. (false, y.1)) x))).0
            ≡ nil
          → (after_failure
              (λ v. cancel (close_mdns v))
              (placed (after_failure (λ y. (false, y.1)) x))).1.running
            ≡ record w.running { discovery = true }
      after (ok u, (live, s)) live_on h = rw live_on refl
      after (err e, (live, s)) live_on h = cc h

  run_subscriptions-ok :
      (cfg : Config) (w : World)
      → (run_subscriptions K new_multiaddr addr_info i cfg w).0 ≡ nil
      → ((run_subscriptions K new_multiaddr addr_info i cfg w).1.running ≡ w.running)
        × AllSubscribed
            (unique_strings cfg.topics)
            w.gossip
            (run_subscriptions K new_multiaddr addr_info i cfg w).1.gossip
  run_subscriptions-ok cfg w h =
      after (subscribe_topics i.pubsub cfg.topics w.gossip)
        (subscribe_topics_lem i.pubsub cfg.topics w.gossip) h
    where
      after :
          (x : Check × Gossip)
          → (x.0 ≡ nil → AllSubscribed (unique_strings cfg.topics) w.gossip x.1)
          → (after_failure
              (λ v. cancel (stop_discovery (close_mdns v)))
              (x.0, record w { gossip = x.1 })).0
            ≡ nil
          → ((after_failure
                (λ v. cancel (stop_discovery (close_mdns v)))
                (x.0, record w { gossip = x.1 })).1.running
              ≡ w.running)
            × AllSubscribed
                (unique_strings cfg.topics)
                w.gossip
                (after_failure
                  (λ v. cancel (stop_discovery (close_mdns v)))
                  (x.0, record w { gossip = x.1 })).1.gossip
      after (ok u, g) f h = (refl, f refl)
      after (err e, g) f h = cc h

  pub start_services_lem :
      (cfg : Config) (own : L.PeerId) (w : World)
      → (start_services K new_multiaddr addr_info i cfg own w).0 ≡ nil
      → HasServices cfg w (start_services K new_multiaddr addr_info i cfg own w).1
  unfolding start_services
  start_services_lem cfg own w h =
      let mdns = run_mdns K new_multiaddr addr_info i in
      let discovery = run_discovery K new_multiaddr addr_info i cfg own in
      let gossip = run_gossip K new_multiaddr addr_info i in
      let subscriptions = run_subscriptions K new_multiaddr addr_info i cfg in
      let (u, h1, e1) = >>=-ok mdns (λ _. discovery >> (gossip >> subscriptions)) w h in
      let w1 = (mdns w).1 in
      let n1 = ap (λ (x : Check × World). x.0) (sym e1) ∙ h in
      let (u2, h2, e2) = >>=-ok discovery (λ _. gossip >> subscriptions) w1 n1 in
      let w2 = (discovery w1).1 in
      let n2 = ap (λ (x : Check × World). x.0) (sym e2) ∙ n1 in
      let (u3, h3, e3) = >>=-ok gossip (λ _. subscriptions) w2 n2 in
      let w3 = (gossip w2).1 in
      let n3 = ap (λ (x : Check × World). x.0) (sym e3) ∙ n2 in
      let done : (start_services K new_multiaddr addr_info i cfg own w).1 ≡ (subscriptions w3).1 =
        ap (λ (x : Check × World). x.1) (e1 ∙ e2 ∙ e3) in
      let (same, subscribed) = run_subscriptions-ok cfg w3 n3 in
      let m1 = run_mdns-ok w h1 in
      let m2 = run_discovery-ok cfg own w1 h2 in
      let m3 = run_gossip-ok w2 h3 in
      rw done (record {
        running =
            same
            ∙ ap (λ (x : World). x.running) m3
            ∙ m2
            ∙ ap (λ (x : World). record x.running { discovery = true }) m1;
        subscribed =
            subst (λ g. AllSubscribed (unique_strings cfg.topics) g (subscriptions w3).1.gossip)
              (ap (λ (x : World). x.gossip) m3) subscribed;
      })
