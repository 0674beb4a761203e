-- ===== src/Node/Start.antt =====
-- internal/p2p/node.go: `NewNode` and `Close`. The answers of the system and of go-libp2p
-- are arguments; the goroutines that NewNode starts are the steps of Node/Life.
pub mod Release
pub mod HostLeft
pub mod Checked
pub mod Services
pub mod Started
pub mod Tests
use openclaw_p2p.Node.Config.{with_defaults, check_config, Config}
use openclaw_p2p.Clock.{Time}
use openclaw_p2p.Discovery.{RendezvousInputs, setup_rendezvous}
use openclaw_p2p.Store.Records.{append_event}
use openclaw_p2p.Node.Peers.{on_peer_discovered, PeerInputs, AddrInfo}
use openclaw_p2p.Store.Open.{open_store, OpenInputs}
use openclaw_p2p.Topics.{general_topic}
use openclaw_p2p.Node.State.{Node}
use openclaw_p2p.Hosts.{create_host, IdentityInputs, KeyFormat, KeyFile, Identity}
use openclaw_p2p.Policy.{Policy, normalize}
use openclaw_p2p.Sae.Libs.{Libs}
use openclaw_p2p.Gossip.{PubSub, subscribe_topics, Gossip}
use openclaw_p2p.Error.{Error, nil, wrap, Check, Result, ok, err}
use openclaw_p2p.Store.State.{text, Store, EventLogEntry}
use openclaw_p2p.Exec.{Exec, lift, on_error, ◌>>=◌, ◌>>◌}
use openclaw_p2p.Prelude.{
  Option, some, ◌&&◌, none, pos, ◌∷◌, ◌==◌, if◌then◌else◌, true, leb_ℤ, [], ℤ, List, Bool, false,
  String,
}

-- What a node has running outside of its memory: the context that its goroutines and its gossip
-- listen to, the libp2p host, the mDNS service, and the context of the discovery, a child of the
-- first.
pub record Running : Type 0 where
  pub context : Bool
  pub host : Bool
  pub mdns : Bool
  pub discovery : Bool

-- What `NewNode` changes; before it opens the store, `store` is what an earlier process left.
pub record World : Type 0 where
  pub store : Store
  pub key_file : KeyFile
  pub gossip : Gossip
  pub running : Running

-- What `NewNode` asks of the system and of go-libp2p.
pub record StartInputs (L : Libs) : Type 0 where
  pub mkdir : Check
  pub join_path : String → String → String
  pub opening : OpenInputs
  pub identity : IdentityInputs L
  pub new_host : ℤ → L.PrivKey → Result L.PeerId
  pub mdns : Check
  pub rendezvous : RendezvousInputs L
  pub peer : AddrInfo L → PeerInputs
  pub new_gossip : Check
  pub pubsub : PubSub
  pub event_fault : Option Error
  pub event_now : Time

-- A node with the configuration that it runs with.
pub record RunningNode (L : Libs) : Type 0 where
  pub config : Config
  pub identity : Identity L

-- cancel(), which also ends the discovery's context
abbrev pub cancel : World → World
cancel w = record w { running = record w.running { context = false; discovery = false } }

abbrev pub stop_discovery : World → World
stop_discovery w = record w { running = record w.running { discovery = false } }

abbrev pub close_mdns : World → World
close_mdns w = record w { running = record w.running { mdns = false } }

-- what a call leaves, put back into the world
abbrev pub opened_in : World → Result Store → Check × World
opened_in w (err e) = (err e, w)
opened_in w (ok s) = (nil, record w { store = s })

abbrev pub hosted_in : {A : Type 0} → World → Result A × KeyFile → Result A × World
hosted_in w (err e, file) = (err e, record w { key_file = file })
hosted_in w (ok a, file) =
    (ok a, record w { key_file = file; running = record w.running { host = true } })

abbrev pub mdns_in : World → Check → Check × World
mdns_in w (err e) = (err e, w)
mdns_in w (ok _) = (nil, record w { running = record w.running { mdns = true } })

-- context.WithCancel
abbrev pub with_cancel : Exec World (Unit {0})
with_cancel w = (nil, record w { running = record w.running { context = true } })

-- a method of gossip
abbrev pub on_gossip_of : {A : Type 0} → Exec Gossip A → Exec World A
on_gossip_of m w = let (r, g) = m w.gossip in (r, record w { gossip = g })

abbrev pub no_gossip : Gossip
no_gossip = record { topics = []; subs = []; published = [] }

abbrev pub gossip_in : World → Check → Check × World
gossip_in w (err e) = (err e, w)
gossip_in w (ok _) = (nil, record w { gossip = no_gossip })

abbrev pub started_event : String → String → EventLogEntry
started_event profile peer_id = record {
  timestamp = 0;
  event_type = "node_started";
  applied = true;
  reason = text profile;
  peer_id = peer_id;
  envelope = none;
  frame = none;
}

module _ {L : Libs} {Addr : Type 0} (K : KeyFormat L) (new_multiaddr : String → Result Addr)
    (addr_info : Addr → Result (AddrInfo L)) (i : StartInputs L) where
  -- up to the store
  unfoldable pub prepare : Config → Exec World (Unit {0})
  unfolding check_config open_store
  prepare cfg = do
    lift (check_config cfg)
    lift (wrap "create data dir" i.mkdir)
    λ w. opened_in w (open_store i.opening w.store)

  -- CreateHost
  abbrev pub start_host : Config → Exec World (Identity L)
  start_host cfg w = hosted_in w (
      create_host K i.identity i.new_host cfg.p2p_port (i.join_path cfg.data_dir "identity.key")
        w.key_file)

  -- SetupMDNS
  abbrev pub start_mdns : Exec World (Unit {0})
  start_mdns w = mdns_in w (wrap "setup mdns" i.mdns)

  -- SetupRendezvous, with the node's `onPeerDiscovered`
  abbrev pub start_discovery : Config → L.PeerId → Exec World (Unit {0})
  start_discovery cfg own w =
      let (r, (live, s)) =
        setup_rendezvous new_multiaddr addr_info own
          (some (λ info t. on_peer_discovered L (i.peer info) own info t)) i.rendezvous
          cfg.bootstrap_peers (w.running.discovery, w.store) in
      (r, record w { store = s; running = record w.running { discovery = live } })

  -- NewGossip
  abbrev pub start_gossip : Exec World (Unit {0})
  start_gossip w = gossip_in w i.new_gossip

  -- each of them with what its error stops
  abbrev pub run_mdns : Exec World (Unit {0})
  run_mdns = on_error cancel start_mdns

  abbrev pub run_discovery : Config → L.PeerId → Exec World (Unit {0})
  run_discovery cfg own = on_error (λ w. cancel (close_mdns w)) (start_discovery cfg own)

  abbrev pub run_gossip : Exec World (Unit {0})
  run_gossip = on_error (λ w. cancel (stop_discovery w)) start_gossip

  abbrev pub run_subscriptions : Config → Exec World (Unit {0})
  run_subscriptions cfg =
      on_error (λ w. cancel (stop_discovery (close_mdns w)))
        (on_gossip_of (subscribe_topics i.pubsub cfg.topics))

  unfoldable pub start_services : Config → L.PeerId → Exec World (Unit {0})
  unfolding setup_rendezvous subscribe_topics on_peer_discovered
  start_services cfg own = do run_mdns; run_discovery cfg own; run_gossip; run_subscriptions cfg

  -- the last event, whose error stops nothing
  unfoldable pub log_started : Config → L.PeerId → Exec World (Unit {0})
  unfolding append_event
  log_started cfg own w =
      let (r, s) =
        append_event i.event_fault i.event_now (started_event cfg.profile (L.peer_string own))
          w.store in
      (r, record w { store = s })

  -- with a host: the services and the last event
  abbrev pub start_hosted : Config → Identity L → Exec World (RunningNode L)
  start_hosted cfg identity = do
    start_services cfg identity.peer_id
    log_started cfg identity.peer_id
    lift (ok (record { config = cfg; identity = identity }))

  abbrev pub run_host : Config → Exec World (Identity L)
  run_host cfg = on_error cancel (start_host cfg)

  unfoldable pub start_node : Config → Exec World (RunningNode L)
  unfolding prepare create_host start_services log_started
  start_node cfg = do prepare cfg; with_cancel; identity ← run_host cfg; start_hosted cfg identity

  -- `NewNode`
  unfoldable pub new_node : Config → Exec World (RunningNode L)
  unfolding with_defaults start_node
  new_node cfg = start_node (with_defaults cfg)

-- The node of Node/State that runs with a configuration.
abbrev pub node_of : {L : Libs} → RunningNode L → World → Node L
node_of r w = record {
  policy = r.config.policy;
  priv_key = r.identity.priv_key;
  peer_id = r.identity.peer_id;
  did = r.identity.did;
  store = w.store;
  gossip = w.gossip;
}

-- `Close`, of which only the first call does anything: it stops the discovery, mDNS, the context,
-- with which the readers of the gossip end, and the host.
unfoldable pub close : Bool → World → World
close true w = w
close false w = record w {
  running = record { context = false; host = false; mdns = false; discovery = false };
}
