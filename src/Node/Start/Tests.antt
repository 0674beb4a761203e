-- ===== src/Node/Start/Tests.antt =====
-- Starts of a node: one that succeeds, and one that fails when the host is already open.
use openclaw_p2p.Sae.Sign.{verify_publisher}
use openclaw_p2p.Sae.Validate.{decode_envelope}
use openclaw_p2p.Gossip.Topics.{to_each}
use openclaw_p2p.Node.Publish.{publish_task}
use openclaw_p2p.Sae.Libs.{NamesKey, Bytes}
use openclaw_p2p.Policy.{normalize}
use openclaw_p2p.Gossip.{ensure_topic}
use openclaw_p2p.Topics.{unique_strings}
use openclaw_p2p.Store.Files.{read_json, written}
use openclaw_p2p.Store.Open.Recovery.{no_faults}
use openclaw_p2p.Node.Start.HostLeft.{new_node_host}
use openclaw_p2p.Store.Tests.{empty_store}
use openclaw_p2p.Node.Peers.{AddrInfo}
use openclaw_p2p.Node.Start.Started.{publish_task-new_node}
use openclaw_p2p.Hosts.{create_host, Identity}
use openclaw_p2p.Node.Start.Release.{new_node-IsReleased, IsReleased}
use openclaw_p2p.Node.Config.{with_defaults, Config}
use openclaw_p2p.Node.Start.{
  node_of, with_cancel, no_gossip, new_node, World, prepare, StartInputs, RunningNode, run_host,
}
use openclaw_p2p.Error.{invalid_signature, nil, ok, err, Result}
use openclaw_p2p.Sae.Tests.{
  json_toy-JsonRoundTrips, json_toy-Base64RoundTrips, json_toy-SignaturesVerify, signed_task,
  json_toy,
}
use openclaw_p2p.Node.Tests.{draft_inputs, input, ready, publish_inputs, publish_test, strict}
use openclaw_p2p.Hosts.Tests.{one_key, first_start}
use openclaw_p2p.Prelude.{Bool, ◌++◌, refl, [], pos, false, true, String, ◌≡◌, none}

abbrev no_address : String → Result (Unit {0})
no_address text = ok tt

abbrev no_info : Unit {0} → Result (AddrInfo json_toy)
no_info addr = ok (record { id = true; addrs = [] })

abbrev all_succeeds : StartInputs json_toy
all_succeeds = record {
  mkdir = nil;
  join_path = λ dir name. name;
  opening = no_faults (λ raw. raw);
  identity = first_start;
  new_host = λ port priv. ok true;
  mdns = nil;
  rendezvous = record {
    dht = nil;
    visit = λ info. record { connected = false; connect = err invalid_signature };
    bootstrap = nil;
  };
  peer = λ info. record { out = written; now = 1; event_fault = none; event_now = 1 };
  new_gossip = nil;
  pubsub = ready;
  event_fault = none;
  event_now = 2;
}

abbrev config : Config
config = record {
  profile = "main";
  profile_dir = "";
  data_dir = "data";
  p2p_port = pos 4001;
  api_port = pos 7401;
  rendezvous = "";
  bootstrap_peers = [];
  topics = [];
  policy = strict;
}

abbrev stopped : World
stopped = record {
  store = empty_store;
  key_file = none;
  gossip = no_gossip;
  running = record { context = false; host = false; mdns = false; discovery = false };
}

abbrev identity : Identity json_toy
identity = record {
  priv_key = tt;
  pub_key = tt;
  peer_id = true;
  did = "did:key:A-";
  key_path = "identity.key";
}

abbrev started : RunningNode json_toy
started = record { config = with_defaults config; identity = identity }

start_test : (new_node one_key no_address no_info all_succeeds config stopped).0 ≡ ok started
unfolding new_node read_json unique_strings ensure_topic
start_test = refl

abbrev gossip_fails : StartInputs json_toy
gossip_fails = record all_succeeds { new_gossip = err invalid_signature }

failed_test :
    (new_node one_key no_address no_info gossip_fails config stopped).0 ≡ err invalid_signature
unfolding new_node read_json
failed_test = refl

-- A gossip that cannot be made leaves mDNS running, beside the host.
mdns_left_test :
    (new_node one_key no_address no_info gossip_fails config stopped).1.running
    ≡ record { context = false; host = true; mdns = true; discovery = false }
unfolding new_node read_json
mdns_left_test = refl

new_node-IsReleased_example :
    IsReleased one_key no_address no_info gossip_fails invalid_signature
      (new_node one_key no_address no_info gossip_fails config stopped).1
new_node-IsReleased_example =
    new_node-IsReleased one_key no_address no_info gossip_fails config stopped invalid_signature
      (refl, refl) failed_test

prepare_test :
    (prepare one_key no_address no_info gossip_fails (with_defaults config) stopped).0 ≡ nil
unfolding prepare with_defaults read_json
prepare_test = refl

host_test :
    (run_host one_key no_address no_info gossip_fails
      (with_defaults config)
      (with_cancel
        (prepare one_key no_address no_info gossip_fails (with_defaults config) stopped).1).1).0
    ≡ ok identity
unfolding create_host prepare with_defaults read_json
host_test = refl

new_node_host_example :
    (new_node one_key no_address no_info gossip_fails config stopped).1.running.host ≡ true
new_node_host_example =
    new_node_host one_key no_address no_info gossip_fails config stopped identity prepare_test
      host_test

toy_names : (pid : Bool) → NamesKey json_toy pid tt
toy_names true = (refl, refl)
toy_names false = (refl, refl)

publish_started_test :
    (publish_task json_toy publish_inputs ready draft_inputs input (node_of started stopped)).0
    ≡ ok signed_task
unfolding with_defaults normalize
publish_started_test = publish_test

publish_task-new_node_example :
    (body : Bytes) × ((publish_task json_toy publish_inputs ready draft_inputs input
        (node_of started stopped)).1.gossip.published
      ≡ [] ++ to_each body (unique_strings signed_task.topics))
    × (decode_envelope json_toy body ≡ ok signed_task)
    × (verify_publisher json_toy signed_task ≡ nil)
publish_task-new_node_example =
    publish_task-new_node one_key no_address no_info all_succeeds json_toy-SignaturesVerify
      json_toy-Base64RoundTrips json_toy-JsonRoundTrips (λ port priv pid h. toy_names pid) config
      stopped stopped started publish_inputs draft_inputs input signed_task start_test
      publish_started_test
