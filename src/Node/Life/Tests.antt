-- ===== src/Node/Life/Tests.antt =====
-- A node that publishes a task and then discovers a peer.
use openclaw_p2p.Node.Life.Accepted.{Life-IsAccepted}
use openclaw_p2p.Node.Inbound.Accepted.{IsAccepted}
use openclaw_p2p.Store.Tests.Upkeep.{empty-IsFiled}
use openclaw_p2p.Store.Tasks.History.{seq_at}
use openclaw_p2p.Node.Life.Invariants.{Life-IsFiled, Life-Run}
use openclaw_p2p.Node.Publish.{publish_task}
use openclaw_p2p.Store.Files.{written}
use openclaw_p2p.Node.State.{Node}
use openclaw_p2p.Node.Peers.{on_peer_discovered, AddrInfo, PeerInputs}
use openclaw_p2p.Store.Run.Filed.{IsFiled}
use openclaw_p2p.Store.Run.{AnyOutcome, Run}
use openclaw_p2p.Node.Life.{NodeStep, begin, and_step, Life}
use openclaw_p2p.Sae.Tests.{json_toy}
use openclaw_p2p.Node.Tests.{empty-IsAccepted, draft_inputs, input, ready, publish_inputs, toy_node}
use openclaw_p2p.Prelude.{◌≡◌, true, false, ◌≤◌, [], String, none}

abbrev newborn : Node json_toy
newborn = toy_node json_toy tt true

abbrev publisher : Node json_toy
publisher = (publish_task json_toy publish_inputs ready draft_inputs input newborn).1

abbrev peer_inputs : PeerInputs
peer_inputs = record { out = written; now = 20; event_fault = none; event_now = 20 }

abbrev peer : AddrInfo json_toy
peer = record { id = false; addrs = [] }

abbrev acquainted : Node json_toy
acquainted = record publisher {
  store = on_peer_discovered json_toy peer_inputs publisher.peer_id peer publisher.store;
}

life : Life json_toy newborn acquainted
life =
    and_step {m = publisher}
      (and_step {m = newborn} begin
        (NodeStep.publishes_task publish_inputs ready draft_inputs input newborn))
      (NodeStep.discovers peer_inputs peer publisher)

Life-Run_test : Run AnyOutcome newborn.store acquainted.store
Life-Run_test = Life-Run json_toy newborn acquainted life

Life-IsFiled_example :
    IsFiled acquainted.store × ((k : String) → seq_at k newborn.store ≤ seq_at k acquainted.store)
Life-IsFiled_example = Life-IsFiled json_toy newborn acquainted life empty-IsFiled

Life-IsAccepted_example :
    (acquainted.policy ≡ newborn.policy) × IsAccepted json_toy newborn.policy acquainted.store
Life-IsAccepted_example = Life-IsAccepted json_toy newborn acquainted life empty-IsAccepted
