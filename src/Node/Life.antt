-- ===== src/Node/Life.antt =====
-- The life of a running node: any interleaving of its methods, of the messages and streams that
-- reach it, of the callbacks of the network, and of the collections of its goroutine. Each method is
-- one step; fetches change nothing.
pub mod Closed
pub mod Handlers
pub mod Network
pub mod Invariants
pub mod Accepted
pub mod Tests
use openclaw_p2p.Store.Gc.Effect.{AreRanges}
use openclaw_p2p.Store.Gc.{gc_expired, GcInputs}
use openclaw_p2p.Node.Peers.{
  on_disconnected, on_connected, Connection, on_peer_discovered, AddrInfo, PeerInputs,
}
use openclaw_p2p.Node.Session.{NegotiateInputs}
use openclaw_p2p.Clock.{Time}
use openclaw_p2p.Error.{Check, Error}
use openclaw_p2p.Node.Fetch.{Stream}
use openclaw_p2p.Negotiate.Frame.{NegotiationFrame}
use openclaw_p2p.Node.Negotiation.{serve_negotiate, send_negotiation, SendInputs}
use openclaw_p2p.Node.Inbound.{read_loop, Message}
use openclaw_p2p.Node.Publish.Draft.{PublishFactInput, PublishTaskInput, DraftInputs}
use openclaw_p2p.Gossip.{PubSub}
use openclaw_p2p.Node.Publish.{publish_fact, publish_task, PublishInputs}
use openclaw_p2p.Node.State.{self, Node}
use openclaw_p2p.Sae.Libs.{Libs}
use openclaw_p2p.Prelude.{Option, [], ◌∷◌, String}

module _ (L : Libs) where
  pub data NodeStep : Node L → Node L → Type 0 where
    publishes_task :
        (i : PublishInputs) (ps : PubSub) (di : DraftInputs) (input : PublishTaskInput) (n : Node L)
        → NodeStep n (publish_task L i ps di input n).1
    publishes_fact :
        (i : PublishInputs) (ps : PubSub) (di : DraftInputs) (input : PublishFactInput) (n : Node L)
        → NodeStep n (publish_fact L i ps di input n).1
    -- a message of a subscription
    receives : (m : Message L) (n : Node L) → NodeStep n (read_loop L (m ∷ []) n)
    sends_negotiation :
        (i : SendInputs) (dial : L.PeerId → NegotiationFrame → Stream NegotiationFrame)
        (peer_id : String) (frame : NegotiationFrame) (n : Node L)
        → NodeStep n (send_negotiation L i dial peer_id frame n).1
    -- a stream of a negotiation
    negotiates :
        (text_of : Error → String) (now : Time) (i : NegotiateInputs)
        (decoded : NegotiationFrame × Check) (n : Node L)
        → NodeStep n
            (record n { store = (serve_negotiate text_of now i (self L n) decoded n.store).1 })
    -- mDNS, or a round of the discovery
    discovers :
        (i : PeerInputs) (info : AddrInfo L) (n : Node L)
        → NodeStep n (record n { store = on_peer_discovered L i n.peer_id info n.store })
    connects :
        (i : PeerInputs) (conn : Option (Connection L)) (n : Node L)
        → NodeStep n (record n { store = on_connected L i conn n.store })
    disconnects :
        (i : PeerInputs) (conn : Option (Connection L)) (n : Node L)
        → NodeStep n (record n { store = on_disconnected L i conn n.store })
    collects :
        (i : GcInputs) (now : Time) (n : Node L)
        → AreRanges i n.store
        → NodeStep n (record n { store = (gc_expired i now n.store).1 })

  -- Any number of steps.
  pub data Life (n : Node L) : Node L → Type 0 where
    begin : Life n n
    and_step : {m k : Node L} → Life n m → NodeStep m k → Life n k
