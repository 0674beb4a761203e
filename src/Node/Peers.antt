-- ===== src/Node/Peers.antt =====
-- internal/p2p/node.go: `onPeerDiscovered` and the two callbacks of `registerConnectionTracing`.
use openclaw_p2p.Error.{Error}
use openclaw_p2p.Clock.{Time}
use openclaw_p2p.Store.Records.{append_event, record_peer}
use openclaw_p2p.Sae.Libs.{Libs}
use openclaw_p2p.Store.State.{Store, text, EventLogEntry}
use openclaw_p2p.Store.Files.{WriteOutcome}
use openclaw_p2p.Prelude.{
  false, ◌||◌, ◌∷◌, none, if◌then◌else◌, some, ◌==◌, [], true, Bool, Option, String, List,
}

-- peer.AddrInfo, with the texts of its addresses
pub record AddrInfo (L : Libs) : Type 0 where
  pub id : L.PeerId
  pub addrs : List String

-- network.Conn
pub record Connection (L : Libs) : Type 0 where
  pub remote : L.PeerId
  pub remote_addr : Option String
  pub direction : String

-- The ends of the write and of the event, and the readings of the clock.
pub record PeerInputs : Type 0 where
  pub out : WriteOutcome
  pub now : Time
  pub event_fault : Option Error
  pub event_now : Time

-- the entry of an event about a connection
abbrev pub connection_event : String → String → String → EventLogEntry
connection_event event_type direction peer_id = record {
  timestamp = 0;
  event_type = event_type;
  applied = true;
  reason = text direction;
  peer_id = peer_id;
  envelope = none;
  frame = none;
}

abbrev pub addrs_of : Option String → List String
addrs_of none = []
addrs_of (some addr) = addr ∷ []

module _ (L : Libs) where
  -- pid == ""
  abbrev pub is_no_peer : L.PeerId → Bool
  is_no_peer pid = L.peer_string pid == ""

  -- The early return, or RecordPeer.
  abbrev pub record_unless : Bool → PeerInputs → AddrInfo L → Store → Store
  record_unless true i info s = s
  record_unless false i info s = (record_peer i.out i.now (L.peer_string info.id) info.addrs s).1

  -- Neither the answer of Connect nor the error of RecordPeer is looked at.
  unfoldable pub on_peer_discovered : PeerInputs → L.PeerId → AddrInfo L → Store → Store
  unfolding record_peer
  on_peer_discovered i own info s =
      record_unless (is_no_peer info.id || L.same_peer info.id own) i info s

  unfoldable pub on_connected : PeerInputs → Option (Connection L) → Store → Store
  unfolding record_peer append_event
  on_connected i none s = s
  on_connected i (some conn) s =
      let id = L.peer_string conn.remote in
      if is_no_peer conn.remote
      then s
      else (append_event i.event_fault i.event_now
          (connection_event "peer_connected" conn.direction id)
          (record_peer i.out i.now id (addrs_of conn.remote_addr) s).1).1

  unfoldable pub on_disconnected : PeerInputs → Option (Connection L) → Store → Store
  unfolding append_event
  on_disconnected i none s = s
  on_disconnected i (some conn) s =
      if is_no_peer conn.remote
      then s
      else (append_event i.event_fault i.event_now
          (connection_event "peer_disconnected" conn.direction (L.peer_string conn.remote)) s).1
