-- ===== src/Store/Records.antt =====
-- internal/p2p/store.go: `UpsertPayload`, `Payload`, `RecordPeer`, `RecordNegotiation`,
-- `AppendEvent`.
use openclaw_p2p.Prelude.{
  String, ◌&&◌, not, List, [], ◌∷◌, ◌++◌, Option, none, some, ◌==◌, if◌then◌else◌,
}
use openclaw_p2p.Error.{Error, err, Check, nil}
use openclaw_p2p.Clock.{Time, is_zero}
use openclaw_p2p.GoMap.{get, put}
use openclaw_p2p.Negotiate.Frame.{NegotiationFrame}
use openclaw_p2p.Store.Files.{WriteOutcome, write_json_atomic}
use openclaw_p2p.Store.State.{StoredPayload, KnownPeer, NegotiationSession, EventLogEntry, Store}

unfoldable pub upsert_payload : WriteOutcome → StoredPayload → Store → Check × Store
upsert_payload out payload s =
    let payloads = put payload.ref payload s.payloads in
    let (error, file) = write_json_atomic out payloads s.payloads_json in
    (error, record s { payloads = payloads; payloads_json = file })

-- `Payload`; nothing for a missing key
unfoldable pub find_payload : String → Store → Option StoredPayload
find_payload ref s = get ref s.payloads

-- `RecordPeer`, on the texts of the peer's ID and of its addresses
unfoldable pub record_peer : WriteOutcome → Time → String → List String → Store → Check × Store
record_peer out now id addrs s =
    let known : KnownPeer = record { id = id; addrs = addrs; last_seen = now } in
    let peers = put id known s.peers in
    let (error, file) = write_json_atomic out peers s.peers_json in
    (error, record s { peers = peers; peers_json = file })

-- s.negotiations[frame.SessionID]: the zero value for an unknown session
abbrev pub session_or_zero : Option NegotiationSession → NegotiationSession
session_or_zero none = record {
  session_id = "";
  ref_id = "";
  peer_id = "";
  state = "";
  frames = [];
  updated_at = 0;
}
session_or_zero (some session) = session

-- the two assignments to session.PeerID
abbrev pub peer_after : NegotiationFrame → String → String
peer_after frame peer_id =
    let seen = if not (frame.from_peer == "") then frame.from_peer else peer_id in
    if not (frame.to_peer == "") && seen == "" then frame.to_peer else seen

abbrev pub session_after : Time → NegotiationFrame → NegotiationSession → NegotiationSession
session_after now frame session = record {
  session_id = frame.session_id;
  ref_id = frame.ref_id;
  peer_id = peer_after frame session.peer_id;
  state = frame.op;
  frames = session.frames ++ frame ∷ [];
  updated_at = now;
}

unfoldable pub record_negotiation : WriteOutcome → Time → NegotiationFrame → Store → Check × Store
record_negotiation out now frame s =
    let session = session_after now frame (session_or_zero (get frame.session_id s.negotiations)) in
    let negotiations = put frame.session_id session s.negotiations in
    let (error, file) = write_json_atomic out negotiations s.negotiations_json in
    (error, record s { negotiations = negotiations; negotiations_json = file })

-- The fault is what marshalling, opening or writing answers; a failed call adds no line.
unfoldable pub append_event : Option Error → Time → EventLogEntry → Store → Check × Store
append_event (some e) now entry s = (err e, s)
append_event none now entry s =
    let stamped = record entry {
      timestamp = if is_zero entry.timestamp then now else entry.timestamp;
    } in
    (nil, record s { events = s.events ++ stamped ∷ [] })
