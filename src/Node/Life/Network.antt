-- ===== src/Node/Life/Network.antt =====
-- Negotiations and the callbacks of the network keep what the store's methods keep.
use openclaw_p2p.Store.Records.{record_peer, append_event, record_negotiation}
use openclaw_p2p.Node.Peers.{
  addrs_of, is_no_peer, connection_event, record_unless, Connection, AddrInfo, on_connected,
  on_disconnected, on_peer_discovered, PeerInputs,
}
use openclaw_p2p.Node.Life.Closed.{IsClosed}
use openclaw_p2p.Node.Fetch.{Stream}
use openclaw_p2p.Negotiate.Frame.{validate_negotiation, NegotiationFrame}
use openclaw_p2p.Node.State.{self, Node}
use openclaw_p2p.Sae.Envelope.{SaeEnvelope}
use openclaw_p2p.Clock.{Time}
use openclaw_p2p.Error.{err, ok, Result, Check, Error}
use openclaw_p2p.Store.State.{Store}
use openclaw_p2p.Node.Session.{record_valid, stamped, respond, NegotiateInputs, handle_negotiate}
use openclaw_p2p.Sae.Libs.{Libs}
use openclaw_p2p.Node.Negotiation.{
  negotiation_answer, send_negotiation_frame, send_to, send_recorded, record_response, addressed,
  SendInputs, send_negotiation, serve_negotiate,
}
use openclaw_p2p.Prelude.{◌||◌, Option, true, false, none, some, true, if◌then◌else◌, Bool, String}

module _ (L : Libs) {Q : Store → Type 0} {Admits : SaeEnvelope → Type 0}
    (closed : IsClosed Q Admits) where
  pub send_negotiation-Kept :
      (i : SendInputs) (dial : L.PeerId → NegotiationFrame → Stream NegotiationFrame)
      (peer_id : String) (frame : NegotiationFrame)
      → (n : Node L) → Q n.store
      → Q (send_negotiation L i dial peer_id frame n).1.store
  unfolding send_negotiation
  send_negotiation-Kept i dial peer_id frame n r = known (L.decode_peer peer_id)
    where
      to_send : NegotiationFrame
      to_send = addressed i.stamp_now (self L n) peer_id frame

      answered : (a : Result NegotiationFrame) (t : Store) → Q t → Q (record_response i a t).1
      answered (err e) t q = q
      answered (ok answer) t q = closed.records_negotiation _ _ _ _ q

      recorded :
          (a : Result NegotiationFrame) (x : Check × Store) → Q x.1 → Q (send_recorded i a x).1
      recorded a (err e, t) q = q
      recorded a (ok u, t) q = answered a t q

      known : (target : Result L.PeerId) → Q (send_to L i dial to_send target n.store).1
      known (err e) = r
      known (ok target) =
          recorded (send_negotiation_frame i.send_now (dial target) to_send)
            (record_negotiation i.frame_out i.frame_now to_send n.store)
            (closed.records_negotiation i.frame_out i.frame_now to_send n.store r)

  pub serve_negotiate-Kept :
      (text_of : Error → String) (now : Time) (i : NegotiateInputs) (own : String)
      (decoded : NegotiationFrame × Check) (t : Store)
      → Q t
      → Q (serve_negotiate text_of now i own decoded t).1
  unfolding serve_negotiate handle_negotiate
  serve_negotiate-Kept text_of now i own (frame, err e) t r = r
  serve_negotiate-Kept text_of now i own (frame, ok u) t r =
      let frame' = stamped i.stamp_now frame in
      answered (handle_negotiate i own frame t) (valid (validate_negotiation frame'))
    where
      answered :
          (x : Result NegotiationFrame × Store)
          → Q x.1
          → Q (negotiation_answer text_of now frame x).1
      answered (ok a, v) q = q
      answered (err e, v) q = q

      responds : (x : Check × Store) → Q x.1 → Q (respond i own (stamped i.stamp_now frame) x).1
      responds (err e, v) q = q
      responds (ok w, v) q = closed.records_negotiation _ _ _ _ q

      valid : (c : Check) → Q (record_valid i own (stamped i.stamp_now frame) c t).1
      valid (err e) = r
      valid (ok w) =
          responds (record_negotiation i.in_out i.in_now (stamped i.stamp_now frame) t)
            (closed.records_negotiation i.in_out i.in_now (stamped i.stamp_now frame) t r)

  pub on_peer_discovered-Kept :
      (i : PeerInputs) (own : L.PeerId) (info : AddrInfo L) (t : Store)
      → Q t
      → Q (on_peer_discovered L i own info t)
  unfolding on_peer_discovered
  on_peer_discovered-Kept i own info t r = found (is_no_peer L info.id || L.same_peer info.id own)
    where
      found : (b : Bool) → Q (record_unless L b i info t)
      found true = r
      found false = closed.records_peer i.out i.now (L.peer_string info.id) info.addrs t r

  pub on_connected-Kept :
      (i : PeerInputs) (conn : Option (Connection L)) (t : Store)
      → Q t
      → Q (on_connected L i conn t)
  unfolding on_connected
  on_connected-Kept i none t r = r
  on_connected-Kept i (some conn) t r = found (is_no_peer L conn.remote)
    where
      after : Store
      after =
          (append_event i.event_fault i.event_now
            (connection_event "peer_connected" conn.direction (L.peer_string conn.remote))
            (record_peer i.out i.now (L.peer_string conn.remote) (addrs_of conn.remote_addr) t).1).1

      found : (b : Bool) → Q (if b then t else after)
      found true = r
      found false = closed.appends_event i.event_fault i.event_now _ _ (
          closed.records_peer i.out i.now (L.peer_string conn.remote) (addrs_of conn.remote_addr) t
            r)

  pub on_disconnected-Kept :
      (i : PeerInputs) (conn : Option (Connection L)) (t : Store)
      → Q t
      → Q (on_disconnected L i conn t)
  unfolding on_disconnected
  on_disconnected-Kept i none t r = r
  on_disconnected-Kept i (some conn) t r = found (is_no_peer L conn.remote)
    where
      after : Store
      after =
          (append_event i.event_fault i.event_now
            (connection_event "peer_disconnected" conn.direction (L.peer_string conn.remote)) t).1

      found : (b : Bool) → Q (if b then t else after)
      found true = r
      found false = closed.appends_event i.event_fault i.event_now _ t r
