-- ===== src/Node/Negotiation.antt =====
-- internal/p2p/node.go: `SendNegotiation`; internal/p2p/rpc_negotiate.go: `SendNegotiationFrame` and
-- the handler of its streams.
pub mod Exchange
pub mod Tests
use openclaw_p2p.Node.State.{self, on_store, Node}
use openclaw_p2p.Node.Fetch.{Stream}
use openclaw_p2p.Store.State.{Store}
use openclaw_p2p.Exec.{Exec}
use openclaw_p2p.Store.Records.{record_negotiation}
use openclaw_p2p.Node.Session.{NegotiateInputs, stamped, handle_negotiate}
use openclaw_p2p.Store.Files.{WriteOutcome}
use openclaw_p2p.Sae.Libs.{Libs}
use openclaw_p2p.Clock.{Time}
use openclaw_p2p.Error.{ok, ◌>>◌, err, Check, Error, Result}
use openclaw_p2p.Negotiate.Frame.{NegotiationFrame, validate_negotiation}
use openclaw_p2p.Prelude.{String}

-- `stream` is what a stream to the peer answers when the frame goes out on it.
unfoldable pub send_negotiation_frame :
    Time → (NegotiationFrame → Stream NegotiationFrame) → NegotiationFrame → Result NegotiationFrame
unfolding validate_negotiation
send_negotiation_frame now stream frame =
    let to_send = stamped now frame in
    let s = stream to_send in s.opened >> validate_negotiation to_send >> s.sent >> s.received

-- The readings of the clock and the ends of the two writes of `SendNegotiation`.
pub record SendInputs : Type 0 where
  pub stamp_now : Time
  pub frame_out : WriteOutcome
  pub frame_now : Time
  pub send_now : Time
  pub response_out : WriteOutcome
  pub response_now : Time

-- the response is recorded, whose error is dropped
abbrev pub record_response : SendInputs → Result NegotiationFrame → Exec Store NegotiationFrame
record_response i (err e) s = (err e, s)
record_response i (ok response) s =
    (ok response, (record_negotiation i.response_out i.response_now response s).1)

-- once the frame is recorded, it is sent
abbrev pub send_recorded :
    SendInputs → Result NegotiationFrame → Check × Store → Result NegotiationFrame × Store
send_recorded i answer (err e, s) = (err e, s)
send_recorded i answer (ok _, s) = record_response i answer s

-- the frame that goes out
abbrev pub addressed : Time → String → String → NegotiationFrame → NegotiationFrame
addressed now own peer_id frame = stamped now (record frame { from_peer = own; to_peer = peer_id })

module _ (L : Libs) where
  abbrev pub send_to :
      SendInputs
      → (L.PeerId → NegotiationFrame → Stream NegotiationFrame)
      → NegotiationFrame
      → Result L.PeerId
      → Exec Store NegotiationFrame
  send_to i dial frame (err e) s = (err e, s)
  send_to i dial frame (ok target) s =
      send_recorded i (send_negotiation_frame i.send_now (dial target) frame)
        (record_negotiation i.frame_out i.frame_now frame s)

  unfoldable pub send_negotiation :
      SendInputs
      → (L.PeerId → NegotiationFrame → Stream NegotiationFrame)
      → String
      → NegotiationFrame
      → Exec (Node L) NegotiationFrame
  unfolding send_negotiation_frame record_negotiation
  send_negotiation i dial peer_id frame n =
      on_store L
        (send_to i dial (addressed i.stamp_now (self L n) peer_id frame) (L.decode_peer peer_id)) n

-- The responses of the stream's handler to what it cannot decode, with the part of the frame that
-- was decoded, and to what `handleNegotiate` refuses. The text of an error is an argument.
module _ (text_of : Error → String) where
  abbrev pub decode_failure : Time → NegotiationFrame → Error → NegotiationFrame
  decode_failure now frame e = record {
    session_id = frame.session_id;
    ref_id = frame.ref_id;
    op = frame.op;
    from_peer = "";
    to_peer = "";
    status = "decode_error";
    body = text_of e;
    payload_ref = "";
    timestamp = now;
  }

  abbrev pub negotiation_failure : Time → NegotiationFrame → Error → NegotiationFrame
  negotiation_failure now frame e = record {
    session_id = frame.session_id;
    ref_id = frame.ref_id;
    op = frame.op;
    from_peer = frame.to_peer;
    to_peer = frame.from_peer;
    status = "error";
    body = text_of e;
    payload_ref = "";
    timestamp = now;
  }

  abbrev pub negotiation_answer :
      Time → NegotiationFrame → Result NegotiationFrame × Store → NegotiationFrame × Store
  negotiation_answer now frame (ok response, s) = (response, s)
  negotiation_answer now frame (err e, s) = (negotiation_failure now frame e, s)

  -- The handler of `RegisterNegotiateHandler`, on the frame that decoding left and its error: the
  -- response that it sends, and the store.
  unfoldable pub serve_negotiate :
      Time → NegotiateInputs → String → NegotiationFrame × Check → Store → NegotiationFrame × Store
  unfolding handle_negotiate
  serve_negotiate now i own (frame, err e) s = (decode_failure now frame e, s)
  serve_negotiate now i own (frame, ok _) s =
      negotiation_answer now frame (handle_negotiate i own frame s)
