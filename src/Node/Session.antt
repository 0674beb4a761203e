-- ===== src/Node/Session.antt =====
-- internal/p2p/node.go: `handleFetch`, `handleNegotiate` and `SendNegotiation`; rpc_fetch.go and
-- rpc_negotiate.go: the handlers of their streams, on what JSON decoding the stream answers.
pub mod Recorded
pub mod Extended
pub mod Tests
use openclaw_p2p.Store.Files.{WriteOutcome}
use openclaw_p2p.Sae.Libs.{Bytes}
use openclaw_p2p.Prelude.{none, some, ◌==◌, [], true, false, if◌then◌else◌, Bool, Option, String}
use openclaw_p2p.Store.Records.{record_negotiation, find_payload}
use openclaw_p2p.Negotiate.Frame.{
  negotiation_complete, negotiation_cancel, negotiation_reject, negotiation_accept,
  NegotiationFrame, validate_negotiation,
}
use openclaw_p2p.Store.State.{message, text, Store, Reason, StoredPayload}
use openclaw_p2p.Error.{nil, not_found, err, ok, Check, Result}
use openclaw_p2p.Clock.{is_zero, Time}
use openclaw_p2p.Exec.{Exec}

pub record FetchRequest : Type 0 where
  pub detail_ref : String

pub record FetchResponse : Type 0 where
  pub found : Bool
  pub content_type : String
  pub payload : Bytes
  pub sha256 : String
  pub error : Reason

-- FetchResponse{Found: false, Error: …}
abbrev pub fetch_failure : Reason → FetchResponse
fetch_failure error = record {
  found = false;
  content_type = "";
  payload = [];
  sha256 = "";
  error = error;
}

abbrev pub fetch_response : StoredPayload → FetchResponse
fetch_response payload = record {
  found = true;
  content_type = payload.content_type;
  payload = payload.content;
  sha256 = payload.sha256;
  error = text "";
}

-- A stored payload, or the failure beside the error
abbrev pub found_payload : Option StoredPayload → FetchResponse × Check
found_payload none = (fetch_failure (text "not found"), err not_found)
found_payload (some payload) = (fetch_response payload, nil)

unfoldable pub handle_fetch : FetchRequest → Store → FetchResponse × Check
unfolding find_payload
handle_fetch request s = found_payload (find_payload request.detail_ref s)

-- `resp = FetchResponse{…}` when the handler returned an error
abbrev pub answer_of : FetchResponse × Check → FetchResponse
answer_of (response, ok _) = response
answer_of (response, err e) = fetch_failure (message e)

-- The stream handler of `RegisterFetchHandler`: the response that it sends to what it decodes.
unfoldable pub serve_fetch : Result FetchRequest → Store → FetchResponse
unfolding handle_fetch
serve_fetch (err e) s = fetch_failure (message e)
serve_fetch (ok request) s = answer_of (handle_fetch request s)

-- The readings of the clock and the ends of the two writes of `handleNegotiate`.
pub record NegotiateInputs : Type 0 where
  pub stamp_now : Time
  pub in_out : WriteOutcome
  pub in_now : Time
  pub response_now : Time
  pub response_out : WriteOutcome
  pub record_now : Time

-- if frame.Timestamp.IsZero() { frame.Timestamp = now }
abbrev pub stamped : Time → NegotiationFrame → NegotiationFrame
stamped now frame = record frame {
  timestamp = if is_zero frame.timestamp then now else frame.timestamp;
}

abbrev pub negotiation_status : String → String
negotiation_status op =
    if op == negotiation_accept
    then "accepted"
    else if op == negotiation_reject
    then "rejected"
    else if op == negotiation_cancel
    then "cancelled"
    else if op == negotiation_complete
    then "completed"
    else "received"

abbrev pub negotiation_response : String → Time → NegotiationFrame → NegotiationFrame
negotiation_response own now frame = record {
  session_id = frame.session_id;
  ref_id = frame.ref_id;
  op = frame.op;
  from_peer = own;
  to_peer = frame.from_peer;
  status = negotiation_status frame.op;
  body = "";
  payload_ref = "";
  timestamp = now;
}

-- once the frame is recorded: the response is recorded too, whose error is dropped
abbrev pub respond :
    NegotiateInputs → String → NegotiationFrame → Check × Store → Result NegotiationFrame × Store
respond i own frame (err e, s) = (err e, s)
respond i own frame (ok _, s) =
    let response = negotiation_response own i.response_now frame in
    (ok response, (record_negotiation i.response_out i.record_now response s).1)

abbrev pub record_valid :
    NegotiateInputs → String → NegotiationFrame → Check → Exec Store NegotiationFrame
record_valid i own frame (err e) s = (err e, s)
record_valid i own frame (ok _) s =
    respond i own frame (record_negotiation i.in_out i.in_now frame s)

-- `handleNegotiate` of a node whose peer ID has the text `own`
unfoldable pub handle_negotiate :
    NegotiateInputs → String → NegotiationFrame → Exec Store NegotiationFrame
unfolding validate_negotiation
handle_negotiate i own frame s =
    let stamped_frame = stamped i.stamp_now frame in
    record_valid i own stamped_frame (validate_negotiation stamped_frame) s
