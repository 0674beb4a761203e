-- ===== src/Negotiate/Frame.antt =====
-- internal/p2p/rpc_negotiate.go: the frame, its operations, and `validateNegotiation`.
use openclaw_p2p.Prelude.{String, Bool, ◌||◌, ◌==◌, not}
use openclaw_p2p.Error.{missing, invalid_negotiation_op, Check, ◌>>◌, fail_if}
use openclaw_p2p.Clock.{Time}

-- `NegotiationOp` is a string in Go, so that a decoded frame may hold any text.
abbrev pub negotiation_offer : String
negotiation_offer = "offer"

abbrev pub negotiation_accept : String
negotiation_accept = "accept"

abbrev pub negotiation_reject : String
negotiation_reject = "reject"

abbrev pub negotiation_cancel : String
negotiation_cancel = "cancel"

abbrev pub negotiation_message : String
negotiation_message = "message"

abbrev pub negotiation_complete : String
negotiation_complete = "complete"

pub record NegotiationFrame : Type 0 where
  pub session_id : String
  pub ref_id : String
  pub op : String
  pub from_peer : String
  pub to_peer : String
  pub status : String
  pub body : String
  pub payload_ref : String
  pub timestamp : Time

-- NegotiationFrame{}
abbrev pub zero_frame : NegotiationFrame
zero_frame = record {
  session_id = "";
  ref_id = "";
  op = "";
  from_peer = "";
  to_peer = "";
  status = "";
  body = "";
  payload_ref = "";
  timestamp = 0;
}

abbrev pub known_op : String → Bool
known_op op =
    op == negotiation_offer
    || op == negotiation_accept
    || op == negotiation_reject
    || op == negotiation_cancel
    || op == negotiation_message
    || op == negotiation_complete

unfoldable pub validate_negotiation : NegotiationFrame → Check
validate_negotiation frame = do
  fail_if (frame.session_id == "") (missing "session_id")
  fail_if (frame.ref_id == "") (missing "ref_id")
  fail_if (not (known_op frame.op)) invalid_negotiation_op
