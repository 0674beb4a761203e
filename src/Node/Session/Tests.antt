-- ===== src/Node/Session/Tests.antt =====
-- Runs of `handleNegotiate`.
use openclaw_p2p.Store.Records.{session_or_zero, session_after}
use openclaw_p2p.GoMap.{get}
use openclaw_p2p.Node.Session.Recorded.{handle_negotiate_lem, handle_negotiate_refused}
use openclaw_p2p.Store.Tests.{empty_store}
use openclaw_p2p.Store.Files.{write_failed, written}
use openclaw_p2p.Error.{invalid_signature, ok, invalid_negotiation_op, nil, err}
use openclaw_p2p.Node.Session.{stamped, negotiation_response, handle_negotiate, NegotiateInputs}
use openclaw_p2p.Negotiate.Frame.{
  negotiation_offer, zero_frame, validate_negotiation, NegotiationFrame,
}
use openclaw_p2p.Prelude.{some, ◌==◌, if◌then◌else◌, String, refl, ◌≡◌}

abbrev pub offer : NegotiationFrame
offer = record zero_frame {
  session_id = "s1";
  ref_id = "t1";
  op = negotiation_offer;
  from_peer = "peer";
}

abbrev pub inputs : NegotiateInputs
inputs = record {
  stamp_now = 5;
  in_out = written;
  in_now = 6;
  response_now = 7;
  response_out = write_failed invalid_signature;
  record_now = 8;
}

pub offer_is_valid : validate_negotiation offer ≡ nil
unfolding validate_negotiation
offer_is_valid = refl

handle_negotiate_lem_test :
    ((handle_negotiate inputs "own" offer empty_store).0
      ≡ ok (negotiation_response "own" 7 (stamped 5 offer)))
    × ((k : String)
        → get k (handle_negotiate inputs "own" offer empty_store).1.negotiations ≡ (
            if offer.session_id == k
            then some (
                session_after 8 (negotiation_response "own" 7 (stamped 5 offer)) (
                  session_after 6
                    (stamped 5 offer)
                    (session_or_zero (get k empty_store.negotiations))))
            else get k empty_store.negotiations))
handle_negotiate_lem_test = handle_negotiate_lem inputs "own" offer empty_store offer_is_valid refl

abbrev pub unknown : NegotiationFrame
unknown = record offer { op = "haggle" }

unknown_is_refused : validate_negotiation unknown ≡ err invalid_negotiation_op
unfolding validate_negotiation
unknown_is_refused = refl

haggle_test :
    handle_negotiate inputs "own" unknown empty_store ≡ (err invalid_negotiation_op, empty_store)
haggle_test =
    handle_negotiate_refused inputs "own" unknown empty_store invalid_negotiation_op
      unknown_is_refused
