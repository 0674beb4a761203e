-- ===== src/Node/Negotiation/Tests.antt =====
-- A negotiation between two nodes, and one that never gets out.
use openclaw_p2p.Node.Session.Extended.{GetsFrames}
use openclaw_p2p.Node.Session.{negotiation_response}
use openclaw_p2p.Store.Tests.{empty_store}
use openclaw_p2p.Node.Fetch.{Stream}
use openclaw_p2p.Store.Files.{written}
use openclaw_p2p.Sae.Tests.{json_toy}
use openclaw_p2p.Node.State.{Node}
use openclaw_p2p.Negotiate.Frame.{NegotiationFrame}
use openclaw_p2p.Node.Negotiation.Exchange.{
  send_negotiation-serve_negotiate, send_negotiation_unsent,
}
use openclaw_p2p.Error.{invalid_signature, invalid_negotiation_op, err, ok, nil, Error}
use openclaw_p2p.Node.Negotiation.{
  send_negotiation, serve_negotiate, addressed, SendInputs, send_negotiation_frame,
}
use openclaw_p2p.Prelude.{[], ◌∷◌, true, refl, ◌≡◌, String}
use openclaw_p2p.Node.Session.Tests.{offer_is_valid, unknown, offer, inputs}
use openclaw_p2p.Node.Tests.{toy_node}

abbrev send_inputs : SendInputs
send_inputs = record {
  stamp_now = 3;
  frame_out = written;
  frame_now = 4;
  send_now = 4;
  response_out = written;
  response_now = 9;
}

abbrev sender : Node json_toy
sender = toy_node json_toy tt true

abbrev to_send : NegotiationFrame
to_send = addressed 3 "peer" "peer" offer

abbrev no_text : Error → String
no_text e = ""

abbrev answers : NegotiationFrame → Stream NegotiationFrame
answers frame = record {
  opened = nil;
  sent = nil;
  received = ok (serve_negotiate no_text 6 inputs "peer" (frame, nil) empty_store).0;
}

send_negotiation-serve_negotiate_example :
    ((send_negotiation json_toy send_inputs (λ pid. answers) "peer" offer sender).0
      ≡ ok (negotiation_response "peer" 7 to_send))
    × GetsFrames 9
        (to_send ∷ negotiation_response "peer" 7 to_send ∷ [])
        (negotiation_response "peer" 7 to_send)
        empty_store.negotiations
        (send_negotiation json_toy send_inputs
          (λ pid. answers)
          "peer"
          offer
          sender).1.store.negotiations
    × GetsFrames 8
        (to_send ∷ negotiation_response "peer" 7 to_send ∷ [])
        (negotiation_response "peer" 7 to_send)
        empty_store.negotiations
        (serve_negotiate no_text 6 inputs "peer" (to_send, nil) empty_store).1.negotiations
send_negotiation-serve_negotiate_example =
    send_negotiation-serve_negotiate json_toy send_inputs (λ pid. answers) "peer" offer sender true
      no_text 6 inputs sender refl refl offer_is_valid refl refl refl

abbrev silent : NegotiationFrame → Stream NegotiationFrame
silent frame = record { opened = nil; sent = nil; received = err invalid_signature }

unsent_test :
    send_negotiation_frame 4 silent (addressed 3 "peer" "peer" unknown) ≡ err invalid_negotiation_op
unfolding send_negotiation_frame
unsent_test = refl

send_negotiation_unsent_example :
    ((send_negotiation json_toy send_inputs (λ pid. silent) "peer" unknown sender).0
      ≡ err invalid_negotiation_op)
    × GetsFrames 4
        (addressed 3 "peer" "peer" unknown ∷ [])
        (addressed 3 "peer" "peer" unknown)
        empty_store.negotiations
        (send_negotiation json_toy send_inputs
          (λ pid. silent)
          "peer"
          unknown
          sender).1.store.negotiations
send_negotiation_unsent_example =
    send_negotiation_unsent json_toy send_inputs (λ pid. silent) "peer" unknown sender true
      invalid_negotiation_op refl refl unsent_test
