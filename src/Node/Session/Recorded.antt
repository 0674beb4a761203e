-- ===== src/Node/Session/Recorded.antt =====
-- What `handleNegotiate` records and answers.
use openclaw_p2p.GoMap.Laws.{get-put}
use openclaw_p2p.GoMap.{get}
use openclaw_p2p.Error.{Result, Check, ok, err, nil, Error}
use openclaw_p2p.Store.State.{NegotiationSession, Store}
use openclaw_p2p.Negotiate.Frame.{validate_negotiation, NegotiationFrame}
use openclaw_p2p.Clock.{Time}
use openclaw_p2p.Store.Files.{write_json_atomic, written, WriteOutcome}
use openclaw_p2p.Node.Session.{
  respond, record_valid, stamped, negotiation_response, NegotiateInputs, handle_negotiate,
}
use openclaw_p2p.Store.Records.{session_or_zero, session_after, record_negotiation}
use openclaw_p2p.Prelude.{
  eq_iff, false, arith, true, refl, Option, ap, Bool, ◌∙◌, some, ◌==◌, if◌then◌else◌, String, ◌≡◌,
}

pub get-record_negotiation :
    (out : WriteOutcome) (now : Time) (frame : NegotiationFrame) (s : Store) (k : String)
    → get k (record_negotiation out now frame s).1.negotiations ≡ (
        if frame.session_id == k
        then some (session_after now frame (session_or_zero (get k s.negotiations)))
        else get k s.negotiations)
unfolding record_negotiation
get-record_negotiation out now frame s k =
    get-put k frame.session_id _ s.negotiations
    ∙ at_key (λ o. some (session_after now frame (session_or_zero o)))
  where
    at_key :
        (f : Option NegotiationSession → Option NegotiationSession)
        → (if frame.session_id == k
            then f (get frame.session_id s.negotiations)
            else get k s.negotiations)
          ≡ (if frame.session_id == k then f (get k s.negotiations) else get k s.negotiations)
    at_key f = ground (arith, eq_iff frame.session_id k)

pub record_negotiation-nil :
    (out : WriteOutcome) (now : Time) (frame : NegotiationFrame) (s : Store)
    → out ≡ written
    → (record_negotiation out now frame s).0 ≡ nil
unfolding record_negotiation write_json_atomic
record_negotiation-nil out now frame s w = rw w refl

respond_lem :
    (i : NegotiateInputs) (own : String) (frame : NegotiationFrame) (r : Check × Store)
    → r.0 ≡ nil
    → respond i own frame r ≡ (
      ok (negotiation_response own i.response_now frame),
      (record_negotiation i.response_out i.record_now
          (negotiation_response own i.response_now frame)
          r.1).1,
    )
respond_lem i own frame (ok u, s) h = refl
respond_lem i own frame (err e, s) h = cc h

-- an accepted frame is recorded and answered
record_valid_lem :
    (i : NegotiateInputs) (own : String) (frame : NegotiationFrame) (c : Check) (s : Store)
    → c ≡ nil
    → i.in_out ≡ written
    → record_valid i own frame c s ≡ (
      ok (negotiation_response own i.response_now frame),
      (record_negotiation i.response_out i.record_now
          (negotiation_response own i.response_now frame)
          (record_negotiation i.in_out i.in_now frame s).1).1,
    )
record_valid_lem i own frame (ok u) s h w =
    respond_lem i own frame (record_negotiation i.in_out i.in_now frame s)
      (record_negotiation-nil i.in_out i.in_now frame s w)
record_valid_lem i own frame (err e) s h w = cc h

record_valid_refused :
    (i : NegotiateInputs) (own : String) (frame : NegotiationFrame) (c : Check) (s : Store)
    (e : Error)
    → c ≡ err e
    → record_valid i own frame c s ≡ (err e, s)
record_valid_refused i own frame (ok u) s e h = cc h
record_valid_refused i own frame (err x) s e h = cc h

both_at :
    (b : Bool) (f g : Option NegotiationSession → Option NegotiationSession)
    (o : Option NegotiationSession)
    → (if b then f (if b then g o else o) else if b then g o else o) ≡ (if b then f (g o) else o)
both_at true f g o = refl
both_at false f g o = refl

-- A frame that is recorded with its answer after it.
pub get-record_answered :
    (out answer_out : WriteOutcome) (now answer_now response_now : Time) (own : String)
    (frame : NegotiationFrame) (s : Store) (k : String)
    → (let response = negotiation_response own response_now frame in
        get k
          (record_negotiation answer_out answer_now response
            (record_negotiation out now frame s).1).1.negotiations
        ≡ (if frame.session_id == k
            then some (
                session_after answer_now response
                  (session_after now frame (session_or_zero (get k s.negotiations))))
            else get k s.negotiations))
get-record_answered out answer_out now answer_now response_now own frame s k =
    let response = negotiation_response own response_now frame in
    get-record_negotiation answer_out answer_now response (record_negotiation out now frame s).1 k
    ∙ ap
        (λ (o : Option NegotiationSession).
          if frame.session_id == k
          then some (session_after answer_now response (session_or_zero o))
          else o)
        (get-record_negotiation out now frame s k)
    ∙ both_at (frame.session_id == k)
        (λ o. some (session_after answer_now response (session_or_zero o)))
        (λ o. some (session_after now frame (session_or_zero o))) (get k s.negotiations)

-- Every frame that `validateNegotiation` accepts is answered when its write succeeds, and its session
-- then ends with the frame and the answer, in this order, whether or not the answer's write succeeds;
-- no other session changes. The answer goes back to the sender, under the same session, reference
-- and operation.
pub handle_negotiate_lem :
    (i : NegotiateInputs) (own : String) (frame : NegotiationFrame) (s : Store)
    → validate_negotiation frame ≡ nil
    → i.in_out ≡ written
    → ((handle_negotiate i own frame s).0
        ≡ ok (negotiation_response own i.response_now (stamped i.stamp_now frame)))
      × ((k : String)
          → get k (handle_negotiate i own frame s).1.negotiations ≡ (
              if frame.session_id == k
              then some (
                  session_after i.record_now
                    (negotiation_response own i.response_now (stamped i.stamp_now frame))
                    (session_after i.in_now
                      (stamped i.stamp_now frame)
                      (session_or_zero (get k s.negotiations))))
              else get k s.negotiations))
unfolding handle_negotiate validate_negotiation
handle_negotiate_lem i own frame s valid w =
    let frame' = stamped i.stamp_now frame in
    let response = negotiation_response own i.response_now frame' in
    let done = record_valid_lem i own frame' (validate_negotiation frame') s valid w in
    (
      ap (λ r. r.0) done,
      λ k.
          ap (λ (r : Result NegotiationFrame × Store). get k r.1.negotiations) done
          ∙ get-record_answered i.in_out i.response_out i.in_now i.record_now i.response_now own
              frame' s k,
    )

-- A frame that `validateNegotiation` refuses is answered by its error, and nothing is recorded.
pub handle_negotiate_refused :
    (i : NegotiateInputs) (own : String) (frame : NegotiationFrame) (s : Store) (e : Error)
    → validate_negotiation frame ≡ err e
    → handle_negotiate i own frame s ≡ (err e, s)
unfolding handle_negotiate validate_negotiation
handle_negotiate_refused i own frame s e h =
    record_valid_refused i own (stamped i.stamp_now frame)
      (validate_negotiation (stamped i.stamp_now frame)) s e h
