-- ===== src/Node/Negotiation/Exchange.antt =====
-- A negotiation frame that one node sends and another one handles.
use openclaw_p2p.Node.Session.Extended.{GetsFrames, gets_both, gets_frame}
use openclaw_p2p.Node.Session.Recorded.{
  get-record_negotiation, record_negotiation-nil, get-record_answered, handle_negotiate_lem,
}
use openclaw_p2p.GoMap.{get}
use openclaw_p2p.Store.Files.{written}
use openclaw_p2p.Store.Records.{session_or_zero, session_after, record_negotiation}
use openclaw_p2p.Node.State.{self, Node}
use openclaw_p2p.Store.State.{Store}
use openclaw_p2p.Node.Session.{negotiation_response, handle_negotiate, NegotiateInputs, stamped}
use openclaw_p2p.Node.Fetch.{Stream}
use openclaw_p2p.Error.{err, ok, nil, Check, Result, Error}
use openclaw_p2p.Negotiate.Frame.{validate_negotiation, NegotiationFrame}
use openclaw_p2p.Node.Negotiation.{
  send_recorded, negotiation_answer, addressed, SendInputs, send_negotiation, serve_negotiate,
  send_negotiation_frame,
}
use openclaw_p2p.Sae.Libs.{Libs}
use openclaw_p2p.Clock.{is_zero, Time}
use openclaw_p2p.Prelude.{
  [], ◌∷◌, subst, ◌∙◌, ap, some, ◌==◌, if◌then◌else◌, refl, String, false, ◌≡◌,
}

stamped_later :
    (now : Time) (frame : NegotiationFrame)
    → is_zero frame.timestamp ≡ false
    → stamped now frame ≡ frame
stamped_later now frame h = rw h refl

-- A valid frame that is sent and answered without a fault brings its answer.
send_negotiation_frame_lem :
    (now : Time) (stream : NegotiationFrame → Stream NegotiationFrame)
    (frame answer : NegotiationFrame)
    → is_zero frame.timestamp ≡ false
    → validate_negotiation frame ≡ nil
    → stream frame ≡ record { opened = nil; sent = nil; received = ok answer }
    → send_negotiation_frame now stream frame ≡ ok answer
unfolding send_negotiation_frame
send_negotiation_frame_lem now stream frame answer z v e = rw (stamped_later now frame z, e, v) refl

module _ (L : Libs) where
  -- Once the frame is recorded, an answer is recorded behind it.
  send_recorded_lem :
      (i : SendInputs) (r : Result NegotiationFrame) (answer : NegotiationFrame) (c : Check × Store)
      → c.0 ≡ nil
      → r ≡ ok answer
      → send_recorded i r c
        ≡ (ok answer, (record_negotiation i.response_out i.response_now answer c.1).1)
  send_recorded_lem i (ok x) answer (ok u, s) h e = let same : x ≡ answer = cc e in rw same refl
  send_recorded_lem i (err x) answer (ok u, s) h e = cc e
  send_recorded_lem i r answer (err x, s) h e = cc h

  serve_negotiate_lem :
      (text_of : Error → String) (now : Time) (j : NegotiateInputs) (own : String)
      (frame answer : NegotiationFrame) (s : Store)
      → (handle_negotiate j own frame s).0 ≡ ok answer
      → serve_negotiate text_of now j own (frame, nil) s
        ≡ (answer, (handle_negotiate j own frame s).1)
  unfolding serve_negotiate
  serve_negotiate_lem text_of now j own frame answer s h =
      answered (handle_negotiate j own frame s) h
    where
      answered :
          (r : Result NegotiationFrame × Store)
          → r.0 ≡ ok answer
          → negotiation_answer text_of now frame r ≡ (answer, r.1)
      answered (ok x, t) e = let same : x ≡ answer = cc e in rw same refl
      answered (err x, t) e = cc e

  -- A valid frame that is answered is recorded, and its answer behind it.
  send_negotiation_lem :
      (i : SendInputs) (dial : L.PeerId → NegotiationFrame → Stream NegotiationFrame)
      (peer_id : String) (frame : NegotiationFrame) (a : Node L) (target : L.PeerId)
      (answer : NegotiationFrame)
      → L.decode_peer peer_id ≡ ok target
      → is_zero (addressed i.stamp_now (self L a) peer_id frame).timestamp ≡ false
      → validate_negotiation frame ≡ nil
      → i.frame_out ≡ written
      → dial target (addressed i.stamp_now (self L a) peer_id frame)
        ≡ record { opened = nil; sent = nil; received = ok answer }
      → send_negotiation L i dial peer_id frame a ≡ (
        ok answer,
        record a {
          store =
              (record_negotiation i.response_out i.response_now answer
                (record_negotiation i.frame_out i.frame_now
                  (addressed i.stamp_now (self L a) peer_id frame)
                  a.store).1).1;
        },
      )
  unfolding send_negotiation validate_negotiation
  send_negotiation_lem i dial peer_id frame a target answer known z valid w answered =
      let to_send = addressed i.stamp_now (self L a) peer_id frame in
      rw known (
        ap (λ (r : Result NegotiationFrame × Store). (r.0, record a { store = r.1 }))
          (send_recorded_lem i (send_negotiation_frame i.send_now (dial target) to_send) answer
            (record_negotiation i.frame_out i.frame_now to_send a.store)
            (record_negotiation-nil i.frame_out i.frame_now to_send a.store w)
            (send_negotiation_frame_lem i.send_now (dial target) to_send answer z valid answered)))

  -- A valid frame that `SendNegotiation` hands, with a time that is not zero, to a peer whose ID
  -- decodes and whose handler gets it and answers, with the frame's own writes at both nodes
  -- succeeding: the call returns the peer's answer, and at both nodes the frames of the session are
  -- those from before, then the frame and then the answer, and no other session changes.
  pub send_negotiation-serve_negotiate :
      (i : SendInputs) (dial : L.PeerId → NegotiationFrame → Stream NegotiationFrame)
      (peer_id : String) (frame : NegotiationFrame) (a : Node L) (target : L.PeerId)
      (text_of : Error → String) (now : Time) (j : NegotiateInputs) (b : Node L)
      → L.decode_peer peer_id ≡ ok target
      → is_zero (addressed i.stamp_now (self L a) peer_id frame).timestamp ≡ false
      → validate_negotiation frame ≡ nil
      → i.frame_out ≡ written
      → j.in_out ≡ written
      → dial target (addressed i.stamp_now (self L a) peer_id frame) ≡ record {
        opened = nil;
        sent = nil;
        received =
            ok
              (serve_negotiate text_of now j
                (self L b)
                (addressed i.stamp_now (self L a) peer_id frame, nil)
                b.store).0;
      }
      → (let to_send = addressed i.stamp_now (self L a) peer_id frame in
          let answer = negotiation_response (self L b) j.response_now to_send in
          let at_a = send_negotiation L i dial peer_id frame a in
          let at_b = serve_negotiate text_of now j (self L b) (to_send, nil) b.store in
          (at_a.0 ≡ ok answer)
          × GetsFrames i.response_now
              (to_send ∷ answer ∷ [])
              answer
              a.store.negotiations
              at_a.1.store.negotiations
          × GetsFrames j.record_now
              (to_send ∷ answer ∷ [])
              answer
              b.store.negotiations
              at_b.1.negotiations)
  unfolding send_negotiation validate_negotiation
  send_negotiation-serve_negotiate i dial peer_id frame a target text_of now j b known z valid w w'
        answered =
      let own = self L b in
      let to_send = addressed i.stamp_now (self L a) peer_id frame in
      let answer = negotiation_response own j.response_now to_send in
      let handled = handle_negotiate_lem j own to_send b.store valid w' in
      let served = serve_negotiate_lem text_of now j own to_send answer b.store handled.0 in
      let done =
        send_negotiation_lem i dial peer_id frame a target answer known z valid w
          (answered ∙ rw served refl) in
      (
        ap (λ r. r.0) done,
        gets_both i.frame_now i.response_now to_send answer a.store.negotiations _ (λ k.
            ap (λ (r : Result NegotiationFrame × Node L). get k r.1.store.negotiations) done
            ∙ get-record_answered i.frame_out i.response_out i.frame_now i.response_now
                j.response_now own to_send a.store k),
        gets_both j.in_now j.record_now to_send answer b.store.negotiations _ (λ k.
            ap (λ (r : NegotiationFrame × Store). get k r.1.negotiations) served
            ∙ subst
                (λ (f : NegotiationFrame).
                  get k (handle_negotiate j own to_send b.store).1.negotiations ≡ (
                    if frame.session_id == k
                    then some (
                        session_after j.record_now answer
                          (session_after j.in_now f (session_or_zero (get k b.store.negotiations))))
                    else get k b.store.negotiations))
                (stamped_later j.stamp_now to_send z) (handled.1 k)),
      )

  send_recorded-err :
      (i : SendInputs) (r : Result NegotiationFrame) (e : Error) (c : Check × Store)
      → c.0 ≡ nil
      → r ≡ err e
      → send_recorded i r c ≡ (err e, c.1)
  send_recorded-err i (ok x) e (ok u, s) h f = cc f
  send_recorded-err i (err x) e (ok u, s) h f = let same : x ≡ e = cc f in ap (λ y. (err y, s)) same
  send_recorded-err i r e (err x, s) h f = cc h

  -- A frame that `SendNegotiationFrame` fails to send, because it is not valid or because of the
  -- stream, makes `SendNegotiation` return that error, and is appended to the frames of its
  -- session, as if it had gone out; no other session changes. (The peer's ID decodes, and the frame's
  -- own write succeeds.)
  pub send_negotiation_unsent :
      (i : SendInputs) (dial : L.PeerId → NegotiationFrame → Stream NegotiationFrame)
      (peer_id : String) (frame : NegotiationFrame) (a : Node L) (target : L.PeerId) (e : Error)
      → L.decode_peer peer_id ≡ ok target
      → i.frame_out ≡ written
      → send_negotiation_frame i.send_now
          (dial target)
          (addressed i.stamp_now (self L a) peer_id frame)
        ≡ err e
      → ((send_negotiation L i dial peer_id frame a).0 ≡ err e)
        × GetsFrames i.frame_now
            (addressed i.stamp_now (self L a) peer_id frame ∷ [])
            (addressed i.stamp_now (self L a) peer_id frame)
            a.store.negotiations
            (send_negotiation L i dial peer_id frame a).1.store.negotiations
  unfolding send_negotiation
  send_negotiation_unsent i dial peer_id frame a target e known w failed =
      let to_send = addressed i.stamp_now (self L a) peer_id frame in
      let recorded = record_negotiation i.frame_out i.frame_now to_send a.store in
      let done =
        send_recorded-err i (send_negotiation_frame i.send_now (dial target) to_send) e recorded
          (record_negotiation-nil i.frame_out i.frame_now to_send a.store w) failed in
      rw known (
        ap (λ (r : Result NegotiationFrame × Store). r.0) done,
        gets_frame i.frame_now to_send a.store.negotiations _ (λ k.
            ap (λ (r : Result NegotiationFrame × Store). get k r.1.negotiations) done
            ∙ get-record_negotiation i.frame_out i.frame_now to_send a.store k),
      )
