-- ===== src/Node/Inbound/Gate.antt =====
-- What an inbound envelope can do to the store.
use openclaw_p2p.Store.Run.Hold.{facts-allow_peer, tasks-allow_peer}
use openclaw_p2p.Store.State.{Store, EventLogEntry}
use openclaw_p2p.Clock.{Time}
use openclaw_p2p.Store.Records.{append_event}
use openclaw_p2p.Sae.Sign.{verify_publisher}
use openclaw_p2p.Sae.Validate.Sound.{encode_sound}
use openclaw_p2p.Sae.Validate.{encode}
use openclaw_p2p.Error.{
  Error, message_too_large, >>=-eq-ok, confidence_below, ok, topic_limit_exceeded, fail_then, nil,
}
use openclaw_p2p.Sae.Envelope.{max_envelope_size, SaeEnvelope}
use openclaw_p2p.Policy.{Policy}
use openclaw_p2p.Sae.Libs.{Bytes, Libs}
use openclaw_p2p.Prelude.{
  refl, none, some, Bool, Option, arith, true, ◌≤◌, ◌≤ℤ◌, ltb_ℤ, length, pos, ◌≡◌,
}
use openclaw_p2p.Node.State.{Node, enforce_envelope_policy, check_envelope}

-- The parts of a passed `enforceEnvelopePolicy`.
pub record IsWithinPolicy (L : Libs) (p : Policy) (env : SaeEnvelope) : Type 0 where
  pub topics : pos (length env.topics) ≤ℤ p.topic_limit
  pub conf : p.conf_min ≤ℤ env.conf
  pub body : Bytes
  pub body_of : L.marshal env ≡ ok body
  pub size : pos (length body) ≤ℤ p.msg_size_limit
  pub envelope_size : length body ≤ max_envelope_size
  pub signature : p.require_signature ≡ true → verify_publisher L env ≡ nil

module _ (L : Libs) where
  pub check_envelope_sound :
      (p : Policy) (env : SaeEnvelope) → check_envelope L p env ≡ nil → IsWithinPolicy L p env
  unfolding check_envelope
  check_envelope_sound p env h0 =
      let (t, h1) =
        fail_then (ltb_ℤ p.topic_limit (pos (length env.topics)))
          (topic_limit_exceeded (pos (length env.topics)) p.topic_limit) _ h0 in
      let (c, h2) =
        fail_then (ltb_ℤ env.conf p.conf_min) (confidence_below env.conf p.conf_min) _ h1 in
      let (body, e, h3) = >>=-eq-ok (encode L env) _ h2 in
      let (m, h4) =
        fail_then (ltb_ℤ p.msg_size_limit (pos (length body)))
          (message_too_large (pos (length body)) p.msg_size_limit) _ h3 in
      let (json, fits) = encode_sound L env body e in
      record {
        topics = ground arith;
        conf = ground arith;
        body = body;
        body_of = json;
        size = ground arith;
        envelope_size = fits;
        signature = λ r. rw r at h4;
      }

  -- Neither the policy checks nor the event log touch the tasks and the facts.
  pub tasks-enforce :
      (now : Time) (env : SaeEnvelope) (inbound : Bool) (n : Node L)
      → (enforce_envelope_policy L now env inbound n).1.store.tasks ≡ n.store.tasks
  unfolding enforce_envelope_policy
  tasks-enforce now env inbound n =
      ground (arith, tasks-allow_peer now env.publisher n.policy.rate_limit_per_peer n.store)

  pub facts-enforce :
      (now : Time) (env : SaeEnvelope) (inbound : Bool) (n : Node L)
      → (enforce_envelope_policy L now env inbound n).1.store.facts ≡ n.store.facts
  unfolding enforce_envelope_policy
  facts-enforce now env inbound n =
      ground (arith, facts-allow_peer now env.publisher n.policy.rate_limit_per_peer n.store)

  pub policy-enforce :
      (now : Time) (env : SaeEnvelope) (inbound : Bool) (n : Node L)
      → (enforce_envelope_policy L now env inbound n).1.policy ≡ n.policy
  unfolding enforce_envelope_policy
  policy-enforce now env inbound n = ground arith

  pub enforce_sound :
      (now : Time) (env : SaeEnvelope) (inbound : Bool) (n : Node L)
      → (enforce_envelope_policy L now env inbound n).0 ≡ nil
      → IsWithinPolicy L n.policy env
  unfolding enforce_envelope_policy
  enforce_sound now env inbound n h = check_envelope_sound n.policy env (ground arith)

pub tasks-append_event :
    (fault : Option Error) (now : Time) (entry : EventLogEntry) (s : Store)
    → (append_event fault now entry s).1.tasks ≡ s.tasks
unfolding append_event
tasks-append_event none now entry s = refl
tasks-append_event (some e) now entry s = refl

pub facts-append_event :
    (fault : Option Error) (now : Time) (entry : EventLogEntry) (s : Store)
    → (append_event fault now entry s).1.facts ≡ s.facts
unfolding append_event
facts-append_event none now entry s = refl
facts-append_event (some e) now entry s = refl
