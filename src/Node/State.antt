-- ===== src/Node/State.antt =====
-- internal/p2p/node.go: the parts of `Node` that its methods use, and `enforceEnvelopePolicy`.
use openclaw_p2p.Prelude.{pos, String, Bool, not, ◌&&◌, ◌==◌, ltb_ℤ, length, if◌then◌else◌}
use openclaw_p2p.Error.{
  ◌>>=◌, ◌>>◌, topic_limit_exceeded, confidence_below, message_too_large, rate_limit_exceeded, ok,
  err, Check, nil, fail_if,
}
use openclaw_p2p.Exec.{Exec}
use openclaw_p2p.Clock.{Time}
use openclaw_p2p.Gossip.{Gossip}
use openclaw_p2p.Policy.{Policy}
use openclaw_p2p.Sae.Envelope.{SaeEnvelope}
use openclaw_p2p.Sae.Libs.{Libs}
use openclaw_p2p.Sae.Validate.{encode}
use openclaw_p2p.Sae.Sign.{verify_publisher}
use openclaw_p2p.Store.State.{Store}
use openclaw_p2p.Store.Rates.{allow_peer}

pub record Node (L : Libs) : Type 0 where
  pub policy : Policy
  pub priv_key : L.PrivKey
  pub peer_id : L.PeerId
  pub did : String
  pub store : Store
  pub gossip : Gossip

module _ (L : Libs) where
  -- n.Identity.PeerID.String()
  abbrev pub self : Node L → String
  self n = L.peer_string n.peer_id

  -- A method of the store or of the gossip, called on the node.
  abbrev pub on_store : {A : Type 0} → Exec Store A → Exec (Node L) A
  on_store m n = let (r, s) = m n.store in (r, record n { store = s })

  abbrev pub on_gossip : {A : Type 0} → Exec Gossip A → Exec (Node L) A
  on_gossip m n = let (r, g) = m n.gossip in (r, record n { gossip = g })

  -- The checks of `enforceEnvelopePolicy` that look at the envelope alone.
  unfoldable pub check_envelope : Policy → SaeEnvelope → Check
  check_envelope p env =
      fail_if (ltb_ℤ p.topic_limit (pos (length env.topics)))
        (topic_limit_exceeded (pos (length env.topics)) p.topic_limit)
      >> (fail_if (ltb_ℤ env.conf p.conf_min) (confidence_below env.conf p.conf_min)
          >> (encode L env >>= λ encoded.
              fail_if (ltb_ℤ p.msg_size_limit (pos (length encoded)))
                (message_too_large (pos (length encoded)) p.msg_size_limit)
              >> (if p.require_signature then verify_publisher L env else nil)))

  abbrev pub by_rate : SaeEnvelope → Node L → Bool × Store → Check × Node L
  by_rate env n (allowed, s) =
      (if allowed then nil else err (rate_limit_exceeded env.publisher), record n { store = s })

  -- The last check counts the event of a foreign publisher.
  unfoldable pub check_rate : Time → SaeEnvelope → Bool → Exec (Node L) (Unit {0})
  check_rate now env inbound n =
      if inbound && not (env.publisher == self n)
      then by_rate env n (allow_peer now env.publisher n.policy.rate_limit_per_peer n.store)
      else (nil, n)

  unfoldable pub enforce_envelope_policy : Time → SaeEnvelope → Bool → Exec (Node L) (Unit {0})
  unfolding check_envelope check_rate
  enforce_envelope_policy now env inbound n = elim (check_envelope n.policy env) [
    | ok _ ↦ check_rate now env inbound n
    | err e ↦ (err e, n)
  ]
