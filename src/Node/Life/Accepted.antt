-- ===== src/Node/Life/Accepted.antt =====
-- The store of a node holds only envelopes that passed the node's policy, also after publications of
-- its own.
use openclaw_p2p.Store.Run.Hold.{
  gc_expired-FactsHold, gc_expired-TasksHold, facts-allow_peer, tasks-allow_peer,
}
use openclaw_p2p.Node.Inbound.Gate.{IsWithinPolicy}
use openclaw_p2p.Node.Life.Closed.{IsClosed}
use openclaw_p2p.Node.Life.Invariants.{Life-HoldsAt}
use openclaw_p2p.Node.Inbound.Accepted.{
  append_event-IsAccepted, apply_fact-IsAccepted, apply_task-IsAccepted, IsAccepted,
}
use openclaw_p2p.Store.Records.{record_negotiation, record_peer, upsert_payload}
use openclaw_p2p.Policy.{Policy}
use openclaw_p2p.Node.State.{Node}
use openclaw_p2p.Sae.Libs.{Libs}
use openclaw_p2p.Node.Life.{Life}
use openclaw_p2p.Prelude.{refl, ◌≡◌}

module _ (L : Libs) (p : Policy) where
  IsAccepted-IsClosed : IsClosed (IsAccepted L p) (IsWithinPolicy L p)
  unfolding upsert_payload record_peer record_negotiation
  IsAccepted-IsClosed = record {
    applies_task = λ out now env t w a. apply_task-IsAccepted L p out now env t w a;
    applies_fact = λ out now env t w a. apply_fact-IsAccepted L p out now env t w a;
    upserts_payload = λ out payload t a. record { tasks = a.tasks; facts = a.facts };
    records_peer = λ out now id addrs t a. record { tasks = a.tasks; facts = a.facts };
    allows_peer = λ now peer_id limit t a. record {
      tasks = rw (tasks-allow_peer now peer_id limit t) a.tasks;
      facts = rw (facts-allow_peer now peer_id limit t) a.facts;
    };
    records_negotiation = λ out now frame t a. record { tasks = a.tasks; facts = a.facts };
    appends_event = λ fault now entry t a. append_event-IsAccepted L p fault now entry t a;
    collects = λ i now t ranges a. record {
      tasks =
          gc_expired-TasksHold (λ k x. IsWithinPolicy L p x.envelope) i now t (λ k x w. w)
            ranges.tasks a.tasks;
      facts =
          gc_expired-FactsHold (λ k x. IsWithinPolicy L p x.envelope) i now t ranges.facts a.facts;
    };
  }

-- Throughout the life of a node, whatever it publishes, whatever messages and streams reach it, in
-- whatever order, and whatever the clock and the disk do: if all tasks and facts of the store came
-- from envelopes within the node's policy at first, so do they ever after, and the policy stays the
-- same. Within the policy means: at most the topics and bytes allowed, at least the confidence
-- asked, and, if signatures are required, accepted by `VerifyPublisher`.
pub Life-IsAccepted :
    (L : Libs) (n m : Node L)
    → Life L n m
    → IsAccepted L n.policy n.store
    → (m.policy ≡ n.policy) × IsAccepted L n.policy m.store
Life-IsAccepted L n m life a =
    Life-HoldsAt L n.policy (IsAccepted-IsClosed L n.policy) (λ env w. w) n m life (refl, a)
