-- ===== src/Node/Life/Invariants.antt =====
-- What holds throughout the life of a node.
use openclaw_p2p.Store.Run.Monotone.{seq_at-Run}
use openclaw_p2p.Node.Life.Network.{
  on_disconnected-Kept, on_connected-Kept, on_peer_discovered-Kept, serve_negotiate-Kept,
  send_negotiation-Kept,
}
use openclaw_p2p.Store.Tasks.History.{seq_at}
use openclaw_p2p.Node.Life.Handlers.{read_loop-Holds, publish_fact-Keeps, publish_task-Keeps}
use openclaw_p2p.Node.Negotiation.{send_negotiation}
use openclaw_p2p.Node.Inbound.Gate.{IsWithinPolicy}
use openclaw_p2p.Store.Run.Filed.{Run-IsFiled, IsFiled}
use openclaw_p2p.Policy.{Policy}
use openclaw_p2p.Node.Life.Closed.{HoldsAt, IsClosed}
use openclaw_p2p.Node.State.{self, Node}
use openclaw_p2p.Sae.Envelope.{SaeEnvelope}
use openclaw_p2p.Store.State.{Store}
use openclaw_p2p.Sae.Libs.{Libs}
use openclaw_p2p.Store.Run.{Step, Run, start, then_step, AnyOutcome}
use openclaw_p2p.Node.Life.{Life, begin, and_step, NodeStep}
use openclaw_p2p.Prelude.{◌≤◌, refl, String}

module _ (L : Libs) (p : Policy) {Q : Store → Type 0} {Admits : SaeEnvelope → Type 0}
    (closed : IsClosed Q Admits)
    (admits : (env : SaeEnvelope) → IsWithinPolicy L p env → Admits env) where
  NodeStep-HoldsAt :
      {n m : Node L} → NodeStep L n m → HoldsAt L p closed admits n → HoldsAt L p closed admits m
  unfolding send_negotiation
  NodeStep-HoldsAt (NodeStep.publishes_task i ps di input n) h =
      publish_task-Keeps L p closed admits i ps di input n h
  NodeStep-HoldsAt (NodeStep.publishes_fact i ps di input n) h =
      publish_fact-Keeps L p closed admits i ps di input n h
  NodeStep-HoldsAt (NodeStep.receives m n) h = read_loop-Holds L p closed admits m n h
  NodeStep-HoldsAt (NodeStep.sends_negotiation i dial peer_id frame n) (same, q) =
      (same, send_negotiation-Kept L closed i dial peer_id frame n q)
  NodeStep-HoldsAt (NodeStep.negotiates text_of now i decoded n) (same, q) =
      (same, serve_negotiate-Kept L closed text_of now i (self L n) decoded n.store q)
  NodeStep-HoldsAt (NodeStep.discovers i info n) (same, q) =
      (same, on_peer_discovered-Kept L closed i n.peer_id info n.store q)
  NodeStep-HoldsAt (NodeStep.connects i conn n) (same, q) =
      (same, on_connected-Kept L closed i conn n.store q)
  NodeStep-HoldsAt (NodeStep.disconnects i conn n) (same, q) =
      (same, on_disconnected-Kept L closed i conn n.store q)
  NodeStep-HoldsAt (NodeStep.collects i now n ranges) (same, q) =
      (same, closed.collects i now n.store ranges q)

  pub Life-HoldsAt :
      (n m : Node L) → Life L n m → HoldsAt L p closed admits n → HoldsAt L p closed admits m
  Life-HoldsAt n m begin h = h
  Life-HoldsAt n m (and_step {m = k} life step) h =
      NodeStep-HoldsAt {n = k} {m = m} step (Life-HoldsAt n k life h)

abbrev AnyEnvelope : SaeEnvelope → Type 0
AnyEnvelope env = Unit

-- A store that is reached from `s`, whatever becomes of its writes.
Run-IsClosed : (s : Store) → IsClosed (λ t. Run AnyOutcome s t) AnyEnvelope
Run-IsClosed s = record {
  applies_task = λ out now env t a r. then_step r (Step.applies_task out now env t tt);
  applies_fact = λ out now env t a r. then_step r (Step.applies_fact out now env t tt);
  upserts_payload = λ out payload t r. then_step r (Step.upserts_payload out payload t tt);
  records_peer = λ out now id addrs t r. then_step r (Step.records_peer out now id addrs t tt);
  allows_peer = λ now peer_id limit t r. then_step r (Step.allows_peer now peer_id limit t);
  records_negotiation =
      λ out now frame t r. then_step r (Step.records_negotiation out now frame t tt);
  appends_event = λ fault now entry t r. then_step r (Step.appends_event fault now entry t);
  collects = λ i now t ranges r. then_step r (Step.collects i now t ranges tt tt tt);
}

module _ (L : Libs) where
  -- Whatever a node does and whatever reaches it, in whatever order: what becomes of its store is
  -- an interleaving of the store's methods, with writes that succeed or fail.
  pub Life-Run : (n m : Node L) → Life L n m → Run AnyOutcome n.store m.store
  Life-Run n m life =
      (Life-HoldsAt L n.policy (Run-IsClosed n.store) (λ env w. tt) n m life (refl, start)).1

  -- Throughout the life of a node whose store is in order at the start, whatever the node does and
  -- whatever reaches it, the store is in order: every task and every fact stands under the key of its
  -- origin and ID and agrees with its envelope in kind, origin, ID, number and expiry, and a task is
  -- COMPLETE, WITHDRAW or ACTIVE after the operation of its envelope, or EXPIRED. The sequence number
  -- that the store holds for a task is never less than at the start.
  pub Life-IsFiled :
      (n m : Node L)
      → Life L n m
      → IsFiled n.store
      → IsFiled m.store × ((k : String) → seq_at k n.store ≤ seq_at k m.store)
  Life-IsFiled n m life filed = (
    Run-IsFiled n.store m.store (Life-Run n m life) filed,
    λ k. seq_at-Run n.store m.store k (Life-Run n m life),
  )
