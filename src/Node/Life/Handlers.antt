-- ===== src/Node/Life/Handlers.antt =====
-- Each handler of a node keeps what the store's methods keep.
use openclaw_p2p.Node.Inbound.Gate.{IsWithinPolicy}
use openclaw_p2p.Policy.{Policy}
use openclaw_p2p.Sae.Validate.{decode_envelope}
use openclaw_p2p.Node.Publish.Draft.{
  draft_fact, draft_task, SignedDraft, PublishFactInput, PublishTaskInput, DraftInputs,
}
use openclaw_p2p.Node.Life.Closed.{
  HoldsAt, enforce-Admits, enforce-Keeps, apply_fact_locally-Keeps, apply_task_locally-Keeps,
  announce-Keeps, IsClosed,
}
use openclaw_p2p.Exec.Outcomes.{Keeps}
use openclaw_p2p.Gossip.{PubSub}
use openclaw_p2p.Node.State.{enforce_envelope_policy, self, Node}
use openclaw_p2p.Sae.Envelope.{kind_agent_fact, kind_task, SaeEnvelope}
use openclaw_p2p.Error.{nil, unsupported_kind, err, ok, Result, Check}
use openclaw_p2p.Node.Publish.{
  apply_task_locally, apply_fact_locally, announce_fact, announce_task, PublishInputs, publish_task,
  publish_fact,
}
use openclaw_p2p.Node.Inbound.{
  handle_decoded, receive_fact, receive_task, after_policy, dispatch, Message, handle_envelope,
  read_loop, InboundInputs,
}
use openclaw_p2p.Store.State.{Store}
use openclaw_p2p.Sae.Libs.{Libs}
use openclaw_p2p.Prelude.{refl, ◌≡◌, ◌==◌, true, false, true, if◌then◌else◌, Bool, [], ◌∷◌}

module _ (L : Libs) (p : Policy) {Q : Store → Type 0} {Admits : SaeEnvelope → Type 0}
    (closed : IsClosed Q Admits)
    (admits : (env : SaeEnvelope) → IsWithinPolicy L p env → Admits env) where
  pub publish_task-Keeps :
      (i : PublishInputs) (ps : PubSub) (di : DraftInputs) (input : PublishTaskInput)
      → Keeps (HoldsAt L p closed admits) (publish_task L i ps di input)
  unfolding publish_task
  publish_task-Keeps i ps di input n h = drafted (draft_task L di input n)
    where
      drafted : (d : Result SignedDraft) → HoldsAt L p closed admits (announce_task L i ps d n).1
      drafted (err e) = h
      drafted (ok d) =
          announce-Keeps L p closed admits i ps "task" (apply_task_locally i (self L n) d.envelope)
            d (apply_task_locally-Keeps L p closed admits i (self L n) d.envelope) n h

  pub publish_fact-Keeps :
      (i : PublishInputs) (ps : PubSub) (di : DraftInputs) (input : PublishFactInput)
      → Keeps (HoldsAt L p closed admits) (publish_fact L i ps di input)
  unfolding publish_fact
  publish_fact-Keeps i ps di input n h = drafted (draft_fact L di input n)
    where
      drafted : (d : Result SignedDraft) → HoldsAt L p closed admits (announce_fact L i ps d n).1
      drafted (err e) = h
      drafted (ok d) =
          announce-Keeps L p closed admits i ps "fact" (apply_fact_locally i (self L n) d.envelope)
            d (apply_fact_locally-Keeps L p closed admits i (self L n) d.envelope) n h

  dispatch-Keeps :
      (i : InboundInputs) (env : SaeEnvelope)
      → Admits env
      → Keeps (HoldsAt L p closed admits) (dispatch L i env)
  dispatch-Keeps i env a n (same, q) = by_kind (env.kind == kind_task) (env.kind == kind_agent_fact)
    where
      by_kind :
          (b c : Bool)
          → HoldsAt L p closed admits (
              let x : Check × Node L =
                if b
                then receive_task L i env n
                else if c
                then receive_fact L i env n
                else (err (unsupported_kind env.kind), n) in
              x.1)
      by_kind true c = (
        same,
        closed.appends_event _ _ _ _ (closed.applies_task i.out i.apply_now env n.store a q),
      )
      by_kind false true = (
        same,
        closed.appends_event _ _ _ _ (closed.applies_fact i.out i.apply_now env n.store a q),
      )
      by_kind false false = (same, q)

  handle_envelope-Keeps :
      (i : InboundInputs) (env : SaeEnvelope)
      → Keeps (HoldsAt L p closed admits) (handle_envelope L i env)
  unfolding handle_envelope
  handle_envelope-Keeps i env n h =
      let x = enforce_envelope_policy L i.policy_now env true n in
      passed x.0 x.1 (enforce-Keeps L p closed admits i.policy_now env true n h)
        (enforce-Admits L p closed admits i.policy_now env true n h)
    where
      passed :
          (c : Check) (m : Node L)
          → HoldsAt L p closed admits m
          → (c ≡ nil → Admits env)
          → HoldsAt L p closed admits (after_policy L i env c m).1
      passed (ok u) m g a = dispatch-Keeps i env (a refl) m g
      passed (err e) m (same, q) a = (same, closed.appends_event _ _ _ _ q)

  pub read_loop-Holds :
      (m : Message L) (n : Node L)
      → HoldsAt L p closed admits n
      → HoldsAt L p closed admits (read_loop L (m ∷ []) n)
  unfolding read_loop
  read_loop-Holds m n h = read m.from_self (decode_envelope L m.content)
    where
      read :
          (b : Bool) (env : Result SaeEnvelope)
          → HoldsAt L p closed admits (if b then n else handle_decoded L m env n)
      read true env = h
      read false (ok env) = handle_envelope-Keeps m.inputs env n h
      read false (err e) = h
