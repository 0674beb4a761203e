-- ===== src/Node/Life/Closed.antt =====
-- Properties of a store that its methods keep, and the methods of a node that call them. An envelope
-- is applied only after `enforceEnvelopePolicy` let it pass.
use openclaw_p2p.Store.Gc.Effect.{AreRanges}
use openclaw_p2p.Store.Gc.{gc_expired, GcInputs}
use openclaw_p2p.Negotiate.Frame.{NegotiationFrame}
use openclaw_p2p.Node.Inbound.{envelope_event}
use openclaw_p2p.Store.Rates.{allow_peer}
use openclaw_p2p.Store.Records.{append_event, record_negotiation, record_peer, upsert_payload}
use openclaw_p2p.Node.Publish.Draft.{SignedDraft}
use openclaw_p2p.Error.{Error, err, ok, Check, nil}
use openclaw_p2p.Store.Facts.{apply_fact}
use openclaw_p2p.Gossip.{publish_sae, subscribe_topics, PubSub}
use openclaw_p2p.Store.Tasks.{apply_task}
use openclaw_p2p.Exec.Outcomes.{>>=-Keeps, Keeps}
use openclaw_p2p.Node.State.{
  check_envelope, on_gossip, self, by_rate, on_store, check_rate, Node, enforce_envelope_policy,
}
use openclaw_p2p.Clock.{Time}
use openclaw_p2p.Node.Publish.{
  payload_of, log_applied, apply_task_locally, apply_fact_locally, announce, PublishInputs,
}
use openclaw_p2p.Store.Files.{WriteOutcome}
use openclaw_p2p.Node.Inbound.Gate.{policy-enforce, enforce_sound, IsWithinPolicy}
use openclaw_p2p.Sae.Envelope.{SaeEnvelope}
use openclaw_p2p.Policy.{Policy}
use openclaw_p2p.Sae.Libs.{Libs}
use openclaw_p2p.Store.State.{EventLogEntry, text, StoredPayload, Store}
use openclaw_p2p.Exec.{Exec, lift, continue, ◌>>◌}
use openclaw_p2p.Prelude.{
  refl, ◌==◌, not, ◌&&◌, ◌∙◌, Option, ℤ, List, if◌then◌else◌, subst, Bool, ◌≡◌, String, true, false,
}

-- Every method keeps Q; the two that apply an envelope do for envelopes that are admitted.
pub record IsClosed (Q : Store → Type 0) (Admits : SaeEnvelope → Type 0) : Type 0 where
  pub applies_task :
      (out : WriteOutcome) (now : Time) (env : SaeEnvelope) (t : Store)
      → Admits env
      → Q t
      → Q (apply_task out now env t).1
  pub applies_fact :
      (out : WriteOutcome) (now : Time) (env : SaeEnvelope) (t : Store)
      → Admits env
      → Q t
      → Q (apply_fact out now env t).1
  pub upserts_payload :
      (out : WriteOutcome) (payload : StoredPayload) (t : Store)
      → Q t
      → Q (upsert_payload out payload t).1
  pub records_peer :
      (out : WriteOutcome) (now : Time) (id : String) (addrs : List String) (t : Store)
      → Q t
      → Q (record_peer out now id addrs t).1
  pub allows_peer :
      (now : Time) (peer_id : String) (limit : ℤ) (t : Store)
      → Q t
      → Q (allow_peer now peer_id limit t).1
  pub records_negotiation :
      (out : WriteOutcome) (now : Time) (frame : NegotiationFrame) (t : Store)
      → Q t
      → Q (record_negotiation out now frame t).1
  pub appends_event :
      (fault : Option Error) (now : Time) (entry : EventLogEntry) (t : Store)
      → Q t
      → Q (append_event fault now entry t).1
  pub collects :
      (i : GcInputs) (now : Time) (t : Store) → AreRanges i t → Q t → Q (gc_expired i now t).1

module _ (L : Libs) (p : Policy) {Q : Store → Type 0} {Admits : SaeEnvelope → Type 0}
    (closed : IsClosed Q Admits)
    (admits : (env : SaeEnvelope) → IsWithinPolicy L p env → Admits env) where
  -- The node has the policy, and its store the property.
  abbrev pub HoldsAt : Node L → Type 0
  HoldsAt n = (n.policy ≡ p) × Q n.store

  pub enforce-Keeps :
      (now : Time) (env : SaeEnvelope) (inbound : Bool)
      → Keeps HoldsAt (enforce_envelope_policy L now env inbound)
  unfolding enforce_envelope_policy check_rate
  enforce-Keeps now env inbound n (same, q) = (
    policy-enforce L now env inbound n ∙ same,
    checked (check_envelope L n.policy env) (rated (inbound && not (env.publisher == self L n))),
  )
    where
      rated :
          (b : Bool)
          → Q (
              let x : Check × Node L =
                if b
                then by_rate L env n
                    (allow_peer now env.publisher n.policy.rate_limit_per_peer n.store)
                else (nil, n) in
              x.1.store)
      rated true = closed.allows_peer now env.publisher n.policy.rate_limit_per_peer n.store q
      rated false = q

      checked :
          (c : Check)
          → Q (check_rate L now env inbound n).1.store
          → Q (
              let x : Check × Node L = elim c [
                | ok _ ↦ check_rate L now env inbound n
                | err e ↦ (err e, n)
              ] in
              x.1.store)
      checked (ok u) h = h
      checked (err e) h = q

  -- What passes is admitted.
  pub enforce-Admits :
      (now : Time) (env : SaeEnvelope) (inbound : Bool) (n : Node L)
      → HoldsAt n
      → (enforce_envelope_policy L now env inbound n).0 ≡ nil
      → Admits env
  enforce-Admits now env inbound n (same, q) h =
      admits env (subst (λ r. IsWithinPolicy L r env) same (enforce_sound L now env inbound n h))

  pub apply_task_locally-Keeps :
      (i : PublishInputs) (owner : String) (env : SaeEnvelope)
      → Admits env
      → Keeps HoldsAt (on_store L (apply_task_locally i owner env))
  apply_task_locally-Keeps i owner env a n (same, q) =
      (same, logged (apply_task i.apply_out i.apply_now env n.store).0.error)
    where
      logged :
          (c : Check)
          → Q
              (log_applied i
                (envelope_event "task_publish_local"
                  (apply_task i.apply_out i.apply_now env n.store).0.applied
                  (text (apply_task i.apply_out i.apply_now env n.store).0.reason)
                  owner
                  env)
                c
                (apply_task i.apply_out i.apply_now env n.store).1).1
      logged (ok u) =
          closed.appends_event _ _ _ _ (closed.applies_task i.apply_out i.apply_now env n.store a q)
      logged (err e) = closed.applies_task i.apply_out i.apply_now env n.store a q

  pub apply_fact_locally-Keeps :
      (i : PublishInputs) (owner : String) (env : SaeEnvelope)
      → Admits env
      → Keeps HoldsAt (on_store L (apply_fact_locally i owner env))
  apply_fact_locally-Keeps i owner env a n (same, q) =
      (same, logged (apply_fact i.apply_out i.apply_now env n.store).0.error)
    where
      logged :
          (c : Check)
          → Q
              (log_applied i
                (envelope_event "fact_publish_local"
                  (apply_fact i.apply_out i.apply_now env n.store).0.applied
                  (text (apply_fact i.apply_out i.apply_now env n.store).0.reason)
                  owner
                  env)
                c
                (apply_fact i.apply_out i.apply_now env n.store).1).1
      logged (ok u) =
          closed.appends_event _ _ _ _ (closed.applies_fact i.apply_out i.apply_now env n.store a q)
      logged (err e) = closed.applies_fact i.apply_out i.apply_now env n.store a q

  pub announce-Keeps :
      (i : PublishInputs) (ps : PubSub) (kind : String) (apply : Exec Store (Unit {0}))
      (d : SignedDraft)
      → (Admits d.envelope → Keeps HoldsAt (on_store L apply))
      → Keeps HoldsAt (announce L i ps kind apply d)
  unfolding announce
  announce-Keeps i ps kind apply d h n holds =
      let x = enforce_envelope_policy L i.policy_now d.envelope false n in
      passed x.0 x.1 (enforce-Keeps i.policy_now d.envelope false n holds)
        (enforce-Admits i.policy_now d.envelope false n holds)
    where
      upserts : Exec (Node L) (Unit {0})
      upserts =
          on_store L (upsert_payload i.payload_out (payload_of (self L n) kind i.payload_now d))

      applies : Exec (Node L) (Unit {0})
      applies = on_store L apply

      subscribes : Exec (Node L) (Unit {0})
      subscribes = on_gossip L (subscribe_topics ps d.topics)

      sends : Exec (Node L) (Unit {0})
      sends = on_gossip L (publish_sae ps L d.envelope)

      returns : Exec (Node L) SaeEnvelope
      returns = lift (ok d.envelope)

      rest-Keeps :
          Admits d.envelope
          → Keeps HoldsAt (upserts >> (applies >> (subscribes >> (sends >> returns))))
      rest-Keeps a =
          >>=-Keeps HoldsAt upserts (λ _. applies >> (subscribes >> (sends >> returns)))
            (λ m (same, q). (
              same,
              closed.upserts_payload i.payload_out (payload_of (self L n) kind i.payload_now d)
                  m.store q,
            ))
            (λ _.
              >>=-Keeps HoldsAt applies (λ _. subscribes >> (sends >> returns)) (h a)
                (λ _.
                  >>=-Keeps HoldsAt subscribes (λ _. sends >> returns) (λ m q. q)
                    (λ _. >>=-Keeps HoldsAt sends (λ _. returns) (λ m q. q) (λ _ m q. q))))

      passed :
          (c : Check) (m : Node L)
          → HoldsAt m
          → (c ≡ nil → Admits d.envelope)
          → HoldsAt
              (continue c (λ _. upserts >> (applies >> (subscribes >> (sends >> returns)))) m).1
      passed (ok u) m q a = rest-Keeps (a refl) m q
      passed (err e) m q a = q
