-- ===== src/Node/Inbound/Accepted.antt =====
-- The store after any inbound traffic holds only envelopes that passed the node's policy.
use openclaw_p2p.Sae.Validate.{decode_envelope}
use openclaw_p2p.Store.Records.{append_event}
use openclaw_p2p.Store.Tasks.{apply_task}
use openclaw_p2p.Store.Facts.{apply_fact}
use openclaw_p2p.Clock.{Time}
use openclaw_p2p.Error.{err, nil, ok, Check, Result, Error}
use openclaw_p2p.Sae.Envelope.{kind_agent_fact, kind_task, SaeEnvelope}
use openclaw_p2p.Node.State.{enforce_envelope_policy, Node}
use openclaw_p2p.Store.Run.Hold.{
  apply_fact-FactsHold, facts-apply_task, apply_task-TasksHold, tasks-apply_fact, FactsHold,
  TasksHold,
}
use openclaw_p2p.Store.State.{EventLogEntry, Store}
use openclaw_p2p.Store.Files.{WriteOutcome}
use openclaw_p2p.Policy.{Policy}
use openclaw_p2p.Sae.Libs.{Libs}
use openclaw_p2p.Prelude.{
  refl, inr, ◌∙◌, arith, subst, inl, ◌==◌, true, Bool-cases, Option, List, ◌≡◌, [], ◌∷◌,
}
use openclaw_p2p.Node.Inbound.{
  handle_decoded, Message, InboundInputs, handle_envelope, read_loop, dispatch, after_policy,
}
use openclaw_p2p.Node.Inbound.Gate.{
  facts-enforce, tasks-enforce, policy-enforce, facts-append_event, enforce_sound,
  tasks-append_event, IsWithinPolicy,
}

-- Every task and fact of the store came from an envelope within the policy.
pub record IsAccepted (L : Libs) (p : Policy) (s : Store) : Type 0 where
  pub tasks : TasksHold (λ k t. IsWithinPolicy L p t.envelope) s
  pub facts : FactsHold (λ k f. IsWithinPolicy L p f.envelope) s

module _ (L : Libs) (p : Policy) where
  pub append_event-IsAccepted :
      (fault : Option Error) (now : Time) (entry : EventLogEntry) (s : Store)
      → IsAccepted L p s
      → IsAccepted L p (append_event fault now entry s).1
  append_event-IsAccepted fault now entry s a = record {
    tasks = rw (tasks-append_event fault now entry s) a.tasks;
    facts = rw (facts-append_event fault now entry s) a.facts;
  }

  pub apply_task-IsAccepted :
      (out : WriteOutcome) (now : Time) (env : SaeEnvelope) (s : Store)
      → IsWithinPolicy L p env
      → IsAccepted L p s
      → IsAccepted L p (apply_task out now env s).1
  apply_task-IsAccepted out now env s w a = record {
    tasks =
        apply_task-TasksHold (λ k t. IsWithinPolicy L p t.envelope) out now env s (λ _. w) a.tasks;
    facts = rw (facts-apply_task out now env s) a.facts;
  }

  pub apply_fact-IsAccepted :
      (out : WriteOutcome) (now : Time) (env : SaeEnvelope) (s : Store)
      → IsWithinPolicy L p env
      → IsAccepted L p s
      → IsAccepted L p (apply_fact out now env s).1
  apply_fact-IsAccepted out now env s w a = record {
    tasks = rw (tasks-apply_fact out now env s) a.tasks;
    facts =
        apply_fact-FactsHold (λ k f. IsWithinPolicy L p f.envelope) out now env s (λ _. w) a.facts;
  }

  dispatch-IsAccepted :
      (i : InboundInputs) (env : SaeEnvelope) (n : Node L)
      → IsWithinPolicy L p env
      → IsAccepted L p n.store
      → IsAccepted L p (dispatch L i env n).1.store
  dispatch-IsAccepted i env n w a = elim (Bool-cases (env.kind == kind_task)) [
    | inl e ↦ rw e (
        append_event-IsAccepted _ _ _ (apply_task i.out i.apply_now env n.store).1
          (apply_task-IsAccepted i.out i.apply_now env n.store w a))
    | inr e ↦ elim (Bool-cases (env.kind == kind_agent_fact)) [
      | inl f ↦
          rw (e, f)
            (append_event-IsAccepted _ _ _ (apply_fact i.out i.apply_now env n.store).1
              (apply_fact-IsAccepted i.out i.apply_now env n.store w a))
      | inr f ↦ rw (e, f) a
    ]
  ]

  after_policy-IsAccepted :
      (i : InboundInputs) (env : SaeEnvelope) (check : Check) (n : Node L)
      → (check ≡ nil → IsWithinPolicy L p env)
      → IsAccepted L p n.store
      → IsAccepted L p (after_policy L i env check n).1.store
  after_policy-IsAccepted i env (ok u) n w a = dispatch-IsAccepted i env n (w refl) a
  after_policy-IsAccepted i env (err e) n w a = append_event-IsAccepted _ _ _ n.store a

  handle_envelope-IsAccepted :
      (i : InboundInputs) (env : SaeEnvelope) (n : Node L)
      → n.policy ≡ p
      → IsAccepted L p n.store
      → IsAccepted L p (handle_envelope L i env n).1.store
  unfolding handle_envelope
  handle_envelope-IsAccepted i env n same a =
      let r = enforce_envelope_policy L i.policy_now env true n in
      after_policy-IsAccepted i env r.0 r.1
        (λ h. subst (λ q. IsWithinPolicy L q env) same (enforce_sound L i.policy_now env true n h))
        (record {
          tasks = rw (tasks-enforce L i.policy_now env true n) a.tasks;
          facts = rw (facts-enforce L i.policy_now env true n) a.facts;
        })

  policy-after_policy :
      (i : InboundInputs) (env : SaeEnvelope) (check : Check) (n : Node L)
      → (after_policy L i env check n).1.policy ≡ n.policy
  policy-after_policy i env (ok u) n = ground arith
  policy-after_policy i env (err e) n = refl

  policy-handle_envelope :
      (i : InboundInputs) (env : SaeEnvelope) (n : Node L)
      → (handle_envelope L i env n).1.policy ≡ n.policy
  unfolding handle_envelope
  policy-handle_envelope i env n =
      let r = enforce_envelope_policy L i.policy_now env true n in
      policy-after_policy i env r.0 r.1 ∙ policy-enforce L i.policy_now env true n

  handle_decoded-keeps :
      (m : Message L) (r : Result SaeEnvelope) (n : Node L)
      → n.policy ≡ p
      → IsAccepted L p n.store
      → ((handle_decoded L m r n).policy ≡ p) × IsAccepted L p (handle_decoded L m r n).store
  handle_decoded-keeps m (ok env) n same a = (
    policy-handle_envelope m.inputs env n ∙ same,
    handle_envelope-IsAccepted m.inputs env n same a,
  )
  handle_decoded-keeps m (err e) n same a = (same, a)

  -- Whatever messages arrive, in whatever order, and whatever the clock and the disk do: if all
  -- tasks and facts of the store came from envelopes within the node's policy, so do they after the
  -- messages. Within the policy means: at most the topics and bytes allowed, at least the
  -- confidence asked, and, if signatures are required, accepted by `VerifyPublisher`.
  pub read_loop-IsAccepted :
      (ms : List (Message L)) (n : Node L)
      → n.policy ≡ p
      → IsAccepted L p n.store
      → IsAccepted L p (read_loop L ms n).store
  unfolding read_loop
  read_loop-IsAccepted [] n same a = a
  read_loop-IsAccepted (m ∷ ms) n same a = elim (Bool-cases m.from_self) [
    | inl e ↦ rw e (read_loop-IsAccepted ms n same a)
    | inr e ↦ rw e (
        let (same', a') = handle_decoded-keeps m (decode_envelope L m.content) n same a in
        read_loop-IsAccepted ms _ same' a')
  ]
