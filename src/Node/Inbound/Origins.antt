-- ===== src/Node/Inbound/Origins.antt =====
-- Which tasks and facts an inbound envelope can change: those of its own origin.
use openclaw_p2p.Store.Facts.Merge.{get-apply_fact}
use openclaw_p2p.Store.Records.{append_event}
use openclaw_p2p.Sae.Sign.Authenticity.{verify_publisher_iff}
use openclaw_p2p.Store.Tasks.Merge.{get-apply_task}
use openclaw_p2p.Store.Run.Hold.{facts-apply_task, tasks-apply_fact}
use openclaw_p2p.Clock.{Time}
use openclaw_p2p.Node.State.{enforce_envelope_policy, Node}
use openclaw_p2p.Sae.Sign.{verify_publisher, did_from_pub_key}
use openclaw_p2p.GoMap.{get}
use openclaw_p2p.Store.Files.{WriteOutcome}
use openclaw_p2p.Error.{err, ok, nil, Check, Error}
use openclaw_p2p.Sae.Envelope.{kind_agent_fact, kind_task, SaeEnvelope}
use openclaw_p2p.Store.Tasks.{apply_task, task_key}
use openclaw_p2p.Store.State.{EventLogEntry, Store}
use openclaw_p2p.Store.Tasks.Keys.{task_key_inj, IsSeparable}
use openclaw_p2p.Sae.Libs.{Libs}
use openclaw_p2p.Store.Facts.{apply_fact, fact_key}
use openclaw_p2p.Prelude.{
  ap, ◌∙◌, inr, false, subst, inl, test_of_ne, ◌==◌, true, Bool-cases, ◌&&◌, refl, sym,
  if◌then◌else◌, Option, Bool, String, ◌≡◌, ◌≢◌,
}
use openclaw_p2p.Node.Inbound.{InboundInputs, handle_envelope, dispatch, after_policy}
use openclaw_p2p.Node.Inbound.Gate.{
  facts-enforce, tasks-enforce, facts-append_event, tasks-append_event, enforce_sound,
}

-- No DID of a key holds the separator of the store's keys, or ends in a colon: it is did:key: and
-- base64 or hexadecimal digits.
abbrev pub DidsSeparable : Libs → Type 0
DidsSeparable L = (key : L.PubKey) → IsSeparable (did_from_pub_key L key)

fact_key-eq-task_key : (origin id : String) → fact_key origin id ≡ task_key origin id
unfolding fact_key task_key
fact_key-eq-task_key origin id = refl

if_other :
    {V : Type 0} (kind : Bool) (j k : String) (x y : Option V)
    → j ≢ k
    → (if kind && j == k then x else y) ≡ y
if_other true j k x y h = rw (test_of_ne j k h)
if_other false j k x y h = refl

-- The entries of an origin in two stores are the same.
pub record SameOf (o : String) (s t : Store) : Type 0 where
  pub tasks : (id : String) → get (task_key o id) t.tasks ≡ get (task_key o id) s.tasks
  pub facts : (id : String) → get (fact_key o id) t.facts ≡ get (fact_key o id) s.facts

module _ (L : Libs) (o : String) (sep : IsSeparable o) where
  append_event-SameOf :
      (fault : Option Error) (now : Time) (entry : EventLogEntry) (s t : Store)
      → SameOf o s t
      → SameOf o s (append_event fault now entry t).1
  append_event-SameOf fault now entry s t h = record {
    tasks = rw (tasks-append_event fault now entry t) h.tasks;
    facts = rw (facts-append_event fault now entry t) h.facts;
  }

  other_key : (p id id' : String) → IsSeparable p → o ≢ p → task_key p id' ≢ task_key o id
  other_key p id id' sp h e = h (sym (task_key_inj p o id' id sp sep e).0)

  apply_task-SameOf :
      (out : WriteOutcome) (now : Time) (env : SaeEnvelope) (s : Store)
      → IsSeparable env.origin
      → o ≢ env.origin
      → SameOf o s (apply_task out now env s).1
  apply_task-SameOf out now env s sp h = record {
    tasks = λ id. rw (get-apply_task out now env s (task_key o id)) (
        if_other (env.kind == kind_task) (task_key env.origin env.task_id) (task_key o id) _ _
          (other_key env.origin id env.task_id sp h));
    facts = rw (facts-apply_task out now env s) (λ id. refl);
  }

  apply_fact-SameOf :
      (out : WriteOutcome) (now : Time) (env : SaeEnvelope) (s : Store)
      → IsSeparable env.origin
      → o ≢ env.origin
      → SameOf o s (apply_fact out now env s).1
  apply_fact-SameOf out now env s sp h = record {
    tasks = rw (tasks-apply_fact out now env s) (λ id. refl);
    facts = λ id. rw (get-apply_fact out now env s (fact_key o id)) (
        if_other (env.kind == kind_agent_fact) (fact_key env.origin env.fact_id) (fact_key o id) _ _
          (rw (fact_key-eq-task_key env.origin env.fact_id, fact_key-eq-task_key o id)
            (other_key env.origin id env.fact_id sp h)));
  }

  dispatch-SameOf :
      (i : InboundInputs) (env : SaeEnvelope) (n : Node L)
      → IsSeparable env.origin
      → o ≢ env.origin
      → SameOf o n.store (dispatch L i env n).1.store
  dispatch-SameOf i env n sp h = elim (Bool-cases (env.kind == kind_task)) [
    | inl e ↦ rw e (
        append_event-SameOf _ _ _ n.store (apply_task i.out i.apply_now env n.store).1
          (apply_task-SameOf i.out i.apply_now env n.store sp h))
    | inr e ↦ elim (Bool-cases (env.kind == kind_agent_fact)) [
      | inl f ↦
          rw (e, f)
            (append_event-SameOf _ _ _ n.store (apply_fact i.out i.apply_now env n.store).1
              (apply_fact-SameOf i.out i.apply_now env n.store sp h))
      | inr f ↦ rw (e, f) (record { tasks = λ id. refl; facts = λ id. refl })
    ]
  ]

  after_policy-SameOf :
      (i : InboundInputs) (env : SaeEnvelope) (check : Check) (n : Node L)
      → (check ≡ nil → IsSeparable env.origin)
      → o ≢ env.origin
      → SameOf o n.store (after_policy L i env check n).1.store
  after_policy-SameOf i env (ok u) n sp h = dispatch-SameOf i env n (sp refl) h
  after_policy-SameOf i env (err e) n sp h =
      append_event-SameOf _ _ _ n.store n.store (record { tasks = λ id. refl; facts = λ id. refl })

  origin-IsSeparable :
      DidsSeparable L → (env : SaeEnvelope) → verify_publisher L env ≡ nil → IsSeparable env.origin
  origin-IsSeparable dids env v =
      let a = (verify_publisher_iff L env).0 v in subst IsSeparable a.origin (dids a.key)

  -- A node that requires signatures never lets an envelope, forged or genuine, change a task or a
  -- fact of an origin other than the envelope's own: whatever is sent, the entries under every key
  -- of the other origin stay as they are. (No DID holds the separator of the keys.)
  pub handle_envelope-SameOf :
      DidsSeparable L
      → (i : InboundInputs) (env : SaeEnvelope) (n : Node L) → n.policy.require_signature ≡ true
      → o ≢ env.origin
      → SameOf o n.store (handle_envelope L i env n).1.store
  unfolding handle_envelope
  handle_envelope-SameOf dids i env n signed h =
      let r = enforce_envelope_policy L i.policy_now env true n in
      let moved =
        after_policy-SameOf i env r.0 r.1
          (λ e.
            origin-IsSeparable dids env
              ((enforce_sound L i.policy_now env true n e).signature signed))
          h in
      record {
        tasks = λ id.
            moved.tasks id ∙ ap (get (task_key o id)) (tasks-enforce L i.policy_now env true n);
        facts = λ id.
            moved.facts id ∙ ap (get (fact_key o id)) (facts-enforce L i.policy_now env true n);
      }
