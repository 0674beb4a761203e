-- ===== src/Node/Publish/Heard.antt =====
-- How a publication and the handler of envelopes meet, at a node with the publisher's policy.
use openclaw_p2p.Node.Publish.Delivered.{publish_task_lem}
use openclaw_p2p.Store.Tasks.Merge.{get-apply_task, merge_task}
use openclaw_p2p.Store.Tasks.{apply_task, task_key}
use openclaw_p2p.Sae.Sign.Authenticity.{sign_sound}
use openclaw_p2p.GoMap.{get}
use openclaw_p2p.Node.Publish.Draft.{PublishTaskInput, DraftInputs}
use openclaw_p2p.Gossip.{PubSub}
use openclaw_p2p.Node.Publish.{publish_task, PublishInputs}
use openclaw_p2p.Policy.{Policy}
use openclaw_p2p.Node.Inbound.Gate.{tasks-enforce, tasks-append_event, IsWithinPolicy}
use openclaw_p2p.Sae.Sign.{verify_publisher, sign}
use openclaw_p2p.Sae.Validate.{encode}
use openclaw_p2p.Sae.Build.{new_task_sae}
use openclaw_p2p.Clock.{Time}
use openclaw_p2p.Sae.Envelope.{max_envelope_size, kind_task, SaeEnvelope}
use openclaw_p2p.Prelude.{
  pos, ltb_ℤ, ◌≤◌, length, arith, ◌&&◌, ◌∙◌, sym, subst, eq_iff, refl, ◌==◌, if◌then◌else◌, true,
  ap, false, ◌≡◌, String, Bool,
}
use openclaw_p2p.Node.Inbound.{dispatch, after_policy, handle_envelope, InboundInputs}
use openclaw_p2p.Node.State.{check_rate, Node, enforce_envelope_policy, check_envelope}
use openclaw_p2p.Sae.Libs.{Bytes, Libs}
use openclaw_p2p.Error.{
  message_too_large, confidence_below, topic_limit_exceeded, Result, err, ok, fail_if, nil, Error,
  Check, ◌>>=◌, ◌>>◌,
}

module _ (L : Libs) where
  fail_if-false :
      (c : Bool) (e : Error) (k : Check) → c ≡ false → k ≡ nil → (fail_if c e >> k) ≡ nil
  fail_if-false true e k h r = cc h
  fail_if-false false e k h r = r

  encode_complete :
      (env : SaeEnvelope) (body : Bytes)
      → L.marshal env ≡ ok body
      → length body ≤ max_envelope_size
      → encode L env ≡ ok body
  unfolding encode
  encode_complete env body e fits = rw e (ground arith)

  signature_complete : (b : Bool) (c : Check) → (b ≡ true → c ≡ nil) → (if b then c else nil) ≡ nil
  signature_complete true c h = h refl
  signature_complete false c h = refl

  ok_then :
      (r : Result Bytes) (body : Bytes) (f : Bytes → Check)
      → r ≡ ok body
      → f body ≡ nil
      → (r >>= f) ≡ nil
  ok_then (ok b) body f e h = ap f (cc e) ∙ h
  ok_then (err x) body f e h = cc e

  -- An envelope within the policy passes the checks that look at the envelope alone.
  check_envelope_complete :
      (p : Policy) (env : SaeEnvelope) → IsWithinPolicy L p env → check_envelope L p env ≡ nil
  unfolding check_envelope
  check_envelope_complete p env w =
      let topics = w.topics in
      let conf = w.conf in
      let size = w.size in
      fail_if-false (ltb_ℤ p.topic_limit (pos (length env.topics)))
        (topic_limit_exceeded (pos (length env.topics)) p.topic_limit) _ (ground arith)
        (fail_if-false (ltb_ℤ env.conf p.conf_min) (confidence_below env.conf p.conf_min) _
          (ground arith)
          (ok_then (encode L env) w.body
            (λ x.
              fail_if (ltb_ℤ p.msg_size_limit (pos (length x)))
                (message_too_large (pos (length x)) p.msg_size_limit)
              >> (if p.require_signature then verify_publisher L env else nil))
            (encode_complete env w.body w.body_of w.envelope_size)
            (fail_if-false (ltb_ℤ p.msg_size_limit (pos (length w.body)))
              (message_too_large (pos (length w.body)) p.msg_size_limit) _ (ground arith)
              (signature_complete p.require_signature (verify_publisher L env) w.signature))))

  after_check :
      (c : Check) (now : Time) (env : SaeEnvelope) (m : Node L)
      → c ≡ nil
      → (check_rate L now env true m).0 ≡ nil
      → (let r : Check × Node L = elim c [
        | ok _ ↦ check_rate L now env true m
        | err e ↦ (err e, m)
      ] in
          r.0)
        ≡ nil
  after_check (ok u) now env m h r = r
  after_check (err e) now env m h r = cc h

  enforce_complete :
      (now : Time) (env : SaeEnvelope) (m : Node L)
      → IsWithinPolicy L m.policy env
      → (check_rate L now env true m).0 ≡ nil
      → (enforce_envelope_policy L now env true m).0 ≡ nil
  unfolding enforce_envelope_policy
  enforce_complete now env m w r =
      after_check (check_envelope L m.policy env) now env m (check_envelope_complete m.policy env w)
        r

  tasks-dispatch :
      (i : InboundInputs) (env : SaeEnvelope) (m : Node L) (k : String)
      → env.kind ≡ kind_task
      → get k (dispatch L i env m).1.store.tasks ≡ (
          if task_key env.origin env.task_id == k
          then merge_task i.apply_now env (get k m.store.tasks)
          else get k m.store.tasks)
  tasks-dispatch i env m k kind = rw ((eq_iff env.kind kind_task).1 kind) (
      ap (get k) (
        tasks-append_event i.event_fault i.event_now _ (apply_task i.out i.apply_now env m.store).1)
      ∙ get-apply_task i.out i.apply_now env m.store k
      ∙ ap
          (λ b.
            if b && task_key env.origin env.task_id == k
            then merge_task i.apply_now env (get k m.store.tasks)
            else get k m.store.tasks)
          ((eq_iff env.kind kind_task).1 kind))

  after_policy-dispatch :
      (i : InboundInputs) (env : SaeEnvelope) (c : Check) (m : Node L)
      → c ≡ nil
      → after_policy L i env c m ≡ dispatch L i env m
  after_policy-dispatch i env (ok u) m h = refl
  after_policy-dispatch i env (err e) m h = cc h

  kind-signed :
      (priv : L.PrivKey) (e signed : SaeEnvelope)
      → sign L priv e ≡ (nil, signed)
      → signed.kind ≡ e.kind
  kind-signed priv e signed h = ap (λ (x : SaeEnvelope). x.kind) (sign_sound L priv e signed h).0.1

  -- A task that `PublishTask` returned is let in by every node that has the publisher's policy and
  -- does not find it over its rate: it is merged into the receiver's tasks, and into no other key.
  pub handle_envelope-publish_task :
      (i : PublishInputs) (ps : PubSub) (di : DraftInputs) (input : PublishTaskInput) (n : Node L)
      (task : SaeEnvelope) (r : InboundInputs) (m : Node L)
      → (publish_task L i ps di input n).0 ≡ ok task
      → m.policy ≡ n.policy
      → (check_rate L r.policy_now task true m).0 ≡ nil
      → (k : String)
      → get k (handle_envelope L r task m).1.store.tasks ≡ (
          if task_key task.origin task.task_id == k
          then merge_task r.apply_now task (get k m.store.tasks)
          else get k m.store.tasks)
  unfolding handle_envelope new_task_sae
  handle_envelope-publish_task i ps di input n task r m h same rate k =
      let a = publish_task_lem L i ps di input n task h in
      let w : IsWithinPolicy L m.policy task =
        subst (λ p. IsWithinPolicy L p task) (sym same) a.within in
      let passed = enforce_envelope_policy L r.policy_now task true m in
      ap (λ (x : Check × Node L). get k x.1.store.tasks)
        (after_policy-dispatch r task passed.0 passed.1
          (enforce_complete r.policy_now task m w rate))
      ∙ tasks-dispatch r task passed.1 k (kind-signed n.priv_key _ task a.signed)
      ∙ ap
          (λ tasks.
            if task_key task.origin task.task_id == k
            then merge_task r.apply_now task (get k tasks)
            else get k tasks)
          (tasks-enforce L r.policy_now task true m)
