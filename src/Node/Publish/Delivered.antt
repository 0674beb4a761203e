-- ===== src/Node/Publish/Delivered.antt =====
-- What `PublishTask` has done when it returns no error, at the node and at those that receive it.
use openclaw_p2p.Node.Publish.Asked.{IsTaskFor, fields_of, signed-IsTaskFor}
use openclaw_p2p.Sae.Sign.Authenticity.{verify_publisher-sign, sign_sound}
use openclaw_p2p.Sae.Validate.Sound.{decode-encode}
use openclaw_p2p.Sae.Build.{new_task_sae}
use openclaw_p2p.Store.Tasks.Merge.{get-apply_task}
use openclaw_p2p.GoMap.Laws.{get-put}
use openclaw_p2p.Node.Publish.Effect.{announce_lem}
use openclaw_p2p.Sae.Validate.{decode_envelope, encode}
use openclaw_p2p.Topics.{unique_strings}
use openclaw_p2p.Gossip.Topics.{to_each, HasAll}
use openclaw_p2p.GoMap.{get}
use openclaw_p2p.Clock.{Time}
use openclaw_p2p.Store.State.{Store, StoredPayload, EventLogEntry}
use openclaw_p2p.Store.Tasks.{apply_task}
use openclaw_p2p.Node.Inbound.Gate.{tasks-append_event, IsWithinPolicy}
use openclaw_p2p.Store.Records.{upsert_payload, find_payload, append_event}
use openclaw_p2p.Gossip.{PubSub}
use openclaw_p2p.Node.Publish.{
  publish_task, announce, payload_of, apply_task_locally, log_applied, announce_task, PublishInputs,
}
use openclaw_p2p.Sae.Sign.{verify_publisher, did_from_pub_key, sign}
use openclaw_p2p.Prelude.{
  eq_refl, if◌then◌else◌, sym, subst, ◌∙◌, ◌++◌, some, arith, ap, refl, ◌==◌, ◌≡◌, String, List,
}
use openclaw_p2p.Node.State.{self, Node}
use openclaw_p2p.Sae.Envelope.{SaeEnvelope}
use openclaw_p2p.Node.Publish.Draft.{
  task_id_or_fresh, payload_digest, marshal_detail, signed_draft, task_to_sign, SignedDraft,
  PublishTaskInput, DraftInputs, draft_task,
}
use openclaw_p2p.Sae.Libs.{
  NamesKey, JsonRoundTrips, Base64RoundTrips, SignaturesVerify, Bytes, Libs,
}
use openclaw_p2p.Error.{Result, >>=-eq-ok, err, missing, nil, fail_then, ok, Check}

module _ (L : Libs) where
  signed_draft_sound :
      (r : Check × SaeEnvelope) (topics : List String) (object_id : String) (content : Bytes)
      (d : SignedDraft)
      → signed_draft L r topics object_id content ≡ ok d
      → (r.0 ≡ nil)
        × (d ≡ record {
          envelope = r.1;
          topics = topics;
          object_id = object_id;
          content = content;
          digest = payload_digest L content;
        })
  signed_draft_sound (ok u, env) topics object_id content d h = (refl, cc h)
  signed_draft_sound (err e, env) topics object_id content d h = cc h

  -- A draft is the signed form of the task that the input asks for, with the input's detail.
  pub record IsTaskDraft (di : DraftInputs) (input : PublishTaskInput) (n : Node L)
      (d : SignedDraft) : Type 0 where
    pub signed : sign L n.priv_key (task_to_sign L di input n) ≡ (nil, d.envelope)
    pub topics : d.topics ≡ (task_to_sign L di input n).topics
    pub content : marshal_detail input.detail ≡ ok d.content
    pub digest : d.digest ≡ payload_digest L d.content

  draft_task_sound :
      (di : DraftInputs) (input : PublishTaskInput) (n : Node L) (d : SignedDraft)
      → draft_task L di input n ≡ ok d
      → IsTaskDraft di input n d
  unfolding draft_task
  draft_task_sound di input n d h =
      let task = task_to_sign L di input n in
      let (a, h1) = fail_then (input.taxonomy == "") (missing "taxonomy") _ h in
      let (b, h2) = fail_then (input.summary == "") (missing "summary") _ h1 in
      let (content, c, h3) = >>=-eq-ok (marshal_detail input.detail) _ h2 in
      let (s, same) =
        signed_draft_sound (sign L n.priv_key task) task.topics (task_id_or_fresh L di input n)
          content d h3 in
      rw same (record {
        signed = ap (λ c. (c, (sign L n.priv_key task).1)) s;
        topics = refl;
        content = c;
        digest = refl;
      })

  module _ (i : PublishInputs) (ps : PubSub) where
    log_applied-tasks :
        (entry : EventLogEntry) (c : Check) (s : Store)
        → (log_applied i entry c s).1.tasks ≡ s.tasks
    log_applied-tasks entry (ok u) s = tasks-append_event i.event_fault i.event_now entry s
    log_applied-tasks entry (err e) s = refl

    log_applied-payloads :
        (entry : EventLogEntry) (c : Check) (s : Store)
        → (log_applied i entry c s).1.payloads ≡ s.payloads
    unfolding append_event
    log_applied-payloads entry (ok u) s = ground arith
    log_applied-payloads entry (err e) s = refl

    payloads-apply_task :
        (now : Time) (env : SaeEnvelope) (s : Store)
        → (apply_task i.apply_out now env s).1.payloads ≡ s.payloads
    unfolding apply_task
    payloads-apply_task now env s = ground arith

    locally_tasks :
        (owner : String) (env : SaeEnvelope) (payload : StoredPayload) (s : Store) (k : String)
        → get k (apply_task_locally i owner env (upsert_payload i.payload_out payload s).1).1.tasks
          ≡ get k (apply_task i.apply_out i.apply_now env s).1.tasks
    unfolding upsert_payload
    locally_tasks owner env payload s k =
        let t = (upsert_payload i.payload_out payload s).1 in
        ap (get k) (log_applied-tasks _ _ (apply_task i.apply_out i.apply_now env t).1)
        ∙ get-apply_task i.apply_out i.apply_now env t k
        ∙ sym (get-apply_task i.apply_out i.apply_now env s k)

    locally_served :
        (owner : String) (env : SaeEnvelope) (payload : StoredPayload) (s : Store)
        → find_payload payload.ref
            (apply_task_locally i owner env (upsert_payload i.payload_out payload s).1).1
          ≡ some payload
    unfolding upsert_payload find_payload
    locally_served owner env payload s =
        let t = (upsert_payload i.payload_out payload s).1 in
        ap (get payload.ref) (
          log_applied-payloads _ _ (apply_task i.apply_out i.apply_now env t).1
          ∙ payloads-apply_task i.apply_now env t)
        ∙ get-put payload.ref payload.ref payload s.payloads
        ∙ ap (λ b. if b then some payload else get payload.ref s.payloads) (eq_refl payload.ref)

    -- What the node looks like after a task was published.
    pub record IsPublishedTask (di : DraftInputs) (input : PublishTaskInput) (n : Node L)
        (task : SaeEnvelope) (m : Node L) : Type 0 where
      pub signed : sign L n.priv_key (task_to_sign L di input n) ≡ (nil, task)
      pub asked : IsTaskFor L di (fields_of L input) n task
      pub within : IsWithinPolicy L n.policy task
      pub content : Bytes
      pub content_of : marshal_detail input.detail ≡ ok content
      pub payload : StoredPayload
      pub served : find_payload task.detail_ref m.store ≡ some payload
      pub served_content : payload.content ≡ content
      pub served_digest : payload.sha256 ≡ payload_digest L content
      pub tasks :
          (k : String)
          → get k m.store.tasks ≡ get k (apply_task i.apply_out i.apply_now task n.store).1.tasks
      pub subscribed : HasAll m.gossip.subs (unique_strings (task_to_sign L di input n).topics)
      pub body : Bytes
      pub body_of : encode L task ≡ ok body
      pub published :
          m.gossip.published ≡ n.gossip.published ++ to_each body (unique_strings task.topics)

    announce_task_sound :
        (di : DraftInputs) (input : PublishTaskInput) (n : Node L) (r : Result SignedDraft)
        {task : SaeEnvelope}
        → draft_task L di input n ≡ r
        → (announce_task L i ps r n).0 ≡ ok task
        → IsPublishedTask di input n task (announce_task L i ps r n).1
    announce_task_sound di input n (err e) r h = cc h
    announce_task_sound di input n (ok d) r h =
        let draft = draft_task_sound di input n d r in
        let (same, a) =
          announce_lem L i ps "task" (apply_task_locally i (self L n) d.envelope) d n h in
        rw same (record {
          signed = draft.signed;
          asked = signed-IsTaskFor L di input n d.envelope draft.signed;
          within = a.within;
          content = d.content;
          content_of = draft.content;
          payload = payload_of (self L n) "task" i.payload_now d;
          served =
              ap (find_payload d.envelope.detail_ref) a.store
              ∙ locally_served (self L n) d.envelope (payload_of (self L n) "task" i.payload_now d)
                  n.store;
          served_content = refl;
          served_digest = draft.digest;
          tasks = λ k.
              ap (λ (t : Store). get k t.tasks) a.store
              ∙ locally_tasks (self L n) d.envelope (payload_of (self L n) "task" i.payload_now d)
                  n.store k;
          subscribed =
              subst
                (λ names.
                  HasAll
                    (announce L i ps "task" (apply_task_locally i (self L n) d.envelope) d
                      n).1.gossip.subs
                    (unique_strings names))
                draft.topics a.subscribed;
          body = a.body;
          body_of = a.body_of;
          published = a.published;
        })

    -- When `PublishTask` returns a task, the task has the fields that the input asks for (with a
    -- fresh ID and UPSERT where the input leaves them out, and a day to live where it gives no
    -- positive time), is signed with the node's
    -- key and is within the node's own policy; the input's detail is served under the task's
    -- reference, with its digest; under every key, the tasks of the node are those that `ApplyTask`
    -- leaves when it is called with this task; the node subscribes to the task's topics; and exactly
    -- the bytes of the task went to each of them, once.
    pub publish_task_lem :
        (di : DraftInputs) (input : PublishTaskInput) (n : Node L) (task : SaeEnvelope)
        → (publish_task L i ps di input n).0 ≡ ok task
        → IsPublishedTask di input n task (publish_task L i ps di input n).1
    unfolding publish_task
    publish_task_lem di input n task h =
        announce_task_sound di input n (draft_task L di input n) refl h

    -- A receiver decodes what `PublishTask` sent to the very task that it returned, and
    -- `VerifyPublisher` accepts it, if the node's peer ID and DID are those of its key, signatures
    -- verify, and base64 and JSON decoding undo encoding.
    pub publish_task_received :
        SignaturesVerify L
        → Base64RoundTrips L
        → JsonRoundTrips L
        → (di : DraftInputs) (input : PublishTaskInput) (n : Node L) (task : SaeEnvelope)
        → NamesKey L n.peer_id (L.get_public n.priv_key)
        → n.did ≡ did_from_pub_key L (L.get_public n.priv_key)
        → (publish_task L i ps di input n).0 ≡ ok task
        → (body : Bytes) × ((publish_task L i ps di input n).1.gossip.published
            ≡ n.gossip.published ++ to_each body (unique_strings task.topics))
          × (decode_envelope L body ≡ ok task)
          × (verify_publisher L task ≡ nil)
    unfolding new_task_sae
    publish_task_received sv b64 json di input n task names did h =
        let a = publish_task_lem di input n task h in
        let (b, e, d) = decode-encode L json task (sign_sound L n.priv_key _ task a.signed).1 in
        let same : b ≡ a.body = cc (e, a.body_of) in
        (
          a.body,
          a.published,
          subst (λ c. decode_envelope L c ≡ ok task) same d,
          verify_publisher-sign L sv b64 n.priv_key n.peer_id _ task names refl did a.signed,
        )
