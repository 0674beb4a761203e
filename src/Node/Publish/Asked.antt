-- ===== src/Node/Publish/Asked.antt =====
-- The fields of a task that `PublishTask` signs, written out from what is asked for.
use openclaw_p2p.Error.{nil}
use openclaw_p2p.Prelude.{
  ◌*◌, sym, false, pos, leb_ℤ, refl, true, subst, ◌==◌, if◌then◌else◌, List, ℤ, String, Bool, ◌≡◌,
}
use openclaw_p2p.Sae.Sign.Authenticity.{sign_sound}
use openclaw_p2p.Sae.Sign.{sign}
use openclaw_p2p.Sae.Build.{new_task_sae, fresh_task_id}
use openclaw_p2p.Sae.Envelope.{SaeEnvelope}
use openclaw_p2p.Sae.Libs.{Libs}
use openclaw_p2p.Node.State.{Node}
use openclaw_p2p.Node.Publish.Draft.{task_to_sign, PublishTaskInput, DraftInputs}
use openclaw_p2p.Detail.Ref.{build_detail_ref}
use openclaw_p2p.Store.Tasks.{next_task_seq}
use openclaw_p2p.Topics.{normalize_topics}
use openclaw_p2p.Clock.{hour}
use openclaw_p2p.Clock

-- What a caller asks for: the texts, the topics, the confidence, and the nanoseconds to live.
pub record TaskFields : Type 0 where
  pub task_id : String
  pub op : String
  pub taxonomy : String
  pub topics : List String
  pub summary : String
  pub conf : ℤ
  pub life : ℤ

-- The time to live, and a day for none or a negative one.
abbrev pub life_of : ℤ → ℤ
life_of ttl = if leb_ℤ ttl (pos 0) then pos (24 * hour) else ttl

module _ (L : Libs) where
  -- The ID of the task: the one that is given, or a fresh one.
  abbrev pub asked_id : DraftInputs → TaskFields → Node L → String
  asked_id di f n =
      if f.task_id == "" then fresh_task_id L n.did f.taxonomy f.summary di.id_now else f.task_id

  -- A task of this node, with the fields that are asked for, and the next number for its ID.
  pub record IsTaskFor (di : DraftInputs) (f : TaskFields) (n : Node L) (task : SaeEnvelope)
      : Type 0 where
    pub kind : task.kind ≡ "TaskSAE"
    pub origin : task.origin ≡ n.did
    pub publisher : task.publisher ≡ L.peer_string n.peer_id
    pub task_id : task.task_id ≡ asked_id di f n
    pub op : task.op ≡ (if f.op == "" then "UPSERT" else f.op)
    pub taxonomy : task.taxonomy ≡ f.taxonomy
    pub summary : task.summary ≡ f.summary
    pub topics : task.topics ≡ normalize_topics f.topics f.taxonomy n.policy.topic_limit
    pub conf : task.conf ≡ f.conf
    pub seq : task.seq ≡ next_task_seq n.did (asked_id di f n) n.store
    pub detail_ref :
        task.detail_ref
        ≡ build_detail_ref
            (L.peer_string n.peer_id)
            "task"
            (asked_id di f n)
            (next_task_seq n.did (asked_id di f n) n.store)
    pub expires_at : task.expires_at ≡ Clock.add di.now f.life

  abbrev pub fields_of : PublishTaskInput → TaskFields
  fields_of input = record {
    task_id = input.task_id;
    op = input.op;
    taxonomy = input.taxonomy;
    topics = input.topics;
    summary = input.summary;
    conf = input.conf;
    life = life_of input.ttl;
  }

  if_same : {A : Type 0} (b : Bool) (x : A) → (if b then x else x) ≡ x
  if_same true x = refl
  if_same false x = refl

  -- An ID that is filled in is not filled in again.
  id_filled :
      (b : Bool) (x fresh : String)
      → (x == "") ≡ b
      → (if (if b then fresh else x) == "" then fresh else if b then fresh else x)
        ≡ (if b then fresh else x)
  id_filled true x fresh h = if_same (fresh == "") fresh
  id_filled false x fresh h = rw h refl

  task_to_sign-IsTaskFor :
      (di : DraftInputs) (input : PublishTaskInput) (n : Node L) (sig : String)
      → IsTaskFor di (fields_of input) n (record (task_to_sign L di input n) { sig = sig })
  unfolding new_task_sae
  task_to_sign-IsTaskFor di input n sig = record {
    kind = refl;
    origin = refl;
    publisher = refl;
    task_id =
        id_filled (input.task_id == "") input.task_id
          (fresh_task_id L n.did input.taxonomy input.summary di.id_now) refl;
    op = refl;
    taxonomy = refl;
    summary = refl;
    topics = refl;
    conf = refl;
    seq = refl;
    detail_ref = refl;
    expires_at = refl;
  }

  pub signed-IsTaskFor :
      (di : DraftInputs) (input : PublishTaskInput) (n : Node L) (task : SaeEnvelope)
      → sign L n.priv_key (task_to_sign L di input n) ≡ (nil, task)
      → IsTaskFor di (fields_of input) n task
  signed-IsTaskFor di input n task signed =
      let ((s, same), valid) = sign_sound L n.priv_key (task_to_sign L di input n) task signed in
      subst (IsTaskFor di (fields_of input) n) (sym same)
        (task_to_sign-IsTaskFor di input n (L.base64_encode s))
