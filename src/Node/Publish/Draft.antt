-- ===== src/Node/Publish/Draft.antt =====
-- internal/p2p/node.go: the first part of `PublishTask` and `PublishFact`, up to the signature,
-- which changes no state; `marshalDetail`; `payloadDigest` of store.go.
use openclaw_p2p.Detail.Ref.{build_detail_ref}
use openclaw_p2p.Sae.Sign.{sign}
use openclaw_p2p.Sae.Build.{new_task_sae, new_agent_fact_sae, fresh_fact_id, fresh_task_id}
use openclaw_p2p.Store.Facts.{next_fact_seq}
use openclaw_p2p.Text.Print.{bytes_of}
use openclaw_p2p.Store.Tasks.{next_task_seq}
use openclaw_p2p.Topics.{normalize_topics}
use openclaw_p2p.Node.State.{self, Node}
use openclaw_p2p.Sae.Envelope.{op_upsert, SaeEnvelope}
use openclaw_p2p.Prelude.{none, some, ℤ, ◌==◌, List, if◌then◌else◌, String, Option}
use openclaw_p2p.Clock.{Time}
use openclaw_p2p.Sae.Libs.{Bytes, Libs}
use openclaw_p2p.Error.{missing, fail_if, ok, Check, Result, ◌>>=◌, ◌>>◌}

-- A detail is none for nil, or what json.Marshal answers for it.
abbrev pub Detail : Type 0
Detail = Option (Result Bytes)

pub record PublishTaskInput : Type 0 where
  pub task_id : String
  pub op : String
  pub taxonomy : String
  pub topics : List String
  pub summary : String
  pub detail : Detail
  pub ttl : ℤ
  pub conf : ℤ

pub record PublishFactInput : Type 0 where
  pub fact_id : String
  pub fact_kind : String
  pub taxonomy : String
  pub topics : List String
  pub summary : String
  pub detail : Detail
  pub ttl : ℤ
  pub conf : ℤ

-- The readings of the clock: for a fresh ID, and for the expiry.
pub record DraftInputs : Type 0 where
  pub id_now : Time
  pub now : Time

-- A signed announcement, with its payload.
pub record SignedDraft : Type 0 where
  pub envelope : SaeEnvelope
  pub topics : List String
  pub object_id : String
  pub content : Bytes
  pub digest : String

-- json.RawMessage(`{}`) for nil
unfoldable pub marshal_detail : Detail → Result Bytes
marshal_detail none = ok (bytes_of "{}")
marshal_detail (some answer) = answer

abbrev pub or_upsert : String → String
or_upsert op = if op == "" then op_upsert else op

module _ (L : Libs) where
  unfoldable pub payload_digest : Bytes → String
  payload_digest content = L.hex_encode (L.sha256 content)

  -- Sign, whose error ends the method
  abbrev pub signed_draft : Check × SaeEnvelope → List String → String → Bytes → Result SignedDraft
  signed_draft (check, env) topics object_id content = do
    check
    ok (record {
      envelope = env;
      topics = topics;
      object_id = object_id;
      content = content;
      digest = payload_digest content;
    })

  abbrev pub task_id_or_fresh : DraftInputs → PublishTaskInput → Node L → String
  task_id_or_fresh i input n =
      if input.task_id == ""
      then fresh_task_id L n.did input.taxonomy input.summary i.id_now
      else input.task_id

  abbrev pub fact_id_or_fresh : DraftInputs → PublishFactInput → Node L → String
  fact_id_or_fresh i input n =
      if input.fact_id == ""
      then fresh_fact_id L n.did input.fact_kind input.taxonomy input.summary i.id_now
      else input.fact_id

  -- the unsigned task
  abbrev pub task_to_sign : DraftInputs → PublishTaskInput → Node L → SaeEnvelope
  task_to_sign i input n =
      let topics = normalize_topics input.topics input.taxonomy n.policy.topic_limit in
      let task_id = task_id_or_fresh i input n in
      let seq = next_task_seq n.did task_id n.store in
      let detail_ref = build_detail_ref (self L n) "task" task_id seq in
      new_task_sae L i.id_now i.now n.did (self L n) task_id input.taxonomy input.summary detail_ref
        topics input.conf (or_upsert input.op) seq input.ttl

  unfoldable pub draft_task : DraftInputs → PublishTaskInput → Node L → Result SignedDraft
  draft_task i input n = do
    fail_if (input.taxonomy == "") (missing "taxonomy")
    fail_if (input.summary == "") (missing "summary")
    content ← marshal_detail input.detail
    let task = task_to_sign i input n
    signed_draft (sign L n.priv_key task) task.topics (task_id_or_fresh i input n) content

  -- the unsigned fact
  abbrev pub fact_to_sign : DraftInputs → PublishFactInput → Node L → SaeEnvelope
  fact_to_sign i input n =
      let topics = normalize_topics input.topics input.taxonomy n.policy.topic_limit in
      let fact_id = fact_id_or_fresh i input n in
      let seq = next_fact_seq n.did fact_id n.store in
      let detail_ref = build_detail_ref (self L n) "fact" fact_id seq in
      new_agent_fact_sae L i.id_now i.now n.did (self L n) fact_id input.fact_kind input.taxonomy
        input.summary detail_ref topics input.conf seq input.ttl

  unfoldable pub draft_fact : DraftInputs → PublishFactInput → Node L → Result SignedDraft
  draft_fact i input n = do
    fail_if (input.taxonomy == "") (missing "taxonomy")
    fail_if (input.summary == "") (missing "summary")
    fail_if (input.fact_kind == "") (missing "fact_kind")
    content ← marshal_detail input.detail
    let fact = fact_to_sign i input n
    signed_draft (sign L n.priv_key fact) fact.topics (fact_id_or_fresh i input n) content
