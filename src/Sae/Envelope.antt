-- ===== src/Sae/Envelope.antt =====
-- internal/sae/envelope.go: the data of an SAE envelope, and its canonical form.
use openclaw_p2p.Prelude.{ℕ, ℤ, String, List, [], ◌∷◌, ◌==◌, if◌then◌else◌}
use openclaw_p2p.Clock.{Time}
use openclaw_p2p.Text.{trim_space}

-- MaxEnvelopeSize
abbrev pub max_envelope_size : ℕ
max_envelope_size = 1024

-- `Kind` and `TaskOp` are strings in Go, so that a decoded envelope may hold any text.
abbrev pub kind_task : String
kind_task = "TaskSAE"

abbrev pub kind_agent_fact : String
kind_agent_fact = "AgentFactSAE"

abbrev pub op_upsert : String
op_upsert = "UPSERT"

abbrev pub op_complete : String
op_complete = "COMPLETE"

abbrev pub op_withdraw : String
op_withdraw = "WITHDRAW"

-- `SAEEnvelope`; `conf` is a Go int, `seq` a uint64.
pub record SaeEnvelope : Type 0 where
  pub kind : String
  pub origin : String
  pub publisher : String
  pub seq : ℕ
  pub topics : List String
  pub summary : String
  pub detail_ref : String
  pub expires_at : Time
  pub sig : String
  pub task_id : String
  pub op : String
  pub taxonomy : String
  pub conf : ℤ
  pub fact_id : String
  pub fact_kind : String

-- `canonicalEnvelope`: what a signature covers
pub record CanonicalEnvelope : Type 0 where
  pub kind : String
  pub origin : String
  pub publisher : String
  pub seq : ℕ
  pub topics : List String
  pub summary : String
  pub detail_ref : String
  pub expires_at : Time
  pub task_id : String
  pub op : String
  pub taxonomy : String
  pub conf : ℤ
  pub fact_id : String
  pub fact_kind : String

-- the loop of `canonical`: topics trimmed, blank ones dropped
unfoldable pub canonical_topics : List String → List String
canonical_topics [] = []
canonical_topics (topic ∷ rest) =
    let t = trim_space topic in
    let others = canonical_topics rest in if t == "" then others else t ∷ others

unfoldable pub canonical : SaeEnvelope → CanonicalEnvelope
canonical e = record {
  kind = e.kind;
  origin = e.origin;
  publisher = e.publisher;
  seq = e.seq;
  topics = canonical_topics e.topics;
  summary = e.summary;
  detail_ref = e.detail_ref;
  expires_at = e.expires_at;
  task_id = e.task_id;
  op = e.op;
  taxonomy = e.taxonomy;
  conf = e.conf;
  fact_id = e.fact_id;
  fact_kind = e.fact_kind;
}
