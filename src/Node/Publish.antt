-- ===== src/Node/Publish.antt =====
-- internal/p2p/node.go: `PublishTask` and `PublishFact`, from the draft of Node/Publish/Draft on.
pub mod Draft
pub mod Asked
pub mod Effect
pub mod Delivered
pub mod Fetched
pub mod Heard
pub mod Tests
use openclaw_p2p.Store.Records.{upsert_payload, append_event}
use openclaw_p2p.Node.Inbound.{envelope_event}
use openclaw_p2p.Store.Tasks.{apply_task}
use openclaw_p2p.Text.Print.{decimal}
use openclaw_p2p.Node.State.{on_gossip, on_store, enforce_envelope_policy, self, Node}
use openclaw_p2p.Store.Facts.{apply_fact}
use openclaw_p2p.Node.Publish.Draft.{
  draft_fact, draft_task, PublishFactInput, PublishTaskInput, DraftInputs, SignedDraft,
}
use openclaw_p2p.Store.Files.{WriteOutcome}
use openclaw_p2p.Error.{nil, ok, err, Error, Result, Check}
use openclaw_p2p.Gossip.{publish_sae, subscribe_topics, PubSub}
use openclaw_p2p.Sae.Envelope.{SaeEnvelope}
use openclaw_p2p.Sae.Libs.{Libs}
use openclaw_p2p.Clock.{Time}
use openclaw_p2p.Store.State.{text, Store, StoredPayload, EventLogEntry}
use openclaw_p2p.Prelude.{false, Option, String}
use openclaw_p2p.Exec.{Exec, lift, ◌>>=◌, ◌>>◌}

-- What the clocks, the disk and the event log answer after the draft is signed.
pub record PublishInputs : Type 0 where
  pub policy_now : Time
  pub payload_out : WriteOutcome
  pub payload_now : Time
  pub apply_out : WriteOutcome
  pub apply_now : Time
  pub event_now : Time
  pub event_fault : Option Error

-- The payload of a draft.
abbrev pub payload_of : String → String → Time → SignedDraft → StoredPayload
payload_of owner kind now d = record {
  ref = d.envelope.detail_ref;
  owner_peer_id = owner;
  kind = kind;
  object_id = d.object_id;
  version = decimal d.envelope.seq;
  content_type = "application/json";
  content = d.content;
  sha256 = d.digest;
  updated_at = now;
  expires_at = d.envelope.expires_at;
}

-- ApplyTask and then AppendEvent, which an error of the first leaves out
abbrev pub log_applied : PublishInputs → EventLogEntry → Check → Exec Store (Unit {0})
log_applied i entry (err e) s = (err e, s)
log_applied i entry (ok _) s = (nil, (append_event i.event_fault i.event_now entry s).1)

abbrev pub apply_task_locally : PublishInputs → String → SaeEnvelope → Exec Store (Unit {0})
apply_task_locally i owner env s =
    let (r, s') = apply_task i.apply_out i.apply_now env s in
    log_applied i (envelope_event "task_publish_local" r.applied (text r.reason) owner env) r.error
      s'

abbrev pub apply_fact_locally : PublishInputs → String → SaeEnvelope → Exec Store (Unit {0})
apply_fact_locally i owner env s =
    let (r, s') = apply_fact i.apply_out i.apply_now env s in
    log_applied i (envelope_event "fact_publish_local" r.applied (text r.reason) owner env) r.error
      s'

module _ (L : Libs) (i : PublishInputs) (ps : PubSub) where
  -- the end of both methods, once the draft is signed
  unfoldable pub announce : String → Exec Store (Unit {0}) → SignedDraft → Exec (Node L) SaeEnvelope
  announce kind apply d n =
      (do
        enforce_envelope_policy L i.policy_now d.envelope false
        on_store L (upsert_payload i.payload_out (payload_of (self L n) kind i.payload_now d))
        on_store L apply
        on_gossip L (subscribe_topics ps d.topics)
        on_gossip L (publish_sae ps L d.envelope)
        lift (ok d.envelope))
        n

  abbrev pub announce_task : Result SignedDraft → Exec (Node L) SaeEnvelope
  announce_task (err e) n = (err e, n)
  announce_task (ok d) n = announce "task" (apply_task_locally i (self L n) d.envelope) d n

  unfoldable pub publish_task : DraftInputs → PublishTaskInput → Exec (Node L) SaeEnvelope
  publish_task di input n = announce_task (draft_task L di input n) n

  abbrev pub announce_fact : Result SignedDraft → Exec (Node L) SaeEnvelope
  announce_fact (err e) n = (err e, n)
  announce_fact (ok d) n = announce "fact" (apply_fact_locally i (self L n) d.envelope) d n

  unfoldable pub publish_fact : DraftInputs → PublishFactInput → Exec (Node L) SaeEnvelope
  publish_fact di input n = announce_fact (draft_fact L di input n) n
