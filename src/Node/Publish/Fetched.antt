-- ===== src/Node/Publish/Fetched.antt =====
-- How a publication and the handler of fetch requests meet.
use openclaw_p2p.Node.Publish.Delivered.{publish_task_lem}
use openclaw_p2p.Error.{ok}
use openclaw_p2p.Sae.Envelope.{SaeEnvelope}
use openclaw_p2p.Node.State.{Node}
use openclaw_p2p.Node.Publish.Draft.{payload_digest, marshal_detail, PublishTaskInput, DraftInputs}
use openclaw_p2p.Gossip.{PubSub}
use openclaw_p2p.Node.Publish.{publish_task, PublishInputs}
use openclaw_p2p.Sae.Libs.{Bytes, Libs}
use openclaw_p2p.Node.Session.{serve_fetch}
use openclaw_p2p.Prelude.{refl, true, ◌≡◌}

-- A peer that fetches the reference of a task that `PublishTask` returned is sent the detail that
-- was published, with its digest.
pub serve_fetch-publish_task :
    (L : Libs) (i : PublishInputs) (ps : PubSub) (di : DraftInputs) (input : PublishTaskInput)
    (n : Node L) (task : SaeEnvelope)
    → (publish_task L i ps di input n).0 ≡ ok task
    → (content : Bytes) × (marshal_detail input.detail ≡ ok content)
      × ((serve_fetch
            (ok (record { detail_ref = task.detail_ref }))
            (publish_task L i ps di input n).1.store).found
          ≡ true)
      × ((serve_fetch
            (ok (record { detail_ref = task.detail_ref }))
            (publish_task L i ps di input n).1.store).payload
          ≡ content)
      × ((serve_fetch
            (ok (record { detail_ref = task.detail_ref }))
            (publish_task L i ps di input n).1.store).sha256
          ≡ payload_digest L content)
unfolding serve_fetch
serve_fetch-publish_task L i ps di input n task h =
    let a = publish_task_lem L i ps di input n task h in
    (
      a.content,
      a.content_of,
      rw a.served refl,
      rw a.served a.served_content,
      rw a.served a.served_digest,
    )
