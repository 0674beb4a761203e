-- ===== src/Store/Gc/Revival.antt =====
-- How a collection and the absorption of finished tasks meet: before its expiry a finished task is
-- kept as it is; after it, the collection makes it EXPIRED, and a newer announcement brings it back.
use openclaw_p2p.Store.Tasks.Merge.{get-apply_task, merge_task}
use openclaw_p2p.Store.Tasks.{task_of, apply_task, task_key}
use openclaw_p2p.GoMap.{get}
use openclaw_p2p.Store.State.{active, Store, TaskState}
use openclaw_p2p.Sae.Envelope.{op_upsert, kind_task, SaeEnvelope}
use openclaw_p2p.Store.Files.{WriteOutcome}
use openclaw_p2p.Clock.{Time}
use openclaw_p2p.Prelude.{eq_refl, eq_iff, arith, String, ◌<◌, some, ◌≡◌, ◌≤◌}
use openclaw_p2p.Store.Gc.{GcInputs, gc_expired}
use openclaw_p2p.Store.Gc.Effect.{AreRanges, AllWritten, aged, gc_expired_lem}

-- A collection of a task that is past its expiry, COMPLETE or WITHDRAW or not, lets a later UPSERT
-- with a higher sequence number through: the task is ACTIVE again.
pub finished_task_revived :
    (i : GcInputs) (now later : Time) (out : WriteOutcome) (env : SaeEnvelope) (t : TaskState)
    (s : Store)
    → AreRanges i s
    → AllWritten i
    → get (task_key env.origin env.task_id) s.tasks ≡ some t
    → t.expires_at < now
    → env.kind ≡ kind_task
    → env.op ≡ op_upsert
    → t.last_seq < env.seq
    → later ≤ env.expires_at
    → get
        (task_key env.origin env.task_id)
        (apply_task out later env (gc_expired i now s).1).1.tasks
      ≡ some (record (task_of later env) { status = active })
finished_task_revived i now later out env t s r w g over is_task op newer in_time =
    rw
      (
        get-apply_task out later env (gc_expired i now s).1 key,
        (eq_iff _ _).1 is_task,
        eq_refl key,
        (gc_expired_lem i now s r w).1 key,
        g,
      )
      revived
  where
    key : String
    key = task_key env.origin env.task_id

    revived :
        merge_task later env (aged now (some t))
        ≡ some (record (task_of later env) { status = active })
    revived = rw op (ground arith)
