-- ===== src/Store/Run/Filed.antt =====
-- The invariant of the maps in memory: each entry stands under its own key and agrees with the
-- envelope that it came from. It holds whether or not writes succeed.
use openclaw_p2p.Store.Run.Hold.{Step-FactsHold, FactsHold, Step-TasksHold, TasksHold}
use openclaw_p2p.Store.Facts.{fact_of, fact_key}
use openclaw_p2p.Store.Tasks.{task_of, task_key}
use openclaw_p2p.Sae.Envelope.{kind_task, kind_agent_fact, SaeEnvelope}
use openclaw_p2p.Clock.{Time}
use openclaw_p2p.Store.State.{active, withdrawn, complete, expired, FactState, TaskState, Store}
use openclaw_p2p.Prelude.{◌==◌, if◌then◌else◌, inl, refl, inr, String, ◌≡◌, ◌⊎◌}
use openclaw_p2p.Store.Run.{Step, Run, start, then_step, AnyOutcome}

-- A task under a key: its fields are those of its envelope, and its status is COMPLETE, WITHDRAW or
-- ACTIVE after the envelope's operation, unless a collection has made it EXPIRED.
pub record IsFiledTask (k : String) (t : TaskState) : Type 0 where
  pub key : t.key ≡ k
  pub key_of : task_key t.origin t.task_id ≡ k
  pub kind : t.envelope.kind ≡ kind_task
  pub origin : t.origin ≡ t.envelope.origin
  pub task_id : t.task_id ≡ t.envelope.task_id
  pub last_seq : t.last_seq ≡ t.envelope.seq
  pub expires_at : t.expires_at ≡ t.envelope.expires_at
  pub status :
      (t.status ≡ (
        if t.envelope.op == "COMPLETE"
        then complete
        else if t.envelope.op == "WITHDRAW"
        then withdrawn
        else active))
      ⊎ (t.status ≡ expired)

pub record IsFiledFact (k : String) (f : FactState) : Type 0 where
  pub key : f.key ≡ k
  pub key_of : fact_key f.origin f.fact_id ≡ k
  pub kind : f.envelope.kind ≡ kind_agent_fact
  pub origin : f.origin ≡ f.envelope.origin
  pub fact_id : f.fact_id ≡ f.envelope.fact_id
  pub last_seq : f.last_seq ≡ f.envelope.seq
  pub expires_at : f.expires_at ≡ f.envelope.expires_at

pub record IsFiled (s : Store) : Type 0 where
  pub tasks : TasksHold IsFiledTask s
  pub facts : FactsHold IsFiledFact s

task_of-IsFiledTask :
    (now : Time) (env : SaeEnvelope)
    → env.kind ≡ kind_task
    → IsFiledTask (task_key env.origin env.task_id) (task_of now env)
task_of-IsFiledTask now env kind = record {
  key = refl;
  key_of = refl;
  kind = kind;
  origin = refl;
  task_id = refl;
  last_seq = refl;
  expires_at = refl;
  status = inl refl;
}

expired-IsFiledTask :
    (k : String) (t : TaskState) → IsFiledTask k t → IsFiledTask k (record t { status = expired })
expired-IsFiledTask k t f = record {
  key = f.key;
  key_of = f.key_of;
  kind = f.kind;
  origin = f.origin;
  task_id = f.task_id;
  last_seq = f.last_seq;
  expires_at = f.expires_at;
  status = inr refl;
}

fact_of-IsFiledFact :
    (now : Time) (env : SaeEnvelope)
    → env.kind ≡ kind_agent_fact
    → IsFiledFact (fact_key env.origin env.fact_id) (fact_of now env)
fact_of-IsFiledFact now env kind = record {
  key = refl;
  key_of = refl;
  kind = kind;
  origin = refl;
  fact_id = refl;
  last_seq = refl;
  expires_at = refl;
}

Step-IsFiled : {s t : Store} → Step AnyOutcome s t → IsFiled s → IsFiled t
Step-IsFiled st f = record {
  tasks = Step-TasksHold IsFiledTask task_of-IsFiledTask expired-IsFiledTask st f.tasks;
  facts = Step-FactsHold IsFiledFact fact_of-IsFiledFact st f.facts;
}

-- After any interleaving of the store's methods, with writes that succeed or fail, every task and
-- every fact in memory stands under the key of its origin and ID, and agrees with its envelope in
-- kind, origin, ID, sequence number and expiry; a task's status is that of its envelope's operation
-- or EXPIRED. (All of this held at the start.)
pub Run-IsFiled : (s t : Store) → Run AnyOutcome s t → IsFiled s → IsFiled t
Run-IsFiled s t start f = f
Run-IsFiled s t (then_step {t = u} r st) f = Step-IsFiled st (Run-IsFiled s u r f)
