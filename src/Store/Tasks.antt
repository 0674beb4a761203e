-- ===== src/Store/Tasks.antt =====
-- internal/p2p/store.go: `taskKey`, `NextTaskSeq`, `ApplyTask`. The clock's reading and the outcome
-- of the write are arguments.
pub mod Merge
pub mod Keys
pub mod History
use Prim.Native.String.{◌++◌ as append}
use openclaw_p2p.Prelude.{
  ℕ, ◌+◌, ◌%◌, ◌^◌, String, Bool, true, false, not, Option, none, some, ◌==◌, leb, if◌then◌else◌,
}
use openclaw_p2p.Error.{not_task, err, Check, nil}
use openclaw_p2p.Clock.{Time, after}
use openclaw_p2p.GoMap.{get, put}
use openclaw_p2p.Sae.Envelope.{SaeEnvelope, kind_task, op_complete, op_withdraw}
use openclaw_p2p.Store.Files.{WriteOutcome, write_json_atomic}
use openclaw_p2p.Store.State.{
  TaskStatus, active, complete, withdrawn, expired, TaskState, zero_task, Store,
}

unfoldable pub task_key : String → String → String
task_key origin task_id = append origin (append "::" task_id)

-- state.LastSeq + 1 on a uint64
abbrev pub next_seq : ℕ → ℕ
next_seq last_seq = (last_seq + 1) % 2 ^ 64

abbrev pub seq_after_task : Option TaskState → ℕ
seq_after_task none = 1
seq_after_task (some state) = next_seq state.last_seq

unfoldable pub next_task_seq : String → String → Store → ℕ
next_task_seq origin task_id s = seq_after_task (get (task_key origin task_id) s.tasks)

-- What `ApplyTask` returns.
pub record TaskResult : Type 0 where
  pub state : TaskState
  pub applied : Bool
  pub reason : String
  pub error : Check

abbrev pub is_terminal : TaskStatus → Bool
is_terminal complete = true
is_terminal withdrawn = true
is_terminal active = false
is_terminal expired = false

-- the switch on env.Op
abbrev pub status_of : String → TaskStatus
status_of op =
    if op == op_complete then complete else if op == op_withdraw then withdrawn else active

abbrev pub task_of : Time → SaeEnvelope → TaskState
task_of now env = record {
  key = task_key env.origin env.task_id;
  origin = env.origin;
  task_id = env.task_id;
  last_seq = env.seq;
  status = status_of env.op;
  envelope = env;
  updated_at = now;
  expires_at = env.expires_at;
}

-- the end of `ApplyTask`: the new state is in memory before it is written
store_task : WriteOutcome → Time → SaeEnvelope → Store → TaskResult × Store
store_task out now env s =
    let next = task_of now env in
    let tasks = put next.key next s.tasks in
    let (error, file) = write_json_atomic out tasks s.tasks_json in
    (
      record { state = next; applied = true; reason = "applied"; error = error },
      record s { tasks = tasks; tasks_json = file },
    )

abbrev refuse_task : TaskState → String → Check → Store → TaskResult × Store
refuse_task state reason error s =
    (record { state = state; applied = false; reason = reason; error = error }, s)

-- the tests on `current, exists := s.tasks[key]`
admit_task : WriteOutcome → Time → SaeEnvelope → Store → Option TaskState → TaskResult × Store
unfolding store_task
admit_task out now env s none = store_task out now env s
admit_task out now env s (some current) =
    if is_terminal current.status
    then refuse_task current "terminal" nil s
    else if leb env.seq current.last_seq
    then refuse_task current "replay_or_old" nil s
    else store_task out now env s

unfoldable pub apply_task : WriteOutcome → Time → SaeEnvelope → Store → TaskResult × Store
unfolding admit_task
apply_task out now env s =
    if not (env.kind == kind_task)
    then refuse_task zero_task "" (err not_task) s
    else if after now env.expires_at
    then refuse_task zero_task "expired" nil s
    else admit_task out now env s (get (task_key env.origin env.task_id) s.tasks)
