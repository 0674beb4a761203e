-- ===== src/Store/Tasks/History.antt =====
-- Sequences of announcements to one store: what a task keeps through them.
use openclaw_p2p.GoMap.{get}
use openclaw_p2p.Sae.Envelope.{kind_task, SaeEnvelope}
use openclaw_p2p.Clock.{Time}
use openclaw_p2p.Prelude.{eq_refl, eq_iff, ◌^◌, ◌+◌, inr, inl, Bool-cases, refl, ◌<◌, [], ◌==◌}
use openclaw_p2p.Store.State.{TaskState, Store}
use openclaw_p2p.Store.Files.{WriteOutcome}
use openclaw_p2p.Prelude.{
  ◌==◌, false, true, ◌≡◌, none, some, arith, ◌∷◌, ◌≤◌, List, ℕ, String, Option,
}
use openclaw_p2p.Store.Tasks.{
  seq_after_task, task_of, next_task_seq, is_terminal, task_key, apply_task,
}
use openclaw_p2p.Store.Tasks.Merge.{
  apply_task_refused, apply_task-applied_iff, merge_task, get-apply_task,
}

-- One call of `ApplyTask`, with what the clock and the disk answer.
pub record Delivery : Type 0 where
  pub out : WriteOutcome
  pub now : Time
  pub env : SaeEnvelope

unfoldable pub deliver : Store → Delivery → Store
deliver s d = (apply_task d.out d.now d.env s).1

unfoldable pub deliver_all : Store → List Delivery → Store
unfolding deliver
deliver_all s [] = s
deliver_all s (d ∷ ds) = deliver_all (deliver s d) ds

-- The sequence number that a store holds for a key, 0 for an unknown one.
abbrev pub seq_of : Option TaskState → ℕ
seq_of none = 0
seq_of (some t) = t.last_seq

abbrev pub seq_at : String → Store → ℕ
seq_at k s = seq_of (get k s.tasks)

seq_of-merge_task :
    (now : Time) (env : SaeEnvelope) (o : Option TaskState)
    → seq_of o ≤ seq_of (merge_task now env o)
seq_of-merge_task now env none = omega arith
seq_of-merge_task now env (some t) = ground arith

pub seq_at-deliver : (s : Store) (d : Delivery) (k : String) → seq_at k s ≤ seq_at k (deliver s d)
unfolding deliver
seq_at-deliver s d k =
    rw (get-apply_task d.out d.now d.env s k)
      (ground (arith, seq_of-merge_task d.now d.env (get k s.tasks)))

-- No sequence of announcements lowers the sequence number of a task.
pub seq_at_mono :
    (s : Store) (ds : List Delivery) (k : String) → seq_at k s ≤ seq_at k (deliver_all s ds)
unfolding deliver_all
seq_at_mono s [] k = omega arith
seq_at_mono s (d ∷ ds) k = omega (arith, seq_at-deliver s d k, seq_at_mono (deliver s d) ds k)

not_fresh :
    (env : SaeEnvelope) (o : Option TaskState)
    → 0 < env.seq
    → env.seq ≤ seq_of o
    → ¬ ((t : TaskState) → o ≡ some t → (is_terminal t.status ≡ false) × (t.last_seq < env.seq))
not_fresh env none pos_seq h fresh = omega arith
not_fresh env (some t) pos_seq h fresh = let older = (fresh t refl).1 in omega arith

-- Once a store holds a task at some sequence number, an announcement of the task with that number
-- or a lower one is refused, and changes nothing, after any further announcements.
pub replay_refused :
    (s : Store) (ds : List Delivery) (out : WriteOutcome) (now : Time) (env : SaeEnvelope)
    → 0 < env.seq
    → env.seq ≤ seq_at (task_key env.origin env.task_id) s
    → ((apply_task out now env (deliver_all s ds)).0.applied ≡ false)
      × ((apply_task out now env (deliver_all s ds)).1 ≡ deliver_all s ds)
replay_refused s ds out now env pos_seq h = (refused, apply_task_refused out now env later refused)
  where
    later : Store
    later = deliver_all s ds

    key : String
    key = task_key env.origin env.task_id

    refused : (apply_task out now env later).0.applied ≡ false
    refused = elim (Bool-cases (apply_task out now env later).0.applied) [
      | inl e ↦ absurd (
          not_fresh env (get key later.tasks) pos_seq (omega (arith, seq_at_mono s ds key))
            ((apply_task-applied_iff out now env later).0 e).fresh)
      | inr e ↦ e
    ]

-- The sequence number that `NextTaskSeq` hands out is accepted: a task announcement that carries it
-- and has not expired is applied, unless the task is finished or its number is the last of uint64.
pub next_task_seq_accepted :
    (out : WriteOutcome) (now : Time) (env : SaeEnvelope) (s : Store)
    → env.kind ≡ kind_task
    → now ≤ env.expires_at
    → env.seq ≡ next_task_seq env.origin env.task_id s
    → ((t : TaskState)
        → get (task_key env.origin env.task_id) s.tasks ≡ some t
        → (is_terminal t.status ≡ false) × (t.last_seq + 1 < 2 ^ 64))
    → ((apply_task out now env s).0.applied ≡ true)
      × (get (task_key env.origin env.task_id) (apply_task out now env s).1.tasks
          ≡ some (task_of now env))
unfolding next_task_seq
next_task_seq_accepted out now env s is_task in_time seq live = (applied, stored)
  where
    key : String
    key = task_key env.origin env.task_id

    newer :
        (o : Option TaskState) (t : TaskState)
        → o ≡ some t
        → t.last_seq + 1 < 2 ^ 64
        → t.last_seq < seq_after_task o
    newer none t e h = cc
    newer (some u) t e h = ground arith

    fresh :
        (t : TaskState)
        → get key s.tasks ≡ some t
        → (is_terminal t.status ≡ false) × (t.last_seq < env.seq)
    fresh t e = ((live t e).0, rw seq (newer (get key s.tasks) t e (live t e).1))

    applied : (apply_task out now env s).0.applied ≡ true
    applied =
        (apply_task-applied_iff out now env s).1
          (record { is_task = is_task; in_time = in_time; fresh = fresh })

    merged :
        (o : Option TaskState)
        → ((t : TaskState) → o ≡ some t → (is_terminal t.status ≡ false) × (t.last_seq < env.seq))
        → merge_task now env o ≡ some (task_of now env)
    merged none h = ground arith
    merged (some t) h = let (a, b) = h t refl in ground arith

    stored : get key (apply_task out now env s).1.tasks ≡ some (task_of now env)
    stored =
        rw (get-apply_task out now env s key, (eq_iff _ _).1 is_task, eq_refl key)
          (merged (get key s.tasks) fresh)
