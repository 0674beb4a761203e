-- ===== src/Store/Run/Monotone.antt =====
-- Sequence numbers of tasks through every method of the store.
use openclaw_p2p.Store.Run.Hold.{tasks-allow_peer, tasks-apply_fact}
use openclaw_p2p.GoMap.{get, IsRange}
use openclaw_p2p.Store.Gc.Effect.{get-gc_tasks, and_then_keeps, aged}
use openclaw_p2p.Store.Gc.{gc_tasks, and_then, GcInputs, gc_payloads, gc_facts, gc_expired}
use openclaw_p2p.Clock.{Time}
use openclaw_p2p.Store.State.{TaskState, Store}
use openclaw_p2p.Store.Records.{append_event, record_negotiation, record_peer, upsert_payload}
use openclaw_p2p.Prelude.{refl, none, some, arith, String, Option, ◌≡◌, ◌≤◌}
use openclaw_p2p.Store.Run.{Step, Run, start, then_step, AnyOutcome}
use openclaw_p2p.Store.Tasks.History.{deliver, seq_at-deliver, seq_of, seq_at}

seq_of-aged : (now : Time) (o : Option TaskState) → seq_of (aged now o) ≡ seq_of o
seq_of-aged now none = refl
seq_of-aged now (some t) = ground arith

gc_expired-seq_at :
    (i : GcInputs) (now : Time) (s : Store) (k : String)
    → IsRange i.tasks_order s.tasks
    → seq_at k s ≤ seq_at k (gc_expired i now s).1
unfolding gc_expired gc_facts gc_payloads
gc_expired-seq_at i now s k r =
    and_then_keeps (λ t. seq_at k s ≤ seq_at k t) (and_then (gc_tasks i now s) (gc_facts i now))
      (gc_payloads i now)
      (and_then_keeps (λ t. seq_at k s ≤ seq_at k t) (gc_tasks i now s) (gc_facts i now)
        (rw (get-gc_tasks i now s k r) (omega (arith, seq_of-aged now (get k s.tasks)))) (λ t p. p))
      (λ t p. p)

Step-seq_at : {s t : Store} (k : String) → Step AnyOutcome s t → seq_at k s ≤ seq_at k t
unfolding upsert_payload record_peer record_negotiation append_event deliver
Step-seq_at k (Step.applies_task out now env s w) =
    seq_at-deliver s (record { out = out; now = now; env = env }) k
Step-seq_at k (Step.applies_fact out now env s w) =
    rw (tasks-apply_fact out now env s) (omega arith)
Step-seq_at k (Step.upserts_payload out payload s w) = omega arith
Step-seq_at k (Step.records_peer out now id addrs s w) = omega arith
Step-seq_at k (Step.allows_peer now peer_id limit s) =
    rw (tasks-allow_peer now peer_id limit s) (omega arith)
Step-seq_at k (Step.records_negotiation out now frame s w) = omega arith
Step-seq_at k (Step.appends_event none now entry s) = omega arith
Step-seq_at k (Step.appends_event (some e) now entry s) = omega arith
Step-seq_at k (Step.collects i now s r wt wf wp) = gc_expired-seq_at i now s k r.tasks

-- No interleaving of the store's methods, collections included, lowers the sequence number that the
-- store holds for a task (0 for a task that it does not hold), so that none is ever forgotten.
pub seq_at-Run : (s t : Store) (k : String) → Run AnyOutcome s t → seq_at k s ≤ seq_at k t
seq_at-Run s t k start = omega arith
seq_at-Run s t k (then_step {t = u} r st) =
    omega (arith, seq_at-Run s u k r, Step-seq_at {s = u} {t = t} k st)
