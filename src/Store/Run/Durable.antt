-- ===== src/Store/Run/Durable.antt =====
-- Every method keeps the files in step with the maps, as long as its writes succeed.
use openclaw_p2p.Sae.Libs.{Bytes}
use openclaw_p2p.Store.Rates.{allow_peer}
use openclaw_p2p.Store.Records.{append_event, record_negotiation, record_peer, upsert_payload}
use openclaw_p2p.Store.Gc.Effect.{and_then_keeps, AllWritten}
use openclaw_p2p.Error.{ok}
use openclaw_p2p.Store.Facts.{apply_fact}
use openclaw_p2p.GoMap.{delete, put, GoMap}
use openclaw_p2p.Store.Open.{reread_payloads, open_store}
use openclaw_p2p.Store.State.{expired, TaskState, Store}
use openclaw_p2p.Store.Files.{JsonFile, written, write_json_atomic}
use openclaw_p2p.Clock.{Time}
use openclaw_p2p.Store.Tasks.{apply_task}
use openclaw_p2p.Prelude.{
  none, some, refl, inr, arith, true, false, Bool, ◌≡◌, [], ◌∷◌, if◌then◌else◌,
}
use openclaw_p2p.Store.Run.{Step, Run, then_step, start, Succeeds}
use openclaw_p2p.Store.Open.Recovery.{open_store-IsDurable, no_faults, IsDurable, Saves}
use openclaw_p2p.Store.Gc.{
  payload_is_over, fact_is_over, and_then, GcInputs, gc_expired, gc_payloads, gc_tasks, gc_facts,
  expire_tasks, delete_over,
}

expire_tasks_changed :
    (now : Time) (order tasks : GoMap TaskState) → (expire_tasks now order (tasks, true)).1 ≡ true
unfolding expire_tasks
expire_tasks_changed now [] tasks = refl
expire_tasks_changed now ((j, task) ∷ rest) tasks = ground (
  arith,
  expire_tasks_changed now rest (put j (record task { status = expired }) tasks),
  expire_tasks_changed now rest tasks,
)

expire_tasks_same :
    (now : Time) (order tasks : GoMap TaskState)
    → (expire_tasks now order (tasks, false)).1 ≡ false
    → (expire_tasks now order (tasks, false)).0 ≡ tasks
unfolding expire_tasks
expire_tasks_same now [] tasks h = refl
expire_tasks_same now ((j, task) ∷ rest) tasks h = ground (
  arith,
  expire_tasks_changed now rest (put j (record task { status = expired }) tasks),
  expire_tasks_same now rest tasks,
)

module _ {V : Type 0} (over : V → Bool) where
  delete_over_changed : (order m : GoMap V) → (delete_over over order (m, true)).1 ≡ true
  unfolding delete_over
  delete_over_changed [] m = refl
  delete_over_changed ((j, v) ∷ rest) m =
      ground (arith, delete_over_changed rest (delete j m), delete_over_changed rest m)

  delete_over_same :
      (order m : GoMap V)
      → (delete_over over order (m, false)).1 ≡ false
      → (delete_over over order (m, false)).0 ≡ m
  unfolding delete_over
  delete_over_same [] m h = refl
  delete_over_same ((j, v) ∷ rest) m h =
      ground (arith, delete_over_changed rest (delete j m), delete_over_same rest m)

save_if :
    {V : Type 0} (changed : Bool) (m m' : GoMap V) (file : JsonFile (GoMap V))
    → Saves file m
    → (changed ≡ false → m' ≡ m)
    → Saves (if changed then (write_json_atomic written m' file).1 else file) m'
unfolding write_json_atomic
save_if true m m' file h same = inr refl
save_if false m m' file h same = rw (same refl) h

gc_tasks-IsDurable :
    (i : GcInputs) (now : Time) (s : Store)
    → i.tasks_out ≡ written
    → IsDurable s
    → IsDurable (gc_tasks i now s).1
unfolding gc_tasks
gc_tasks-IsDurable i now s w d = record {
  tasks =
      rw w (save_if _ s.tasks _ s.tasks_json d.tasks (expire_tasks_same now i.tasks_order s.tasks));
  facts = d.facts;
  payloads = d.payloads;
  peers = d.peers;
  negotiations = d.negotiations;
}

gc_facts-IsDurable :
    (i : GcInputs) (now : Time) (s : Store)
    → i.facts_out ≡ written
    → IsDurable s
    → IsDurable (gc_facts i now s).1
unfolding gc_facts
gc_facts-IsDurable i now s w d = record {
  tasks = d.tasks;
  facts = rw w (
      save_if _ s.facts _ s.facts_json d.facts
        (delete_over_same (fact_is_over now) i.facts_order s.facts));
  payloads = d.payloads;
  peers = d.peers;
  negotiations = d.negotiations;
}

gc_payloads-IsDurable :
    (i : GcInputs) (now : Time) (s : Store)
    → i.payloads_out ≡ written
    → IsDurable s
    → IsDurable (gc_payloads i now s).1
unfolding gc_payloads
gc_payloads-IsDurable i now s w d = record {
  tasks = d.tasks;
  facts = d.facts;
  payloads = rw w (
      save_if _ s.payloads _ s.payloads_json d.payloads
        (delete_over_same (payload_is_over now) i.payloads_order s.payloads));
  peers = d.peers;
  negotiations = d.negotiations;
}

gc_expired-IsDurable :
    (i : GcInputs) (now : Time) (s : Store)
    → AllWritten i
    → IsDurable s
    → IsDurable (gc_expired i now s).1
unfolding gc_expired
gc_expired-IsDurable i now s w d =
    and_then_keeps IsDurable (and_then (gc_tasks i now s) (gc_facts i now)) (gc_payloads i now)
      (and_then_keeps IsDurable (gc_tasks i now s) (gc_facts i now)
        (gc_tasks-IsDurable i now s w.tasks d) (λ t. gc_facts-IsDurable i now t w.facts))
      (λ t. gc_payloads-IsDurable i now t w.payloads)

-- Each method keeps the files equal to the maps when its writes succeed.
Step-IsDurable : {s t : Store} → Step Succeeds s t → IsDurable s → IsDurable t
unfolding apply_task apply_fact upsert_payload record_peer allow_peer record_negotiation
    append_event write_json_atomic
Step-IsDurable (Step.applies_task out now env s w) d = ground arith
Step-IsDurable (Step.applies_fact out now env s w) d = ground arith
Step-IsDurable (Step.upserts_payload out payload s w) d = ground arith
Step-IsDurable (Step.records_peer out now id addrs s w) d = ground arith
Step-IsDurable (Step.allows_peer now peer_id limit s) d = ground arith
Step-IsDurable (Step.records_negotiation out now frame s w) d = ground arith
Step-IsDurable (Step.appends_event none now entry s) d = ground arith
Step-IsDurable (Step.appends_event (some e) now entry s) d = d
Step-IsDurable (Step.collects i now s r wt wf wp) d =
    gc_expired-IsDurable i now s (record { tasks = wt; facts = wf; payloads = wp }) d

Run-IsDurable : {s t : Store} → Run Succeeds s t → IsDurable s → IsDurable t
Run-IsDurable start d = d
Run-IsDurable (then_step r st) d = Step-IsDurable st (Run-IsDurable r d)

-- A process that is restarted, after any interleaving of the store's methods whose writes all
-- succeeded, from a store whose files had its maps, opens its store to the same tasks, facts, peers,
-- sessions and event log, and to the same payloads but for their raw details, each of which comes
-- back as json.MarshalIndent laid it out in the file; the rate windows are lost.
pub open_store-Run :
    (indented : Bytes → Bytes) (s t : Store)
    → IsDurable s
    → Run Succeeds s t
    → open_store (no_faults indented) t
      ≡ ok (record t { payloads = reread_payloads indented t.payloads; rates = [] })
open_store-Run indented s t d r = open_store-IsDurable indented t (Run-IsDurable r d)
