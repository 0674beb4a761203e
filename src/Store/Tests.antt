-- ===== src/Store/Tests.antt =====
-- Runs of internal/p2p/store.go on small stores: tasks and facts.
pub mod Upkeep
use openclaw_p2p.Store.Run.Durable.{open_store-Run}
use openclaw_p2p.Store.Gc.Revival.{finished_task_revived}
use openclaw_p2p.Clock.{Time, second}
use openclaw_p2p.Store.Rates.{allow_peer}
use openclaw_p2p.Store.Run.{allows_peer, Succeeds, applies_task, start, then_step, Run, AnyOutcome}
use openclaw_p2p.GoMap.Laws.{IsRange-refl}
use openclaw_p2p.Store.Open.Recovery.{open_store-IsDurable, no_faults, IsDurable}
use openclaw_p2p.Store.Facts.{fact_key, apply_fact}
use openclaw_p2p.Store.Rates.Window.{allow_all_limit, allow_all, IsOver, count_true}
use openclaw_p2p.Store.Run.Monotone.{seq_at-Run}
use openclaw_p2p.Store.Gc.Effect.{gc_expired_lem, kept, aged, AllWritten, AreRanges}
use openclaw_p2p.Store.Gc.{payload_is_over, fact_is_over, gc_expired, GcInputs}
use openclaw_p2p.Store.Open.{open_store}
use openclaw_p2p.Store.Run.Filed.{Run-IsFiled, IsFiled}
use openclaw_p2p.Store.Facts.Merge.{
  get-apply_fact, merge_fact, apply_fact_comm, IsNumberedStore, held_at,
}
use openclaw_p2p.Error.{ok, nil, invalid_signature}
use openclaw_p2p.Store.Tasks.Merge.{
  apply_task-applied_iff, IsAdmissible, get-apply_task, apply_task_refused, merge_task,
}
use openclaw_p2p.Sae.Tests.{build_task}
use openclaw_p2p.Store.Tasks.History.{
  next_task_seq_accepted, replay_refused, seq_at_mono, seq_at, Delivery, deliver_all,
}
use openclaw_p2p.Store.Tasks.Keys.{task_key_inj, IsSeparable}
use openclaw_p2p.Sae.Envelope.{op_complete, kind_agent_fact, SaeEnvelope}
use openclaw_p2p.Store.Files.{WriteOutcome, write_failed, written, absent, JsonFile}
use openclaw_p2p.Store.State.{active, TaskState, Store}
use openclaw_p2p.GoMap.{put, get}
use openclaw_p2p.Store.Tasks.{is_terminal, task_of, apply_task, task_key, next_task_seq}
use openclaw_p2p.Prelude.{
  ne_of_test, subst, ◌^◌, ◌&&◌, length, ◌<◌, ◌*◌, ◌==◌, pos, ◌+◌, inl, if◌then◌else◌, arith, ◌↔◌,
  false, some, ◌∷◌, true, refl, [], List, String, ◌≡◌, ◌≤◌,
}
use Prim.Native.Nat.{◌≤◌, min}

abbrev pub no_file : {V : Type 0} → JsonFile V
no_file = record { target = absent; tmp = absent }

abbrev pub empty_store : Store
empty_store = record {
  tasks = [];
  facts = [];
  payloads = [];
  peers = [];
  negotiations = [];
  rates = [];
  tasks_json = no_file;
  facts_json = no_file;
  payloads_json = no_file;
  peers_json = no_file;
  negotiations_json = no_file;
  events = [];
}

abbrev pub key : String
key = "did:key:A-::t1"

abbrev pub finished_task : SaeEnvelope
finished_task = record build_task { op = op_complete; seq = 2 }

abbrev pub newer_task : SaeEnvelope
newer_task = record build_task { seq = 3; expires_at = 300 }

-- A store that holds the task, and one that holds it completed.
abbrev active_store : Store
active_store = record empty_store { tasks = (key, task_of 10 build_task) ∷ [] }

abbrev pub finished_store : Store
finished_store = record empty_store { tasks = (key, task_of 20 finished_task) ∷ [] }

abbrev fact : SaeEnvelope
fact = record build_task {
  kind = kind_agent_fact;
  fact_id = "f1";
  fact_kind = "skill";
  task_id = "";
  op = "";
}

abbrev newer_fact : SaeEnvelope
newer_fact = record fact { seq = 2; summary = "newer" }

abbrev updates : List Delivery
updates =
    record { out = written; now = 30; env = newer_task }
    ∷ record { out = write_failed invalid_signature; now = 31; env = build_task }
    ∷ []

get-apply_task_example :
    get key (apply_task written 30 newer_task active_store).1.tasks
    ≡ merge_task 30 newer_task (some (task_of 10 build_task))
unfolding task_key get
get-apply_task_example = get-apply_task written 30 newer_task active_store key

apply_task_test :
    get key (apply_task written 30 newer_task active_store).1.tasks ≡ some (task_of 30 newer_task)
unfolding apply_task get task_key put
apply_task_test = refl

apply_task-applied_iff_example :
    ((apply_task written 30 newer_task active_store).0.applied ≡ true)
    ↔ IsAdmissible 30 newer_task active_store
apply_task-applied_iff_example = apply_task-applied_iff written 30 newer_task active_store

refused_test : (apply_task written 30 newer_task finished_store).0.applied ≡ false
unfolding apply_task get task_key
refused_test = refl

apply_task_refused_test : (apply_task written 30 newer_task finished_store).1 ≡ finished_store
apply_task_refused_test = apply_task_refused written 30 newer_task finished_store refused_test

abbrev short_origin : String
short_origin = "ab"

short_origin-IsSeparable : IsSeparable short_origin
short_origin-IsSeparable = ground arith

task_key_inj_test : (short_origin ≡ short_origin) × (build_task.task_id ≡ "t1")
task_key_inj_test =
    task_key_inj short_origin short_origin "t1" "t1" short_origin-IsSeparable
      short_origin-IsSeparable refl

seq_at_mono_test : 1 ≤ seq_at key (deliver_all active_store updates)
unfolding get
seq_at_mono_test = seq_at_mono active_store updates key

seq_test : 1 ≤ seq_at key active_store
unfolding get
seq_test = ground arith

replay_refused_example :
    ((apply_task written 40 build_task (deliver_all active_store updates)).0.applied ≡ false)
    × ((apply_task written 40 build_task (deliver_all active_store updates)).1
        ≡ deliver_all active_store updates)
unfolding task_key
replay_refused_example =
    replay_refused active_store updates written 40 build_task (ground arith) seq_test

newer_number : finished_task.seq ≡ next_task_seq "did:key:A-" "t1" active_store
unfolding next_task_seq get task_key
newer_number = refl

next_number_fresh :
    (t : TaskState)
    → get (task_key finished_task.origin finished_task.task_id) active_store.tasks ≡ some t
    → (is_terminal t.status ≡ false) × (t.last_seq + 1 < 2 ^ 64)
unfolding get task_key
next_number_fresh t h =
    let e : task_of 10 build_task ≡ t = cc h in
    subst (λ (u : TaskState). (is_terminal u.status ≡ false) × (u.last_seq + 1 < 2 ^ 64)) e
      (ground arith)

next_task_seq_accepted_example :
    ((apply_task written 20 finished_task active_store).0.applied ≡ true)
    × (get
          (task_key finished_task.origin finished_task.task_id)
          (apply_task written 20 finished_task active_store).1.tasks
        ≡ some (task_of 20 finished_task))
next_task_seq_accepted_example =
    next_task_seq_accepted written 20 finished_task active_store refl (ground arith) newer_number
      next_number_fresh

get-apply_fact_test : get "k" (apply_fact written 30 fact empty_store).1.facts ≡ (
    if fact.kind == kind_agent_fact && fact_key fact.origin fact.fact_id == "k"
    then merge_fact 30 fact (get "k" empty_store.facts)
    else get "k" empty_store.facts)
get-apply_fact_test = get-apply_fact written 30 fact empty_store "k"

numbered : IsNumberedStore empty_store
unfolding get
numbered k = tt

apply_fact_comm_example :
    held_at key (apply_fact written 11 newer_fact (apply_fact written 10 fact empty_store).1).1
    ≡ held_at key
        (apply_fact written 21 fact
          (apply_fact (write_failed invalid_signature) 20 newer_fact empty_store).1).1
apply_fact_comm_example =
    apply_fact_comm empty_store fact newer_fact 10 11 20 21 written written
      (write_failed invalid_signature) written key numbered (λ e. ground arith) (ground arith)
      (ground arith) (ground arith) (ground arith)
