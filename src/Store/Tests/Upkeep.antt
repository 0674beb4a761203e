-- ===== src/Store/Tests/Upkeep.antt =====
-- Runs of internal/p2p/store.go on small stores: rates, collections, files and whole lives.
use openclaw_p2p.Store.Open.{reread_payloads}
use openclaw_p2p.Store.Records.{upsert_payload}
use openclaw_p2p.Store.Run.{upserts_payload}
use openclaw_p2p.Store.State.{StoredPayload}
use openclaw_p2p.Sae.Libs.{Bytes}
use openclaw_p2p.Store.Files.{write_json_atomic}
use openclaw_p2p.GoMap.{put}
use openclaw_p2p.Store.Rates.Reopens.{StartsBy, allow_peer_reopens}
use openclaw_p2p.Store.Rates.{allow_peer}
use openclaw_p2p.Store.Gc.Revival.{finished_task_revived}
use openclaw_p2p.Store.Run.Durable.{open_store-Run}
use openclaw_p2p.Store.Run.Monotone.{seq_at-Run}
use openclaw_p2p.GoMap.Laws.{IsRange-refl}
use openclaw_p2p.Sae.Tests.{build_task}
use openclaw_p2p.Error.{ok, invalid_signature}
use openclaw_p2p.Clock.{Time, second}
use openclaw_p2p.Store.Rates.{allow_peer}
use openclaw_p2p.Store.Tests.{finished_task, newer_task, finished_store, key, empty_store}
use openclaw_p2p.Store.Tasks.{task_of, apply_task, task_key}
use openclaw_p2p.Store.Rates.Window.{allow_all_limit, allow_all, IsOver, count_true}
use openclaw_p2p.Store.State.{active, Store}
use openclaw_p2p.Store.Gc.{GcInputs, gc_expired}
use openclaw_p2p.Store.Files.{written, write_failed, WriteOutcome}
use openclaw_p2p.Store.Tasks.History.{seq_at}
use openclaw_p2p.GoMap.{get}
use openclaw_p2p.Store.Gc.Effect.{AreRanges, AllWritten}
use openclaw_p2p.Store.Open.Recovery.{open_store-IsDurable, no_faults, IsDurable}
use openclaw_p2p.Store.Open.{open_store}
use openclaw_p2p.Store.Run.Filed.{Run-IsFiled, IsFiled}
use openclaw_p2p.Prelude.{
  true, ne_of_test, arith, length, ◌+◌, some, ◌*◌, refl, pos, ◌≤◌, inl, ◌≡◌, [], ◌∷◌,
}
use Prim.Native.Nat.{min}
use openclaw_p2p.Store.Run.{Succeeds, AnyOutcome, Run, start, then_step, applies_task, allows_peer}

no_window : IsOver second (get "peer" empty_store.rates)
unfolding get
no_window = tt

allow_all_limit_example :
    count_true (allow_all (second ∷ 2 * second ∷ 3 * second ∷ []) "peer" (pos 2) empty_store).0
    ≡ min 2 (1 + length {A = Time} (2 * second ∷ 3 * second ∷ []))
allow_all_limit_example =
    allow_all_limit second (2 * second ∷ 3 * second ∷ []) "peer" 2 empty_store (ground arith)
      (ne_of_test "peer" "" refl) (ground arith) no_window (ground arith) (ground arith)

starts_early : StartsBy (3 * second) (get "peer" empty_store.rates)
unfolding get
starts_early = ground arith

-- Three events in the first minute, the last of them refused, and one a minute later.
allow_peer_reopens_example :
    (allow_peer
      (63 * second)
      "peer"
      (pos 2)
      (allow_all (second ∷ 2 * second ∷ 3 * second ∷ []) "peer" (pos 2) empty_store).1).0
    ≡ true
allow_peer_reopens_example =
    allow_peer_reopens (second ∷ 2 * second ∷ 3 * second ∷ []) (3 * second) (63 * second) "peer" 2
      empty_store (ground arith) starts_early (ground arith) (ground arith)

-- A collection that visits each map in the order in which it is listed.
abbrev gc_inputs : Store → GcInputs
gc_inputs s = record {
  tasks_order = s.tasks;
  facts_order = s.facts;
  payloads_order = s.payloads;
  tasks_out = written;
  facts_out = written;
  payloads_out = written;
}

finished-AreRanges : AreRanges (gc_inputs finished_store) finished_store
unfolding get
finished-AreRanges = record {
  tasks = IsRange-refl _ (refl, tt);
  facts = IsRange-refl _ tt;
  payloads = IsRange-refl _ tt;
}

all_written : AllWritten (gc_inputs finished_store)
all_written = record { tasks = refl; facts = refl; payloads = refl }

holds_finished :
    get (task_key newer_task.origin newer_task.task_id) finished_store.tasks
    ≡ some (task_of 20 finished_task)
unfolding get task_key
holds_finished = refl

finished_task_revived_example :
    get
      (task_key newer_task.origin newer_task.task_id)
      (apply_task written 250 newer_task
        (gc_expired (gc_inputs finished_store) 200 finished_store).1).1.tasks
    ≡ some (record (task_of 250 newer_task) { status = active })
finished_task_revived_example =
    finished_task_revived (gc_inputs finished_store) 200 250 written newer_task
      (task_of 20 finished_task) finished_store finished-AreRanges all_written holds_finished
      (ground arith) refl refl (ground arith) (ground arith)

empty-IsDurable : IsDurable empty_store
empty-IsDurable = record {
  tasks = inl (refl, refl);
  facts = inl (refl, refl);
  payloads = inl (refl, refl);
  peers = inl (refl, refl);
  negotiations = inl (refl, refl);
}

-- A layout that puts two spaces before a raw value.
abbrev indented : Bytes → Bytes
indented raw = b' ' ∷ b' ' ∷ raw

open_store-IsDurable_test :
    open_store (no_faults indented) empty_store ≡ ok (record empty_store { rates = [] })
unfolding reread_payloads
open_store-IsDurable_test = open_store-IsDurable indented empty_store empty-IsDurable

-- A task and then an event of its sender, with writes that end as given.
abbrev two_steps : WriteOutcome → Store
two_steps out = (allow_peer 30 "peer" (pos 60) (apply_task out 20 build_task empty_store).1).1

two_steps-Run :
    (Writes : WriteOutcome → Type 0) (out : WriteOutcome)
    → Writes out
    → Run Writes empty_store (two_steps out)
two_steps-Run Writes out w =
    then_step (then_step start (applies_task out 20 build_task empty_store w))
      (allows_peer 30 "peer" (pos 60) (apply_task out 20 build_task empty_store).1)

abbrev stored : Bytes → StoredPayload
stored content = record {
  ref = "r";
  owner_peer_id = "peer";
  kind = "task";
  object_id = "t1";
  version = "1";
  content_type = "application/json";
  content = content;
  sha256 = "d";
  updated_at = 30;
  expires_at = 90;
}

abbrev with_payload : Store
with_payload = (upsert_payload written (stored (b'{' ∷ b'}' ∷ [])) (two_steps written)).1

open_store-Run_example :
    open_store (no_faults indented) with_payload
    ≡ ok (record with_payload {
      payloads = reread_payloads indented with_payload.payloads;
      rates = [];
    })
open_store-Run_example = open_store-Run indented empty_store with_payload empty-IsDurable (
    then_step (two_steps-Run Succeeds written refl)
      (upserts_payload written (stored (b'{' ∷ b'}' ∷ [])) (two_steps written) refl))

-- The raw detail of a payload comes back changed.
reread_test :
    get "r" (reread_payloads indented with_payload.payloads)
    ≡ some (stored (b' ' ∷ b' ' ∷ b'{' ∷ b'}' ∷ []))
unfolding get reread_payloads upsert_payload put write_json_atomic allow_peer apply_task
reread_test = refl

pub empty-IsFiled : IsFiled empty_store
unfolding get
empty-IsFiled = record { tasks = λ k. tt; facts = λ k. tt }

Run-IsFiled_test : IsFiled (two_steps (write_failed invalid_signature))
Run-IsFiled_test =
    Run-IsFiled empty_store (two_steps (write_failed invalid_signature))
      (two_steps-Run AnyOutcome (write_failed invalid_signature) tt) empty-IsFiled

seq_at-Run_test : seq_at key empty_store ≤ seq_at key (two_steps written)
seq_at-Run_test =
    seq_at-Run empty_store (two_steps written) key (two_steps-Run AnyOutcome written tt)
