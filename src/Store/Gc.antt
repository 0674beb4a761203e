-- ===== src/Store/Gc.antt =====
-- internal/p2p/store.go: `GCExpired`. Each loop follows an order in which Go may visit its map.
pub mod Effect
pub mod Revival
use openclaw_p2p.Prelude.{ℕ, String, Bool, true, false, not, ◌&&◌, List, [], ◌∷◌, if◌then◌else◌}
use openclaw_p2p.Error.{err, ok, Check, nil}
use openclaw_p2p.Clock.{Time, is_zero, after}
use openclaw_p2p.GoMap.{GoMap, put, delete}
use openclaw_p2p.Store.Files.{WriteOutcome, write_json_atomic}
use openclaw_p2p.Store.State.{expired, TaskState, FactState, StoredPayload, Store}

-- for key, task := range s.tasks { … }, with the map so far and `changedTasks`
unfoldable pub expire_tasks :
    Time → GoMap TaskState → GoMap TaskState × Bool → GoMap TaskState × Bool
expire_tasks now [] (tasks, changed) = (tasks, changed)
expire_tasks now ((key, task) ∷ rest) (tasks, changed) = expire_tasks now rest (
    if after now task.expires_at
    then (put key (record task { status = expired }) tasks, true)
    else (tasks, changed))

abbrev pub fact_is_over : Time → FactState → Bool
fact_is_over now fact = after now fact.expires_at

abbrev pub payload_is_over : Time → StoredPayload → Bool
payload_is_over now payload = not (is_zero payload.expires_at) && after now payload.expires_at

-- for key, v := range m { if over(v) { delete(m, key); changed = true } }
unfoldable pub delete_over : {V : Type 0} → (V → Bool) → GoMap V → GoMap V × Bool → GoMap V × Bool
delete_over over [] (m, changed) = (m, changed)
delete_over over ((key, v) ∷ rest) (m, changed) =
    delete_over over rest (if over v then (delete key m, true) else (m, changed))

-- The orders of the three loops, and how their writes end.
pub record GcInputs : Type 0 where
  pub tasks_order : GoMap TaskState
  pub facts_order : GoMap FactState
  pub payloads_order : GoMap StoredPayload
  pub tasks_out : WriteOutcome
  pub facts_out : WriteOutcome
  pub payloads_out : WriteOutcome

unfoldable pub gc_tasks : GcInputs → Time → Store → Check × Store
unfolding expire_tasks
gc_tasks i now s =
    let (tasks, changed) = expire_tasks now i.tasks_order (s.tasks, false) in
    let (error, file) = write_json_atomic i.tasks_out tasks s.tasks_json in
    (
      if changed then error else nil,
      record s { tasks = tasks; tasks_json = if changed then file else s.tasks_json },
    )

unfoldable pub gc_facts : GcInputs → Time → Store → Check × Store
unfolding delete_over
gc_facts i now s =
    let (facts, changed) = delete_over (fact_is_over now) i.facts_order (s.facts, false) in
    let (error, file) = write_json_atomic i.facts_out facts s.facts_json in
    (
      if changed then error else nil,
      record s { facts = facts; facts_json = if changed then file else s.facts_json },
    )

unfoldable pub gc_payloads : GcInputs → Time → Store → Check × Store
unfolding delete_over
gc_payloads i now s =
    let (payloads, changed) =
      delete_over (payload_is_over now) i.payloads_order (s.payloads, false) in
    let (error, file) = write_json_atomic i.payloads_out payloads s.payloads_json in
    (
      if changed then error else nil,
      record s { payloads = payloads; payloads_json = if changed then file else s.payloads_json },
    )

-- A step that runs only if the one before it returned nil.
abbrev pub and_then : Check × Store → (Store → Check × Store) → Check × Store
and_then (ok _, s) next = next s
and_then (err e, s) next = (err e, s)

-- A failed write ends the collection: the later maps are then left alone.
unfoldable pub gc_expired : GcInputs → Time → Store → Check × Store
gc_expired i now s = and_then (and_then (gc_tasks i now s) (gc_facts i now)) (gc_payloads i now)
