-- ===== src/Store/Gc/Effect.antt =====
-- What `GCExpired` does to each entry, whatever the order of iteration.
use openclaw_p2p.Error.{err, ok, Check, nil}
use openclaw_p2p.Store.Files.{written, write_json_atomic}
use openclaw_p2p.Store.State.{Store, expired, TaskState}
use openclaw_p2p.Clock.{after, Time}
use openclaw_p2p.GoMap.{GoMap, get, put, delete, Distinct, IsRange}
use openclaw_p2p.GoMap.Laws.{get-put, get-delete}
use openclaw_p2p.Prelude.{
  false, true, eq_iff, arith, refl, none, ◌≡◌, Bool, some, String, Option, [], ◌∷◌, if◌then◌else◌,
}
use openclaw_p2p.Store.Gc.{
  and_then, payload_is_over, gc_payloads, gc_expired, fact_is_over, gc_facts, gc_tasks, GcInputs,
  expire_tasks, delete_over,
}

-- What the loop leaves under a key, from the entry that it visits there.
abbrev pub expire_at : Time → Option TaskState → Option TaskState → Option TaskState
expire_at now none before = before
expire_at now (some task) before =
    if after now task.expires_at then some (record task { status = expired }) else before

get-expire_tasks :
    (now : Time) (k : String) (order tasks : GoMap TaskState) (changed : Bool)
    → Distinct order
    → get k (expire_tasks now order (tasks, changed)).0 ≡ expire_at now (get k order) (get k tasks)
unfolding expire_tasks get
get-expire_tasks now k [] tasks changed d = refl
get-expire_tasks now k ((j, task) ∷ rest) tasks changed d = ground (
  arith,
  eq_iff j k,
  get-expire_tasks now k rest tasks changed d.1,
  get-expire_tasks now k rest (put j (record task { status = expired }) tasks) true d.1,
  get-put k j (record task { status = expired }) tasks,
)

module _ {V : Type 0} (over : V → Bool) where
  abbrev pub drop_at : Option V → Option V → Option V
  drop_at none before = before
  drop_at (some v) before = if over v then none else before

  get-delete_over :
      (k : String) (order m : GoMap V) (changed : Bool)
      → Distinct order
      → get k (delete_over over order (m, changed)).0 ≡ drop_at (get k order) (get k m)
  unfolding delete_over get
  get-delete_over k [] m changed d = refl
  get-delete_over k ((j, v) ∷ rest) m changed d = ground (
    arith,
    eq_iff j k,
    get-delete_over k rest m changed d.1,
    get-delete_over k rest (delete j m) true d.1,
    get-delete k j m,
  )

  -- The entries that remain.
  abbrev pub kept : Option V → Option V
  kept none = none
  kept (some v) = if over v then none else some v

  drop_self : (o : Option V) → drop_at o o ≡ kept o
  drop_self none = refl
  drop_self (some v) = refl

-- The state of a task after a collection.
abbrev pub aged : Time → Option TaskState → Option TaskState
aged now none = none
aged now (some task) =
    if after now task.expires_at then some (record task { status = expired }) else some task

expire_self : (now : Time) (o : Option TaskState) → expire_at now o o ≡ aged now o
expire_self now none = refl
expire_self now (some task) = refl

-- The orders are orders of the maps that the loops visit.
pub record AreRanges (i : GcInputs) (s : Store) : Type 0 where
  pub tasks : IsRange i.tasks_order s.tasks
  pub facts : IsRange i.facts_order s.facts
  pub payloads : IsRange i.payloads_order s.payloads

-- All writes of the collection succeed.
pub record AllWritten (i : GcInputs) : Type 0 where
  pub tasks : i.tasks_out ≡ written
  pub facts : i.facts_out ≡ written
  pub payloads : i.payloads_out ≡ written

if_nil : (b : Bool) → (if b then nil else nil) ≡ nil
if_nil true = refl
if_nil false = refl

and_then-nil :
    (r : Check × Store) (next : Store → Check × Store) → r.0 ≡ nil → and_then r next ≡ next r.1
and_then-nil (ok _, s) next h = refl
and_then-nil (err e, s) next h = cc

pub and_then_keeps :
    (P : Store → Type 0) (r : Check × Store) (next : Store → Check × Store)
    → P r.1
    → ((s : Store) → P s → P (next s).1)
    → P (and_then r next).1
and_then_keeps P (ok _, s) next h k = k s h
and_then_keeps P (err e, s) next h k = h

module _ (i : GcInputs) (now : Time) where
  gc_tasks-nil : (s : Store) → i.tasks_out ≡ written → (gc_tasks i now s).0 ≡ nil
  unfolding gc_tasks write_json_atomic
  gc_tasks-nil s h = rw h (if_nil _)

  gc_facts-nil : (s : Store) → i.facts_out ≡ written → (gc_facts i now s).0 ≡ nil
  unfolding gc_facts write_json_atomic
  gc_facts-nil s h = rw h (if_nil _)

  gc_payloads-nil : (s : Store) → i.payloads_out ≡ written → (gc_payloads i now s).0 ≡ nil
  unfolding gc_payloads write_json_atomic
  gc_payloads-nil s h = rw h (if_nil _)

  gc_steps :
      (s : Store)
      → AllWritten i
      → gc_expired i now s ≡ gc_payloads i now (gc_facts i now (gc_tasks i now s).1).1
  unfolding gc_expired
  gc_steps s w =
      let facts = gc_facts-nil (gc_tasks i now s).1 w.facts in
      rw (and_then-nil (gc_tasks i now s) (gc_facts i now) (gc_tasks-nil s w.tasks))
        (and_then-nil (gc_facts i now (gc_tasks i now s).1) (gc_payloads i now) facts)

  pub get-gc_tasks :
      (s : Store) (k : String)
      → IsRange i.tasks_order s.tasks
      → get k (gc_tasks i now s).1.tasks ≡ aged now (get k s.tasks)
  unfolding gc_tasks
  get-gc_tasks s k r =
      rw (get-expire_tasks now k i.tasks_order s.tasks false r.distinct, r.same k)
        (expire_self now (get k s.tasks))

  pub get-gc_facts :
      (s : Store) (k : String)
      → IsRange i.facts_order s.facts
      → get k (gc_facts i now s).1.facts ≡ kept (fact_is_over now) (get k s.facts)
  unfolding gc_facts
  get-gc_facts s k r =
      rw (get-delete_over (fact_is_over now) k i.facts_order s.facts false r.distinct, r.same k)
        (drop_self (fact_is_over now) (get k s.facts))

  pub get-gc_payloads :
      (s : Store) (k : String)
      → IsRange i.payloads_order s.payloads
      → get k (gc_payloads i now s).1.payloads ≡ kept (payload_is_over now) (get k s.payloads)
  unfolding gc_payloads
  get-gc_payloads s k r =
      rw
        (
          get-delete_over (payload_is_over now) k i.payloads_order s.payloads false r.distinct,
          r.same k,
        )
        (drop_self (payload_is_over now) (get k s.payloads))

  pub gc_expired_lem :
      (s : Store)
      → AreRanges i s
      → AllWritten i
      → ((gc_expired i now s).0 ≡ nil)
        × ((k : String) → get k (gc_expired i now s).1.tasks ≡ aged now (get k s.tasks))
        × ((k : String)
            → get k (gc_expired i now s).1.facts ≡ kept (fact_is_over now) (get k s.facts))
        × ((k : String)
            → get k (gc_expired i now s).1.payloads ≡ kept (payload_is_over now) (get k s.payloads))
  unfolding gc_tasks gc_facts gc_payloads
  gc_expired_lem s r w = rw (gc_steps s w) (
    gc_payloads-nil (gc_facts i now (gc_tasks i now s).1).1 w.payloads,
    (λ k. get-gc_tasks s k r.tasks),
    (λ k. get-gc_facts (gc_tasks i now s).1 k r.facts),
    (λ k. get-gc_payloads (gc_facts i now (gc_tasks i now s).1).1 k r.payloads),
  )
