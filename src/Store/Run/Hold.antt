-- ===== src/Store/Run/Hold.antt =====
-- Properties of every task, or of every fact, that a store holds: what each method must be shown to
-- keep. Only `ApplyTask`, `ApplyFact` and `GCExpired` change the two maps.
use openclaw_p2p.Error.{err, ok, Check}
use openclaw_p2p.Store.Facts.Merge.{get-apply_fact, merge_fact}
use openclaw_p2p.Store.Run.{Step}
use openclaw_p2p.Store.Rates.{allow_peer}
use openclaw_p2p.Store.Tasks.{is_terminal, apply_task, task_key, task_of}
use openclaw_p2p.Store.Records.{append_event, record_negotiation, record_peer, upsert_payload}
use openclaw_p2p.Sae.Envelope.{kind_agent_fact, kind_task, SaeEnvelope}
use openclaw_p2p.Store.Files.{WriteOutcome}
use openclaw_p2p.Store.Facts.{fact_key, fact_of, apply_fact}
use openclaw_p2p.Clock.{after, Time}
use openclaw_p2p.Store.State.{FactState, expired, Store, TaskState}
use openclaw_p2p.Prelude.{
  ℤ, leb, eq_iff, subst, ◌==◌, ◌||◌, inr, inl, Bool-cases, refl, false, if◌then◌else◌, arith, ◌&&◌,
  true, String, Bool, ◌≡◌, Option, none, some,
}
use openclaw_p2p.GoMap.{IsRange, get}
use openclaw_p2p.Store.Gc.Effect.{get-gc_facts, get-gc_tasks, and_then_keeps, kept, aged}
use openclaw_p2p.Store.Gc.{
  fact_is_over, and_then, GcInputs, gc_expired, gc_payloads, gc_facts, gc_tasks,
}
use openclaw_p2p.Store.Tasks.Merge.{get-apply_task, merge_task}

abbrev pub Holds : {V : Type 0} → (V → Type 0) → Option V → Type 0
Holds P none = Unit
Holds P (some v) = P v

pub if-Holds :
    {V : Type 0} (P : V → Type 0) (b : Bool) (x y : Option V)
    → (b ≡ true → Holds P x)
    → Holds P y
    → Holds P (if b then x else y)
if-Holds P true x y hx hy = hx refl
if-Holds P false x y hx hy = hy

both : (a b : Bool) → (a && b) ≡ true → (a ≡ true) × (b ≡ true)
both a b h = ground arith

pub tasks-apply_fact :
    (out : WriteOutcome) (now : Time) (env : SaeEnvelope) (s : Store)
    → (apply_fact out now env s).1.tasks ≡ s.tasks
unfolding apply_fact
tasks-apply_fact out now env s = ground arith

pub facts-apply_task :
    (out : WriteOutcome) (now : Time) (env : SaeEnvelope) (s : Store)
    → (apply_task out now env s).1.facts ≡ s.facts
unfolding apply_task
facts-apply_task out now env s = ground arith

pub tasks-allow_peer :
    (now : Time) (peer_id : String) (limit : ℤ) (s : Store)
    → (allow_peer now peer_id limit s).1.tasks ≡ s.tasks
unfolding allow_peer
tasks-allow_peer now peer_id limit s = ground arith

pub facts-allow_peer :
    (now : Time) (peer_id : String) (limit : ℤ) (s : Store)
    → (allow_peer now peer_id limit s).1.facts ≡ s.facts
unfolding allow_peer
facts-allow_peer now peer_id limit s = ground arith

module _ (P : String → TaskState → Type 0) where
  abbrev pub TasksHold : Store → Type 0
  TasksHold s = (k : String) → Holds (P k) (get k s.tasks)

  merge_task-Holds :
      (now : Time) (env : SaeEnvelope) (k : String) (o : Option TaskState)
      → P k (task_of now env)
      → Holds (P k) o
      → Holds (P k) (merge_task now env o)
  merge_task-Holds now env k none p h = elim (Bool-cases (after now env.expires_at)) [
    | inl e ↦ rw e tt
    | inr e ↦ rw e p
  ]
  merge_task-Holds now env k (some t) p h =
      if-Holds (P k) (after now env.expires_at || is_terminal t.status || leb env.seq t.last_seq)
        (some t) (some (task_of now env)) (λ _. h) p

  pub apply_task-TasksHold :
      (out : WriteOutcome) (now : Time) (env : SaeEnvelope) (s : Store)
      → (env.kind ≡ kind_task → P (task_key env.origin env.task_id) (task_of now env))
      → TasksHold s
      → TasksHold (apply_task out now env s).1
  apply_task-TasksHold out now env s new h k = rw (get-apply_task out now env s k) (
      if-Holds (P k) (env.kind == kind_task && task_key env.origin env.task_id == k)
        (merge_task now env (get k s.tasks)) (get k s.tasks)
        (λ e.
          let (kind, key) = both _ _ e in
          merge_task-Holds now env k (get k s.tasks)
            (subst (λ j. P j (task_of now env)) ((eq_iff _ _).0 key) (new ((eq_iff _ _).0 kind)))
            (h k))
        (h k))

  aged-Holds :
      (now : Time) (k : String) (o : Option TaskState)
      → ((t : TaskState) → P k t → P k (record t { status = expired }))
      → Holds (P k) o
      → Holds (P k) (aged now o)
  aged-Holds now k none age h = tt
  aged-Holds now k (some t) age h =
      if-Holds (P k) (after now t.expires_at) (some (record t { status = expired })) (some t)
        (λ _. age t h) h

  pub gc_expired-TasksHold :
      (i : GcInputs) (now : Time) (s : Store)
      → ((k : String) (t : TaskState) → P k t → P k (record t { status = expired }))
      → IsRange i.tasks_order s.tasks
      → TasksHold s
      → TasksHold (gc_expired i now s).1
  unfolding gc_expired gc_facts gc_payloads
  gc_expired-TasksHold i now s age r h =
      and_then_keeps TasksHold (and_then (gc_tasks i now s) (gc_facts i now)) (gc_payloads i now)
        (and_then_keeps TasksHold (gc_tasks i now s) (gc_facts i now)
          (λ k. rw (get-gc_tasks i now s k r) (aged-Holds now k (get k s.tasks) (age k) (h k)))
          (λ t p. p))
        (λ t p. p)

  -- One method keeps a property of tasks that expiry keeps and that holds of what is applied.
  pub Step-TasksHold :
      {Writes : WriteOutcome → Type 0} {s t : Store}
      → ((now : Time) (env : SaeEnvelope)
          → env.kind ≡ kind_task
          → P (task_key env.origin env.task_id) (task_of now env))
      → ((k : String) (t : TaskState) → P k t → P k (record t { status = expired }))
      → Step Writes s t
      → TasksHold s
      → TasksHold t
  unfolding upsert_payload record_peer record_negotiation append_event
  Step-TasksHold new age (Step.applies_task out now env s w) h =
      apply_task-TasksHold out now env s (new now env) h
  Step-TasksHold new age (Step.applies_fact out now env s w) h =
      rw (tasks-apply_fact out now env s) h
  Step-TasksHold new age (Step.upserts_payload out payload s w) h = h
  Step-TasksHold new age (Step.records_peer out now id addrs s w) h = h
  Step-TasksHold new age (Step.allows_peer now peer_id limit s) h =
      rw (tasks-allow_peer now peer_id limit s) h
  Step-TasksHold new age (Step.records_negotiation out now frame s w) h = h
  Step-TasksHold new age (Step.appends_event none now entry s) h = h
  Step-TasksHold new age (Step.appends_event (some e) now entry s) h = h
  Step-TasksHold new age (Step.collects i now s r wt wf wp) h =
      gc_expired-TasksHold i now s age r.tasks h

module _ (P : String → FactState → Type 0) where
  abbrev pub FactsHold : Store → Type 0
  FactsHold s = (k : String) → Holds (P k) (get k s.facts)

  merge_fact-Holds :
      (now : Time) (env : SaeEnvelope) (k : String) (o : Option FactState)
      → P k (fact_of now env)
      → Holds (P k) o
      → Holds (P k) (merge_fact now env o)
  merge_fact-Holds now env k none p h = elim (Bool-cases (after now env.expires_at)) [
    | inl e ↦ rw e tt
    | inr e ↦ rw e p
  ]
  merge_fact-Holds now env k (some t) p h =
      if-Holds (P k) (after now env.expires_at || leb env.seq t.last_seq) (some t)
        (some (fact_of now env)) (λ _. h) p

  pub apply_fact-FactsHold :
      (out : WriteOutcome) (now : Time) (env : SaeEnvelope) (s : Store)
      → (env.kind ≡ kind_agent_fact → P (fact_key env.origin env.fact_id) (fact_of now env))
      → FactsHold s
      → FactsHold (apply_fact out now env s).1
  apply_fact-FactsHold out now env s new h k = rw (get-apply_fact out now env s k) (
      if-Holds (P k) (env.kind == kind_agent_fact && fact_key env.origin env.fact_id == k)
        (merge_fact now env (get k s.facts)) (get k s.facts)
        (λ e.
          let (kind, key) = both _ _ e in
          merge_fact-Holds now env k (get k s.facts)
            (subst (λ j. P j (fact_of now env)) ((eq_iff _ _).0 key) (new ((eq_iff _ _).0 kind)))
            (h k))
        (h k))

  kept-Holds :
      (over : FactState → Bool) (k : String) (o : Option FactState)
      → Holds (P k) o
      → Holds (P k) (kept over o)
  kept-Holds over k none h = tt
  kept-Holds over k (some t) h = if-Holds (P k) (over t) none (some t) (λ _. tt) h

  pub gc_expired-FactsHold :
      (i : GcInputs) (now : Time) (s : Store)
      → IsRange i.facts_order s.facts
      → FactsHold s
      → FactsHold (gc_expired i now s).1
  unfolding gc_expired gc_tasks gc_payloads
  gc_expired-FactsHold i now s r h =
      and_then_keeps FactsHold (and_then (gc_tasks i now s) (gc_facts i now)) (gc_payloads i now)
        (after_facts (gc_tasks i now s) refl) (λ t p. p)
    where
      after_facts :
          (a : Check × Store) → a.1.facts ≡ s.facts → FactsHold (and_then a (gc_facts i now)).1
      after_facts (ok _, t) same k =
          rw (get-gc_facts i now t k (rw same r), same)
            (kept-Holds (fact_is_over now) k (get k s.facts) (h k))
      after_facts (err e, t) same k = rw same (h k)

  -- One method keeps a property of facts that holds of what is applied.
  pub Step-FactsHold :
      {Writes : WriteOutcome → Type 0} {s t : Store}
      → ((now : Time) (env : SaeEnvelope)
          → env.kind ≡ kind_agent_fact
          → P (fact_key env.origin env.fact_id) (fact_of now env))
      → Step Writes s t
      → FactsHold s
      → FactsHold t
  unfolding upsert_payload record_peer record_negotiation append_event
  Step-FactsHold new (Step.applies_task out now env s w) h = rw (facts-apply_task out now env s) h
  Step-FactsHold new (Step.applies_fact out now env s w) h =
      apply_fact-FactsHold out now env s (new now env) h
  Step-FactsHold new (Step.upserts_payload out payload s w) h = h
  Step-FactsHold new (Step.records_peer out now id addrs s w) h = h
  Step-FactsHold new (Step.allows_peer now peer_id limit s) h =
      rw (facts-allow_peer now peer_id limit s) h
  Step-FactsHold new (Step.records_negotiation out now frame s w) h = h
  Step-FactsHold new (Step.appends_event none now entry s) h = h
  Step-FactsHold new (Step.appends_event (some e) now entry s) h = h
  Step-FactsHold new (Step.collects i now s r wt wf wp) h = gc_expired-FactsHold i now s r.facts h
