-- ===== src/Store/Tasks/Merge.antt =====
-- `ApplyTask` as a merge of one announcement into the state of its task: when it applies, what it
-- changes, and what holds of every sequence of announcements.
use openclaw_p2p.GoMap.Laws.{get-put}
use openclaw_p2p.GoMap.{get}
use openclaw_p2p.Prelude.{
  refl, ◌<◌, ◌≤◌, ◌↔◌, sym, true, Bool, inr, none, leb, inl, eq_iff, Bool-cases, ◌&&◌, ◌||◌, arith,
  ◌==◌, some, if◌then◌else◌, false, ◌≡◌, String, Option,
}
use openclaw_p2p.Store.State.{TaskState, Store}
use openclaw_p2p.Sae.Envelope.{kind_task, SaeEnvelope}
use openclaw_p2p.Clock.{after, Time}
use openclaw_p2p.Store.Files.{WriteOutcome}
use openclaw_p2p.Store.Tasks.{is_terminal, task_of, admit_task, task_key, apply_task}

-- The abstract view: what one announcement does to the state under its own key.
abbrev pub merge_task : Time → SaeEnvelope → Option TaskState → Option TaskState
merge_task now env none = if after now env.expires_at then none else some (task_of now env)
merge_task now env (some current) =
    if after now env.expires_at || is_terminal current.status || leb env.seq current.last_seq
    then some current
    else some (task_of now env)

admit-merge :
    (out : WriteOutcome) (now : Time) (env : SaeEnvelope) (s : Store) (o : Option TaskState)
    (k : String)
    → get (task_key env.origin env.task_id) s.tasks ≡ o
    → after now env.expires_at ≡ false
    → get k (admit_task out now env s o).1.tasks
      ≡ (if task_key env.origin env.task_id == k then merge_task now env o else get k s.tasks)
unfolding admit_task
admit-merge out now env s none k g f =
    rw f (get-put k (task_key env.origin env.task_id) (task_of now env) s.tasks)
admit-merge out now env s (some current) k g f = ground (
  arith,
  eq_iff (task_key env.origin env.task_id) k,
  get-put k (task_key env.origin env.task_id) (task_of now env) s.tasks,
)

merge_task_expired :
    (now : Time) (env : SaeEnvelope) (o : Option TaskState)
    → after now env.expires_at ≡ true
    → merge_task now env o ≡ o
merge_task_expired now env none e = rw e
merge_task_expired now env (some current) e = rw e

-- `ApplyTask` changes the state under the announcement's key by `merge_task`, and no other; an
-- announcement of another kind changes nothing. This holds whether or not the write succeeds.
pub get-apply_task :
    (out : WriteOutcome) (now : Time) (env : SaeEnvelope) (s : Store) (k : String)
    → get k (apply_task out now env s).1.tasks ≡ (
        if env.kind == kind_task && task_key env.origin env.task_id == k
        then merge_task now env (get k s.tasks)
        else get k s.tasks)
unfolding apply_task
get-apply_task out now env s k = elim (Bool-cases (env.kind == kind_task)) [
  | inl t ↦ elim (Bool-cases (after now env.expires_at)) [
    | inl e ↦ rw (t, e) (if_same _ (merge_task_expired now env (get k s.tasks) e))
    | inr f ↦ rw (t, f) (rw (admit-merge out now env s _ k refl f) (at_key (merge_task now env)))
  ]
  | inr o ↦ rw o
]
  where
    if_same : (b : Bool) {x y : Option TaskState} → x ≡ y → y ≡ (if b then x else y)
    if_same true h = sym h
    if_same false h = refl

    at_key :
        (f : Option TaskState → Option TaskState)
        → (if task_key env.origin env.task_id == k
            then f (get (task_key env.origin env.task_id) s.tasks)
            else get k s.tasks)
          ≡ (if task_key env.origin env.task_id == k then f (get k s.tasks) else get k s.tasks)
    at_key f = ground (arith, eq_iff (task_key env.origin env.task_id) k)

-- When an announcement is let in: it is a task, it has not expired, and its task is either unknown
-- or neither finished nor as new as the announcement.
pub record IsAdmissible (now : Time) (env : SaeEnvelope) (s : Store) : Type 0 where
  pub is_task : env.kind ≡ kind_task
  pub in_time : now ≤ env.expires_at
  pub fresh :
      (t : TaskState)
      → get (task_key env.origin env.task_id) s.tasks ≡ some t
      → (is_terminal t.status ≡ false) × (t.last_seq < env.seq)

admit-applied :
    (out : WriteOutcome) (now : Time) (env : SaeEnvelope) (s : Store) (o : Option TaskState)
    → ((admit_task out now env s o).0.applied ≡ true)
      ↔ ((t : TaskState) → o ≡ some t → (is_terminal t.status ≡ false) × (t.last_seq < env.seq))
unfolding admit_task
admit-applied out now env s none = ((λ h t e. cc), (λ h. refl))
admit-applied out now env s (some current) = (
  (λ h t e. let same : current ≡ t = cc in rw (← same) (ground arith)),
  (λ h. by_test (h current refl)),
)
  where
    by_test :
        (is_terminal current.status ≡ false) × (current.last_seq < env.seq)
        → (admit_task out now env s (some current)).0.applied ≡ true
    by_test h = ground arith

-- `ApplyTask` reports "applied" exactly for the admissible announcements.
pub apply_task-applied_iff :
    (out : WriteOutcome) (now : Time) (env : SaeEnvelope) (s : Store)
    → ((apply_task out now env s).0.applied ≡ true) ↔ IsAdmissible now env s
unfolding apply_task
apply_task-applied_iff out now env s = (sound, complete)
  where
    o : Option TaskState
    o = get (task_key env.origin env.task_id) s.tasks

    sound : (apply_task out now env s).0.applied ≡ true → IsAdmissible now env s
    sound h = elim (Bool-cases (env.kind == kind_task)) [
      | inl t ↦ elim (Bool-cases (after now env.expires_at)) [
        | inl e ↦ cc
        | inr f ↦ record {
          is_task = (eq_iff _ _).0 t;
          in_time = ground arith;
          fresh = (admit-applied out now env s o).0 (rw (t, f) at h);
        }
      ]
      | inr n ↦ cc
    ]

    early : now ≤ env.expires_at → after now env.expires_at ≡ false
    early h = ground arith

    complete : IsAdmissible now env s → (apply_task out now env s).0.applied ≡ true
    complete a =
        rw ((eq_iff _ _).1 a.is_task, early a.in_time) ((admit-applied out now env s o).1 a.fresh)

-- An announcement that is not applied leaves memory, files and event log as they were.
pub apply_task_refused :
    (out : WriteOutcome) (now : Time) (env : SaeEnvelope) (s : Store)
    → (apply_task out now env s).0.applied ≡ false
    → (apply_task out now env s).1 ≡ s
unfolding apply_task admit_task
apply_task_refused out now env s h = ground arith
