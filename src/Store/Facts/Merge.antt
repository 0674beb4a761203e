-- ===== src/Store/Facts/Merge.antt =====
-- `ApplyFact` as a merge of one announcement into the state of its fact: what it changes.
use openclaw_p2p.GoMap.Laws.{get-put}
use openclaw_p2p.GoMap.{get}
use openclaw_p2p.Prelude.{
  ◌≢◌, refl, ◌≤◌, sym, true, Bool, inr, none, leb, inl, eq_iff, Bool-cases, ◌&&◌, ◌||◌, arith, ◌==◌,
  some, if◌then◌else◌, false, ◌≡◌, String, Option,
}
use openclaw_p2p.Store.State.{FactState, Store}
use openclaw_p2p.Sae.Envelope.{kind_agent_fact, SaeEnvelope}
use openclaw_p2p.Clock.{after, Time}
use openclaw_p2p.Store.Files.{WriteOutcome}
use openclaw_p2p.Store.Facts.{fact_of, admit_fact, fact_key, apply_fact}

-- The abstract view: what one announcement does to the state under its own key.
abbrev pub merge_fact : Time → SaeEnvelope → Option FactState → Option FactState
merge_fact now env none = if after now env.expires_at then none else some (fact_of now env)
merge_fact now env (some current) =
    if after now env.expires_at || leb env.seq current.last_seq
    then some current
    else some (fact_of now env)

admit-merge :
    (out : WriteOutcome) (now : Time) (env : SaeEnvelope) (s : Store) (o : Option FactState)
    (k : String)
    → get (fact_key env.origin env.fact_id) s.facts ≡ o
    → after now env.expires_at ≡ false
    → get k (admit_fact out now env s o).1.facts
      ≡ (if fact_key env.origin env.fact_id == k then merge_fact now env o else get k s.facts)
unfolding admit_fact
admit-merge out now env s none k g f =
    rw f (get-put k (fact_key env.origin env.fact_id) (fact_of now env) s.facts)
admit-merge out now env s (some current) k g f = ground (
  arith,
  eq_iff (fact_key env.origin env.fact_id) k,
  get-put k (fact_key env.origin env.fact_id) (fact_of now env) s.facts,
)

merge_fact_expired :
    (now : Time) (env : SaeEnvelope) (o : Option FactState)
    → after now env.expires_at ≡ true
    → merge_fact now env o ≡ o
merge_fact_expired now env none e = rw e
merge_fact_expired now env (some current) e = rw e

-- `ApplyFact` changes the state under the announcement's key by `merge_fact`, and no other; an
-- announcement of another kind changes nothing. This holds whether or not the write succeeds.
pub get-apply_fact :
    (out : WriteOutcome) (now : Time) (env : SaeEnvelope) (s : Store) (k : String)
    → get k (apply_fact out now env s).1.facts ≡ (
        if env.kind == kind_agent_fact && fact_key env.origin env.fact_id == k
        then merge_fact now env (get k s.facts)
        else get k s.facts)
unfolding apply_fact
get-apply_fact out now env s k = elim (Bool-cases (env.kind == kind_agent_fact)) [
  | inl t ↦ elim (Bool-cases (after now env.expires_at)) [
    | inl e ↦ rw (t, e) (if_same _ (merge_fact_expired now env (get k s.facts) e))
    | inr f ↦ rw (t, f) (rw (admit-merge out now env s _ k refl f) (at_key (merge_fact now env)))
  ]
  | inr o ↦ rw o
]
  where
    if_same : (b : Bool) {x y : Option FactState} → x ≡ y → y ≡ (if b then x else y)
    if_same true h = sym h
    if_same false h = refl

    at_key :
        (f : Option FactState → Option FactState)
        → (if fact_key env.origin env.fact_id == k
            then f (get (fact_key env.origin env.fact_id) s.facts)
            else get k s.facts)
          ≡ (if fact_key env.origin env.fact_id == k then f (get k s.facts) else get k s.facts)
    at_key f = ground (arith, eq_iff (fact_key env.origin env.fact_id) k)

-- The envelope that a store holds for a key.
abbrev pub held : Option FactState → Option SaeEnvelope
held none = none
held (some t) = some t.envelope

abbrev pub held_at : String → Store → Option SaeEnvelope
held_at k s = held (get k s.facts)

-- The number of every fact is that of its envelope.
abbrev pub IsNumbered : Option FactState → Type 0
IsNumbered none = Unit
IsNumbered (some t) = t.last_seq ≡ t.envelope.seq

abbrev pub IsNumberedStore : Store → Type 0
IsNumberedStore s = (k : String) → IsNumbered (get k s.facts)

merge_fact-IsNumbered :
    (now : Time) (env : SaeEnvelope) (o : Option FactState)
    → IsNumbered o
    → IsNumbered (merge_fact now env o)
merge_fact-IsNumbered now env none h = ground arith
merge_fact-IsNumbered now env (some t) h = ground arith

if-IsNumbered :
    (b : Bool) (x y : Option FactState)
    → IsNumbered x
    → IsNumbered y
    → IsNumbered (if b then x else y)
if-IsNumbered true x y hx hy = hx
if-IsNumbered false x y hx hy = hy

pub apply_fact-IsNumberedStore :
    (out : WriteOutcome) (now : Time) (env : SaeEnvelope) (s : Store)
    → IsNumberedStore s
    → IsNumberedStore (apply_fact out now env s).1
apply_fact-IsNumberedStore out now env s h k =
    rw (get-apply_fact out now env s k)
      (if-IsNumbered _ _ _ (merge_fact-IsNumbered now env _ (h k)) (h k))

-- What is held after two announcements of one fact that are both in time.
held_twice :
    (n1 n2 m1 m2 : Time) (a b : SaeEnvelope) (o : Option FactState)
    → IsNumbered o
    → a.seq ≢ b.seq
    → n1 ≤ a.expires_at
    → n2 ≤ b.expires_at
    → m1 ≤ b.expires_at
    → m2 ≤ a.expires_at
    → held (merge_fact n2 b (merge_fact n1 a o)) ≡ held (merge_fact m2 a (merge_fact m1 b o))
held_twice n1 n2 m1 m2 a b none num ne h1 h2 h3 h4 = ground arith
held_twice n1 n2 m1 m2 a b (some t) num ne h1 h2 h3 h4 = ground arith

held_once :
    (n m : Time) (a : SaeEnvelope) (o : Option FactState)
    → n ≤ a.expires_at
    → m ≤ a.expires_at
    → held (merge_fact n a o) ≡ held (merge_fact m a o)
held_once n m a none h1 h2 = ground arith
held_once n m a (some t) h1 h2 = ground arith

-- Two nodes that start from the same store, in which every fact has the number of its envelope, and
-- hear the same two fact announcements in opposite orders, at any times before the announcements
-- expire, end up holding the same envelope for every key, if the announcements do not carry the same
-- number for the same fact. The clocks and the disks of the two nodes may differ.
pub apply_fact_comm :
    (s : Store) (a b : SaeEnvelope) (n1 n2 m1 m2 : Time) (w1 w2 v1 v2 : WriteOutcome) (k : String)
    → IsNumberedStore s
    → (fact_key a.origin a.fact_id ≡ fact_key b.origin b.fact_id → a.seq ≢ b.seq)
    → n1 ≤ a.expires_at
    → n2 ≤ b.expires_at
    → m1 ≤ b.expires_at
    → m2 ≤ a.expires_at
    → held_at k (apply_fact w2 n2 b (apply_fact w1 n1 a s).1).1
      ≡ held_at k (apply_fact v2 m2 a (apply_fact v1 m1 b s).1).1
apply_fact_comm s a b n1 n2 m1 m2 w1 w2 v1 v2 k num ne h1 h2 h3 h4 =
    rw
      (
        get-apply_fact w2 n2 b (apply_fact w1 n1 a s).1 k,
        get-apply_fact w1 n1 a s k,
        get-apply_fact v2 m2 a (apply_fact v1 m1 b s).1 k,
        get-apply_fact v1 m1 b s k,
      )
      (by_keys (a.kind == kind_agent_fact && fact_key a.origin a.fact_id == k)
        (b.kind == kind_agent_fact && fact_key b.origin b.fact_id == k) distinct)
  where
    distinct :
        (a.kind == kind_agent_fact && fact_key a.origin a.fact_id == k) ≡ true
        → (b.kind == kind_agent_fact && fact_key b.origin b.fact_id == k) ≡ true
        → a.seq ≢ b.seq
    distinct p q = ne (same_key p q)
      where
        same_key :
            (a.kind == kind_agent_fact && fact_key a.origin a.fact_id == k) ≡ true
            → (b.kind == kind_agent_fact && fact_key b.origin b.fact_id == k) ≡ true
            → fact_key a.origin a.fact_id ≡ fact_key b.origin b.fact_id
        same_key p q =
            ground (
              arith,
              eq_iff (fact_key a.origin a.fact_id) k,
              eq_iff (fact_key b.origin b.fact_id) k,
            )

    by_keys :
        (p q : Bool)
        → (p ≡ true → q ≡ true → a.seq ≢ b.seq)
        → held (
            if q
            then merge_fact n2 b (if p then merge_fact n1 a (get k s.facts) else get k s.facts)
            else (if p then merge_fact n1 a (get k s.facts) else get k s.facts))
          ≡ held (
              if p
              then merge_fact m2 a (if q then merge_fact m1 b (get k s.facts) else get k s.facts)
              else (if q then merge_fact m1 b (get k s.facts) else get k s.facts))
    by_keys true true d =
        held_twice n1 n2 m1 m2 a b (get k s.facts) (num k) (d refl refl) h1 h2 h3 h4
    by_keys true false d = held_once n1 m2 a (get k s.facts) h1 h4
    by_keys false true d = held_once n2 m1 b (get k s.facts) h2 h3
    by_keys false false d = refl
