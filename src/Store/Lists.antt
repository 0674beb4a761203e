-- ===== src/Store/Lists.antt =====
-- internal/p2p/store.go: `TaskStates`, `FactStates`, `Peers` and `Negotiations`, each on an order in
-- which Go may visit its map.
use openclaw_p2p.Store.State.{Store, KnownPeer, NegotiationSession, TaskState, FactState}
use openclaw_p2p.GoMap.{IsRange, get, GoMap}
use openclaw_p2p.Prelude.{◌∙◌, ◌==◌, Bool-cases, String, ◌⊎◌, ◌≡◌, inl, inr, [], ◌∷◌, some, List}

abbrev pub values : {V : Type 0} → GoMap V → List V
values [] = []
values ((k, v) ∷ rest) = v ∷ values rest

unfoldable pub task_states : GoMap TaskState → List TaskState
task_states order = values order

unfoldable pub fact_states : GoMap FactState → List FactState
fact_states order = values order

unfoldable pub known_peers : GoMap KnownPeer → List KnownPeer
known_peers order = values order

unfoldable pub negotiation_sessions : GoMap NegotiationSession → List NegotiationSession
negotiation_sessions order = values order

-- A value of a list.
abbrev pub IsListed : {V : Type 0} → V → List V → Type 0
IsListed v [] = ⊥
IsListed v (w ∷ rest) = (w ≡ v) ⊎ IsListed v rest

listed :
    {V : Type 0} (k : String) (v : V) (order : GoMap V)
    → get k order ≡ some v
    → IsListed v (values order)
unfolding get
listed k v [] h = cc h
listed k v ((j, w) ∷ rest) h = elim (Bool-cases (j == k)) [
  | inl e ↦ inl (let same = rw e at h in cc same)
  | inr e ↦ inr (listed k v rest (rw e at h))
]

-- `TaskStates` lists every task that the store holds, in whatever order Go visits the map.
pub task_states_complete :
    (order : GoMap TaskState) (s : Store) (k : String) (t : TaskState)
    → IsRange order s.tasks
    → get k s.tasks ≡ some t
    → IsListed t (task_states order)
unfolding task_states
task_states_complete order s k t r h = listed k t order (r.same k ∙ h)
