-- ===== src/GoMap.antt =====
-- Go's `map[string]V` as an association list: lookup, assignment, `delete`, and the entries that a
-- `range` loop visits. Go fixes no order of iteration, so a loop takes the order that it follows.
pub mod Laws
use openclaw_p2p.Prelude.{String, ◌≡◌, List, [], ◌∷◌, Option, none, some, ◌==◌, if◌then◌else◌}

abbrev pub GoMap {ℓ} : Type ℓ → Type ℓ
GoMap V = List (String × V)

module _ {ℓ} {V : Type ℓ} where
  -- v, ok := m[k]
  unfoldable pub get : String → GoMap V → Option V
  get k [] = none
  get k ((j, v) ∷ m) = if j == k then some v else get k m

  -- m[k] = v
  unfoldable pub put : String → V → GoMap V → GoMap V
  put k v [] = (k, v) ∷ []
  put k v ((j, w) ∷ m) = if j == k then (k, v) ∷ m else (j, w) ∷ put k v m

  -- delete(m, k)
  unfoldable pub delete : String → GoMap V → GoMap V
  delete k [] = []
  delete k ((j, w) ∷ m) = let rest = delete k m in if j == k then rest else (j, w) ∷ rest

  -- A Go map has one entry for each key.
  abbrev pub Distinct : GoMap V → Type ℓ
  Distinct [] = Unit
  Distinct ((k, v) ∷ m) = (get k m ≡ none) × Distinct m

  -- `order` is an order in which `range m` may visit the entries of `m`.
  pub record IsRange (order m : GoMap V) : Type ℓ where
    pub distinct : Distinct order
    pub same : (k : String) → get k order ≡ get k m
