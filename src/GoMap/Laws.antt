-- ===== src/GoMap/Laws.antt =====
-- The laws of Go maps that the components use.
use openclaw_p2p.Prelude.{
  String, ◌≡◌, refl, [], ◌∷◌, none, some, arith, ◌==◌, eq_iff, if◌then◌else◌,
}
use openclaw_p2p.GoMap.{GoMap, get, put, delete, Distinct, IsRange}

module _ {ℓ} {V : Type ℓ} where
  pub get-put :
      (j k : String) (v : V) (m : GoMap V)
      → get j (put k v m) ≡ (if k == j then some v else get j m)
  unfolding get put
  get-put j k v [] = refl
  get-put j k v ((i, w) ∷ m) = ground (arith, eq_iff k j, eq_iff i k, eq_iff i j, get-put j k v m)

  pub get-delete :
      (j k : String) (m : GoMap V) → get j (delete k m) ≡ (if k == j then none else get j m)
  unfolding get delete
  get-delete j k [] = ground arith
  get-delete j k ((i, w) ∷ m) = ground (arith, eq_iff k j, eq_iff i k, eq_iff i j, get-delete j k m)

  pub put-Distinct : (k : String) (v : V) (m : GoMap V) → Distinct m → Distinct (put k v m)
  unfolding put get
  put-Distinct k v [] d = (refl, tt)
  put-Distinct k v ((j, w) ∷ m) d =
      ground (arith, eq_iff j k, eq_iff k j, get-put j k v m, put-Distinct k v m d.1)

  pub delete-Distinct : (k : String) (m : GoMap V) → Distinct m → Distinct (delete k m)
  unfolding delete
  delete-Distinct k [] d = tt
  delete-Distinct k ((j, w) ∷ m) d = ground (arith, get-delete j k m, delete-Distinct k m d.1)

  pub IsRange-refl : (m : GoMap V) → Distinct m → IsRange m m
  IsRange-refl m d = record { distinct = d; same = λ k. refl }

pub ruleset map_laws = (get-put, get-delete)
