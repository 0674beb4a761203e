-- ===== src/Topics/Unique.antt =====
-- `uniqueStrings` keeps each text that is not empty once, at its first place.
use openclaw_p2p.Prelude.{
  ne_of_test, refl, eq_iff, inr, inl, arith, not, ◌==◌, false, Bool-cases, ◌&&◌, ◌≢◌, List, ◌≡◌, [],
  ◌∷◌, String,
}
use openclaw_p2p.Topics.{has, unique_from, unique_strings}

-- No text of the list is in `seen`, none is empty, and none comes twice.
abbrev pub IsFresh : List String → List String → Type 0
IsFresh seen [] = Unit
IsFresh seen (x ∷ xs) = (x ≢ "") × (has seen x ≡ false) × IsFresh (x ∷ seen) xs

unique_from-IsFresh : (seen xs : List String) → IsFresh seen (unique_from seen xs)
unfolding unique_from
unique_from-IsFresh seen [] = tt
unique_from-IsFresh seen (x ∷ xs) = elim (Bool-cases (x == "")) [
  | inl e ↦ rw e (unique_from-IsFresh seen xs)
  | inr e ↦ elim (Bool-cases (has seen x)) [
    | inl h ↦ rw (e, h) (unique_from-IsFresh seen xs)
    | inr h ↦ rw (e, h) (ne_of_test x "" e, h, unique_from-IsFresh (x ∷ seen) xs)
  ]
]

has-unique_from :
    (seen xs : List String) (y : String)
    → has (unique_from seen xs) y ≡ (has xs y && not (y == "") && not (has seen y))
unfolding unique_from
has-unique_from seen [] y = refl
has-unique_from seen (x ∷ xs) y = ground (
  arith,
  has-unique_from seen xs y,
  has-unique_from (x ∷ seen) xs y,
  eq_iff x y,
  eq_iff x "",
  eq_iff y "",
)

-- The result of `uniqueStrings` holds exactly the texts of the input that are not empty, each of
-- them once.
pub unique_strings_lem :
    (xs : List String)
    → IsFresh [] (unique_strings xs)
      × ((y : String) → has (unique_strings xs) y ≡ (has xs y && not (y == "")))
unfolding unique_strings
unique_strings_lem xs = (unique_from-IsFresh [] xs, (λ y. ground (arith, has-unique_from [] xs y)))
