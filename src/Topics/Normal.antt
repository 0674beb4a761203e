-- ===== src/Topics/Normal.antt =====
-- What `normalizeTopics` returns.
use openclaw_p2p.Text.Trim.{trim_space_idem}
use openclaw_p2p.Text.{trim_space}
use openclaw_p2p.Prelude.{
  true, ne_of_test, leb_ℤ, ◌&&◌, ltb_ℤ, inr, eq_iff, inl, suc, ◌||◌, pos, ◌≤◌, arith, ◌==◌, ◌+◌,
  Bool-cases, refl, length, false, if◌then◌else◌, ◌<◌, All, ◌≢◌, ℤ, List, ℕ, ◌≡◌, [], ◌∷◌, String,
  Bool,
}
use openclaw_p2p.Topics.{
  topics_or_taxonomy, general_topic, or_general, has, normal_from, normalize_topics,
}
use openclaw_p2p.Topics.Unique.{IsFresh}

-- Every text is its own trimmed form.
abbrev pub AreTrimmed : List String → Type 0
AreTrimmed = All (λ t. trim_space t ≡ t)

normal_from-IsFresh :
    (limit : ℤ) (kept : ℕ) (seen xs : List String) → IsFresh seen (normal_from limit kept seen xs)
unfolding normal_from
normal_from-IsFresh limit kept seen [] = tt
normal_from-IsFresh limit kept seen (x ∷ xs) = elim (Bool-cases (trim_space x == "")) [
  | inl e ↦ rw e (normal_from-IsFresh limit kept seen xs)
  | inr e ↦ elim (Bool-cases (has seen (trim_space x))) [
    | inl h ↦ rw (e, h) (normal_from-IsFresh limit kept seen xs)
    | inr h ↦
        rw (e, h)
          (put_out (ltb_ℤ (pos 0) limit && leb_ℤ limit (pos (suc kept))) _ _
            (ne_of_test (trim_space x) "" e) h
            (normal_from-IsFresh limit (suc kept) (trim_space x ∷ seen) xs))
  ]
]
  where
    put_out :
        (stop : Bool) {t : String} (rest seen : List String)
        → t ≢ ""
        → has seen t ≡ false
        → IsFresh (t ∷ seen) rest
        → IsFresh seen (if stop then t ∷ [] else t ∷ rest)
    put_out true rest seen n h f = (n, h, tt)
    put_out false rest seen n h f = (n, h, f)

normal_from-AreTrimmed :
    (limit : ℤ) (kept : ℕ) (seen xs : List String) → AreTrimmed (normal_from limit kept seen xs)
unfolding normal_from
normal_from-AreTrimmed limit kept seen [] = tt
normal_from-AreTrimmed limit kept seen (x ∷ xs) =
    elim (Bool-cases (trim_space x == "" || has seen (trim_space x))) [
      | inl e ↦ rw e (normal_from-AreTrimmed limit kept seen xs)
      | inr e ↦ rw e (
          put_out (ltb_ℤ (pos 0) limit && leb_ℤ limit (pos (suc kept))) _ (trim_space_idem x)
            (normal_from-AreTrimmed limit (suc kept) (trim_space x ∷ seen) xs))
    ]
  where
    put_out :
        (stop : Bool) {t : String} (rest : List String)
        → trim_space t ≡ t
        → AreTrimmed rest
        → AreTrimmed (if stop then t ∷ [] else t ∷ rest)
    put_out true rest n f = (n, tt)
    put_out false rest n f = (n, f)

-- With a positive limit, the texts put out before and now are at most as many.
length-normal_from :
    (limit kept : ℕ) (seen xs : List String)
    → kept < limit
    → kept + length (normal_from (pos limit) kept seen xs) ≤ limit
unfolding normal_from
length-normal_from limit kept seen [] h = omega arith
length-normal_from limit kept seen (x ∷ xs) h = ground (
  arith,
  length-normal_from limit kept seen xs,
  length-normal_from limit (suc kept) (trim_space x ∷ seen) xs,
)

or_general-IsFresh : (xs : List String) → IsFresh [] xs → IsFresh [] (or_general xs)
or_general-IsFresh [] f = (general_set, refl, tt)
  where
    general_set : general_topic ≢ ""
    general_set = ground (arith, eq_iff general_topic "")
or_general-IsFresh (x ∷ xs) f = f

or_general-AreTrimmed : (xs : List String) → AreTrimmed xs → AreTrimmed (or_general xs)
unfolding trim_space
or_general-AreTrimmed [] f = (refl, tt)
or_general-AreTrimmed (x ∷ xs) f = f

or_general-length :
    (xs : List String) (limit : ℕ)
    → 0 < limit
    → length xs ≤ limit
    → (0 < length (or_general xs)) × (length (or_general xs) ≤ limit)
or_general-length [] limit p h = omega arith
or_general-length (x ∷ xs) limit p h = omega arith

-- Whatever topics and taxonomy are given, `normalizeTopics` with a positive limit returns at least
-- one topic and at most the limit; the topics are not empty, have no space at either end, and none
-- comes twice.
pub normalize_topics_lem :
    (topics : List String) (taxonomy : String) (limit : ℕ)
    → 0 < limit
    → (0 < length (normalize_topics topics taxonomy (pos limit)))
      × (length (normalize_topics topics taxonomy (pos limit)) ≤ limit)
      × IsFresh [] (normalize_topics topics taxonomy (pos limit))
      × AreTrimmed (normalize_topics topics taxonomy (pos limit))
unfolding normalize_topics
normalize_topics_lem topics taxonomy limit p =
    let given = topics_or_taxonomy topics taxonomy in
    let found = normal_from (pos limit) 0 [] given in
    let (some_topic, fits) =
      or_general-length found limit p (omega (arith, length-normal_from limit 0 [] given p)) in
    (
      some_topic,
      fits,
      or_general-IsFresh found (normal_from-IsFresh (pos limit) 0 [] given),
      or_general-AreTrimmed found (normal_from-AreTrimmed (pos limit) 0 [] given),
    )
