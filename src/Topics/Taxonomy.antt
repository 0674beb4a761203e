-- ===== src/Topics/Taxonomy.antt =====
-- What `TopicsFromTaxonomy` returns: one topic for each level of the taxonomy.
use openclaw_p2p.Text.{split, is_dot, trim, trim_space}
use Prim.Native.String.{◌++◌ as append}
use openclaw_p2p.Prelude.{
  test_of_ne, refl, ap, inr, ◌≢◌, inl, ◌==◌, Bool-cases, List, ◌≡◌, [], ◌∷◌, String, if◌then◌else◌,
}
use openclaw_p2p.Topics.{or_general, prefixes_from, topics_from_taxonomy}

-- The names of the levels: the parts between dots, trimmed, without the blank ones.
abbrev pub levels : List String → List String
levels [] = []
levels (part ∷ rest) =
    let name = trim_space part in
    let others = levels rest in if name == "" then others else name ∷ others

-- The paths to each of the levels below a prefix.
abbrev pub paths : String → List String → List String
paths prefix [] = []
paths prefix (name ∷ rest) =
    append prefix (append "/" name) ∷ paths (append prefix (append "/" name)) rest

prefixes_from_lem :
    (prefix : String) (parts : List String)
    → prefixes_from prefix parts ≡ paths prefix (levels parts)
unfolding prefixes_from
prefixes_from_lem prefix [] = refl
prefixes_from_lem prefix (part ∷ rest) = elim (Bool-cases (trim_space part == "")) [
  | inl e ↦ rw e (prefixes_from_lem prefix rest)
  | inr e ↦ rw e (
      ap (◌∷◌ (append prefix (append "/" (trim_space part))))
        (prefixes_from_lem (append prefix (append "/" (trim_space part))) rest))
]

-- The topics of a taxonomy that is not blank are the paths openagent/v1/a, openagent/v1/a/b, … to
-- its levels, the parts between its dots that are not blank; with no such part, the general topic.
pub topics_from_taxonomy_lem :
    (taxonomy : String)
    → trim_space (trim is_dot taxonomy) ≢ ""
    → topics_from_taxonomy taxonomy
      ≡ or_general
          (paths "openagent/v1" (levels (split is_dot (trim_space (trim is_dot taxonomy)))))
unfolding topics_from_taxonomy
topics_from_taxonomy_lem taxonomy h = rw (
  test_of_ne _ "" h,
  prefixes_from_lem "openagent/v1" (split is_dot (trim_space (trim is_dot taxonomy))),
)
