-- ===== src/Topics/Tests.antt =====
-- Runs of `uniqueStrings`, `normalizeTopics` and `TopicsFromTaxonomy`.
use openclaw_p2p.Topics.Normal.{normalize_topics_lem, AreTrimmed}
use openclaw_p2p.Topics.Taxonomy.{topics_from_taxonomy_lem, levels, paths}
use openclaw_p2p.Text.{split, is_dot, trim, trim_space}
use openclaw_p2p.Topics.{has, or_general, normalize_topics, topics_from_taxonomy, unique_strings}
use openclaw_p2p.Topics.Unique.{unique_strings_lem, IsFresh}
use openclaw_p2p.Prelude.{
  ◌==◌, arith, not, ne_of_test, ◌≢◌, ◌&&◌, refl, ◌∷◌, ◌≤◌, String, length, [], ◌≡◌, List, ◌<◌, pos,
}

abbrev repeated : List String
repeated = "a" ∷ "" ∷ "b" ∷ "a" ∷ []

unique_strings_test : unique_strings repeated ≡ "a" ∷ "b" ∷ []
unfolding unique_strings
unique_strings_test = refl

unique_strings_lem_test :
    IsFresh [] (unique_strings repeated)
    × ((y : String) → has (unique_strings repeated) y ≡ (has repeated y && not (y == "")))
unique_strings_lem_test = unique_strings_lem repeated

normalize_topics_test :
    normalize_topics [] "dev.build" (pos 8) ≡ "openagent/v1/dev" ∷ "openagent/v1/dev/build" ∷ []
unfolding normalize_topics trim_space split
normalize_topics_test = refl

normalize_topics_lem_example :
    (0 < length (normalize_topics repeated "dev.build" (pos 8)))
    × (length (normalize_topics repeated "dev.build" (pos 8)) ≤ 8)
    × IsFresh [] (normalize_topics repeated "dev.build" (pos 8))
    × AreTrimmed (normalize_topics repeated "dev.build" (pos 8))
normalize_topics_lem_example = normalize_topics_lem repeated "dev.build" 8 (ground arith)

dev_build : trim_space (trim is_dot "dev.build.") ≢ ""
unfolding trim_space
dev_build = ne_of_test "dev.build" "" refl

topics_from_taxonomy_lem_example :
    topics_from_taxonomy "dev.build."
    ≡ or_general
        (paths "openagent/v1" (levels (split is_dot (trim_space (trim is_dot "dev.build.")))))
topics_from_taxonomy_lem_example = topics_from_taxonomy_lem "dev.build." dev_build
