-- ===== src/Topics.antt =====
-- Lists of topics: `uniqueStrings` of internal/p2p/gossip.go, `normalizeTopics` and
-- `TopicsFromTaxonomy` of internal/p2p/node.go. The Go maps `seen` are lists of what was seen.
pub mod Unique
pub mod Normal
pub mod Taxonomy
pub mod Tests
use Prim.Native.String.{◌++◌ as append}
use openclaw_p2p.Prelude.{
  ℕ, suc, ◌+◌, ℤ, pos, String, Bool, true, false, ◌&&◌, ◌||◌, List, [], ◌∷◌, ◌==◌, leb_ℤ, ltb_ℤ,
  if◌then◌else◌,
}
use openclaw_p2p.Text.{trim, is_dot, trim_space, split}

-- _, ok := seen[item]
abbrev pub has : List String → String → Bool
has [] item = false
has (x ∷ xs) item = x == item || has xs item

-- the rest of the loop of `uniqueStrings`
unfoldable pub unique_from : List String → List String → List String
unique_from seen [] = []
unique_from seen (item ∷ rest) =
    let skip = item == "" || has seen item in
    let others = unique_from (if skip then seen else item ∷ seen) rest in
    if skip then others else item ∷ others

unfoldable pub unique_strings : List String → List String
unfolding unique_from
unique_strings = unique_from []

abbrev pub general_topic : String
general_topic = "openagent/v1/general"

-- the loop of `TopicsFromTaxonomy`
unfoldable pub prefixes_from : String → List String → List String
prefixes_from prefix [] = []
prefixes_from prefix (part ∷ rest) =
    let name = trim_space part in
    let next = if name == "" then prefix else append prefix (append "/" name) in
    let others = prefixes_from next rest in if name == "" then others else next ∷ others

abbrev pub or_general : List String → List String
or_general [] = general_topic ∷ []
or_general (t ∷ ts) = t ∷ ts

unfoldable pub topics_from_taxonomy : String → List String
unfolding prefixes_from
topics_from_taxonomy taxonomy =
    let clean = trim_space (trim is_dot taxonomy) in
    if clean == ""
    then general_topic ∷ []
    else or_general (prefixes_from "openagent/v1" (split is_dot clean))

-- the rest of the loop of `normalizeTopics`, after `kept` topics were put out
unfoldable pub normal_from : ℤ → ℕ → List String → List String → List String
normal_from limit kept seen [] = []
normal_from limit kept seen (topic ∷ rest) =
    let t = trim_space topic in
    let skip = t == "" || has seen t in
    let others =
      normal_from limit (if skip then kept else suc kept) (if skip then seen else t ∷ seen) rest in
    if skip
    then others
    else if ltb_ℤ (pos 0) limit && leb_ℤ limit (pos (suc kept))
    then t ∷ []
    else t ∷ others

abbrev topics_or_taxonomy : List String → String → List String
topics_or_taxonomy [] taxonomy = topics_from_taxonomy taxonomy
topics_or_taxonomy (t ∷ ts) taxonomy = t ∷ ts

unfoldable pub normalize_topics : List String → String → ℤ → List String
unfolding topics_from_taxonomy normal_from
normalize_topics topics taxonomy limit =
    or_general (normal_from limit 0 [] (topics_or_taxonomy topics taxonomy))
