-- ===== src/Text.antt =====
-- The functions of Go's `strings` package that the program calls, on texts of Unicode code points.
-- Go strings that are not valid UTF-8 are outside of the model (JSON decoding yields none).
pub mod Trim
pub mod Print
use Prim.Native.Char.{Char, code}
use openclaw_p2p.Prelude.{
  ℕ, ◌≡◌, String, Bool, true, false, ◌||◌, ◌&&◌, List, [], ◌∷◌, leb, eqb, if◌then◌else◌,
}

-- unicode.IsSpace
abbrev pub is_space : ℕ → Bool
is_space c =
    (leb 9 c && leb c 13)
    || eqb c 32
    || eqb c 0x85
    || eqb c 0xa0
    || eqb c 0x1680
    || (leb 0x2000 c && leb c 0x200a)
    || eqb c 0x2028
    || eqb c 0x2029
    || eqb c 0x202f
    || eqb c 0x205f
    || eqb c 0x3000

abbrev pub is_dot : ℕ → Bool
is_dot c = eqb c b'.'

-- strings.TrimLeftFunc, TrimRightFunc and TrimFunc
unfoldable pub trim_left : (ℕ → Bool) → String → String
trim_left p String.[] = ""
trim_left p (String.◌∷◌ c s) =
    let rest = trim_left p s in if p (code c) then rest else String.◌∷◌ c s

-- the rest of a character, unless it and all behind it are trimmed
abbrev pub keep_char : Bool → Char → String → String
keep_char true c String.[] = ""
keep_char true c (String.◌∷◌ d s) = String.◌∷◌ c (String.◌∷◌ d s)
keep_char false c s = String.◌∷◌ c s

unfoldable pub trim_right : (ℕ → Bool) → String → String
trim_right p String.[] = ""
trim_right p (String.◌∷◌ c s) = keep_char (p (code c)) c (trim_right p s)

unfoldable pub trim : (ℕ → Bool) → String → String
unfolding trim_left trim_right
trim p s = trim_right p (trim_left p s)

unfoldable pub trim_space : String → String
unfolding trim
trim_space = trim is_space

-- strings.Split at a separator of one character
abbrev pub push_char : Char → List String → List String
push_char c [] = (String.◌∷◌ c "") ∷ []
push_char c (s ∷ rest) = (String.◌∷◌ c s) ∷ rest

unfoldable pub split : (ℕ → Bool) → String → List String
split p String.[] = "" ∷ []
split p (String.◌∷◌ c s) =
    let rest = split p s in if p (code c) then "" ∷ rest else push_char c rest

-- strings.HasPrefix(s, prefix) and strings.Contains(s, part)
unfoldable pub has_prefix : String → String → Bool
has_prefix s String.[] = true
has_prefix String.[] (String.◌∷◌ d prefix) = false
has_prefix (String.◌∷◌ c s) (String.◌∷◌ d prefix) = eqb (code c) (code d) && has_prefix s prefix

unfoldable pub contains : String → String → Bool
unfolding has_prefix
contains String.[] part = has_prefix "" part
contains (String.◌∷◌ c s) part = has_prefix (String.◌∷◌ c s) part || contains s part
