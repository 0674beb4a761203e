-- ===== src/Detail/Ref.antt =====
-- internal/p2p/rpc_fetch.go: `BuildDetailRef`, with url.PathEscape.
use Prim.Native.Char.{code}
use Prim.Native.String.{◌++◌ as append}
use openclaw_p2p.Prelude.{
  ℕ, ◌/◌, ◌%◌, ◌≡◌, refl, String, Bool, ◌&&◌, ◌||◌, List, [], ◌∷◌, leb, eqb, ltb, if◌then◌else◌,
}
use openclaw_p2p.Text.Print.{decimal, digit, utf8}

-- A character that url.PathEscape leaves alone.
abbrev pub is_path_char : ℕ → Bool
is_path_char c =
    (leb b'a' c && leb c b'z')
    || (leb b'A' c && leb c b'Z')
    || (leb b'0' c && leb c b'9')
    || eqb c b'-'
    || eqb c b'_'
    || eqb c b'.'
    || eqb c b'~'
    || eqb c b'$'
    || eqb c b'&'
    || eqb c b'+'
    || eqb c b':'
    || eqb c b'='
    || eqb c b'@'

abbrev pub hex_digit : ℕ → String
hex_digit d =
    if ltb d 10
    then digit d
    else if eqb d 10
    then "A"
    else if eqb d 11
    then "B"
    else if eqb d 12
    then "C"
    else if eqb d 13
    then "D"
    else if eqb d 14
    then "E"
    else "F"

abbrev pub percent : ℕ → String
percent byte = append "%" (append (hex_digit (byte / 16)) (hex_digit (byte % 16)))

abbrev pub percent_all : List ℕ → String
percent_all [] = ""
percent_all (b ∷ bs) = append (percent b) (percent_all bs)

unfoldable pub path_escape : String → String
path_escape String.[] = ""
path_escape (String.◌∷◌ c s) =
    let rest = path_escape s in
    if is_path_char (code c) then String.◌∷◌ c rest else append (percent_all (utf8 (code c))) rest

unfoldable pub build_detail_ref : String → String → String → ℕ → String
unfolding path_escape decimal
build_detail_ref peer_id kind object_id version = append "openagent://" (
    append peer_id (
      append "/"
        (append kind (append "/" (append (path_escape object_id) (append "/" (decimal version)))))))

build_detail_ref_test :
    build_detail_ref "12D3" "task" "task:a b/1" 7 ≡ "openagent://12D3/task/task:a%20b%2F1/7"
unfolding build_detail_ref
build_detail_ref_test = refl
