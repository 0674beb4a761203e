-- ===== src/Text/Print.antt =====
-- Texts that the program prints: decimal numbers (`%d`), joined parts, prefixes, UTF-8 bytes.
use Prim.Native.Char.{code}
use Prim.Native.String.{◌++◌ as append}
use openclaw_p2p.Prelude.{
  ℕ, zero, suc, ◌+◌, ◌/◌, ◌%◌, ◌≡◌, refl, String, List, [], ◌∷◌, ◌++◌, eqb, ltb, if◌then◌else◌,
}

abbrev pub digit : ℕ → String
digit d =
    if eqb d 0
    then "0"
    else if eqb d 1
    then "1"
    else if eqb d 2
    then "2"
    else if eqb d 3
    then "3"
    else if eqb d 4
    then "4"
    else if eqb d 5
    then "5"
    else if eqb d 6
    then "6"
    else if eqb d 7
    then "7"
    else if eqb d 8
    then "8"
    else "9"

-- fmt.Sprintf("%d", n): the digits of `n`, with `n + 1` rounds of fuel, more than it has digits
unfoldable pub digits_of : ℕ → ℕ → String
digits_of zero n = ""
digits_of (suc f) n =
    let front = digits_of f (n / 10) in if ltb n 10 then digit n else append front (digit (n % 10))

unfoldable pub decimal : ℕ → String
unfolding digits_of
decimal n = digits_of (suc n) n

-- strings.Join(parts, separator)
unfoldable pub join : String → List String → String
join sep [] = ""
join sep (part ∷ []) = part
join sep (part ∷ next ∷ rest) = append part (append sep (join sep (next ∷ rest)))

-- s[:n]
unfoldable pub first_chars : ℕ → String → String
first_chars zero s = ""
first_chars (suc n) String.[] = ""
first_chars (suc n) (String.◌∷◌ c s) = String.◌∷◌ c (first_chars n s)

-- []byte(s): UTF-8
abbrev pub utf8 : ℕ → List ℕ
utf8 c =
    if ltb c 0x80
    then c ∷ []
    else if ltb c 0x800
    then (0xc0 + c / 64) ∷ (0x80 + c % 64) ∷ []
    else if ltb c 0x10000
    then (0xe0 + c / 4096) ∷ (0x80 + c / 64 % 64) ∷ (0x80 + c % 64) ∷ []
    else (0xf0 + c / 262144) ∷ (0x80 + c / 4096 % 64) ∷ (0x80 + c / 64 % 64) ∷ (0x80 + c % 64) ∷ []

unfoldable pub bytes_of : String → List ℕ
bytes_of String.[] = []
bytes_of (String.◌∷◌ c s) = utf8 (code c) ++ bytes_of s

decimal_test : decimal 40213 ≡ "40213"
unfolding decimal
decimal_test = refl

bytes_of_test : bytes_of "aé" ≡ 97 ∷ 0xc3 ∷ 0xa9 ∷ []
unfolding bytes_of
bytes_of_test = refl

join_test : join "::" ("a" ∷ "b" ∷ "c" ∷ []) ≡ "a::b::c"
unfolding join
join_test = refl
