-- ===== src/Detail/Path.antt =====
-- url.PathUnescape and path.Clean, on the bytes of a text, and strings.Trim and strings.Split at "/".
use openclaw_p2p.Error.{bad_escape, err, ok, Result}
use openclaw_p2p.Sae.Libs.{Bytes}
use mathlib.Core.List.{reverse}
use openclaw_p2p.Error.{◌>>=◌}
use openclaw_p2p.Prelude.{
  ◌*◌, none, ◌+◌, ◌-◌, some, ◌&&◌, not, leb, ◌||◌, eqb, ◌++◌, true, false, if◌then◌else◌, Option,
  List, Bool, ℕ, [], ◌∷◌,
}

-- a == b
abbrev pub eq_bytes : Bytes → Bytes → Bool
eq_bytes [] [] = true
eq_bytes (a ∷ as') (b ∷ bs) = eqb a b && eq_bytes as' bs
eq_bytes [] (b ∷ bs) = false
eq_bytes (a ∷ as') [] = false

abbrev pub unhex : ℕ → Option ℕ
unhex c =
    if leb b'0' c && leb c b'9'
    then some (c - b'0')
    else if leb b'a' c && leb c b'f'
    then some (c - b'a' + 10)
    else if leb b'A' c && leb c b'F'
    then some (c - b'A' + 10)
    else none

-- the byte of two hexadecimal digits, before the rest
abbrev pub hex_byte : Option ℕ → Option ℕ → Result Bytes → Result Bytes
hex_byte (some high) (some low) rest = do s ← rest; ok ((high * 16 + low) ∷ s)
hex_byte none low rest = err bad_escape
hex_byte (some high) none rest = err bad_escape

-- url.PathUnescape
unfoldable pub path_unescape : Bytes → Result Bytes
path_unescape [] = ok []
path_unescape (c ∷ []) = if eqb c b'%' then err bad_escape else ok (c ∷ [])
path_unescape (c ∷ a ∷ []) =
    let plain = (do s ← path_unescape (a ∷ []); ok (c ∷ s)) in
    if eqb c b'%' then err bad_escape else plain
path_unescape (c ∷ a ∷ b ∷ rest) =
    let escaped = hex_byte (unhex a) (unhex b) (path_unescape rest) in
    let plain = (do s ← path_unescape (a ∷ b ∷ rest); ok (c ∷ s)) in
    if eqb c b'%' then escaped else plain

-- strings.Split(s, "/")
abbrev pub push_byte : ℕ → List Bytes → List Bytes
push_byte c [] = (c ∷ []) ∷ []
push_byte c (part ∷ parts) = (c ∷ part) ∷ parts

unfoldable pub split_slash : Bytes → List Bytes
split_slash [] = [] ∷ []
split_slash (c ∷ s) =
    let parts = split_slash s in if eqb c b'/' then [] ∷ parts else push_byte c parts

-- strings.Trim(s, "/")
unfoldable pub trim_slashes_left : Bytes → Bytes
trim_slashes_left [] = []
trim_slashes_left (c ∷ s) = let rest = trim_slashes_left s in if eqb c b'/' then rest else c ∷ s

abbrev pub keep_byte : ℕ → Bytes → Bytes
keep_byte c [] = if eqb c b'/' then [] else c ∷ []
keep_byte c (d ∷ s) = c ∷ d ∷ s

unfoldable pub trim_slashes_right : Bytes → Bytes
trim_slashes_right [] = []
trim_slashes_right (c ∷ s) = keep_byte c (trim_slashes_right s)

unfoldable pub trim_slashes : Bytes → Bytes
unfolding trim_slashes_left trim_slashes_right
trim_slashes s = trim_slashes_right (trim_slashes_left s)

abbrev pub dot : Bytes
dot = b'.' ∷ []

abbrev pub dot_dot : Bytes
dot_dot = b'.' ∷ b'.' ∷ []

-- a part that path.Clean removes or resolves
abbrev pub is_special : Bytes → Bool
is_special part = eq_bytes part [] || eq_bytes part dot || eq_bytes part dot_dot

-- "..", on the parts so far, the last one first
abbrev pub parent : Bool → List Bytes → List Bytes
parent true [] = []
parent false [] = dot_dot ∷ []
parent rooted (top ∷ below) =
    if not rooted && eq_bytes top dot_dot then dot_dot ∷ top ∷ below else below

abbrev pub clean_part : Bool → List Bytes → Bytes → List Bytes
clean_part rooted stack part =
    if eq_bytes part [] || eq_bytes part dot
    then stack
    else if eq_bytes part dot_dot
    then parent rooted stack
    else part ∷ stack

unfoldable pub clean_parts : Bool → List Bytes → List Bytes → List Bytes
clean_parts rooted stack [] = reverse stack
clean_parts rooted stack (part ∷ parts) = clean_parts rooted (clean_part rooted stack part) parts

-- strings.Join(parts, "/")
unfoldable pub join_slash : List Bytes → Bytes
join_slash [] = []
join_slash (part ∷ []) = part
join_slash (part ∷ next ∷ parts) = part ++ (b'/' ∷ join_slash (next ∷ parts))

abbrev pub is_rooted : Bytes → Bool
is_rooted [] = false
is_rooted (c ∷ s) = eqb c b'/'

abbrev pub or_dot : Bytes → Bytes
or_dot [] = dot
or_dot (c ∷ s) = c ∷ s

-- path.Clean
unfoldable pub clean_path : Bytes → Bytes
unfolding clean_parts join_slash split_slash
clean_path path =
    let rooted = is_rooted path in
    let cleaned = join_slash (clean_parts rooted [] (split_slash path)) in
    if rooted then b'/' ∷ cleaned else or_dot cleaned
