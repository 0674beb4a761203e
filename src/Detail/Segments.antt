-- ===== src/Detail/Segments.antt =====
-- A path of three segments, none of them special and all without slashes and percent signs, is clean.
use openclaw_p2p.Detail.Ref.{is_path_char}
use openclaw_p2p.Detail.Plain.{PlainBytes}
use openclaw_p2p.Detail.Path.{
  join_slash, clean_parts, clean_part, trim_slashes, keep_byte, is_special, clean_path, split_slash,
  path_unescape, trim_slashes_left, trim_slashes_right,
}
use openclaw_p2p.Sae.Libs.{Bytes}
use openclaw_p2p.Error.{ok}
use openclaw_p2p.Prelude.{arith, eqb, refl, ap, All, ◌∙◌, List, ℕ, ◌≡◌, [], ◌∷◌, ◌++◌, true, false}

abbrev NoSlash : Bytes → Type 0
NoSlash = All (λ b. eqb b b'/' ≡ false)

abbrev NoPercent : Bytes → Type 0
NoPercent = All (λ b. eqb b b'%' ≡ false)

abbrev IsCons : Bytes → Type 0
IsCons [] = ⊥
IsCons (b ∷ bs) = Unit

plain_byte : (b : ℕ) → is_path_char b ≡ true → (eqb b b'/' ≡ false) × (eqb b b'%' ≡ false)
plain_byte b h = (ground arith, ground arith)

plain-NoSlash : (bs : Bytes) → PlainBytes bs → NoSlash bs
plain-NoSlash [] h = tt
plain-NoSlash (b ∷ bs) (h, hs) = ((plain_byte b h).0, plain-NoSlash bs hs)

pub plain-NoPercent : (bs : Bytes) → PlainBytes bs → NoPercent bs
plain-NoPercent [] h = tt
plain-NoPercent (b ∷ bs) (h, hs) = ((plain_byte b h).1, plain-NoPercent bs hs)

NoPercent-append : (xs ys : Bytes) → NoPercent xs → NoPercent ys → NoPercent (xs ++ ys)
NoPercent-append [] ys h g = g
NoPercent-append (x ∷ xs) ys (h, hs) g = (h, NoPercent-append xs ys hs g)

pub path_unescape-NoPercent : (bs : Bytes) → NoPercent bs → path_unescape bs ≡ ok bs
unfolding path_unescape
path_unescape-NoPercent [] h = refl
path_unescape-NoPercent (c ∷ []) (h, t) = rw h refl
path_unescape-NoPercent (c ∷ a ∷ []) (h, hs) = rw (h, path_unescape-NoPercent (a ∷ []) hs) refl
path_unescape-NoPercent (c ∷ a ∷ b ∷ rest) (h, hs) =
    rw (h, path_unescape-NoPercent (a ∷ b ∷ rest) hs) refl

split_slash-NoSlash : (xs : Bytes) → NoSlash xs → split_slash xs ≡ xs ∷ []
unfolding split_slash
split_slash-NoSlash [] h = refl
split_slash-NoSlash (x ∷ xs) (h, hs) = rw (h, split_slash-NoSlash xs hs) refl

split_slash-append :
    (xs ys : Bytes) → NoSlash xs → split_slash (xs ++ (b'/' ∷ ys)) ≡ xs ∷ split_slash ys
unfolding split_slash
split_slash-append [] ys h = refl
split_slash-append (x ∷ xs) ys (h, hs) = rw (h, split_slash-append xs ys hs) refl

clean_part-plain :
    (stack : List Bytes) (part : Bytes)
    → is_special part ≡ false
    → clean_part true stack part ≡ part ∷ stack
clean_part-plain stack part h = ground arith

not_special-IsCons : (part : Bytes) → is_special part ≡ false → IsCons part
not_special-IsCons [] h = cc h
not_special-IsCons (b ∷ bs) h = tt

IsCons-append : (xs ys : Bytes) → IsCons ys → IsCons (xs ++ ys)
IsCons-append [] ys h = h
IsCons-append (x ∷ xs) ys h = tt

keep_byte-IsCons : (x : ℕ) (bs : Bytes) → IsCons bs → keep_byte x bs ≡ x ∷ bs
keep_byte-IsCons x [] h = absurd h
keep_byte-IsCons x (b ∷ bs) h = refl

trim_slashes_right-NoSlash : (bs : Bytes) → IsCons bs → NoSlash bs → trim_slashes_right bs ≡ bs
unfolding trim_slashes_right
trim_slashes_right-NoSlash [] h n = refl
trim_slashes_right-NoSlash (b ∷ []) h (n, t) = rw n refl
trim_slashes_right-NoSlash (b ∷ c ∷ bs) h (n, ns) =
    ap (keep_byte b) (trim_slashes_right-NoSlash (c ∷ bs) tt ns)

trim_slashes_right-append :
    (xs ys : Bytes)
    → IsCons ys
    → trim_slashes_right ys ≡ ys
    → trim_slashes_right (xs ++ ys) ≡ xs ++ ys
unfolding trim_slashes_right
trim_slashes_right-append [] ys h e = e
trim_slashes_right-append (x ∷ xs) ys h e =
    ap (keep_byte x) (trim_slashes_right-append xs ys h e)
    ∙ keep_byte-IsCons x (xs ++ ys) (IsCons-append xs ys h)

trim_slashes_left-NoSlash :
    (xs ys : Bytes) → IsCons xs → NoSlash xs → trim_slashes_left (xs ++ ys) ≡ xs ++ ys
unfolding trim_slashes_left
trim_slashes_left-NoSlash [] ys h n = absurd h
trim_slashes_left-NoSlash (x ∷ xs) ys h (n, ns) = rw n refl

-- A segment of a path.
pub record IsSegment (bs : Bytes) : Type 0 where
  pub plain : PlainBytes bs
  pub not_special : is_special bs ≡ false

-- a/b/c
abbrev pub three : Bytes → Bytes → Bytes → Bytes
three a b c = a ++ (b'/' ∷ (b ++ (b'/' ∷ c)))

module _ (a b c : Bytes) (sa : IsSegment a) (sb : IsSegment b) (sc : IsSegment c) where
  pub split-three : split_slash (three a b c) ≡ a ∷ b ∷ c ∷ []
  split-three =
      split_slash-append a (b ++ (b'/' ∷ c)) (plain-NoSlash a sa.plain)
      ∙ ap (λ parts. a ∷ parts)
          (split_slash-append b c (plain-NoSlash b sb.plain)
            ∙ ap (λ parts. b ∷ parts) (split_slash-NoSlash c (plain-NoSlash c sc.plain)))

  pub clean_path-three : clean_path (b'/' ∷ three a b c) ≡ b'/' ∷ three a b c
  unfolding clean_path clean_parts split_slash join_slash
  clean_path-three =
      ap (λ (parts : List Bytes). b'/' ∷ join_slash (clean_parts true [] parts)) split-three
      ∙ (rw
          (
            clean_part-plain [] a sa.not_special,
            clean_part-plain (a ∷ []) b sb.not_special,
            clean_part-plain (b ∷ a ∷ []) c sc.not_special,
          )
          refl)

  pub trim_slashes-three : trim_slashes (b'/' ∷ three a b c) ≡ three a b c
  unfolding trim_slashes trim_slashes_left
  trim_slashes-three =
      ap trim_slashes_right (
        trim_slashes_left-NoSlash a (b'/' ∷ (b ++ (b'/' ∷ c))) (not_special-IsCons a sa.not_special)
          (plain-NoSlash a sa.plain))
      ∙ trim_slashes_right-append a (b'/' ∷ (b ++ (b'/' ∷ c))) tt (
          trim_slashes_right-append (b'/' ∷ []) (b ++ (b'/' ∷ c)) (IsCons-append b (b'/' ∷ c) tt) (
            trim_slashes_right-append b (b'/' ∷ c) tt (
              trim_slashes_right-append (b'/' ∷ []) c (not_special-IsCons c sc.not_special) (
                trim_slashes_right-NoSlash c (not_special-IsCons c sc.not_special)
                  (plain-NoSlash c sc.plain)))))

  pub path_unescape-three : path_unescape (b'/' ∷ three a b c) ≡ ok (b'/' ∷ three a b c)
  path_unescape-three = path_unescape-NoPercent (b'/' ∷ three a b c) (
    refl,
    NoPercent-append a (b'/' ∷ (b ++ (b'/' ∷ c))) (plain-NoPercent a sa.plain) (
      refl,
      NoPercent-append b (b'/' ∷ c) (plain-NoPercent b sb.plain) (refl, plain-NoPercent c sc.plain),
    ),
  )
