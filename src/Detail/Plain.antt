-- ===== src/Detail/Plain.antt =====
-- Texts that url.PathEscape leaves alone, and their bytes.
use mathlib.Core.List.{append_assoc}
use openclaw_p2p.Sae.Libs.{Bytes}
use openclaw_p2p.Text.Print.{utf8, bytes_of}
use openclaw_p2p.Detail.Ref.{is_path_char, path_escape}
use Prim.Native.Char.{code}
use Prim.Native.String.{◌++◌ as append}
use text.Mathlib.TextLemmas.{cons-append, nil-append}
use openclaw_p2p.Prelude.{sym, refl, ◌∙◌, arith, ap, All, ℕ, ◌≡◌, true, String, [], ◌∷◌, ◌++◌}

-- Every character is left alone.
abbrev pub IsPlain : String → Type 0
IsPlain String.[] = Unit
IsPlain (String.◌∷◌ c s) = (is_path_char (code c) ≡ true) × IsPlain s

abbrev pub PlainBytes : Bytes → Type 0
PlainBytes = All (λ b. is_path_char b ≡ true)

pub IsPlain-append : (a b : String) → IsPlain a → IsPlain b → IsPlain (append a b)
IsPlain-append String.[] b h g = rw (nil-append b) g
IsPlain-append (String.◌∷◌ c a) b (h, hs) g = rw (cons-append c a b) (h, IsPlain-append a b hs g)

pub path_escape-plain : (s : String) → IsPlain s → path_escape s ≡ s
unfolding path_escape
path_escape-plain String.[] h = refl
path_escape-plain (String.◌∷◌ c s) (h, hs) = rw h (ap (String.◌∷◌ c) (path_escape-plain s hs))

utf8-plain : (c : ℕ) → is_path_char c ≡ true → utf8 c ≡ c ∷ []
utf8-plain c h = ground arith

pub bytes_of-append : (a b : String) → bytes_of (append a b) ≡ bytes_of a ++ bytes_of b
unfolding bytes_of
bytes_of-append String.[] b = ap bytes_of (nil-append b)
bytes_of-append (String.◌∷◌ c a) b =
    ap bytes_of (cons-append c a b)
    ∙ ap (λ t. utf8 (code c) ++ t) (bytes_of-append a b)
    ∙ sym (append_assoc (utf8 (code c)) (bytes_of a) (bytes_of b))

pub bytes_of-plain : (s : String) → IsPlain s → PlainBytes (bytes_of s)
unfolding bytes_of
bytes_of-plain String.[] h = tt
bytes_of-plain (String.◌∷◌ c s) (h, hs) = rw (utf8-plain (code c) h) (h, bytes_of-plain s hs)
