-- ===== src/Detail/Tests.antt =====
-- A reading of URLs, and a reference that is written and read back.
use openclaw_p2p.Detail.Path.{path_unescape}
use openclaw_p2p.Sae.Libs.{Bytes}
use openclaw_p2p.Error.{ok, Result}
use openclaw_p2p.Text.Print.{decimal, bytes_of}
use openclaw_p2p.Prelude.{
  sym, arith, false, refl, eqb, true, ◌∙◌, if◌then◌else◌, ℕ, String, ap, ◌≡◌,
}
use Prim.Native.String.{◌++◌ as append}
use Prim.Native.Char.{Char, code}
use text.Mathlib.TextLemmas.{cons-append, nil-append}
use openclaw_p2p.Detail.RoundTrip.{
  IsHost, UrlParses, is_host_char, url_of, parse_detail_ref-build_detail_ref,
}
use openclaw_p2p.Error.{◌>>=◌}
use openclaw_p2p.Detail.Parse.{Url, parse_detail_ref}
use openclaw_p2p.Detail.Ref.{build_detail_ref}
use openclaw_p2p.Sae.Tests.{json_toy}

-- the text after the characters of a prefix
unfoldable pub drop_prefix : String → String → String
drop_prefix String.[] s = s
drop_prefix (String.◌∷◌ c p) String.[] = ""
drop_prefix (String.◌∷◌ c p) (String.◌∷◌ d s) = drop_prefix p s

drop_prefix-append : (p s : String) → drop_prefix p (append p s) ≡ s
unfolding drop_prefix
drop_prefix-append String.[] s = nil-append s
drop_prefix-append (String.◌∷◌ c p) s =
    ap (drop_prefix (String.◌∷◌ c p)) (cons-append c p s) ∙ drop_prefix-append p s

-- the text before the first slash, and the rest
abbrev pub cons_host : Char → String × String → String × String
cons_host c (host, path) = (String.◌∷◌ c host, path)

unfoldable pub split_host : String → String × String
split_host String.[] = ("", "")
split_host (String.◌∷◌ c s) =
    let rest = split_host s in if eqb (code c) b'/' then ("", String.◌∷◌ c s) else cons_host c rest

host_not_slash : (c : ℕ) → is_host_char c ≡ true → eqb c b'/' ≡ false
host_not_slash c h = ground arith

split_host-append :
    (host path : String)
    → IsHost host
    → split_host (append host (append "/" path)) ≡ (host, append "/" path)
unfolding split_host
split_host-append String.[] path h =
    ap split_host (nil-append (append "/" path))
    ∙ ap split_host (cons-append "/" "" path)
    ∙ ap (λ (s : String). ("", s)) (sym (cons-append "/" "" path))
split_host-append (String.◌∷◌ c host) path (h, hs) =
    ap split_host (cons-append c host (append "/" path))
    ∙ (rw (host_not_slash (code c) h) (ap (cons_host c) (split_host-append host path hs)))

abbrev pub read_parts : String × String → Result Url
read_parts (host, path) = do decoded ← path_unescape (bytes_of path); ok (url_of host decoded)

abbrev pub read_url : String → Result Url
read_url raw = read_parts (split_host (drop_prefix "openagent://" raw))

pub read_url-UrlParses : UrlParses read_url
read_url-UrlParses host path h p decoded e =
    ap (λ (s : String). read_parts (split_host s))
      (drop_prefix-append "openagent://" (append host (append "/" path)))
    ∙ ap read_parts (split_host-append host path h)
    ∙ ap (λ (r : Result Bytes). do d ← r; ok (url_of host d)) e

parse_detail_ref-build_detail_ref_example :
    parse_detail_ref json_toy read_url (build_detail_ref "peer" "task" "task:ab-1" 12)
    ≡ ok (record {
      peer_id = true;
      kind = bytes_of "task";
      id = bytes_of "task:ab-1";
      version = bytes_of (decimal 12);
    })
unfolding bytes_of
parse_detail_ref-build_detail_ref_example =
    parse_detail_ref-build_detail_ref json_toy read_url read_url-UrlParses true "task" "task:ab-1"
      12 (refl, (refl, (refl, (refl, tt)))) refl (refl, (refl, (refl, (refl, tt))))
      (refl, (refl, (refl, (refl, (refl, (refl, (refl, (refl, (refl, tt))))))))) refl refl

-- An object ID with a percent sign does not come back as it is.
percent_test :
    parse_detail_ref json_toy read_url (build_detail_ref "peer" "task" "50%41" 1)
    ≡ ok (record {
      peer_id = true;
      kind = bytes_of "task";
      id = bytes_of "50A";
      version = bytes_of "1";
    })
unfolding bytes_of parse_detail_ref build_detail_ref split_host drop_prefix path_unescape
percent_test = refl

-- Nor one with a slash.
slash_test :
    parse_detail_ref json_toy read_url (build_detail_ref "peer" "task" "a/b" 1)
    ≡ ok (record {
      peer_id = true;
      kind = bytes_of "task";
      id = bytes_of "a";
      version = bytes_of "b";
    })
unfolding bytes_of parse_detail_ref build_detail_ref split_host drop_prefix path_unescape
slash_test = refl
