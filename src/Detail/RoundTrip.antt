-- ===== src/Detail/RoundTrip.antt =====
-- Reading back the references that a node writes.
use openclaw_p2p.Detail.Digits.{decimal-not_special, decimal-IsPlain}
use openclaw_p2p.Detail.Segments.{
  plain-NoPercent, path_unescape-NoPercent, split-three, trim_slashes-three, clean_path-three,
  path_unescape-three, IsSegment, three,
}
use openclaw_p2p.Detail.Path.{clean_path, trim_slashes, split_slash, is_special, path_unescape}
use openclaw_p2p.Error.{ok, Result}
use openclaw_p2p.Sae.Libs.{Libs, Bytes}
use openclaw_p2p.Detail.Plain.{bytes_of-plain, path_escape-plain, bytes_of-append, IsPlain}
use openclaw_p2p.Prelude.{
  false, ◌++◌, ap, ◌∙◌, ◌&&◌, refl, true, eqb, leb, ◌∷◌, arith, Bool, ◌≡◌, ◌||◌, String, ℕ,
}
use openclaw_p2p.Text.Print.{decimal, bytes_of}
use Prim.Native.String.{◌++◌ as append}
use Prim.Native.Char.{code}
use openclaw_p2p.Detail.Ref.{is_path_char, build_detail_ref}
use text.Mathlib.TextLemmas.{cons-append, nil-append}
use openclaw_p2p.Detail.Parse.{detail_of_parts, Url, parse_detail_ref}

-- A letter or a digit.
abbrev pub is_host_char : ℕ → Bool
is_host_char c =
    (leb b'a' c && leb c b'z') || (leb b'A' c && leb c b'Z') || (leb b'0' c && leb c b'9')

abbrev pub IsHost : String → Type 0
IsHost String.[] = Unit
IsHost (String.◌∷◌ c s) = (is_host_char (code c) ≡ true) × IsHost s

-- Characters that a path has unescaped, and slashes.
abbrev pub IsUrlPath : String → Type 0
IsUrlPath String.[] = Unit
IsUrlPath (String.◌∷◌ c s) = ((is_path_char (code c) || eqb (code c) b'/') ≡ true) × IsUrlPath s

abbrev pub url_of : String → Bytes → Url
url_of host path = record { scheme = "openagent"; host = host; path = path }

-- url.Parse, on a scheme, a host and a path: the host as it is written, and the path unescaped.
abbrev pub UrlParses : (String → Result Url) → Type 0
UrlParses parse_url =
    (host path : String)
    → IsHost host
    → IsUrlPath path
    → (decoded : Bytes) → path_unescape (bytes_of (append "/" path)) ≡ ok decoded
    → parse_url (append "openagent://" (append host (append "/" path))) ≡ ok (url_of host decoded)

IsPlain-IsUrlPath : (s : String) → IsPlain s → IsUrlPath s
IsPlain-IsUrlPath String.[] h = tt
IsPlain-IsUrlPath (String.◌∷◌ c s) (h, hs) = (ground arith, IsPlain-IsUrlPath s hs)

IsUrlPath-append : (a b : String) → IsUrlPath a → IsUrlPath b → IsUrlPath (append a b)
IsUrlPath-append String.[] b h g = rw (nil-append b) g
IsUrlPath-append (String.◌∷◌ c a) b (h, hs) g =
    rw (cons-append c a b) (h, IsUrlPath-append a b hs g)

abbrev path_of : String → String → String → String
path_of kind id version = append kind (append "/" (append id (append "/" version)))

path_of-IsUrlPath :
    (kind id version : String)
    → IsPlain kind
    → IsPlain id
    → IsPlain version
    → IsUrlPath (path_of kind id version)
path_of-IsUrlPath kind id version hk hi hv =
    IsUrlPath-append kind (append "/" (append id (append "/" version))) (IsPlain-IsUrlPath kind hk)
      (IsUrlPath-append "/" (append id (append "/" version)) (refl, tt)
        (IsUrlPath-append id (append "/" version) (IsPlain-IsUrlPath id hi)
          (IsUrlPath-append "/" version (refl, tt) (IsPlain-IsUrlPath version hv))))

bytes_of-slash : (s : String) → bytes_of (append "/" s) ≡ b'/' ∷ bytes_of s
unfolding bytes_of
bytes_of-slash s = bytes_of-append "/" s

bytes_of-path_of :
    (kind id version : String)
    → bytes_of (path_of kind id version) ≡ three (bytes_of kind) (bytes_of id) (bytes_of version)
bytes_of-path_of kind id version =
    bytes_of-append kind (append "/" (append id (append "/" version)))
    ∙ ap (λ (t : Bytes). bytes_of kind ++ t)
        (bytes_of-slash (append id (append "/" version))
          ∙ ap (λ (t : Bytes). b'/' ∷ t)
              (bytes_of-append id (append "/" version)
                ∙ ap (λ (t : Bytes). bytes_of id ++ t) (bytes_of-slash version)))

module _ (L : Libs) (parse_url : String → Result Url) (parses : UrlParses parse_url) where
  module _ (kind id version : String) (pk : IsPlain kind) (pi : IsPlain id) (pv : IsPlain version)
      (ck : is_special (bytes_of kind) ≡ false) (ci : is_special (bytes_of id) ≡ false)
      (cv : is_special (bytes_of version) ≡ false) where
    sk : IsSegment (bytes_of kind)
    sk = record { plain = bytes_of-plain kind pk; not_special = ck }

    si : IsSegment (bytes_of id)
    si = record { plain = bytes_of-plain id pi; not_special = ci }

    sv : IsSegment (bytes_of version)
    sv = record { plain = bytes_of-plain version pv; not_special = cv }

    url_parsed :
        (host : String)
        → IsHost host
        → parse_url (append "openagent://" (append host (append "/" (path_of kind id version))))
          ≡ ok (url_of host (b'/' ∷ three (bytes_of kind) (bytes_of id) (bytes_of version)))
    url_parsed host h =
        parses host (path_of kind id version) h (path_of-IsUrlPath kind id version pk pi pv)
          (b'/' ∷ three (bytes_of kind) (bytes_of id) (bytes_of version))
          (ap path_unescape (
              bytes_of-slash (path_of kind id version)
              ∙ ap (λ (t : Bytes). b'/' ∷ t) (bytes_of-path_of kind id version))
            ∙ path_unescape-three (bytes_of kind) (bytes_of id) (bytes_of version) sk si sv)

    parts_parsed :
        (pid : L.PeerId)
        → detail_of_parts L parse_url pid (
            split_slash (
              trim_slashes
                (clean_path (b'/' ∷ three (bytes_of kind) (bytes_of id) (bytes_of version)))))
          ≡ ok (record {
            peer_id = pid;
            kind = bytes_of kind;
            id = bytes_of id;
            version = bytes_of version;
          })
    parts_parsed pid =
        rw
          (
            clean_path-three (bytes_of kind) (bytes_of id) (bytes_of version) sk si sv,
            trim_slashes-three (bytes_of kind) (bytes_of id) (bytes_of version) sk si sv,
            split-three (bytes_of kind) (bytes_of id) (bytes_of version) sk si sv,
            path_unescape-NoPercent (bytes_of id) (plain-NoPercent (bytes_of id) si.plain),
          )
          refl

  -- The reference that `BuildDetailRef` writes is read back by `ParseDetailRef` as its peer, kind,
  -- object ID and version, if url.Parse reads a URL as its documentation says, the text of the peer
  -- ID consists of letters and digits and decodes to it, and the kind and the object ID have only
  -- characters that are not escaped and are neither empty nor "." nor "..".
  pub parse_detail_ref-build_detail_ref :
      (pid : L.PeerId) (kind id : String) (version : ℕ)
      → IsHost (L.peer_string pid)
      → L.decode_peer (L.peer_string pid) ≡ ok pid
      → IsPlain kind
      → IsPlain id
      → is_special (bytes_of kind) ≡ false
      → is_special (bytes_of id) ≡ false
      → parse_detail_ref L parse_url (build_detail_ref (L.peer_string pid) kind id version)
        ≡ ok (record {
          peer_id = pid;
          kind = bytes_of kind;
          id = bytes_of id;
          version = bytes_of (decimal version);
        })
  unfolding parse_detail_ref build_detail_ref
  parse_detail_ref-build_detail_ref pid kind id version h decodes pk pi ck ci =
      rw
        (
          path_escape-plain id pi,
          url_parsed kind id (decimal version) pk pi (decimal-IsPlain version) ck ci
              (decimal-not_special version) (L.peer_string pid) h,
          decodes,
          parts_parsed kind id (decimal version) pk pi (decimal-IsPlain version) ck ci
              (decimal-not_special version) pid,
        )
        refl
