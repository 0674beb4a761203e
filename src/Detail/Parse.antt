-- ===== src/Detail/Parse.antt =====
-- internal/p2p/rpc_fetch.go: `DetailRef` and `ParseDetailRef`. url.Parse is an argument.
use openclaw_p2p.Detail.Path.{split_slash, trim_slashes, clean_path, path_unescape}
use openclaw_p2p.Sae.Libs.{Bytes, Libs}
use openclaw_p2p.Prelude.{[], ◌==◌, not, ◌∷◌, List, String}
use openclaw_p2p.Error.{
  unsupported_scheme, ok, fail_if, wrap, short_detail_ref, err, Result, ◌>>=◌, ◌>>◌,
}

-- The fields of url.URL that are read; Path is the decoded form, and may hold any bytes.
pub record Url : Type 0 where
  pub scheme : String
  pub host : String
  pub path : Bytes

pub record DetailRef (L : Libs) : Type 0 where
  pub peer_id : L.PeerId
  pub kind : Bytes
  pub id : Bytes
  pub version : Bytes

module _ (L : Libs) (parse_url : String → Result Url) where
  -- if len(parts) < 3 { … }, and the fields that the parts give
  abbrev pub detail_of_parts : L.PeerId → List Bytes → Result (DetailRef L)
  detail_of_parts pid [] = err short_detail_ref
  detail_of_parts pid (kind ∷ []) = err short_detail_ref
  detail_of_parts pid (kind ∷ id ∷ []) = err short_detail_ref
  detail_of_parts pid (kind ∷ id ∷ version ∷ more) = do
    object_id ← wrap "unescape detail object id" (path_unescape id)
    ok (record { peer_id = pid; kind = kind; id = object_id; version = version })

  unfoldable pub parse_detail_ref : String → Result (DetailRef L)
  unfolding path_unescape clean_path trim_slashes split_slash
  parse_detail_ref raw = do
    u ← parse_url raw
    fail_if (not (u.scheme == "openagent")) (unsupported_scheme u.scheme)
    pid ← wrap "decode peer ID" (L.decode_peer u.host)
    detail_of_parts pid (split_slash (trim_slashes (clean_path u.path)))
