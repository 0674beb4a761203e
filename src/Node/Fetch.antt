-- ===== src/Node/Fetch.antt =====
-- internal/p2p/rpc_fetch.go: `FetchDetail`; internal/p2p/node.go: `FetchRemoteDetail`. What a stream
-- to a peer answers is an argument.
pub mod Remote
pub mod Published
pub mod Tests
use openclaw_p2p.Store.Records.{find_payload}
use openclaw_p2p.Node.State.{Node}
use openclaw_p2p.Detail.Parse.{DetailRef, parse_detail_ref, Url}
use openclaw_p2p.Sae.Libs.{Libs}
use openclaw_p2p.Store.State.{message, text, Reason}
use openclaw_p2p.Error.{fail_if, external, ok, err, ◌>>◌, Result, Error, Check}
use openclaw_p2p.Node.Session.{found_payload, FetchRequest, FetchResponse}
use openclaw_p2p.Prelude.{◌&&◌, not, if◌then◌else◌, [], ◌==◌, false, Bool, String}

-- Opening a stream, encoding a request on it, and decoding the response to that request: what a
-- stream answers depends on the request that goes out on it.
pub record Stream (R : Type 0) : Type 0 where
  pub opened : Check
  pub sent : Check
  pub received : Result R

-- the response of an exchange, or its first error
abbrev pub exchange : {R : Type 0} → Stream R → Result R
exchange s = s.opened >> s.sent >> s.received

-- resp.Error != ""
abbrev pub is_empty_error : Error → Bool
is_empty_error (external t) = t == ""
is_empty_error e = false

abbrev pub is_empty_reason : Reason → Bool
is_empty_reason (text t) = t == ""
is_empty_reason (message e) = is_empty_error e

-- errors.New(resp.Error)
abbrev pub error_of : Reason → Error
error_of (text t) = external t
error_of (message e) = e

-- FetchResponse{}
abbrev pub zero_response : FetchResponse
zero_response = record {
  found = false;
  content_type = "";
  payload = [];
  sha256 = "";
  error = text "";
}

-- A response that reports an error comes back beside the error.
abbrev pub checked_response : Result FetchResponse → FetchResponse × Check
checked_response (err e) = (zero_response, err e)
checked_response (ok response) = (
  response,
  fail_if (not response.found && not (is_empty_reason response.error)) (error_of response.error),
)

unfoldable pub fetch_detail : (FetchRequest → Stream FetchResponse) → String → FetchResponse × Check
fetch_detail stream detail_ref =
    let request : FetchRequest = record { detail_ref = detail_ref } in
    checked_response (exchange (stream request))

module _ (L : Libs) (parse_url : String → Result Url) where
  abbrev pub fetch_from :
      (L.PeerId → FetchRequest → Stream FetchResponse)
      → String
      → Node L
      → Result (DetailRef L)
      → FetchResponse × Check
  fetch_from dial detail_ref n (err e) = (zero_response, err e)
  fetch_from dial detail_ref n (ok ref) =
      if L.same_peer ref.peer_id n.peer_id
      then found_payload (find_payload detail_ref n.store)
      else fetch_detail (dial ref.peer_id) detail_ref

  -- `dial` is what a stream to each peer answers to a request.
  unfoldable pub fetch_remote_detail :
      (L.PeerId → FetchRequest → Stream FetchResponse) → String → Node L → FetchResponse × Check
  unfolding parse_detail_ref find_payload fetch_detail
  fetch_remote_detail dial detail_ref n =
      fetch_from dial detail_ref n (parse_detail_ref L parse_url detail_ref)
