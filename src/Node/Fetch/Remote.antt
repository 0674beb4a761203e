-- ===== src/Node/Fetch/Remote.antt =====
-- A detail that one node published and another one fetches.
use openclaw_p2p.Store.State.{Store}
use openclaw_p2p.Node.Publish.Fetched.{serve_fetch-publish_task}
use openclaw_p2p.Sae.Envelope.{SaeEnvelope}
use openclaw_p2p.Node.State.{Node}
use openclaw_p2p.Node.Publish.Draft.{payload_digest, marshal_detail, PublishTaskInput, DraftInputs}
use openclaw_p2p.Gossip.{PubSub}
use openclaw_p2p.Node.Session.{serve_fetch, FetchRequest, FetchResponse}
use openclaw_p2p.Node.Fetch.{checked_response, Stream, fetch_detail, fetch_remote_detail}
use openclaw_p2p.Node.Publish.{publish_task, PublishInputs}
use openclaw_p2p.Detail.Parse.{parse_detail_ref, DetailRef, Url}
use openclaw_p2p.Error.{Check, nil, ok, Result}
use openclaw_p2p.Sae.Libs.{Bytes, Libs}
use openclaw_p2p.Prelude.{◌∙◌, ap, refl, false, true, ◌≡◌, String}

-- FetchRequest{DetailRef: detailRef}
abbrev pub request_for : String → FetchRequest
request_for detail_ref = record { detail_ref = detail_ref }

-- A stream without faults to a node with this store: the request that goes out on it is the one that
-- the node's handler decodes, and the response comes back. (Encoding compacts the raw JSON of a
-- response, which `marshalDetail` has made compact when it was published.)
abbrev pub answered_by : Store → FetchRequest → Stream FetchResponse
answered_by s request = record {
  opened = nil;
  sent = nil;
  received = ok (serve_fetch (ok request) s);
}

module _ (L : Libs) (parse_url : String → Result Url) where
  found_has_no_error :
      (response : FetchResponse) → response.found ≡ true → (checked_response (ok response)).1 ≡ nil
  found_has_no_error response h = rw h refl

  -- A reference to another peer is fetched from it.
  fetch_remote_detail_of :
      (dial : L.PeerId → FetchRequest → Stream FetchResponse) (detail_ref : String) (n : Node L)
      (ref : DetailRef L) (response : FetchResponse)
      → parse_detail_ref L parse_url detail_ref ≡ ok ref
      → L.same_peer ref.peer_id n.peer_id ≡ false
      → dial ref.peer_id (request_for detail_ref)
        ≡ record { opened = nil; sent = nil; received = ok response }
      → fetch_remote_detail L parse_url dial detail_ref n ≡ checked_response (ok response)
  unfolding fetch_remote_detail fetch_detail
  fetch_remote_detail_of dial detail_ref n ref response parsed other answered =
      rw (parsed, other, answered) refl

  -- A node that fetches the reference of a task from the node whose `PublishTask` returned it, over
  -- a stream without faults, gets the detail that was published, with its digest and without an
  -- error, if the reference parses and names another peer.
  pub fetch_remote_detail-publish_task :
      (i : PublishInputs) (ps : PubSub) (di : DraftInputs) (input : PublishTaskInput) (a b : Node L)
      (task : SaeEnvelope) (dial : L.PeerId → FetchRequest → Stream FetchResponse)
      (ref : DetailRef L)
      → (publish_task L i ps di input a).0 ≡ ok task
      → parse_detail_ref L parse_url task.detail_ref ≡ ok ref
      → L.same_peer ref.peer_id b.peer_id ≡ false
      → ((request : FetchRequest)
          → dial ref.peer_id request ≡ answered_by (publish_task L i ps di input a).1.store request)
      → (let fetched = fetch_remote_detail L parse_url dial task.detail_ref b in
          (content : Bytes) × (marshal_detail input.detail ≡ ok content)
          × (fetched.1 ≡ nil)
          × (fetched.0.found ≡ true)
          × (fetched.0.payload ≡ content)
          × (fetched.0.sha256 ≡ payload_digest L content))
  fetch_remote_detail-publish_task i ps di input a b task dial ref h parsed other answered =
      let (content, c, found, payload, digest) =
        serve_fetch-publish_task L i ps di input a task h in
      let response =
        serve_fetch (ok (request_for task.detail_ref)) (publish_task L i ps di input a).1.store in
      let done =
        fetch_remote_detail_of dial task.detail_ref b ref response parsed other
          (answered (request_for task.detail_ref)) in
      (
        content,
        c,
        ap (λ (x : FetchResponse × Check). x.1) done ∙ found_has_no_error response found,
        ap (λ (x : FetchResponse × Check). x.0.found) done ∙ found,
        ap (λ (x : FetchResponse × Check). x.0.payload) done ∙ payload,
        ap (λ (x : FetchResponse × Check). x.0.sha256) done ∙ digest,
      )
