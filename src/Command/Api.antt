-- ===== src/Command/Api.antt =====
-- cmd/agent.go: the handlers of the HTTP interface. What JSON decoding a request's body answers is an
-- argument; a response is its status and the value that is encoded.
pub mod Sound
pub mod Expiry
pub mod Tests
use openclaw_p2p.GoMap.{GoMap}
use openclaw_p2p.Node.Start.{RunningNode}
use openclaw_p2p.Store.Lists.{known_peers, negotiation_sessions, fact_states, task_states}
use openclaw_p2p.Sae.Envelope.{SaeEnvelope}
use openclaw_p2p.Node.State.{self, Node}
use openclaw_p2p.Gossip.{PubSub}
use openclaw_p2p.Negotiate.Frame.{NegotiationFrame}
use openclaw_p2p.Detail.Parse.{Url}
use openclaw_p2p.Exec.{Exec}
use openclaw_p2p.Node.Fetch.{Stream, is_empty_reason, fetch_remote_detail}
use openclaw_p2p.Node.Session.{FetchRequest, FetchResponse}
use openclaw_p2p.Command.{ttl_duration}
use openclaw_p2p.Clock.{Time}
use openclaw_p2p.Text.Print.{bytes_of}
use openclaw_p2p.Node.Negotiation.{SendInputs, send_negotiation}
use openclaw_p2p.Node.Publish.{PublishInputs, publish_fact, publish_task}
use openclaw_p2p.Node.Publish.Draft.{DraftInputs, Detail, PublishFactInput, PublishTaskInput}
use openclaw_p2p.Sae.Libs.{Libs}
use openclaw_p2p.Error.{err, Check, ok, Result, Error}
use openclaw_p2p.Store.State.{
  NegotiationSession, KnownPeer, FactState, TaskState, message, Reason, text,
}
use Prim.Native.String.{◌++◌ as append}
use openclaw_p2p.Prelude.{true, false, ℤ, take, ◌==◌, if◌then◌else◌, Bool, List, String}

pub record PublishTaskRequest : Type 0 where
  pub task_id : String
  pub op : String
  pub taxonomy : String
  pub topics : List String
  pub summary : String
  pub detail : Detail
  pub ttl_second : ℤ
  pub conf : ℤ

pub record PublishFactRequest : Type 0 where
  pub fact_id : String
  pub fact_kind : String
  pub taxonomy : String
  pub topics : List String
  pub summary : String
  pub detail : Detail
  pub ttl_second : ℤ
  pub conf : ℤ

pub record NegotiateRequest : Type 0 where
  pub peer_id : String
  pub session_id : String
  pub ref_id : String
  pub op : String
  pub body : String
  pub payload_ref : String
  pub status : String

-- What a response encodes.
pub data Body : Type 0 where
  -- profile, peer_id, did, topics
  health_body : String → String → String → List String → Body
  tasks_body : List TaskState → Body
  facts_body : List FactState → Body
  peers_body : List KnownPeer → Body
  sessions_body : List NegotiationSession → Body
  envelope_body : SaeEnvelope → Body
  fetch_body : FetchResponse → Body
  frame_body : NegotiationFrame → Body
  error_body : Reason → Body

-- 200, 400 and 405
pub data Status : Type 0 where
  status_ok status_bad_request status_method_not_allowed : Status

pub record Response : Type 0 where
  pub status : Status
  pub body : Body

-- `writeError`, which has a text for an empty message
abbrev pub write_error : Status → Reason → Response
write_error status reason = record {
  status = status;
  body = error_body (if is_empty_reason reason then text "request failed" else reason);
}

abbrev pub not_allowed : Response
not_allowed = write_error status_method_not_allowed (text "method not allowed")

abbrev pub bad_request : Error → Response
bad_request e = write_error status_bad_request (message e)

abbrev pub task_input : PublishTaskRequest → PublishTaskInput
task_input req = record {
  task_id = req.task_id;
  op = req.op;
  taxonomy = req.taxonomy;
  topics = req.topics;
  summary = req.summary;
  detail = req.detail;
  ttl = ttl_duration req.ttl_second;
  conf = req.conf;
}

abbrev pub fact_input : PublishFactRequest → PublishFactInput
fact_input req = record {
  fact_id = req.fact_id;
  fact_kind = req.fact_kind;
  taxonomy = req.taxonomy;
  topics = req.topics;
  summary = req.summary;
  detail = req.detail;
  ttl = ttl_duration req.ttl_second;
  conf = req.conf;
}

-- a method's answer, as a response
abbrev pub respond_with : {S A : Type 0} → (A → Body) → Result A × S → Response × S
respond_with body (ok a, s) = (record { status = status_ok; body = body a }, s)
respond_with body (err e, s) = (bad_request e, s)

-- The two checks of every handler of a POST request, and the method that it calls.
abbrev pub post :
    {S Req A : Type 0} → (A → Body) → Bool → Result Req → (Req → Exec S A) → S → Response × S
post body false decoded call s = (not_allowed, s)
post body true (err e) call s = (bad_request e, s)
post body true (ok req) call s = respond_with body (call req s)

-- r.Method == http.MethodPost
abbrev pub is_post : String → Bool
is_post method = method == "POST"

module _ (L : Libs) where
  -- the answer of a fetch, whose response is dropped if there is an error
  abbrev pub fetched : FetchResponse × Check → Result FetchResponse
  fetched (response, ok _) = ok response
  fetched (response, err e) = err e

  -- where `stamp` is the text of the time
  unfoldable pub derive_session_id : String → String → String → String
  unfolding bytes_of
  derive_session_id stamp ref_id body =
      L.hex_encode (
        take 16 (L.sha256 (bytes_of (append ref_id (append ":" (append body (append ":" stamp)))))))

  abbrev pub session_or_derived : String → NegotiateRequest → String
  session_or_derived stamp req =
      if req.session_id == "" then derive_session_id stamp req.ref_id req.body else req.session_id

  -- the frame that the handler of /v1/negotiate makes
  abbrev pub frame_of : Time → String → String → NegotiateRequest → NegotiationFrame
  frame_of now stamp own req = record {
    session_id = session_or_derived stamp req;
    ref_id = req.ref_id;
    op = req.op;
    from_peer = own;
    to_peer = "";
    status = req.status;
    body = req.body;
    payload_ref = req.payload_ref;
    timestamp = now;
  }

  -- The handlers of /v1/tasks/publish, /v1/facts/publish, /v1/fetch and /v1/negotiate.
  unfoldable pub serve_publish_task :
      PublishInputs
      → PubSub
      → DraftInputs
      → String
      → Result PublishTaskRequest
      → Node L
      → Response × Node L
  unfolding publish_task ttl_duration
  serve_publish_task i ps di method decoded =
      post envelope_body (is_post method) decoded (λ req. publish_task L i ps di (task_input req))

  unfoldable pub serve_publish_fact :
      PublishInputs
      → PubSub
      → DraftInputs
      → String
      → Result PublishFactRequest
      → Node L
      → Response × Node L
  unfolding publish_fact ttl_duration
  serve_publish_fact i ps di method decoded =
      post envelope_body (is_post method) decoded (λ req. publish_fact L i ps di (fact_input req))

  unfoldable pub serve_fetch_request :
      (String → Result Url)
      → (L.PeerId → FetchRequest → Stream FetchResponse)
      → String
      → Result String
      → Node L
      → Response × Node L
  unfolding fetch_remote_detail
  serve_fetch_request parse_url dial method decoded =
      post fetch_body (is_post method) decoded
        (λ detail_ref n. (fetched (fetch_remote_detail L parse_url dial detail_ref n), n))

  unfoldable pub serve_negotiate_request :
      SendInputs
      → Time
      → String
      → (L.PeerId → NegotiationFrame → Stream NegotiationFrame)
      → String
      → Result NegotiateRequest
      → Node L
      → Response × Node L
  unfolding send_negotiation derive_session_id
  serve_negotiate_request i now stamp dial method decoded =
      post frame_body (is_post method) decoded
        (λ req n. send_negotiation L i dial req.peer_id (frame_of now stamp (self L n) req) n)

-- The handlers of /healthz, /v1/tasks, /v1/facts, /v1/peers and /v1/sessions. The lists come in the
-- order in which Go visits the maps.
abbrev pub ok_response : Body → Response
ok_response body = record { status = status_ok; body = body }

unfoldable pub serve_health : {L : Libs} → RunningNode L → Response
serve_health {L} r =
    ok_response (
      health_body r.config.profile (L.peer_string r.identity.peer_id) r.identity.did
        r.config.topics)

unfoldable pub serve_tasks : GoMap TaskState → Response
unfolding task_states
serve_tasks order = ok_response (tasks_body (task_states order))

unfoldable pub serve_facts : GoMap FactState → Response
unfolding fact_states
serve_facts order = ok_response (facts_body (fact_states order))

unfoldable pub serve_peers : GoMap KnownPeer → Response
unfolding known_peers
serve_peers order = ok_response (peers_body (known_peers order))

unfoldable pub serve_sessions : GoMap NegotiationSession → Response
unfolding negotiation_sessions
serve_sessions order = ok_response (sessions_body (negotiation_sessions order))
