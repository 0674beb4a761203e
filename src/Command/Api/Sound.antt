-- ===== src/Command/Api/Sound.antt =====
-- What the answers of the HTTP interface mean.
use openclaw_p2p.Node.Publish.Asked.{IsTaskFor, TaskFields, life_of}
use openclaw_p2p.Node.Publish.Draft.{marshal_detail}
use openclaw_p2p.Command.{ttl_duration}
use openclaw_p2p.Node.Session.{FetchRequest}
use openclaw_p2p.Prelude.{inl, inr, ◌⊎◌}
use openclaw_p2p.Negotiate.Frame.{NegotiationFrame}
use openclaw_p2p.Node.Session.{FetchResponse}
use openclaw_p2p.Node.Publish.Delivered.{publish_task_lem, IsPublishedTask}
use openclaw_p2p.Node.Fetch.{fetch_remote_detail, Stream}
use openclaw_p2p.Detail.Parse.{Url}
use openclaw_p2p.Sae.Envelope.{SaeEnvelope}
use openclaw_p2p.Clock.{Time}
use openclaw_p2p.Node.Negotiation.{send_negotiation, SendInputs}
use openclaw_p2p.Node.Publish.Draft.{DraftInputs}
use openclaw_p2p.Gossip.{PubSub}
use openclaw_p2p.Exec.{Exec}
use openclaw_p2p.Error.{ok, err, Result}
use openclaw_p2p.Node.Publish.{publish_fact, publish_task, PublishInputs}
use openclaw_p2p.Node.State.{self, Node}
use openclaw_p2p.Command.Api.{
  frame_of, frame_body, fetched, fetch_body, Response, fact_input, NegotiateRequest,
  PublishFactRequest, is_post, task_input, envelope_body, respond_with, PublishTaskRequest,
  status_ok, post, serve_negotiate_request, serve_fetch_request, serve_publish_fact,
  serve_publish_task, Body,
}
use openclaw_p2p.Sae.Libs.{Libs}
use openclaw_p2p.Node.Life.{NodeStep}
use openclaw_p2p.Prelude.{refl, sym, subst, eq_iff, ap, String, Bool, ◌≡◌, true, false}

-- A handler answers 200 to a POST request that it could decode and whose method returned no error,
-- and to no other.
post-ok :
    {S Req A : Type 0} (body : A → Body) (is_post : Bool) (decoded : Result Req)
    (call : Req → Exec S A) (s : S)
    → (post body is_post decoded call s).0.status ≡ status_ok
    → (req : Req) × (a : A) × (is_post ≡ true)
      × (decoded ≡ ok req)
      × ((call req s).0 ≡ ok a)
      × (post body is_post decoded call s
          ≡ (record { status = status_ok; body = body a }, (call req s).1))
post-ok body false decoded call s h = cc h
post-ok body true (err e) call s h = cc h
post-ok {S} {Req} {A} body true (ok req) call s h = called (call req s) refl h
  where
    called :
        (r : Result A × S)
        → call req s ≡ r
        → (respond_with body r).0.status ≡ status_ok
        → (x : Req) × (a : A) × (true ≡ true)
          × (ok req ≡ ok x)
          × ((call x s).0 ≡ ok a)
          × (respond_with body (call req s)
              ≡ (record { status = status_ok; body = body a }, (call x s).1))
    called (ok a, t) e g = (req, a, refl, refl, ap (λ x. x.0) e, rw e refl)
    called (err x, t) e g = cc g

module _ (L : Libs) where
  -- What a request asks for, its seconds to live as `ttlDuration` makes nanoseconds of them.
  abbrev pub request_fields : PublishTaskRequest → TaskFields
  request_fields req = record {
    task_id = req.task_id;
    op = req.op;
    taxonomy = req.taxonomy;
    topics = req.topics;
    summary = req.summary;
    conf = req.conf;
    life = life_of (ttl_duration req.ttl_second);
  }

  -- The publication that a request asks for.
  pub record IsPublishedFor (i : PublishInputs) (ps : PubSub) (di : DraftInputs)
      (req : PublishTaskRequest) (n : Node L) (task : SaeEnvelope) (m : Node L) : Type 0 where
    pub published : IsPublishedTask L i ps di (task_input req) n task m
    pub asked : IsTaskFor L di (request_fields req) n task
    pub detail : marshal_detail req.detail ≡ ok published.content

  published_for :
      (i : PublishInputs) (ps : PubSub) (di : DraftInputs) (req : PublishTaskRequest) (n : Node L)
      (task : SaeEnvelope) (m : Node L)
      → IsPublishedTask L i ps di (task_input req) n task m
      → IsPublishedFor i ps di req n task m
  published_for i ps di req n task m p = record {
    published = p;
    asked = p.asked;
    detail = p.content_of;
  }

  -- A client of /v1/tasks/publish that is answered 200 has sent a POST request that could be
  -- decoded, and gets the task that was published for it: a task with the fields of the request, the
  -- time to live that of `ttlDuration`, or a day where that is not positive; it is signed, its detail
  -- is that of the request, and it is stored, handed to `ApplyTask` and sent as `PublishTask` does.
  pub serve_publish_task_lem :
      (i : PublishInputs) (ps : PubSub) (di : DraftInputs) (method : String)
      (decoded : Result PublishTaskRequest) (n : Node L)
      → (serve_publish_task L i ps di method decoded n).0.status ≡ status_ok
      → (req : PublishTaskRequest) × (task : SaeEnvelope) × (method ≡ "POST")
        × (decoded ≡ ok req)
        × ((serve_publish_task L i ps di method decoded n).0.body ≡ envelope_body task)
        × IsPublishedFor i ps di req n task (serve_publish_task L i ps di method decoded n).1
  unfolding serve_publish_task
  serve_publish_task_lem i ps di method decoded n h =
      let (req, task, posted, e, published, done) =
        post-ok envelope_body (is_post method) decoded
          (λ req. publish_task L i ps di (task_input req)) n h in
      (
        req,
        task,
        (eq_iff method "POST").0 posted,
        e,
        ap (λ (x : Response × Node L). x.0.body) done,
        subst (IsPublishedFor i ps di req n task) (ap (λ (x : Response × Node L). x.1) (sym done)) (
            published_for i ps di req n task _
              (publish_task_lem L i ps di (task_input req) n task published)),
      )

  -- Nothing, or one step of the node, and that only for a POST request.
  abbrev pub AtMostOneStep : String → Node L → Node L → Type 0
  AtMostOneStep method n m = (m ≡ n) ⊎ ((method ≡ "POST") × NodeStep L n m)

  post-AtMostOneStep :
      {Req A : Type 0} (body : A → Body) (method : String) (decoded : Result Req)
      (call : Req → Exec (Node L) A) (n : Node L)
      → ((req : Req) → NodeStep L n (call req n).1)
      → AtMostOneStep method n (post body (is_post method) decoded call n).1
  post-AtMostOneStep {Req} {A} body method decoded call n step =
      checked (is_post method) decoded (eq_iff method "POST").0
    where
      called :
          (method ≡ "POST")
          → (r : Result A × Node L) → NodeStep L n r.1
          → AtMostOneStep method n (respond_with body r).1
      called posted (ok a, m) s = inr (posted, s)
      called posted (err e, m) s = inr (posted, s)

      checked :
          (b : Bool) (d : Result Req)
          → (b ≡ true → method ≡ "POST")
          → AtMostOneStep method n (post body b d call n).1
      checked false d h = inl refl
      checked true (err e) h = inl refl
      checked true (ok req) h = called (h refl) (call req n) (step req)

  post_alone :
      {S Req A : Type 0} (body : A → Body) (b : Bool) (decoded : Result Req)
      (answer : Req → S → Result A) (s : S)
      → (post body b decoded (λ req t. (answer req t, t)) s).1 ≡ s
  post_alone body false decoded answer s = refl
  post_alone body true (err e) answer s = refl
  post_alone {S} {Req} {A} body true (ok req) answer s = called (answer req s)
    where
      called : (r : Result A) → (respond_with body (r, s)).1 ≡ s
      called (ok a) = refl
      called (err e) = refl

  -- A request to one of the three handlers that publish or send leaves the node as it was, or is
  -- exactly one step in the life of the node, and that only if it is a POST request; a request to
  -- the handler that fetches leaves the node as it was.
  pub serve-AtMostOneStep :
      (i : PublishInputs) (ps : PubSub) (di : DraftInputs) (j : SendInputs) (now : Time)
      (stamp method : String) (parse_url : String → Result Url)
      (dial : L.PeerId → FetchRequest → Stream FetchResponse)
      (talk : L.PeerId → NegotiationFrame → Stream NegotiationFrame)
      (task : Result PublishTaskRequest) (fact : Result PublishFactRequest) (ref : Result String)
      (frame : Result NegotiateRequest) (n : Node L)
      → AtMostOneStep method n (serve_publish_task L i ps di method task n).1
        × AtMostOneStep method n (serve_publish_fact L i ps di method fact n).1
        × AtMostOneStep method n (serve_negotiate_request L j now stamp talk method frame n).1
        × ((serve_fetch_request L parse_url dial method ref n).1 ≡ n)
  unfolding serve_publish_task serve_publish_fact serve_fetch_request serve_negotiate_request
  serve-AtMostOneStep i ps di j now stamp method parse_url dial talk task fact ref frame n = (
    post-AtMostOneStep envelope_body method task (λ req. publish_task L i ps di (task_input req)) n
        (λ req. NodeStep.publishes_task i ps di (task_input req) n),
    post-AtMostOneStep envelope_body method fact (λ req. publish_fact L i ps di (fact_input req)) n
        (λ req. NodeStep.publishes_fact i ps di (fact_input req) n),
    post-AtMostOneStep frame_body method frame
        (λ req m. send_negotiation L j talk req.peer_id (frame_of L now stamp (self L m) req) m) n
        (λ req.
          NodeStep.sends_negotiation j talk req.peer_id (frame_of L now stamp (self L n) req) n),
    post_alone fetch_body (is_post method) ref
        (λ detail_ref m. fetched L (fetch_remote_detail L parse_url dial detail_ref m)) n,
  )
