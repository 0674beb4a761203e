-- ===== src/Command/Api/Expiry.antt =====
-- How long a task lives that a client has published.
use openclaw_p2p.Prelude.{◌*◌, arith, ap, eqb, ◌∙◌, ◌+◌, if◌then◌else◌, ◌≤◌, ◌≡◌, pos, ℕ, String}
use openclaw_p2p.Command.Api.Sound.{serve_publish_task_lem}
use openclaw_p2p.Command.Api.{PublishTaskRequest, serve_publish_task, envelope_body, status_ok}
use openclaw_p2p.Command.Ttl.{effective_ttl-ttl_duration}
use openclaw_p2p.Command.{ttl_duration}
use openclaw_p2p.Node.Publish.Asked.{life_of}
use openclaw_p2p.Node.Publish.{PublishInputs}
use openclaw_p2p.Node.Publish.Draft.{DraftInputs}
use openclaw_p2p.Node.State.{Node}
use openclaw_p2p.Gossip.{PubSub}
use openclaw_p2p.Sae.Envelope.{SaeEnvelope}
use openclaw_p2p.Sae.Libs.{Libs}
use openclaw_p2p.Clock.{second, hour}
use openclaw_p2p.Clock
use openclaw_p2p.Error.{ok}

-- The nanoseconds that a task lives for a number of seconds in the request.
abbrev pub seconds_or_day : ℕ → ℕ
seconds_or_day seconds = if eqb seconds 0 then 24 * hour else seconds * second

life_of-seconds :
    (seconds : ℕ)
    → seconds ≤ 9223372036
    → life_of (ttl_duration (pos seconds)) ≡ pos (seconds_or_day seconds)
life_of-seconds seconds h = effective_ttl-ttl_duration seconds h ∙ ground arith

add-pos : (now n : ℕ) → Clock.add now (pos n) ≡ now + n
add-pos now n = omega arith

-- A client of /v1/tasks/publish that asks for a number of seconds whose nanoseconds fit in an int64,
-- up to 292 years, and is answered 200 gets a task that expires that many seconds after the reading
-- of the clock, to the nanosecond; one that asks for none gets a day.
pub serve_publish_task_expires :
    (L : Libs) (i : PublishInputs) (ps : PubSub) (di : DraftInputs) (method : String)
    (req : PublishTaskRequest) (n : Node L) (seconds : ℕ)
    → req.ttl_second ≡ pos seconds
    → seconds ≤ 9223372036
    → (serve_publish_task L i ps di method (ok req) n).0.status ≡ status_ok
    → (task : SaeEnvelope) × ((serve_publish_task L i ps di method (ok req) n).0.body
        ≡ envelope_body task)
      × (task.expires_at ≡ di.now + seconds_or_day seconds)
serve_publish_task_expires L i ps di method req n seconds asked h done =
    let (req', task, posted, same, body, for) =
      serve_publish_task_lem L i ps di method (ok req) n done in
    let eq : req' ≡ req = cc same in
    (
      task,
      body,
      for.asked.expires_at
          ∙ ap (λ (r : PublishTaskRequest). Clock.add di.now (life_of (ttl_duration r.ttl_second)))
              eq
          ∙ ap (λ t. Clock.add di.now (life_of (ttl_duration t))) asked
          ∙ ap (Clock.add di.now) (life_of-seconds seconds h)
          ∙ add-pos di.now (seconds_or_day seconds),
    )
