-- ===== src/Command/Api/Tests.antt =====
-- Requests to a node that has nothing yet.
use openclaw_p2p.Command.Api.Expiry.{serve_publish_task_expires, seconds_or_day}
use openclaw_p2p.Detail.Parse.{Url}
use openclaw_p2p.Node.Session.{FetchRequest, FetchResponse}
use openclaw_p2p.Negotiate.Frame.{NegotiationFrame}
use openclaw_p2p.Node.Fetch.{Stream}
use openclaw_p2p.Node.Negotiation.{SendInputs}
use openclaw_p2p.Command.{ttl_duration}
use openclaw_p2p.Gossip.{publish_topic, publish_sae, ensure_topic, subscribe_topics}
use openclaw_p2p.Store.Files.{written, write_json_atomic}
use openclaw_p2p.Store.Records.{upsert_payload}
use openclaw_p2p.Text.Print.{bytes_of}
use openclaw_p2p.Detail.Ref.{build_detail_ref}
use openclaw_p2p.Text.{trim_space}
use openclaw_p2p.Topics.{unique_strings, normalize_topics}
use openclaw_p2p.GoMap.{get}
use openclaw_p2p.Store.Tasks.{apply_task, next_task_seq}
use openclaw_p2p.Sae.Build.{new_task_sae}
use openclaw_p2p.Sae.Validate.{encode, validate_signed, validate_unsigned}
use openclaw_p2p.Command.Api.Sound.{
  serve-AtMostOneStep, AtMostOneStep, IsPublishedFor, serve_publish_task_lem,
}
use openclaw_p2p.Sae.Sign.{did_from_pub_key, verify, verify_publisher, signature_of, sign}
use openclaw_p2p.Node.Publish.Draft.{marshal_detail, draft_task}
use openclaw_p2p.Node.Publish.{announce, publish_task}
use openclaw_p2p.Sae.Envelope.{canonical, SaeEnvelope}
use openclaw_p2p.Sae.Libs.{Libs}
use openclaw_p2p.Error.{nil, not_found, invalid_signature, err, Result, ok}
use openclaw_p2p.Node.State.{enforce_envelope_policy, Node}
use openclaw_p2p.Command.Api.{
  serve_negotiate_request, serve_fetch_request, serve_publish_fact, envelope_body, not_allowed,
  serve_publish_task, status_ok, PublishTaskRequest,
}
use openclaw_p2p.Sae.Tests.{one_byte, toy_libs, signed_task}
use openclaw_p2p.Node.Tests.{draft_inputs, ready, publish_inputs, toy_node}
use openclaw_p2p.Prelude.{arith, ◌+◌, Bool, String, true, refl, pos, ◌≡◌, none, [], ◌∷◌}

abbrev request : PublishTaskRequest
request = record {
  task_id = "t1";
  op = "";
  taxonomy = "dev.build";
  topics = "openagent/v1/general" ∷ [];
  summary = "build";
  detail = none;
  ttl_second = pos 60;
  conf = pos 500;
}

-- JSON of one byte for every envelope
abbrev brief : Libs
brief = toy_libs (λ e. ok one_byte) (λ b. ok signed_task)

abbrev server : Node brief
server = toy_node brief tt true

abbrev method : String
method = "POST"

status_test :
    (serve_publish_task brief publish_inputs ready draft_inputs "POST" (ok request) server).0.status
    ≡ status_ok
unfolding serve_publish_task publish_task draft_task sign marshal_detail signature_of
    validate_unsigned new_task_sae next_task_seq get normalize_topics trim_space build_detail_ref
    validate_signed bytes_of canonical encode announce enforce_envelope_policy verify_publisher
    verify did_from_pub_key upsert_payload write_json_atomic apply_task subscribe_topics
    unique_strings ensure_topic publish_sae publish_topic ttl_duration
status_test = refl

serve_publish_task_lem_example :
    (req : PublishTaskRequest) × (task : SaeEnvelope) × (method ≡ "POST")
    × (ok request ≡ ok req)
    × ((serve_publish_task brief publish_inputs ready draft_inputs "POST"
          (ok request)
          server).0.body
        ≡ envelope_body task)
    × IsPublishedFor brief publish_inputs ready draft_inputs req server task
        (serve_publish_task brief publish_inputs ready draft_inputs "POST" (ok request) server).1
serve_publish_task_lem_example =
    serve_publish_task_lem brief publish_inputs ready draft_inputs "POST" (ok request) server
      status_test

not_allowed_test :
    serve_publish_task brief publish_inputs ready draft_inputs "GET" (ok request) server
    ≡ (not_allowed, server)
unfolding serve_publish_task
not_allowed_test = refl

abbrev send_inputs : SendInputs
send_inputs = record {
  stamp_now = 3;
  frame_out = written;
  frame_now = 4;
  send_now = 4;
  response_out = written;
  response_now = 9;
}

abbrev no_url : String → Result Url
no_url raw = err invalid_signature

abbrev no_peer : Bool → FetchRequest → Stream FetchResponse
no_peer pid _ = record { opened = err invalid_signature; sent = nil; received = err not_found }

abbrev no_talk : Bool → NegotiationFrame → Stream NegotiationFrame
no_talk pid frame = record { opened = err invalid_signature; sent = nil; received = err not_found }

serve-AtMostOneStep_example :
    AtMostOneStep brief method server
      (serve_publish_task brief publish_inputs ready draft_inputs method (ok request) server).1
    × AtMostOneStep brief method server
        (serve_publish_fact brief publish_inputs ready draft_inputs method (err not_found) server).1
    × AtMostOneStep brief method server
        (serve_negotiate_request brief send_inputs 5 "now" no_talk method (err not_found) server).1
    × ((serve_fetch_request brief no_url no_peer method (ok "x") server).1 ≡ server)
serve-AtMostOneStep_example =
    serve-AtMostOneStep brief publish_inputs ready draft_inputs send_inputs 5 "now" method no_url
      no_peer no_talk (ok request) (err not_found) (ok "x") (err not_found) server

serve_publish_task_expires_example :
    (task : SaeEnvelope) × ((serve_publish_task brief publish_inputs ready draft_inputs "POST"
        (ok request)
        server).0.body
      ≡ envelope_body task)
    × (task.expires_at ≡ draft_inputs.now + seconds_or_day 60)
serve_publish_task_expires_example =
    serve_publish_task_expires brief publish_inputs ready draft_inputs "POST" request server 60 refl
      (ground arith) status_test
