-- ===== src/Node/Tests.antt =====
-- Runs of internal/p2p/node.go, at a node that has nothing yet.
use openclaw_p2p.Node.Publish.Fetched.{serve_fetch-publish_task}
use openclaw_p2p.Node.Session.{serve_fetch}
use openclaw_p2p.Gossip.Topics.{to_each}
use openclaw_p2p.Store.Records.{upsert_payload}
use openclaw_p2p.Sae.Envelope.{SaeEnvelope, canonical}
use openclaw_p2p.Text.Print.{bytes_of}
use openclaw_p2p.Detail.Ref.{build_detail_ref}
use openclaw_p2p.Text.{trim_space}
use openclaw_p2p.Topics.{unique_strings, normalize_topics}
use openclaw_p2p.Store.Tasks.{apply_task, next_task_seq}
use openclaw_p2p.Sae.Build.{new_task_sae}
use openclaw_p2p.Sae.Validate.{decode_envelope, encode, validate_signed, validate_unsigned}
use openclaw_p2p.Sae.Libs.{NamesKey, Bytes, Libs}
use openclaw_p2p.Error.{Result, ok, nil}
use openclaw_p2p.Node.Publish.{announce, publish_task, PublishInputs}
use openclaw_p2p.Node.Publish.Delivered.{publish_task_received, publish_task_lem, IsPublishedTask}
use openclaw_p2p.Gossip.{publish_topic, publish_sae, ensure_topic, subscribe_topics, PubSub}
use openclaw_p2p.Node.Publish.Draft.{
  payload_digest, marshal_detail, draft_task, DraftInputs, PublishTaskInput,
}
use openclaw_p2p.Sae.Tests.{
  json_toy-JsonRoundTrips, json_toy-Base64RoundTrips, json_toy-SignaturesVerify, toy_libs,
  SaeEnvelope-discrete, known-signed_task, one_byte, signed_task, json_toy,
}
use openclaw_p2p.Store.Files.{write_json_atomic, written}
use openclaw_p2p.Store.Tests.{empty_store}
use openclaw_p2p.GoMap.{get}
use openclaw_p2p.Node.Inbound.Origins.{handle_envelope-SameOf, DidsSeparable, SameOf}
use openclaw_p2p.Sae.Sign.{verify, verify_publisher, signature_of, sign, did_from_pub_key}
use openclaw_p2p.Node.Inbound.{read_loop, handle_envelope, Message, InboundInputs}
use openclaw_p2p.Policy.{Policy}
use openclaw_p2p.Store.Tasks.Keys.{IsSeparable}
use openclaw_p2p.Node.State.{enforce_envelope_policy, Node}
use openclaw_p2p.Node.Inbound.Accepted.{read_loop-IsAccepted, IsAccepted}
use openclaw_p2p.Prelude.{◌++◌, ◌≡◌, refl, ne_of_test, ◌∷◌, [], false, none, arith, true, List, pos}

abbrev pub strict : Policy
strict = record {
  conf_min = pos 300;
  topic_limit = pos 4;
  msg_size_limit = pos 1024;
  require_signature = true;
  rate_limit_per_peer = pos 60;
}

abbrev blank_node : Node json_toy
blank_node = record {
  policy = strict;
  priv_key = tt;
  peer_id = true;
  did = "ab";
  store = empty_store;
  gossip = record { topics = []; subs = []; published = [] };
}

abbrev pub inputs : InboundInputs
inputs = record {
  policy_now = 10;
  apply_now = 11;
  out = written;
  event_now = 12;
  event_fault = none;
}

abbrev messages : List (Message json_toy)
messages = record { from_self = false; content = one_byte; inputs = inputs } ∷ []

pub empty-IsAccepted : IsAccepted json_toy strict empty_store
unfolding get
empty-IsAccepted = record { tasks = λ k. tt; facts = λ k. tt }

read_loop-IsAccepted_test :
    IsAccepted json_toy strict (read_loop json_toy messages blank_node).store
read_loop-IsAccepted_test =
    read_loop-IsAccepted json_toy strict messages blank_node refl empty-IsAccepted

json_toy-DidsSeparable : DidsSeparable json_toy
unfolding did_from_pub_key
json_toy-DidsSeparable key = ground arith

ab-IsSeparable : IsSeparable "ab"
ab-IsSeparable = ground arith

handle_envelope-SameOf_example :
    SameOf "ab" empty_store (handle_envelope json_toy inputs signed_task blank_node).1.store
handle_envelope-SameOf_example =
    handle_envelope-SameOf json_toy "ab" ab-IsSeparable json_toy-DidsSeparable inputs signed_task
      blank_node refl (ne_of_test "ab" signed_task.origin refl)

-- A node of the toy key, and a task that it publishes.
abbrev pub toy_node : (L : Libs) → L.PrivKey → L.PeerId → Node L
toy_node L key pid = record {
  policy = strict;
  priv_key = key;
  peer_id = pid;
  did = "did:key:A-";
  store = empty_store;
  gossip = record { topics = []; subs = []; published = [] };
}

abbrev pub ready : PubSub
ready = record { join = λ t. nil; subscribe = λ t. nil; publish = λ t. nil }

abbrev pub publish_inputs : PublishInputs
publish_inputs = record {
  policy_now = 11;
  payload_out = written;
  payload_now = 12;
  apply_out = written;
  apply_now = 13;
  event_now = 14;
  event_fault = none;
}

abbrev pub draft_inputs : DraftInputs
draft_inputs = record { id_now = 9; now = 10 }

abbrev pub input : PublishTaskInput
input = record {
  task_id = "t1";
  op = "";
  taxonomy = "dev.build";
  topics = "openagent/v1/general" ∷ [];
  summary = "build";
  detail = none;
  ttl = pos 90;
  conf = pos 500;
}

publish_run :
    (mj : SaeEnvelope → Result Bytes) (u : Bytes → Result SaeEnvelope)
    → mj signed_task ≡ ok one_byte
    → (publish_task
        (toy_libs mj u)
        publish_inputs
        ready
        draft_inputs
        input
        (toy_node (toy_libs mj u) tt true)).0
      ≡ ok signed_task
unfolding publish_task draft_task sign marshal_detail signature_of validate_unsigned new_task_sae
    next_task_seq get normalize_topics trim_space build_detail_ref validate_signed bytes_of
    canonical encode announce enforce_envelope_policy verify_publisher verify did_from_pub_key
    upsert_payload write_json_atomic apply_task subscribe_topics unique_strings ensure_topic
    publish_sae publish_topic
publish_run mj u e = rw (e, e) refl

pub publish_test :
    (publish_task json_toy publish_inputs ready draft_inputs input (toy_node json_toy tt true)).0
    ≡ ok signed_task
publish_test = publish_run _ _ (known-signed_task (SaeEnvelope-discrete signed_task signed_task))

publish_task_lem_example :
    IsPublishedTask json_toy publish_inputs ready draft_inputs input
      (toy_node json_toy tt true)
      signed_task
      (publish_task json_toy publish_inputs ready draft_inputs input (toy_node json_toy tt true)).1
publish_task_lem_example =
    publish_task_lem json_toy publish_inputs ready draft_inputs input (toy_node json_toy tt true)
      signed_task publish_test

toy_names : NamesKey json_toy true tt
toy_names = (refl, refl)

toy_did : "did:key:A-" ≡ did_from_pub_key json_toy tt
unfolding did_from_pub_key
toy_did = refl

publish_task_received_example :
    (body : Bytes) × ((publish_task json_toy publish_inputs ready draft_inputs input
        (toy_node json_toy tt true)).1.gossip.published
      ≡ [] ++ to_each body (unique_strings signed_task.topics))
    × (decode_envelope json_toy body ≡ ok signed_task)
    × (verify_publisher json_toy signed_task ≡ nil)
publish_task_received_example =
    publish_task_received json_toy publish_inputs ready json_toy-SignaturesVerify
      json_toy-Base64RoundTrips json_toy-JsonRoundTrips draft_inputs input
      (toy_node json_toy tt true) signed_task toy_names toy_did publish_test

serve_fetch-publish_task_test :
    (content : Bytes) × (marshal_detail none ≡ ok content)
    × ((serve_fetch
          (ok (record { detail_ref = signed_task.detail_ref }))
          (publish_task json_toy publish_inputs ready draft_inputs input
            (toy_node json_toy tt true)).1.store).found
        ≡ true)
    × ((serve_fetch
          (ok (record { detail_ref = signed_task.detail_ref }))
          (publish_task json_toy publish_inputs ready draft_inputs input
            (toy_node json_toy tt true)).1.store).payload
        ≡ content)
    × ((serve_fetch
          (ok (record { detail_ref = signed_task.detail_ref }))
          (publish_task json_toy publish_inputs ready draft_inputs input
            (toy_node json_toy tt true)).1.store).sha256
        ≡ payload_digest json_toy content)
serve_fetch-publish_task_test =
    serve_fetch-publish_task json_toy publish_inputs ready draft_inputs input
      (toy_node json_toy tt true) signed_task publish_test
