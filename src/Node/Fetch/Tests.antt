-- ===== src/Node/Fetch/Tests.antt =====
-- A fetch between two nodes.
use openclaw_p2p.Detail.Plain.{IsPlain}
use openclaw_p2p.Node.Fetch.Published.{HexIsPlain, IsPlainId, IsAddressed, fetch_published_task}
use openclaw_p2p.Detail.Tests.{read_url, read_url-UrlParses}
use openclaw_p2p.GoMap.{get}
use openclaw_p2p.Node.Publish.{publish_task}
use openclaw_p2p.Node.Fetch.Remote.{answered_by, fetch_remote_detail-publish_task}
use openclaw_p2p.Store.State.{text}
use openclaw_p2p.Text.Print.{bytes_of}
use openclaw_p2p.Error.{not_found, err, nil, ok, Result}
use openclaw_p2p.Node.Publish.Draft.{payload_digest, marshal_detail}
use openclaw_p2p.Node.Session.{FetchRequest, FetchResponse, fetch_failure}
use openclaw_p2p.Node.Fetch.{Stream, fetch_remote_detail}
use openclaw_p2p.Sae.Libs.{Bytes}
use openclaw_p2p.Node.State.{Node}
use openclaw_p2p.Detail.Parse.{Url, DetailRef, parse_detail_ref}
use openclaw_p2p.Sae.Tests.{encode_byte, toy_encode, json_toy, signed_task}
use openclaw_p2p.Node.Tests.{draft_inputs, input, ready, publish_inputs, publish_test, toy_node}
use openclaw_p2p.Prelude.{zero, suc, [], ◌∷◌, ℕ, refl, true, false, String, Bool, ◌≡◌, none}

-- url.Parse on the one reference of the tests
abbrev parse_one : String → Result Url
parse_one raw =
    ok (record { scheme = "openagent"; host = "peer"; path = bytes_of "/task/t%31/1/../1" })

abbrev ref : DetailRef json_toy
ref = record { peer_id = true; kind = bytes_of "task"; id = bytes_of "t1"; version = bytes_of "1" }

-- The path is cleaned, and then the ID unescaped.
parse_test : parse_detail_ref json_toy parse_one signed_task.detail_ref ≡ ok ref
unfolding parse_detail_ref bytes_of
parse_test = refl

abbrev publisher : Node json_toy
publisher = toy_node json_toy tt true

abbrev reader : Node json_toy
reader = toy_node json_toy tt false

abbrev dial : Bool → FetchRequest → Stream FetchResponse
dial pid request =
    answered_by (publish_task json_toy publish_inputs ready draft_inputs input publisher).1.store
      request

fetch_remote_detail-publish_task_test :
    (content : Bytes) × (marshal_detail none ≡ ok content)
    × ((fetch_remote_detail json_toy parse_one dial signed_task.detail_ref reader).1 ≡ nil)
    × ((fetch_remote_detail json_toy parse_one dial signed_task.detail_ref reader).0.found ≡ true)
    × ((fetch_remote_detail json_toy parse_one dial signed_task.detail_ref reader).0.payload
        ≡ content)
    × ((fetch_remote_detail json_toy parse_one dial signed_task.detail_ref reader).0.sha256
        ≡ payload_digest json_toy content)
fetch_remote_detail-publish_task_test =
    fetch_remote_detail-publish_task json_toy parse_one publish_inputs ready draft_inputs input
      publisher reader signed_task dial ref publish_test parse_test refl (λ request. refl)

plain_id : IsPlainId "t1"
unfolding bytes_of
plain_id = record { plain = (refl, (refl, tt)); not_special = refl }

encode_byte-IsPlain : (n : ℕ) (s : String) → IsPlain s → IsPlain (encode_byte n s)
encode_byte-IsPlain zero s h = (refl, h)
encode_byte-IsPlain (suc n) s h = (refl, encode_byte-IsPlain n s h)

toy-HexIsPlain : HexIsPlain json_toy
toy-HexIsPlain [] = tt
toy-HexIsPlain (b ∷ bs) = encode_byte-IsPlain b (toy_encode bs) (toy-HexIsPlain bs)

toy_address : IsAddressed json_toy publisher
toy_address = record { letters = (refl, (refl, (refl, (refl, tt)))); decodes = refl }

fetch_published_task_example :
    (content : Bytes) × (marshal_detail none ≡ ok content)
    × ((fetch_remote_detail json_toy read_url dial signed_task.detail_ref reader).1 ≡ nil)
    × ((fetch_remote_detail json_toy read_url dial signed_task.detail_ref reader).0.found ≡ true)
    × ((fetch_remote_detail json_toy read_url dial signed_task.detail_ref reader).0.payload
        ≡ content)
    × ((fetch_remote_detail json_toy read_url dial signed_task.detail_ref reader).0.sha256
        ≡ payload_digest json_toy content)
fetch_published_task_example =
    fetch_published_task json_toy publish_inputs ready draft_inputs input publisher signed_task
      read_url reader dial read_url-UrlParses toy_address toy-HexIsPlain (λ given. plain_id)
      publish_test refl (λ request. refl)

-- A reference to the node itself that it does not hold.
not_found_test :
    fetch_remote_detail json_toy parse_one dial signed_task.detail_ref publisher
    ≡ (fetch_failure (text "not found"), err not_found)
unfolding fetch_remote_detail bytes_of get
not_found_test = refl
