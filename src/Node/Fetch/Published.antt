-- ===== src/Node/Fetch/Published.antt =====
-- The reference of a published task, fetched by another node.
use openclaw_p2p.Clock.{Time}
use openclaw_p2p.Node.Session.{FetchRequest, FetchResponse}
use openclaw_p2p.Node.Fetch.{fetch_remote_detail, Stream}
use openclaw_p2p.Detail.Parse.{parse_detail_ref, Url}
use openclaw_p2p.Error.{nil, ok, Result}
use openclaw_p2p.Prelude.{
  zero, suc, if◌then◌else◌, Bool, ◌==◌, refl, ◌∙◌, true, ap, false, ◌≡◌, ℕ, String,
}
use openclaw_p2p.Sae.Envelope.{SaeEnvelope}
use openclaw_p2p.Node.State.{self, Node}
use openclaw_p2p.Gossip.{PubSub}
use openclaw_p2p.Node.Publish.{publish_task, PublishInputs}
use openclaw_p2p.Sae.Libs.{Bytes, Libs}
use openclaw_p2p.Node.Fetch.Remote.{fetch_remote_detail-publish_task, answered_by}
use openclaw_p2p.Node.Publish.Delivered.{publish_task_lem}
use openclaw_p2p.Node.Publish.Draft.{
  task_id_or_fresh, task_to_sign, payload_digest, marshal_detail, PublishTaskInput, DraftInputs,
}
use openclaw_p2p.Sae.Sign.Authenticity.{sign_sound}
use openclaw_p2p.Sae.Sign.{hash_string}
use Prim.Native.String.{◌++◌ as append}
use openclaw_p2p.Sae.Build.{fresh_task_id, new_task_sae}
use openclaw_p2p.Store.Tasks.{next_task_seq}
use openclaw_p2p.Detail.RoundTrip.{UrlParses, IsHost, parse_detail_ref-build_detail_ref}
use openclaw_p2p.Detail.Ref.{build_detail_ref}
use openclaw_p2p.Detail.Plain.{bytes_of-append, IsPlain-append, IsPlain}
use openclaw_p2p.Detail.Path.{is_special}
use openclaw_p2p.Text.Print.{first_chars, bytes_of}

-- The peer ID of the node is written as letters and digits, and reads back.
pub record IsAddressed (L : Libs) (a : Node L) : Type 0 where
  pub letters : IsHost (self L a)
  pub decodes : L.decode_peer (self L a) ≡ ok a.peer_id

-- The ID of the task is not escaped in a reference and is no special part of a path.
pub record IsPlainId (task_id : String) : Type 0 where
  pub plain : IsPlain task_id
  pub not_special : is_special (bytes_of task_id) ≡ false

-- hex.EncodeToString writes characters that are not escaped.
abbrev pub HexIsPlain : Libs → Type 0
HexIsPlain L = (bs : Bytes) → IsPlain (L.hex_encode bs)

first_chars-IsPlain : (n : ℕ) (s : String) → IsPlain s → IsPlain (first_chars n s)
unfolding first_chars
first_chars-IsPlain zero s h = tt
first_chars-IsPlain (suc n) String.[] h = tt
first_chars-IsPlain (suc n) (String.◌∷◌ c s) (h, hs) = (h, first_chars-IsPlain n s hs)

task_prefix-IsPlainId : (s : String) → IsPlain s → IsPlainId (append "task:" s)
unfolding bytes_of
task_prefix-IsPlainId s h = record {
  plain = IsPlain-append "task:" s (refl, (refl, (refl, (refl, (refl, tt))))) h;
  not_special = ap is_special (bytes_of-append "task:" s);
}

fresh_task_id-IsPlainId :
    (L : Libs) (origin taxonomy summary : String) (now : Time)
    → HexIsPlain L
    → IsPlainId (fresh_task_id L origin taxonomy summary now)
unfolding fresh_task_id hash_string
fresh_task_id-IsPlainId L origin taxonomy summary now hex =
    task_prefix-IsPlainId _ (first_chars-IsPlain 32 _ (hex _))

if-IsPlainId :
    (b : Bool) (x y : String)
    → IsPlainId x
    → (b ≡ false → IsPlainId y)
    → IsPlainId (if b then x else y)
if-IsPlainId true x y h g = h
if-IsPlainId false x y h g = g refl

module _ (L : Libs) (i : PublishInputs) (ps : PubSub) (di : DraftInputs) (input : PublishTaskInput)
    (a : Node L) (task : SaeEnvelope) where
  -- The number of the next announcement of the task.
  abbrev published_seq : ℕ
  published_seq = next_task_seq a.did (task_id_or_fresh L di input a) a.store

  detail_ref-publish_task :
      (publish_task L i ps di input a).0 ≡ ok task
      → task.detail_ref
        ≡ build_detail_ref (self L a) "task" (task_id_or_fresh L di input a) published_seq
  unfolding new_task_sae
  detail_ref-publish_task h =
      let signed = (publish_task_lem L i ps di input a task h).signed in
      let ((s, same), valid) = sign_sound L a.priv_key (task_to_sign L di input a) task signed in
      ap (λ (e : SaeEnvelope). e.detail_ref) same

  -- A node that fetches the reference of a task from the node whose `PublishTask` returned it, over
  -- a stream to that node's peer ID without faults, which hands each request to that node's handler,
  -- gets the detail that was published, with its digest and without an error, if it is another peer. The publisher's peer ID is written as
  -- letters and digits and reads back, url.Parse reads a URL as its documentation says, hexadecimal
  -- digits are not escaped, and a task ID that the input gives has only characters that are not
  -- escaped and is neither "." nor "..".
  pub fetch_published_task :
      (parse_url : String → Result Url) (b : Node L)
      (dial : L.PeerId → FetchRequest → Stream FetchResponse)
      → UrlParses parse_url
      → IsAddressed L a
      → HexIsPlain L
      → ((input.task_id == "") ≡ false → IsPlainId input.task_id)
      → (publish_task L i ps di input a).0 ≡ ok task
      → L.same_peer a.peer_id b.peer_id ≡ false
      → ((request : FetchRequest)
          → dial a.peer_id request ≡ answered_by (publish_task L i ps di input a).1.store request)
      → (let fetched = fetch_remote_detail L parse_url dial task.detail_ref b in
          (content : Bytes) × (marshal_detail input.detail ≡ ok content)
          × (fetched.1 ≡ nil)
          × (fetched.0.found ≡ true)
          × (fetched.0.payload ≡ content)
          × (fetched.0.sha256 ≡ payload_digest L content))
  unfolding bytes_of
  fetch_published_task parse_url b dial parses addressed hex given h other answered =
      let task_id = task_id_or_fresh L di input a in
      let id : IsPlainId (task_id_or_fresh L di input a) =
        if-IsPlainId (input.task_id == "")
          (fresh_task_id L a.did input.taxonomy input.summary di.id_now) input.task_id
          (fresh_task_id-IsPlainId L a.did input.taxonomy input.summary di.id_now hex) given in
      fetch_remote_detail-publish_task L parse_url i ps di input a b task dial _ h
        (ap (parse_detail_ref L parse_url) (detail_ref-publish_task h)
          ∙ parse_detail_ref-build_detail_ref L parse_url parses a.peer_id "task" task_id
              published_seq addressed.letters addressed.decodes (refl, (refl, (refl, (refl, tt))))
              id.plain refl id.not_special)
        other answered
