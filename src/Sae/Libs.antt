-- ===== src/Sae/Libs.antt =====
-- What internal/sae calls: go-libp2p's keys and peer IDs, and the encodings of Go's standard
-- library (JSON, base64, hex, SHA-256). The laws below are hypotheses of the theorems that need
-- them, each a documented property of the library.
use openclaw_p2p.Prelude.{ℕ, ◌≡◌, String, Bool, true, List, Option, some}
use openclaw_p2p.Error.{Result, ok}
use openclaw_p2p.Sae.Envelope.{SaeEnvelope, CanonicalEnvelope}

abbrev pub Bytes : Type 0
Bytes = List ℕ

pub record Libs : Type 1 where
  pub PrivKey : Type 0
  pub PubKey : Type 0
  pub PeerId : Type 0
  -- crypto.PrivKey and crypto.PubKey
  pub get_public : PrivKey → PubKey
  pub sign_bytes : PrivKey → Bytes → Result Bytes
  pub verify_bytes : PubKey → Bytes → Bytes → Result Bool
  pub raw : PubKey → Result Bytes
  pub marshal_public_key : PubKey → Result Bytes
  pub type_name : PubKey → Bytes
  -- peer.Decode, ID.String, ID.ExtractPublicKey (a nil key is `none`), and == on peer IDs
  pub decode_peer : String → Result PeerId
  pub peer_string : PeerId → String
  pub extract_public_key : PeerId → Result (Option PubKey)
  pub same_peer : PeerId → PeerId → Bool
  -- encoding/json on the two envelope types
  pub marshal : SaeEnvelope → Result Bytes
  pub marshal_canonical : CanonicalEnvelope → Result Bytes
  pub unmarshal : Bytes → Result SaeEnvelope
  -- base64.RawURLEncoding, encoding/hex, crypto/sha256
  pub base64_encode : Bytes → String
  pub base64_decode : String → Result Bytes
  pub hex_encode : Bytes → String
  pub sha256 : Bytes → Bytes

-- A signature made with a private key verifies under its public key.
abbrev pub SignaturesVerify : Libs → Type 0
SignaturesVerify L =
    (priv : L.PrivKey) (m s : Bytes)
    → L.sign_bytes priv m ≡ ok s
    → L.verify_bytes (L.get_public priv) m s ≡ ok true

-- base64 decoding undoes encoding.
abbrev pub Base64RoundTrips : Libs → Type 0
Base64RoundTrips L = (b : Bytes) → L.base64_decode (L.base64_encode b) ≡ ok b

-- JSON decoding undoes encoding.
abbrev pub JsonRoundTrips : Libs → Type 0
JsonRoundTrips L = (e : SaeEnvelope) (b : Bytes) → L.marshal e ≡ ok b → L.unmarshal b ≡ ok e

-- The text of a peer ID decodes to it, and a peer ID embeds the key that it was made from.
abbrev pub NamesKey : (L : Libs) → L.PeerId → L.PubKey → Type 0
NamesKey L pid pub_key =
    (L.decode_peer (L.peer_string pid) ≡ ok pid) × (L.extract_public_key pid ≡ ok (some pub_key))
