-- ===== src/Sae/Sign.antt =====
-- internal/sae/envelope.go: `CanonicalBytes`, `Sign`, `Verify`, `VerifyPublisher`, `DIDFromPubKey`,
-- `HashString`.
pub mod Covered
pub mod Tests
pub mod Authenticity
use Prim.Native.String.{◌++◌ as append}
use openclaw_p2p.Prelude.{String, not, List, ◌==◌, Option, none, some, take}
use openclaw_p2p.Text.Print.{join, bytes_of}
use openclaw_p2p.Error.{
  wrapped, wrapped_nil, invalid_signature, origin_mismatch, Result, ok, err, Check, ◌>>=◌, ◌>>◌,
  fail_if, wrap,
}
use openclaw_p2p.Sae.Envelope.{SaeEnvelope, canonical}
use openclaw_p2p.Sae.Libs.{Libs, Bytes}
use openclaw_p2p.Sae.Validate.{validate_unsigned, validate_signed}

module _ (L : Libs) where
  unfoldable pub canonical_bytes : SaeEnvelope → Result Bytes
  canonical_bytes e = do validate_unsigned e; L.marshal_canonical (canonical e)

  -- what `Sign` does once it has the signature's bytes
  abbrev pub attach : SaeEnvelope → Result Bytes → Check × SaeEnvelope
  attach e (err x) = (err x, e)
  attach e (ok sig) =
      let signed = record e { sig = L.base64_encode sig } in (validate_signed L signed, signed)

  -- the signature of the canonical bytes
  unfoldable pub signature_of : L.PrivKey → SaeEnvelope → Result Bytes
  unfolding canonical_bytes
  signature_of priv e = do content ← canonical_bytes e; wrap "sign SAE" (L.sign_bytes priv content)

  -- A failed signature leaves the envelope alone; a signed one keeps its signature even if it then
  -- fails validation.
  unfoldable pub sign : L.PrivKey → SaeEnvelope → Check × SaeEnvelope
  sign priv e = attach e (signature_of priv e)

  unfoldable pub verify : L.PubKey → SaeEnvelope → Check
  unfolding canonical_bytes
  verify key e = do
    validate_signed L e
    content ← canonical_bytes e
    sig ← wrap "decode signature" (L.base64_decode e.sig)
    good ← wrap "verify signature" (L.verify_bytes key content sig)
    fail_if (not good) invalid_signature

  -- "did:key:" and the raw key, or a digest of what can be had of the key
  abbrev key_material : L.PubKey → Result Bytes → Bytes
  key_material key (ok marshaled) = marshaled
  key_material key (err x) = L.type_name key

  abbrev did_of_raw : L.PubKey → Result Bytes → String
  did_of_raw key (ok bytes) = append "did:key:" (L.base64_encode bytes)
  did_of_raw key (err x) =
      append "did:key:"
        (L.hex_encode (take 16 (L.sha256 (key_material key (L.marshal_public_key key)))))

  unfoldable pub did_from_pub_key : L.PubKey → String
  did_from_pub_key key = did_of_raw key (L.raw key)

  abbrev publisher_key : Result (Option L.PubKey) → Result L.PubKey
  publisher_key (ok (some key)) = ok key
  publisher_key (ok none) = err (wrapped_nil "extract publisher public key")
  publisher_key (err x) = err (wrapped "extract publisher public key" x)

  unfoldable pub verify_publisher : SaeEnvelope → Check
  verify_publisher e = do
    pid ← wrap "decode publisher peer ID" (L.decode_peer e.publisher)
    key ← publisher_key (L.extract_public_key pid)
    verify key e
    fail_if (not (did_from_pub_key key == e.origin))
        (origin_mismatch e.origin (did_from_pub_key key))

  unfoldable pub hash_string : List String → String
  hash_string parts = L.hex_encode (L.sha256 (bytes_of (join "::" parts)))
