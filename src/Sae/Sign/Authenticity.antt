-- ===== src/Sae/Sign/Authenticity.antt =====
-- What a signature on an envelope guarantees: a signed envelope verifies, a verified one was signed
-- for its canonical form by the key of its publisher, and what the signature leaves open.
use openclaw_p2p.Sae.Libs.{NamesKey, Base64RoundTrips, SignaturesVerify}
use openclaw_p2p.Sae.Validate.Sound.{validate_signed_sound, validate_unsigned_iff}
use openclaw_p2p.Sae.Envelope.{CanonicalEnvelope, canonical}
use openclaw_p2p.Error.{fail_if-eq-ok, invalid_signature, fail_if, >>=-eq-ok, err, nil}
use openclaw_p2p.Prelude.{
  refl, sym, ap, ◌∙◌, subst, eq_iff, false, ◌↔◌, none, ◌==◌, Option, eq_refl, subst, arith, not,
  true, Bool, some, String, ◌≡◌,
}
use openclaw_p2p.Sae.Sign.{
  attach, signature_of, publisher_key, did_from_pub_key, validate_unsigned, wrap, Bytes,
  validate_signed, ok, SaeEnvelope, Result, Libs, canonical_bytes, sign, verify, verify_publisher,
}

-- The parts of a successful verification.
pub record IsVerified (L : Libs) (key : L.PubKey) (e : SaeEnvelope) : Type 0 where
  pub valid : validate_signed L e ≡ nil
  pub content : Bytes
  pub content_of : L.marshal_canonical (canonical e) ≡ ok content
  pub signature : Bytes
  pub signature_of : L.base64_decode e.sig ≡ ok signature
  pub signed : L.verify_bytes key content signature ≡ ok true

pub record IsAuthentic (L : Libs) (e : SaeEnvelope) : Type 0 where
  pub peer : L.PeerId
  pub peer_of : L.decode_peer e.publisher ≡ ok peer
  pub key : L.PubKey
  pub key_of : L.extract_public_key peer ≡ ok (some key)
  pub verified : IsVerified L key e
  pub origin : did_from_pub_key L key ≡ e.origin

wrap-eq-ok {ℓ} : {A : Type ℓ} (text : String) (r : Result A) {a : A} → wrap text r ≡ ok a → r ≡ ok a
wrap-eq-ok text (ok a) h = h
wrap-eq-ok text (err e) h = cc

module _ (L : Libs) where
  canonical_bytes_sound :
      (e : SaeEnvelope) (content : Bytes)
      → canonical_bytes L e ≡ ok content
      → (validate_unsigned e ≡ nil) × (L.marshal_canonical (canonical e) ≡ ok content)
  unfolding canonical_bytes
  canonical_bytes_sound e content h =
      let (_, valid, m) = >>=-eq-ok (validate_unsigned e) _ h in (cc, m)

  canonical_bytes_complete :
      (e : SaeEnvelope) (content : Bytes)
      → validate_unsigned e ≡ nil
      → L.marshal_canonical (canonical e) ≡ ok content
      → canonical_bytes L e ≡ ok content
  unfolding canonical_bytes
  canonical_bytes_complete e content v m = rw v m

  unsigned_of_signed : (e : SaeEnvelope) → validate_signed L e ≡ nil → validate_unsigned e ≡ nil
  unsigned_of_signed e v = (validate_unsigned_iff e).1 (validate_signed_sound L e v).0

  verify_sound : (key : L.PubKey) (e : SaeEnvelope) → verify L key e ≡ nil → IsVerified L key e
  unfolding verify
  verify_sound key e h0 =
      let (_, valid, h1) = >>=-eq-ok (validate_signed L e) _ h0 in
      let (content, c, h2) = >>=-eq-ok (canonical_bytes L e) _ h1 in
      let (signature, s, h3) = >>=-eq-ok (wrap "decode signature" (L.base64_decode e.sig)) _ h2 in
      let (good, g, h4) =
        >>=-eq-ok (wrap "verify signature" (L.verify_bytes key content signature)) _ h3 in
      record {
        valid = ground arith;
        content = content;
        content_of = (canonical_bytes_sound e content c).1;
        signature = signature;
        signature_of = wrap-eq-ok _ _ s;
        signed =
            subst (λ b. L.verify_bytes key content signature ≡ ok b) (is_good good h4)
              (wrap-eq-ok _ _ g);
      }
    where
      is_good : (good : Bool) → fail_if (not good) invalid_signature ≡ nil → good ≡ true
      is_good true h = refl
      is_good false h = cc

  verify_complete : (key : L.PubKey) (e : SaeEnvelope) → IsVerified L key e → verify L key e ≡ nil
  unfolding verify
  verify_complete key e v = rw (
    v.valid,
    canonical_bytes_complete e v.content (unsigned_of_signed e v.valid) v.content_of,
    v.signature_of,
    v.signed,
  )

  publisher_key_sound :
      (r : Result (Option L.PubKey)) (key : L.PubKey)
      → publisher_key L r ≡ ok key
      → r ≡ ok (some key)
  publisher_key_sound (ok (some k)) key h = cc
  publisher_key_sound (ok none) key h = cc
  publisher_key_sound (err x) key h = cc

  verify_publisher_sound : (e : SaeEnvelope) → verify_publisher L e ≡ nil → IsAuthentic L e
  unfolding verify_publisher
  verify_publisher_sound e h0 =
      let (pid, p, h1) =
        >>=-eq-ok (wrap "decode publisher peer ID" (L.decode_peer e.publisher)) _ h0 in
      let (key, k, h2) = >>=-eq-ok (publisher_key L (L.extract_public_key pid)) _ h1 in
      let (_, v, h3) = >>=-eq-ok (verify L key e) _ h2 in
      record {
        peer = pid;
        peer_of = wrap-eq-ok _ _ p;
        key = key;
        key_of = publisher_key_sound _ key k;
        verified = verify_sound key e (ground arith);
        origin = same_did key (fail_if-eq-ok _ _ h3);
      }
    where
      same_did :
          (key : L.PubKey)
          → not (did_from_pub_key L key == e.origin) ≡ false
          → did_from_pub_key L key ≡ e.origin
      same_did key h = ground (arith, eq_iff (did_from_pub_key L key) e.origin)

  verify_publisher_complete : (e : SaeEnvelope) → IsAuthentic L e → verify_publisher L e ≡ nil
  unfolding verify_publisher
  verify_publisher_complete e a =
      rw (a.peer_of, a.key_of, verify_complete a.key e a.verified, a.origin, eq_refl e.origin)

  -- `VerifyPublisher` accepts exactly the envelopes that pass `ValidateSigned`, whose publisher is
  -- a peer ID with a public key, whose signature decodes and verifies under that key for the
  -- canonical form, and whose origin is the DID of that key.
  pub verify_publisher_iff : (e : SaeEnvelope) → (verify_publisher L e ≡ nil) ↔ IsAuthentic L e
  verify_publisher_iff e = (verify_publisher_sound e, verify_publisher_complete e)

  signature_of_sound :
      (priv : L.PrivKey) (e : SaeEnvelope) (s : Bytes)
      → signature_of L priv e ≡ ok s
      → (content : Bytes) × (L.marshal_canonical (canonical e) ≡ ok content)
        × (L.sign_bytes priv content ≡ ok s)
  unfolding signature_of
  signature_of_sound priv e s h =
      let (content, c, w) = >>=-eq-ok (canonical_bytes L e) _ h in
      (content, (canonical_bytes_sound e content c).1, wrap-eq-ok _ _ w)

  attach_sound :
      (r : Result Bytes) (e signed : SaeEnvelope)
      → attach L e r ≡ (nil, signed)
      → (s : Bytes) × (r ≡ ok s)
        × (signed ≡ record e { sig = L.base64_encode s })
        × (validate_signed L signed ≡ nil)
  attach_sound (err x) e signed h = cc
  attach_sound (ok s) e signed h =
      let same : signed ≡ record e { sig = L.base64_encode s } = ap (λ p. p.1) (sym h) in
      (s, refl, same, rw same (ap (λ p. p.0) h))

  -- An envelope that `Sign` accepts is the one given with a signature, and passes `ValidateSigned`.
  pub sign_sound :
      (priv : L.PrivKey) (e signed : SaeEnvelope)
      → sign L priv e ≡ (nil, signed)
      → ((s : Bytes) × (signed ≡ record e { sig = L.base64_encode s }))
        × (validate_signed L signed ≡ nil)
  unfolding sign
  sign_sound priv e signed h =
      let (s, r, same, valid) = attach_sound (signature_of L priv e) e signed h in
      ((s, same), valid)

  -- An envelope that `Sign` accepts, with the peer ID of the signing key as its publisher and the
  -- DID of that key as its origin, passes `VerifyPublisher` at every receiver, if signatures verify
  -- and base64 decoding undoes encoding.
  pub verify_publisher-sign :
      SignaturesVerify L
      → Base64RoundTrips L
      → (priv : L.PrivKey) (pid : L.PeerId) (e signed : SaeEnvelope)
      → NamesKey L pid (L.get_public priv)
      → e.publisher ≡ L.peer_string pid
      → e.origin ≡ did_from_pub_key L (L.get_public priv)
      → sign L priv e ≡ (nil, signed)
      → verify_publisher L signed ≡ nil
  unfolding sign canonical
  verify_publisher-sign verifies round priv pid e signed names publisher origin h =
      let (s, r, same, valid) = attach_sound (signature_of L priv e) e signed h in
      let (content, c, sg) = signature_of_sound priv e s r in
      rw same (
        verify_publisher_complete _ (record {
          peer = pid;
          peer_of = rw publisher names.0;
          key = L.get_public priv;
          key_of = names.1;
          verified = record {
            valid = rw same at valid;
            content = content;
            content_of = c;
            signature = s;
            signature_of = round s;
            signed = verifies priv content s sg;
          };
          origin = sym origin;
        }))

  -- Two envelopes with the same canonical form and the same signature verify alike: if the first
  -- passes `VerifyPublisher` and the second passes `ValidateSigned`, the second passes
  -- `VerifyPublisher` too. Topics that differ by spaces or blank entries are such a difference.
  pub verify_publisher_of_canonical :
      (e forged : SaeEnvelope)
      → canonical e ≡ canonical forged
      → e.sig ≡ forged.sig
      → verify_publisher L e ≡ nil
      → validate_signed L forged ≡ nil
      → verify_publisher L forged ≡ nil
  unfolding canonical
  verify_publisher_of_canonical e forged same sg h valid =
      let a = verify_publisher_sound e h in
      verify_publisher_complete forged (record {
        peer = a.peer;
        peer_of =
            subst (λ p. L.decode_peer p ≡ ok a.peer)
              (ap (λ (c : CanonicalEnvelope). c.publisher) same) a.peer_of;
        key = a.key;
        key_of = a.key_of;
        verified = record {
          valid = valid;
          content = a.verified.content;
          content_of =
              subst (λ c. L.marshal_canonical c ≡ ok a.verified.content) same a.verified.content_of;
          signature = a.verified.signature;
          signature_of =
              subst (λ g. L.base64_decode g ≡ ok a.verified.signature) sg a.verified.signature_of;
          signed = a.verified.signed;
        };
        origin = a.origin ∙ ap (λ (c : CanonicalEnvelope). c.origin) same;
      })
