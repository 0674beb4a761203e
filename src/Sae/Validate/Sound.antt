-- ===== src/Sae/Validate/Sound.antt =====
-- What an envelope that passes `ValidateUnsigned` or `ValidateSigned` is known to satisfy, and the
-- round trip through `Encode` and `DecodeEnvelope`.
use openclaw_p2p.Prelude.{
  ne_of_test, test_of_ne, ◌≡◌, ◌≢◌, ◌⊎◌, ◌↔◌, refl, ◌≤◌, [], ◌==◌, eq_iff, arith, length,
  Bool-cases, inl, inr, false, ltb, eqb, not, ◌&&◌,
}
use openclaw_p2p.Error.{unknown_kind, size_exceeded, missing, ok, nil, >>=-eq-ok, fail_then}
use openclaw_p2p.Sae.Envelope.{
  SaeEnvelope, max_envelope_size, kind_task, kind_agent_fact, op_upsert, op_complete, op_withdraw,
}
use openclaw_p2p.Clock.{is_zero}
use openclaw_p2p.Sae.Libs.{Libs, Bytes, JsonRoundTrips}
use openclaw_p2p.Sae.Validate.{
  is_empty, validate_task, validate_fact, validate_kind, validate_unsigned, encode, validate_signed,
  decode_envelope,
}

-- A task announcement names its task and one of the three operations.
pub record IsTask (e : SaeEnvelope) : Type 0 where
  pub kind : e.kind ≡ kind_task
  pub task_id : e.task_id ≢ ""
  pub op : (e.op ≡ op_upsert) ⊎ (e.op ≡ op_complete) ⊎ (e.op ≡ op_withdraw)

pub record IsFact (e : SaeEnvelope) : Type 0 where
  pub kind : e.kind ≡ kind_agent_fact
  pub fact_id : e.fact_id ≢ ""
  pub fact_kind : e.fact_kind ≢ ""

pub record IsWellFormed (e : SaeEnvelope) : Type 0 where
  pub origin : e.origin ≢ ""
  pub publisher : e.publisher ≢ ""
  pub seq : e.seq ≢ 0
  pub topics : e.topics ≢ []
  pub summary : e.summary ≢ ""
  pub detail_ref : e.detail_ref ≢ ""
  pub expires_at : e.expires_at ≢ 0
  pub taxonomy : e.taxonomy ≢ ""
  pub payload : IsTask e ⊎ IsFact e

validate_task_sound :
    (e : SaeEnvelope) → validate_task e ≡ nil → e.kind ≡ kind_task → IsTask e × (e.taxonomy ≢ "")
validate_task_sound e h k = ground (
  arith,
  eq_iff e.task_id "",
  eq_iff e.op op_upsert,
  eq_iff e.op op_complete,
  eq_iff e.op op_withdraw,
  eq_iff e.taxonomy "",
)

validate_fact_sound :
    (e : SaeEnvelope)
    → validate_fact e ≡ nil
    → e.kind ≡ kind_agent_fact
    → IsFact e × (e.taxonomy ≢ "")
validate_fact_sound e h k =
    ground (arith, eq_iff e.fact_id "", eq_iff e.fact_kind "", eq_iff e.taxonomy "")

validate_kind_sound :
    (e : SaeEnvelope)
    → (not (e.kind == kind_task) && not (e.kind == kind_agent_fact)) ≡ false
    → validate_kind e ≡ nil
    → (IsTask e ⊎ IsFact e) × (e.taxonomy ≢ "")
validate_kind_sound e k h = elim (Bool-cases (e.kind == kind_task)) [
  | inl t ↦ let (a, b) = validate_task_sound e (rw t at h) ((eq_iff _ _).0 t) in (inl a, b)
  | inr t ↦ elim (Bool-cases (e.kind == kind_agent_fact)) [
    | inl f ↦ let (a, b) = validate_fact_sound e (rw (t, f) at h) ((eq_iff _ _).0 f) in (inr a, b)
    | inr f ↦ cc
  ]
]

validate_unsigned_sound : (e : SaeEnvelope) → validate_unsigned e ≡ nil → IsWellFormed e
unfolding validate_unsigned
validate_unsigned_sound e h0 =
    let (kind, h1) =
      fail_then (not (e.kind == kind_task) && not (e.kind == kind_agent_fact)) (unknown_kind e.kind)
        _ h0 in
    let (origin, h2) = fail_then (e.origin == "") (missing "origin") _ h1 in
    let (publisher, h3) = fail_then (e.publisher == "") (missing "publisher") _ h2 in
    let (seq, h4) = fail_then (eqb e.seq 0) (missing "seq") _ h3 in
    let (topics, h5) = fail_then (is_empty e.topics) (missing "topics") _ h4 in
    let (summary, h6) = fail_then (e.summary == "") (missing "summary") _ h5 in
    let (detail_ref, h7) = fail_then (e.detail_ref == "") (missing "detail_ref") _ h6 in
    let (expires_at, h8) = fail_then (is_zero e.expires_at) (missing "expires_at") _ h7 in
    let (payload, taxonomy) = validate_kind_sound e kind h8 in
    record {
      origin = ne_of_test _ _ origin;
      publisher = ne_of_test _ _ publisher;
      seq = ground arith;
      topics = ground arith;
      summary = ne_of_test _ _ summary;
      detail_ref = ne_of_test _ _ detail_ref;
      expires_at = ground arith;
      taxonomy = taxonomy;
      payload = payload;
    }

validate_task_complete : (e : SaeEnvelope) → IsTask e → e.taxonomy ≢ "" → validate_task e ≡ nil
validate_task_complete e t h = ground (
  arith,
  eq_iff e.task_id "",
  eq_iff e.op op_upsert,
  eq_iff e.op op_complete,
  eq_iff e.op op_withdraw,
  eq_iff e.taxonomy "",
)

validate_fact_complete : (e : SaeEnvelope) → IsFact e → e.taxonomy ≢ "" → validate_fact e ≡ nil
validate_fact_complete e t h =
    ground (arith, eq_iff e.fact_id "", eq_iff e.fact_kind "", eq_iff e.taxonomy "")

kind_known :
    (e : SaeEnvelope)
    → IsTask e ⊎ IsFact e
    → (not (e.kind == kind_task) && not (e.kind == kind_agent_fact)) ≡ false
kind_known e (inl t) = rw t.kind
kind_known e (inr f) = rw f.kind

validate_kind_complete :
    (e : SaeEnvelope) → IsTask e ⊎ IsFact e → e.taxonomy ≢ "" → validate_kind e ≡ nil
validate_kind_complete e (inl t) h = rw t.kind (validate_task_complete e t h)
validate_kind_complete e (inr f) h = rw f.kind (validate_fact_complete e f h)

validate_unsigned_complete : (e : SaeEnvelope) → IsWellFormed e → validate_unsigned e ≡ nil
unfolding validate_unsigned
validate_unsigned_complete e w =
    rw
      (
        kind_known e w.payload,
        test_of_ne e.origin "" w.origin,
        test_of_ne e.publisher "" w.publisher,
        seq_set,
        topics_set,
        test_of_ne e.summary "" w.summary,
        test_of_ne e.detail_ref "" w.detail_ref,
        expiry_set,
      )
      (validate_kind_complete e w.payload w.taxonomy)
  where
    seq_set : eqb e.seq 0 ≡ false
    seq_set = ground arith

    topics_set : eqb (length e.topics) 0 ≡ false
    topics_set = ground arith

    expiry_set : eqb e.expires_at 0 ≡ false
    expiry_set = ground arith

-- `ValidateUnsigned` returns nil exactly for the envelopes that have every common field, and are
-- either a task with a task ID and a known operation, or an agent fact with its two fields.
pub validate_unsigned_iff : (e : SaeEnvelope) → (validate_unsigned e ≡ nil) ↔ IsWellFormed e
validate_unsigned_iff e = (validate_unsigned_sound e, validate_unsigned_complete e)

module _ (L : Libs) where
  -- `Encode` returns the JSON text, and never more than the limit.
  pub encode_sound :
      (e : SaeEnvelope) (b : Bytes)
      → encode L e ≡ ok b
      → (L.marshal e ≡ ok b) × (length b ≤ max_envelope_size)
  unfolding encode
  encode_sound e b h = ground arith

  encode_complete :
      (e : SaeEnvelope) (b : Bytes)
      → L.marshal e ≡ ok b
      → length b ≤ max_envelope_size
      → encode L e ≡ ok b
  unfolding encode
  encode_complete e b m h = ground arith

  -- An envelope that passes `ValidateSigned` is well formed, has a signature, and its JSON text
  -- fits in 1024 bytes.
  pub validate_signed_sound :
      (e : SaeEnvelope)
      → validate_signed L e ≡ nil
      → IsWellFormed e
        × (e.sig ≢ "")
        × ((b : Bytes) × (encode L e ≡ ok b)
            × (L.marshal e ≡ ok b)
            × (length b ≤ max_envelope_size))
  unfolding validate_signed
  validate_signed_sound e h0 =
      let (_, unsigned, h1) = >>=-eq-ok (validate_unsigned e) _ h0 in
      let (sig, h2) = fail_then (e.sig == "") (missing "signature") _ h1 in
      let (b, encoded, h3) = >>=-eq-ok (encode L e) _ h2 in
      let (m, fits) = encode_sound e b encoded in
      (validate_unsigned_sound e unsigned, ne_of_test _ _ sig, (b, encoded, m, fits))

  pub validate_signed_complete :
      (e : SaeEnvelope) (b : Bytes)
      → IsWellFormed e
      → e.sig ≢ ""
      → L.marshal e ≡ ok b
      → length b ≤ max_envelope_size
      → validate_signed L e ≡ nil
  unfolding validate_signed
  validate_signed_complete e b w s m fits =
      rw (validate_unsigned_complete e w, test_of_ne e.sig "" s, encode_complete e b m fits)
        (ground arith)

  -- Whatever bytes arrive, an envelope that `DecodeEnvelope` accepts is well formed, has a
  -- signature, and both the bytes received and its own JSON text are at most 1024 long.
  pub decode_envelope_sound :
      (data_bytes : Bytes) (e : SaeEnvelope)
      → decode_envelope L data_bytes ≡ ok e
      → (length data_bytes ≤ max_envelope_size)
        × IsWellFormed e
        × (e.sig ≢ "")
        × ((b : Bytes) × (L.marshal e ≡ ok b) × (length b ≤ max_envelope_size))
  unfolding decode_envelope
  decode_envelope_sound data_bytes e h0 =
      let (short, h1) =
        fail_then (ltb max_envelope_size (length data_bytes)) (size_exceeded max_envelope_size) _
          h0 in
      let (env, _, h2) = >>=-eq-ok (L.unmarshal data_bytes) _ h1 in
      let (_, valid, h3) = >>=-eq-ok (validate_signed L env) _ h2 in
      let same : env ≡ e = cc in
      let (w, s, (b, _, m, fits)) = validate_signed_sound e (rw same at valid) in
      (ground arith, w, s, (b, m, fits))

  -- If JSON decoding undoes encoding, an envelope that passes `ValidateSigned` is encoded to bytes
  -- that `DecodeEnvelope` accepts and turns back into the same envelope.
  pub decode-encode :
      JsonRoundTrips L
      → (e : SaeEnvelope) → validate_signed L e ≡ nil
      → (b : Bytes) × (encode L e ≡ ok b) × (decode_envelope L b ≡ ok e)
  unfolding decode_envelope
  decode-encode round e valid =
      let (_, _, (b, encoded, m, fits)) = validate_signed_sound e valid in
      (b, encoded, rw (short b fits, round e b m, valid) refl)
    where
      short : (b : Bytes) → length b ≤ max_envelope_size → ltb max_envelope_size (length b) ≡ false
      short b h = ground arith
