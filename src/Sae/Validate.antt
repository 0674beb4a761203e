-- ===== src/Sae/Validate.antt =====
-- internal/sae/envelope.go: `ValidateUnsigned`, `ValidateSigned`, `Encode`, `DecodeEnvelope`.
pub mod Sound
use openclaw_p2p.Prelude.{
  ℕ, String, Bool, true, ◌&&◌, ◌||◌, not, List, [], ◌∷◌, ◌==◌, eqb, ltb, length, if◌then◌else◌,
}
use openclaw_p2p.Error.{
  Error, missing, unknown_kind, invalid_task_op, size_exceeded, Result, ok, err, Check, nil, ◌>>=◌,
  ◌>>◌, fail_if,
}
use openclaw_p2p.Clock.{is_zero}
use openclaw_p2p.Sae.Envelope.{
  SaeEnvelope, max_envelope_size, kind_task, kind_agent_fact, op_upsert, op_complete, op_withdraw,
}
use openclaw_p2p.Sae.Libs.{Libs, Bytes}

abbrev pub is_empty {ℓ} : {A : Type ℓ} → List A → Bool
is_empty xs = eqb (length xs) 0

-- the case KindTask of the switch
abbrev validate_task : SaeEnvelope → Check
validate_task e = do
  fail_if (e.task_id == "") (missing "task_id")
  fail_if (not (e.op == op_upsert) && not (e.op == op_complete) && not (e.op == op_withdraw))
      (invalid_task_op e.op)
  fail_if (e.taxonomy == "") (missing "taxonomy")

-- the case KindAgentFact
abbrev validate_fact : SaeEnvelope → Check
validate_fact e = do
  fail_if (e.fact_id == "") (missing "fact_id")
  fail_if (e.fact_kind == "") (missing "fact_kind")
  fail_if (e.taxonomy == "") (missing "taxonomy")

-- the switch on the kind
abbrev validate_kind : SaeEnvelope → Check
validate_kind e =
    if e.kind == kind_task
    then validate_task e
    else if e.kind == kind_agent_fact
    then validate_fact e
    else nil

unfoldable pub validate_unsigned : SaeEnvelope → Check
validate_unsigned e = do
  fail_if (not (e.kind == kind_task) && not (e.kind == kind_agent_fact)) (unknown_kind e.kind)
  fail_if (e.origin == "") (missing "origin")
  fail_if (e.publisher == "") (missing "publisher")
  fail_if (eqb e.seq 0) (missing "seq")
  fail_if (is_empty e.topics) (missing "topics")
  fail_if (e.summary == "") (missing "summary")
  fail_if (e.detail_ref == "") (missing "detail_ref")
  fail_if (is_zero e.expires_at) (missing "expires_at")
  validate_kind e

module _ (L : Libs) where
  unfoldable pub encode : SaeEnvelope → Result Bytes
  encode e = do
    body ← L.marshal e
    fail_if (ltb max_envelope_size (length body)) (size_exceeded max_envelope_size)
    ok body

  unfoldable pub validate_signed : SaeEnvelope → Check
  validate_signed e = do
    validate_unsigned e
    fail_if (e.sig == "") (missing "signature")
    encoded ← encode e
    fail_if (ltb max_envelope_size (length encoded)) (size_exceeded max_envelope_size)

  -- The envelope comes back beside a failed validation; callers drop it.
  unfoldable pub decode_envelope : Bytes → Result SaeEnvelope
  decode_envelope data_bytes = do
    fail_if (ltb max_envelope_size (length data_bytes)) (size_exceeded max_envelope_size)
    env ← L.unmarshal data_bytes
    validate_signed env
    ok env
