-- ===== src/Sae/Sign/Covered.antt =====
-- What the bytes that `Sign` signs say of an envelope.
use openclaw_p2p.Prelude.{◌∙◌, refl, [], ◌==◌, sym, ◌∷◌, if◌then◌else◌, ap, ◌≡◌, String, List}
use openclaw_p2p.Sae.Sign.{canonical_bytes}
use openclaw_p2p.Sae.Envelope.{SaeEnvelope, CanonicalEnvelope, canonical, canonical_topics}
use openclaw_p2p.Sae.Validate.{validate_unsigned}
use openclaw_p2p.Sae.Libs.{Bytes, Libs}
use openclaw_p2p.Text.{trim_space}
use openclaw_p2p.Error.{ok, >>=-eq-ok}

-- json.Marshal writes different texts for different canonical envelopes.
abbrev pub CanonicalJsonInjective : Libs → Type 0
CanonicalJsonInjective L =
    (c d : CanonicalEnvelope) (b : Bytes)
    → L.marshal_canonical c ≡ ok b
    → L.marshal_canonical d ≡ ok b
    → c ≡ d

abbrev add_word : String → List String → List String
add_word word words = if word == "" then words else word ∷ words

-- The topics without the spaces around them, and without blank ones.
abbrev pub words_of : List String → List String
words_of [] = []
words_of (topic ∷ rest) = add_word (trim_space topic) (words_of rest)

-- Two envelopes that agree but for their signatures, and for spaces and blank entries in the topics.
pub record IsSameContent (e f : SaeEnvelope) : Type 0 where
  pub kind : e.kind ≡ f.kind
  pub origin : e.origin ≡ f.origin
  pub publisher : e.publisher ≡ f.publisher
  pub seq : e.seq ≡ f.seq
  pub topics : words_of e.topics ≡ words_of f.topics
  pub summary : e.summary ≡ f.summary
  pub detail_ref : e.detail_ref ≡ f.detail_ref
  pub expires_at : e.expires_at ≡ f.expires_at
  pub task_id : e.task_id ≡ f.task_id
  pub op : e.op ≡ f.op
  pub taxonomy : e.taxonomy ≡ f.taxonomy
  pub conf : e.conf ≡ f.conf
  pub fact_id : e.fact_id ≡ f.fact_id
  pub fact_kind : e.fact_kind ≡ f.fact_kind

canonical_topics_lem : (topics : List String) → canonical_topics topics ≡ words_of topics
unfolding canonical_topics
canonical_topics_lem [] = refl
canonical_topics_lem (topic ∷ rest) = ap (add_word (trim_space topic)) (canonical_topics_lem rest)

canonical-IsSameContent : (e f : SaeEnvelope) → canonical e ≡ canonical f → IsSameContent e f
unfolding canonical
canonical-IsSameContent e f h = record {
  kind = ap (λ (c : CanonicalEnvelope). c.kind) h;
  origin = ap (λ (c : CanonicalEnvelope). c.origin) h;
  publisher = ap (λ (c : CanonicalEnvelope). c.publisher) h;
  seq = ap (λ (c : CanonicalEnvelope). c.seq) h;
  topics =
      sym (canonical_topics_lem e.topics)
      ∙ ap (λ (c : CanonicalEnvelope). c.topics) h
      ∙ canonical_topics_lem f.topics;
  summary = ap (λ (c : CanonicalEnvelope). c.summary) h;
  detail_ref = ap (λ (c : CanonicalEnvelope). c.detail_ref) h;
  expires_at = ap (λ (c : CanonicalEnvelope). c.expires_at) h;
  task_id = ap (λ (c : CanonicalEnvelope). c.task_id) h;
  op = ap (λ (c : CanonicalEnvelope). c.op) h;
  taxonomy = ap (λ (c : CanonicalEnvelope). c.taxonomy) h;
  conf = ap (λ (c : CanonicalEnvelope). c.conf) h;
  fact_id = ap (λ (c : CanonicalEnvelope). c.fact_id) h;
  fact_kind = ap (λ (c : CanonicalEnvelope). c.fact_kind) h;
}

marshalled :
    (L : Libs) (e : SaeEnvelope) (b : Bytes)
    → canonical_bytes L e ≡ ok b
    → L.marshal_canonical (canonical e) ≡ ok b
unfolding canonical_bytes
marshalled L e b h = let (u, valid, rest) = >>=-eq-ok (validate_unsigned e) _ h in rest

-- Two envelopes whose signed bytes are the same agree in every field but the signature, the topics
-- up to spaces around them and blank entries, if json.Marshal writes different texts for different
-- canonical envelopes: a change to any field of an envelope changes what its signature has to cover.
pub canonical_bytes-IsSameContent :
    (L : Libs) (e f : SaeEnvelope) (b : Bytes)
    → CanonicalJsonInjective L
    → canonical_bytes L e ≡ ok b
    → canonical_bytes L f ≡ ok b
    → IsSameContent e f
canonical_bytes-IsSameContent L e f b json h g =
    canonical-IsSameContent e f
      (json (canonical e) (canonical f) b (marshalled L e b h) (marshalled L f b g))
