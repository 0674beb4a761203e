-- ===== src/Sae/Tests.antt =====
-- Runs of internal/sae on a small envelope, with stand-ins for the libraries that keep their laws.
use openclaw_p2p.Text.{trim_space}
use openclaw_p2p.Sae.Validate.Sound.{
  decode_envelope_sound, validate_signed_sound, validate_unsigned_iff, decode-encode, IsWellFormed,
}
use openclaw_p2p.Sae.Sign.Authenticity.{
  verify_publisher_of_canonical, verify_publisher_iff, IsAuthentic, verify_publisher-sign,
}
use openclaw_p2p.Sae.Validate.{decode_envelope, validate_unsigned, encode, validate_signed}
use openclaw_p2p.Text.Print.{bytes_of}
use openclaw_p2p.Error.{invalid_signature, err, nil, ok, Result}
use openclaw_p2p.Sae.Sign.{signature_of, did_from_pub_key, verify_publisher, sign}
use openclaw_p2p.Sae.Envelope.{
  max_envelope_size, canonical_topics, canonical, op_upsert, kind_task, SaeEnvelope,
}
use openclaw_p2p.Sae.Libs.{JsonRoundTrips, Libs, Bytes, SignaturesVerify, Base64RoundTrips}
use openclaw_p2p.Prelude.{
  not, ◌≢◌, ◌≤◌, ne_of_test, inr, eq_iff, inl, ◌==◌, Bool-cases, ℤ, arith, true, sym, eqb, refl,
  some, ◌↔◌, false, length, pos, zero, if◌then◌else◌, [], ap, suc, ◌∷◌, ◌≡◌, Bool, String, ℕ,
}
use Prim.Native.Char.{code}
use native.Mathlib.Decide.{ℕ_discrete}
use mathlib.Core.List.{List-discrete}

-- An injective encoding of bytes: each is as many "A" as it says, and "-".
abbrev pub encode_byte : ℕ → String → String
encode_byte zero rest = String.◌∷◌ "-" rest
encode_byte (suc n) rest = String.◌∷◌ "A" (encode_byte n rest)

abbrev pub toy_encode : Bytes → String
toy_encode [] = ""
toy_encode (b ∷ bs) = encode_byte b (toy_encode bs)

abbrev pub count_head : Bytes → Bytes
count_head [] = []
count_head (n ∷ ns) = suc n ∷ ns

abbrev pub toy_decode : String → Bytes
toy_decode String.[] = []
toy_decode (String.◌∷◌ c s) =
    let rest = toy_decode s in if eqb (code c) b'-' then 0 ∷ rest else count_head rest

decode-encode_byte : (n : ℕ) (rest : String) → toy_decode (encode_byte n rest) ≡ n ∷ toy_decode rest
decode-encode_byte zero rest = refl
decode-encode_byte (suc n) rest = rw (decode-encode_byte n rest)

toy_decode-encode : (b : Bytes) → toy_decode (toy_encode b) ≡ b
toy_decode-encode [] = refl
toy_decode-encode (b ∷ bs) = rw (decode-encode_byte b (toy_encode bs), toy_decode-encode bs)

abbrev pub starts_with : ℕ → Bytes → Bool
starts_with n [] = false
starts_with n (b ∷ bs) = eqb b n

-- A test double of Go's libraries: one key, and the peer IDs "peer" and "other".
abbrev pub toy_libs : (SaeEnvelope → Result Bytes) → (Bytes → Result SaeEnvelope) → Libs
toy_libs marshal unmarshal = record {
  PrivKey = Unit;
  PubKey = Unit;
  PeerId = Bool;
  get_public = λ key. key;
  sign_bytes = λ key m. ok (length m ∷ []);
  verify_bytes = λ key m s. ok (starts_with (length m) s);
  raw = λ key. ok (1 ∷ []);
  marshal_public_key = λ key. ok [];
  type_name = λ key. [];
  decode_peer = λ s. ok (s == "peer");
  peer_string = λ pid. if pid then "peer" else "other";
  extract_public_key = λ pid. ok (some tt);
  same_peer = λ p q. if p then q else not q;
  marshal = marshal;
  marshal_canonical = λ c. ok (bytes_of c.summary);
  unmarshal = unmarshal;
  base64_encode = toy_encode;
  base64_decode = λ s. ok (toy_decode s);
  hex_encode = toy_encode;
  sha256 = λ b. b;
}

-- JSON that is the summary, and cannot be read back.
abbrev pub toy : Libs
toy = toy_libs (λ e. ok (bytes_of e.summary)) (λ b. err invalid_signature)

abbrev pub build_task : SaeEnvelope
build_task = record {
  kind = kind_task;
  origin = "did:key:A-";
  publisher = "peer";
  seq = 1;
  topics = "openagent/v1/general" ∷ [];
  summary = "build";
  detail_ref = "openagent://peer/task/t1/1";
  expires_at = 100;
  sig = "";
  task_id = "t1";
  op = op_upsert;
  taxonomy = "dev.build";
  conf = pos 500;
  fact_id = "";
  fact_kind = "";
}

-- The task with the signature of the toy key: its summary has five bytes.
abbrev pub signed_task : SaeEnvelope
signed_task = record build_task { sig = "AAAAA-" }

ok_inj : {A : Type 0} {a b : A} → ok a ≡ ok b → a ≡ b
ok_inj h = cc h

toy-SignaturesVerify : SignaturesVerify toy
toy-SignaturesVerify priv m s h = rw (sym (ok_inj h)) (ground arith)

toy-Base64RoundTrips : Base64RoundTrips toy
toy-Base64RoundTrips b = ap ok (toy_decode-encode b)

sign_test : sign toy tt build_task ≡ (nil, signed_task)
unfolding sign signature_of validate_signed encode validate_unsigned bytes_of canonical
sign_test = refl

did_test : did_from_pub_key toy tt ≡ "did:key:A-"
unfolding did_from_pub_key
did_test = refl

verify_publisher_iff_example :
    (verify_publisher toy signed_task ≡ nil) ↔ IsAuthentic toy signed_task
verify_publisher_iff_example = verify_publisher_iff toy signed_task

verify_publisher-sign_example : verify_publisher toy signed_task ≡ nil
verify_publisher-sign_example =
    verify_publisher-sign toy toy-SignaturesVerify toy-Base64RoundTrips tt true build_task
      signed_task (refl, refl) refl (sym did_test) sign_test

abbrev pub String-discrete : Discrete String
String-discrete x y = elim (Bool-cases (x == y)) [
  | inl e ↦ yes ((eq_iff x y).0 e)
  | inr e ↦ no (ne_of_test x y e)
]

pub ℤ-discrete : Discrete ℤ
ℤ-discrete = hlevel ℕ_discrete

pub SaeEnvelope-discrete : Discrete SaeEnvelope
SaeEnvelope-discrete =
    hlevel (String-discrete, List-discrete String-discrete, ℤ-discrete, ℕ_discrete)

-- JSON that knows one envelope, and writes it as one byte.
abbrev pub known : {e : SaeEnvelope} → Dec (e ≡ signed_task) → Result Bytes
known (yes p) = ok (1 ∷ [])
known (no n) = err invalid_signature

abbrev pub json_toy : Libs
json_toy = toy_libs (λ e. known (SaeEnvelope-discrete e signed_task)) (λ b. ok signed_task)

pub known-signed_task : (d : Dec (signed_task ≡ signed_task)) → known d ≡ ok (1 ∷ [])
known-signed_task (yes p) = refl
known-signed_task (no n) = absurd (n refl)

of_known :
    {e : SaeEnvelope} {b : Bytes} (d : Dec (e ≡ signed_task))
    → known d ≡ ok b
    → ok signed_task ≡ ok e
of_known (yes p) h = ap ok (sym p)
of_known (no n) h = cc h

pub json_toy-JsonRoundTrips : JsonRoundTrips json_toy
json_toy-JsonRoundTrips e b = of_known (SaeEnvelope-discrete e signed_task)

json_toy-validate_signed : validate_signed json_toy signed_task ≡ nil
unfolding validate_signed encode validate_unsigned
json_toy-validate_signed =
    rw (known-signed_task (SaeEnvelope-discrete signed_task signed_task)) refl

toy-validate_signed : validate_signed toy signed_task ≡ nil
unfolding validate_signed encode validate_unsigned bytes_of
toy-validate_signed = refl

-- The same task with a blank topic, and with spaces around the other.
abbrev pub spaced_task : SaeEnvelope
spaced_task = record signed_task { topics = " openagent/v1/general " ∷ "  " ∷ [] }

pub spaced_canonical : canonical signed_task ≡ canonical spaced_task
unfolding canonical canonical_topics trim_space
spaced_canonical = refl

toy-validate_spaced : validate_signed toy spaced_task ≡ nil
unfolding validate_signed encode validate_unsigned bytes_of
toy-validate_spaced = refl

signed_task-verifies : verify_publisher toy signed_task ≡ nil
signed_task-verifies =
    verify_publisher-sign toy toy-SignaturesVerify toy-Base64RoundTrips tt true build_task
      signed_task (refl, refl) refl (sym did_test) sign_test

verify_publisher_of_canonical_test : verify_publisher toy spaced_task ≡ nil
verify_publisher_of_canonical_test =
    verify_publisher_of_canonical toy signed_task spaced_task spaced_canonical refl
      verify_publisher-sign_example toy-validate_spaced

validate_unsigned_iff_example : (validate_unsigned build_task ≡ nil) ↔ IsWellFormed build_task
validate_unsigned_iff_example = validate_unsigned_iff build_task

validate_signed_sound_test :
    IsWellFormed signed_task
    × (signed_task.sig ≢ "")
    × ((b : Bytes) × (encode toy signed_task ≡ ok b)
        × (toy.marshal signed_task ≡ ok b)
        × (length b ≤ max_envelope_size))
validate_signed_sound_test = validate_signed_sound toy signed_task toy-validate_signed

abbrev pub one_byte : Bytes
one_byte = 1 ∷ []

decode_test : decode_envelope json_toy one_byte ≡ ok signed_task
unfolding decode_envelope
decode_test = rw json_toy-validate_signed refl

decode_envelope_sound_example :
    (length one_byte ≤ max_envelope_size)
    × IsWellFormed signed_task
    × (signed_task.sig ≢ "")
    × ((b : Bytes) × (json_toy.marshal signed_task ≡ ok b) × (length b ≤ max_envelope_size))
decode_envelope_sound_example = decode_envelope_sound json_toy one_byte signed_task decode_test

decode-encode_example :
    (b : Bytes) × (encode json_toy signed_task ≡ ok b)
    × (decode_envelope json_toy b ≡ ok signed_task)
decode-encode_example =
    decode-encode json_toy json_toy-JsonRoundTrips signed_task json_toy-validate_signed

pub json_toy-SignaturesVerify : SignaturesVerify json_toy
json_toy-SignaturesVerify = toy-SignaturesVerify

pub json_toy-Base64RoundTrips : Base64RoundTrips json_toy
json_toy-Base64RoundTrips = toy-Base64RoundTrips
