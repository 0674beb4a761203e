-- ===== src/Sae/Sign/Tests.antt =====
-- Two spellings of one envelope, with a JSON that writes one canonical envelope.
use native.Mathlib.Decide.{ℕ_discrete}
use mathlib.Core.List.{List-discrete}
use openclaw_p2p.Prelude.{refl, [], sym, ◌∷◌, ◌∙◌, ◌≡◌}
use openclaw_p2p.Sae.Sign.Covered.{
  CanonicalJsonInjective, IsSameContent, canonical_bytes-IsSameContent,
}
use openclaw_p2p.Sae.Sign.{canonical_bytes}
use openclaw_p2p.Sae.Envelope.{CanonicalEnvelope, canonical}
use openclaw_p2p.Sae.Validate.{validate_unsigned}
use openclaw_p2p.Sae.Tests.{
  signed_task, spaced_task, spaced_canonical, toy, String-discrete, ℤ-discrete,
}
use openclaw_p2p.Sae.Libs.{Bytes, Libs}
use openclaw_p2p.Error.{ok, err, invalid_signature, Result}

CanonicalEnvelope-discrete : Discrete CanonicalEnvelope
CanonicalEnvelope-discrete =
    hlevel (String-discrete, List-discrete String-discrete, ℤ-discrete, ℕ_discrete)

abbrev known_form : {c : CanonicalEnvelope} → Dec (c ≡ canonical signed_task) → Result Bytes
known_form (yes p) = ok (1 ∷ [])
known_form (no n) = err invalid_signature

abbrev one_form : Libs
one_form = record toy {
  marshal_canonical = λ c. known_form (CanonicalEnvelope-discrete c (canonical signed_task));
}

of_known_form :
    {c : CanonicalEnvelope} {b : Bytes} (d : Dec (c ≡ canonical signed_task))
    → known_form d ≡ ok b
    → c ≡ canonical signed_task
of_known_form (yes p) h = p
of_known_form (no n) h = cc h

one_form-injective : CanonicalJsonInjective one_form
one_form-injective c d b h g =
    of_known_form (CanonicalEnvelope-discrete c (canonical signed_task)) h
    ∙ sym (of_known_form (CanonicalEnvelope-discrete d (canonical signed_task)) g)

known_form-yes :
    {c : CanonicalEnvelope} (d : Dec (c ≡ canonical signed_task))
    → c ≡ canonical signed_task
    → known_form d ≡ ok (1 ∷ [])
known_form-yes (yes p) h = refl
known_form-yes (no n) h = absurd (n h)

bytes_test : canonical_bytes one_form signed_task ≡ ok (1 ∷ [])
unfolding canonical_bytes validate_unsigned
bytes_test =
    known_form-yes (CanonicalEnvelope-discrete (canonical signed_task) (canonical signed_task)) refl

spaced_bytes_test : canonical_bytes one_form spaced_task ≡ ok (1 ∷ [])
unfolding canonical_bytes validate_unsigned
spaced_bytes_test =
    known_form-yes (CanonicalEnvelope-discrete (canonical spaced_task) (canonical signed_task))
      (sym spaced_canonical)

canonical_bytes-IsSameContent_example : IsSameContent signed_task spaced_task
canonical_bytes-IsSameContent_example =
    canonical_bytes-IsSameContent one_form signed_task spaced_task (1 ∷ []) one_form-injective
      bytes_test spaced_bytes_test
