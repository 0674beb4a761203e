-- ===== src/Prelude/Texts.antt =====
-- Equality tests on texts.
use Prim.Native.String.{String}
use mathlib.Core.Path.{◌≡◌}
use mathlib.Core.Logic.{◌≢◌, inl, inr}
use mathlib.Core.Bool.{false}
use text.Mathlib.Text.{◌==◌}
use text.Mathlib.TextEquality.{eq_iff}
use openclaw_p2p.Prelude.Tests.{Bool-cases}

pub ne_of_test : (s t : String) → (s == t) ≡ false → s ≢ t
ne_of_test s t h p = cc (h, (eq_iff s t).1 p)

pub test_of_ne : (s t : String) → s ≢ t → (s == t) ≡ false
test_of_ne s t h = elim (Bool-cases (s == t)) [ inl e ↦ absurd (h ((eq_iff s t).0 e)) | inr e ↦ e ]
