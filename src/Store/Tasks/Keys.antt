-- ===== src/Store/Tasks/Keys.antt =====
-- Keys of tasks and facts, origin::id: when two pairs share a key.
use openclaw_p2p.Prelude.{sym, ◌≢◌, ◌≡◌, String}
use Prim.Native.Char.{Char, code}
use Prim.Native.String.{◌++◌ as append}
use text.Mathlib.TextLemmas.{
  append_cancel_left, head-eq_of_cons-eq, tail-eq_of_cons-eq, cons-append, nil-append,
}
use openclaw_p2p.Prelude.{◌≡◌, refl, sym, ap, ◌∙◌}
use mathlib.Core.Path.{ap₂}
use openclaw_p2p.Store.Tasks.{task_key}

-- The text holds no "::", and does not end in a colon.
abbrev pub IsSeparable : String → Type 0
IsSeparable String.[] = Unit
IsSeparable (String.◌∷◌ c String.[]) = code c ≢ b':'
IsSeparable (String.◌∷◌ c (String.◌∷◌ d s)) =
    ¬ ((code c ≡ b':') × (code d ≡ b':')) × IsSeparable (String.◌∷◌ d s)

tail-IsSeparable : (c : Char) (s : String) → IsSeparable (String.◌∷◌ c s) → IsSeparable s
tail-IsSeparable c String.[] h = tt
tail-IsSeparable c (String.◌∷◌ d s) h = h.1

sep-append : (t : String) → append "::" t ≡ String.◌∷◌ ":" (String.◌∷◌ ":" t)
sep-append t = rw (cons-append, cons-append, nil-append)

-- No separable text is the rest of one after a key's separator.
no_split :
    (c : Char) (s t u : String)
    → IsSeparable (String.◌∷◌ c s)
    → append "::" t ≡ String.◌∷◌ c (append s (append "::" u))
    → ⊥
no_split c String.[] t u h e = h (ap code (sym (head-eq_of_cons-eq e')))
  where
    e' : String.◌∷◌ ":" (String.◌∷◌ ":" t) ≡ String.◌∷◌ c (append "" (append "::" u))
    e' = sym (sep-append t) ∙ e
no_split c (String.◌∷◌ d s) t u h e =
    let tail = tail-eq_of_cons-eq e' in
    h.0 (ap code (sym (head-eq_of_cons-eq e')), ap code (sym (head-eq_of_cons-eq tail)))
  where
    e' : String.◌∷◌ ":" (String.◌∷◌ ":" t) ≡ String.◌∷◌ c (String.◌∷◌ d (append s (append "::" u)))
    e' = sym (sep-append t) ∙ e ∙ ap (String.◌∷◌ c) (cons-append d s (append "::" u))

-- With separable origins, two pairs of origin and ID that share a key are the same pair.
pub task_key_inj :
    (o p t u : String)
    → IsSeparable o
    → IsSeparable p
    → task_key o t ≡ task_key p u
    → (o ≡ p) × (t ≡ u)
unfolding task_key
task_key_inj String.[] String.[] t u ho hp e =
    (refl, append_cancel_left "::" t u (sym (nil-append _) ∙ e ∙ nil-append _))
task_key_inj String.[] (String.◌∷◌ c p) t u ho hp e =
    absurd (no_split c p t u hp (sym (nil-append _) ∙ e ∙ cons-append c p _))
task_key_inj (String.◌∷◌ c o) String.[] t u ho hp e =
    absurd (no_split c o u t ho (sym (nil-append _) ∙ sym e ∙ cons-append c o _))
task_key_inj (String.◌∷◌ c o) (String.◌∷◌ d p) t u ho hp e =
    let same = sym (cons-append c o _) ∙ e ∙ cons-append d p _ in
    let (a, b) =
      task_key_inj o p t u (tail-IsSeparable c o ho) (tail-IsSeparable d p hp)
        (tail-eq_of_cons-eq same) in
    (ap₂ String.◌∷◌ (head-eq_of_cons-eq same) a, b)
