-- ===== src/Text/Trim.antt =====
-- Trimming is idempotent.
use Prim.Native.Char.{Char, code}
use openclaw_p2p.Prelude.{ℕ, ◌≡◌, refl, String, Bool, true, false, inl, inr, Bool-cases}
use openclaw_p2p.Text.{keep_char, trim_left, trim_right, trim, trim_space, is_space}

-- The text does not begin with a character that `p` trims.
abbrev StartsClean : (ℕ → Bool) → String → Type 0
StartsClean p String.[] = Unit
StartsClean p (String.◌∷◌ c s) = p (code c) ≡ false

trim_left-StartsClean : (p : ℕ → Bool) (s : String) → StartsClean p (trim_left p s)
unfolding trim_left
trim_left-StartsClean p String.[] = tt
trim_left-StartsClean p (String.◌∷◌ c s) = elim (Bool-cases (p (code c))) [
  | inl e ↦ rw e (trim_left-StartsClean p s)
  | inr e ↦ rw (e, e)
]

trim_left_clean : (p : ℕ → Bool) (s : String) → StartsClean p s → trim_left p s ≡ s
unfolding trim_left
trim_left_clean p String.[] h = refl
trim_left_clean p (String.◌∷◌ c s) h = rw h

keep_char_clean :
    (p : ℕ → Bool) (b : Bool) (c : Char) (s : String)
    → p (code c) ≡ false
    → StartsClean p (keep_char b c s)
keep_char_clean p true c String.[] h = tt
keep_char_clean p true c (String.◌∷◌ d s) h = h
keep_char_clean p false c s h = h

trim_right-StartsClean :
    (p : ℕ → Bool) (s : String) → StartsClean p s → StartsClean p (trim_right p s)
unfolding trim_right
trim_right-StartsClean p String.[] h = tt
trim_right-StartsClean p (String.◌∷◌ c s) h = keep_char_clean p (p (code c)) c (trim_right p s) h

trim_right-keep_char :
    (p : ℕ → Bool) (c : Char) (s : String)
    → trim_right p s ≡ s
    → trim_right p (keep_char (p (code c)) c s) ≡ keep_char (p (code c)) c s
unfolding trim_right
trim_right-keep_char p c String.[] h = elim (Bool-cases (p (code c))) [
  | inl e ↦ rw e
  | inr e ↦ rw (e, e)
]
trim_right-keep_char p c (String.◌∷◌ d s) h = elim (Bool-cases (p (code c))) [
  | inl e ↦ rw (e, h, e)
  | inr e ↦ rw (e, h, e)
]

trim_right_idem : (p : ℕ → Bool) (s : String) → trim_right p (trim_right p s) ≡ trim_right p s
unfolding trim_right
trim_right_idem p String.[] = refl
trim_right_idem p (String.◌∷◌ c s) = trim_right-keep_char p c (trim_right p s) (trim_right_idem p s)

pub trim_idem : (p : ℕ → Bool) (s : String) → trim p (trim p s) ≡ trim p s
unfolding trim
trim_idem p s =
    let clean = trim_right-StartsClean p (trim_left p s) (trim_left-StartsClean p s) in
    rw (trim_left_clean p (trim_right p (trim_left p s)) clean) (trim_right_idem p (trim_left p s))

pub trim_space_idem : (s : String) → trim_space (trim_space s) ≡ trim_space s
unfolding trim_space
trim_space_idem s = trim_idem is_space s

trim_space_test : trim_space "  a b\t " ≡ "a b"
unfolding trim_space
trim_space_test = refl
