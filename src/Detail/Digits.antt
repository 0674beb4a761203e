-- ===== src/Detail/Digits.antt =====
-- The digits that `decimal` prints.
use openclaw_p2p.Detail.Ref.{is_path_char}
use openclaw_p2p.Detail.Path.{is_special}
use openclaw_p2p.Detail.Plain.{IsPlain}
use openclaw_p2p.Sae.Libs.{Bytes}
use openclaw_p2p.Text.Print.{decimal, bytes_of, utf8, digit, digits_of}
use Prim.Native.Char.{code}
use Prim.Native.String.{◌++◌ as append}
use text.Mathlib.TextLemmas.{cons-append, nil-append}
use openclaw_p2p.Prelude.{
  zero, ◌%◌, ◌/◌, arith, ltb, refl, eqb, false, ◌&&◌, suc, leb, if◌then◌else◌, ℕ, Bool, ◌≡◌, true,
  String, [], ◌∷◌,
}

abbrev pub is_digit : ℕ → Bool
is_digit c = leb b'0' c && leb c b'9'

-- At least one character, and all of them digits.
abbrev AreDigits : String → Type 0
AreDigits String.[] = Unit
AreDigits (String.◌∷◌ c s) = (is_digit (code c) ≡ true) × AreDigits s

abbrev pub IsNumber : String → Type 0
IsNumber String.[] = ⊥
IsNumber (String.◌∷◌ c s) = (is_digit (code c) ≡ true) × AreDigits s

IsNumber-AreDigits : (s : String) → IsNumber s → AreDigits s
IsNumber-AreDigits String.[] h = absurd h
IsNumber-AreDigits (String.◌∷◌ c s) h = h

AreDigits-append : (a b : String) → AreDigits a → AreDigits b → AreDigits (append a b)
AreDigits-append String.[] b h g = rw (nil-append b) g
AreDigits-append (String.◌∷◌ c a) b (h, hs) g =
    rw (cons-append c a b) (h, AreDigits-append a b hs g)

IsNumber-append : (a b : String) → AreDigits a → IsNumber b → IsNumber (append a b)
IsNumber-append String.[] b h g = rw (nil-append b) g
IsNumber-append (String.◌∷◌ c a) b (h, hs) g =
    rw (cons-append c a b) (h, AreDigits-append a b hs (IsNumber-AreDigits b g))

IsNumber-if : (b : Bool) (x y : String) → IsNumber x → IsNumber y → IsNumber (if b then x else y)
IsNumber-if true x y h g = h
IsNumber-if false x y h g = g

digit-IsNumber : (d : ℕ) → IsNumber (digit d)
digit-IsNumber d =
    IsNumber-if (eqb d 0) "0" _ (refl, tt)
      (IsNumber-if (eqb d 1) "1" _ (refl, tt)
        (IsNumber-if (eqb d 2) "2" _ (refl, tt)
          (IsNumber-if (eqb d 3) "3" _ (refl, tt)
            (IsNumber-if (eqb d 4) "4" _ (refl, tt)
              (IsNumber-if (eqb d 5) "5" _ (refl, tt)
                (IsNumber-if (eqb d 6) "6" _ (refl, tt)
                  (IsNumber-if (eqb d 7) "7" _ (refl, tt)
                    (IsNumber-if (eqb d 8) "8" _ (refl, tt) (refl, tt)))))))))

one_more_digit :
    (n : ℕ) (front : String)
    → AreDigits front
    → IsNumber (if ltb n 10 then digit n else append front (digit (n % 10)))
one_more_digit n front h =
    IsNumber-if (ltb n 10) (digit n) (append front (digit (n % 10))) (digit-IsNumber n)
      (IsNumber-append front (digit (n % 10)) h (digit-IsNumber (n % 10)))

digits_of-AreDigits : (f n : ℕ) → AreDigits (digits_of f n)
unfolding digits_of
digits_of-AreDigits zero n = tt
digits_of-AreDigits (suc f) n =
    IsNumber-AreDigits
      (if ltb n 10 then digit n else append (digits_of f (n / 10)) (digit (n % 10)))
      (one_more_digit n (digits_of f (n / 10)) (digits_of-AreDigits f (n / 10)))

-- A decimal is at least one digit, and nothing but digits.
pub decimal-IsNumber : (n : ℕ) → IsNumber (decimal n)
unfolding decimal digits_of
decimal-IsNumber n = one_more_digit n (digits_of n (n / 10)) (digits_of-AreDigits n (n / 10))

digit_is_plain : (c : ℕ) → is_digit c ≡ true → is_path_char c ≡ true
digit_is_plain c h = ground arith

AreDigits-IsPlain : (s : String) → AreDigits s → IsPlain s
AreDigits-IsPlain String.[] h = tt
AreDigits-IsPlain (String.◌∷◌ c s) (h, hs) = (digit_is_plain (code c) h, AreDigits-IsPlain s hs)

pub decimal-IsPlain : (n : ℕ) → IsPlain (decimal n)
decimal-IsPlain n =
    AreDigits-IsPlain (decimal n) (IsNumber-AreDigits (decimal n) (decimal-IsNumber n))

digit_not_special : (c : ℕ) (rest : Bytes) → is_digit c ≡ true → is_special (c ∷ rest) ≡ false
digit_not_special c [] h = ground arith
digit_not_special c (d ∷ rest) h = ground arith

utf8-digit : (c : ℕ) → is_digit c ≡ true → utf8 c ≡ c ∷ []
utf8-digit c h = ground arith

IsNumber-not_special : (s : String) → IsNumber s → is_special (bytes_of s) ≡ false
unfolding bytes_of
IsNumber-not_special String.[] h = absurd h
IsNumber-not_special (String.◌∷◌ c s) (h, hs) =
    rw (utf8-digit (code c) h) (digit_not_special (code c) (bytes_of s) h)

pub decimal-not_special : (n : ℕ) → is_special (bytes_of (decimal n)) ≡ false
decimal-not_special n = IsNumber-not_special (decimal n) (decimal-IsNumber n)
