-- ===== src/Exec/Outcomes.antt =====
-- What a chain of methods leaves, from what each of them leaves.
use openclaw_p2p.Error.{ok, err, Result, Error}
use openclaw_p2p.Exec.{after_failure, Exec, continue, on_error, ◌>>=◌}
use openclaw_p2p.Prelude.{inl, inr, ◌⊎◌, ap, refl, ◌≡◌}

-- A method that fails leaves Q.
abbrev pub Fails : {S A : Type 0} → (S → Type 0) → Exec S A → Type 0
Fails {S} Q m = (w : S) (e : Error) → (m w).0 ≡ err e → Q (m w).1

-- A method keeps Q, whether it fails or not.
abbrev pub Keeps : {S A : Type 0} → (S → Type 0) → Exec S A → Type 0
Keeps {S} Q m = (w : S) → Q w → Q (m w).1

module _ {S A : Type 0} (Q : S → Type 0) where
  pub on_error-Fails :
      (clean : S → S) (m : Exec S A) → ((w : S) → Q (clean w)) → Fails Q (on_error clean m)
  on_error-Fails clean m h w = after (m w)
    where
      after :
          (r : Result A × S) (e : Error)
          → (after_failure clean r).0 ≡ err e
          → Q (after_failure clean r).1
      after (ok a, w) e f = cc f
      after (err x, w) e f = h w

  pub on_error-Keeps :
      (clean : S → S) (m : Exec S A)
      → ((w : S) → Q w → Q (clean w))
      → Keeps Q m
      → Keeps Q (on_error clean m)
  on_error-Keeps clean m h keeps w q = after (m w) (keeps w q)
    where
      after : (r : Result A × S) → Q r.1 → Q (after_failure clean r).1
      after (ok a, w) q = q
      after (err x, w) q = h w q

  module _ {B : Type 0} where
    pub >>=-Fails :
        (m : Exec S A) (f : A → Exec S B)
        → Fails Q m
        → ((a : A) → Fails Q (f a))
        → Fails Q (m >>= f)
    >>=-Fails m f h k w = after (m w) (h w)
      where
        after :
            (r : Result A × S)
            → ((e : Error) → r.0 ≡ err e → Q r.1)
            → (e : Error) → (continue r.0 f r.1).0 ≡ err e
            → Q (continue r.0 f r.1).1
        after (ok a, w) h e g = k a w e g
        after (err x, w) h e g = h x refl

    pub >>=-Keeps :
        (m : Exec S A) (f : A → Exec S B)
        → Keeps Q m
        → ((a : A) → Keeps Q (f a))
        → Keeps Q (m >>= f)
    >>=-Keeps m f h k w q = after (m w) (h w q)
      where
        after : (r : Result A × S) → Q r.1 → Q (continue r.0 f r.1).1
        after (ok a, w) q = k a w q
        after (err x, w) q = q

-- What a successful call leaves was not cleaned up.
pub on_error-ok :
    {S A : Type 0} (clean : S → S) (m : Exec S A) (s : S) (a : A)
    → (on_error clean m s).0 ≡ ok a
    → m s ≡ (ok a, (on_error clean m s).1)
on_error-ok {S} {A} clean m s a h = after (m s) h
  where
    after :
        (r : Result A × S)
        → (after_failure clean r).0 ≡ ok a
        → r ≡ (ok a, (after_failure clean r).1)
    after (ok b, t) h = ap (λ x. (x, t)) h
    after (err e, t) h = cc h

-- A chain that fails, fails in its first method or in the second after a first that did not.
pub >>=-err :
    {S A B : Type 0} (m : Exec S A) (f : A → Exec S B) (s : S) (e : Error)
    → ((m >>= f) s).0 ≡ err e
    → (((m s).0 ≡ err e) × (((m >>= f) s).1 ≡ (m s).1))
      ⊎ ((a : A) × ((m s).0 ≡ ok a) × ((m >>= f) s ≡ f a (m s).1))
>>=-err {S} {A} {B} m f s e h = after (m s) h
  where
    after :
        (r : Result A × S)
        → (continue r.0 f r.1).0 ≡ err e
        → ((r.0 ≡ err e) × ((continue r.0 f r.1).1 ≡ r.1))
          ⊎ ((a : A) × (r.0 ≡ ok a) × (continue r.0 f r.1 ≡ f a r.1))
    after (ok a, t) g = inr (a, refl, refl)
    after (err x, t) g = inl (cc g, refl)
