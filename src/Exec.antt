-- ===== src/Exec.antt =====
-- Methods of the node, its store and its gossip: each changes a state and may return an error. An
-- error leaves the changes before it in place.
pub mod Outcomes
use openclaw_p2p.Prelude.{refl, ◌≡◌}
use openclaw_p2p.Error.{Result, ok, err}

abbrev pub Exec : Type 0 → Type 0 → Type 0
Exec S A = S → Result A × S

module _ {S A : Type 0} where
  -- a call that does not touch the state
  abbrev pub lift : Result A → Exec S A
  lift r s = (r, s)

module _ {S A B : Type 0} where
  abbrev pub continue : Result A → (A → Exec S B) → Exec S B
  continue (ok a) f s = f a s
  continue (err e) f s = (err e, s)

  infixl 5 ◌>>=◌ ◌>>◌
  abbrev pub ◌>>=◌ : Exec S A → (A → Exec S B) → Exec S B
  ◌>>=◌ m f s = let (r, s') = m s in continue r f s'

  abbrev pub ◌>>◌ : Exec S A → Exec S B → Exec S B
  m >> k = m >>= λ _. k

  -- A chain that returns no error is its second method, after a first that returned none.
  pub >>=-ok :
      (m : Exec S A) (f : A → Exec S B) (s : S) {b : B}
      → ((m >>= f) s).0 ≡ ok b
      → (a : A) × ((m s).0 ≡ ok a) × ((m >>= f) s ≡ f a (m s).1)
  >>=-ok m f s h = after_first (m s) h
    where
      after_first :
          (r : Result A × S) {b : B}
          → (continue r.0 f r.1).0 ≡ ok b
          → (a : A) × (r.0 ≡ ok a) × (continue r.0 f r.1 ≡ f a r.1)
      after_first (ok a, s') h = (a, refl, refl)
      after_first (err e, s') h = cc

module _ {S A : Type 0} where
  abbrev pub after_failure : (S → S) → Result A × S → Result A × S
  after_failure clean (ok a, s) = (ok a, s)
  after_failure clean (err e, s) = (err e, clean s)

  -- `if err != nil { …; return err }`, for a call that needs to be cleaned up
  abbrev pub on_error : (S → S) → Exec S A → Exec S A
  on_error clean m s = after_failure clean (m s)
