-- ===== src/Error.antt =====
-- Go's `error` values of internal/sae and internal/p2p, and results that may carry one. Each
-- `errors.New` and `fmt.Errorf` of the program is a constructor that holds what it formats.
use openclaw_p2p.Prelude.{ℕ, ℤ, String, ◌≡◌, refl, Bool, true, false}

pub data Error : Type 0 where
  -- "missing <field>"
  missing : String → Error
  unknown_kind invalid_task_op unsupported_kind : String → Error
  -- "SAE exceeds %d bytes"
  size_exceeded : ℕ → Error
  invalid_signature : Error
  -- "origin DID mismatch: got %s want %s"
  origin_mismatch : String → String → Error
  -- fmt.Errorf with %w: the text before the wrapped error
  wrapped : String → Error → Error
  -- %w of a nil error
  wrapped_nil : String → Error
  not_task not_agent_fact not_found invalid_negotiation_op : Error
  topic_limit_exceeded confidence_below message_too_large : ℤ → ℤ → Error
  rate_limit_exceeded : String → Error
  unsupported_scheme : String → Error
  short_detail_ref bad_escape : Error
  -- "parse bootstrap %q: %w", "bootstrap addr info %q: %w"
  bad_bootstrap bad_bootstrap_info : String → Error → Error
  -- an error that comes from the operating system, a library or a remote peer
  external : String → Error

pub data Result {ℓ} (V : Type ℓ) : Type ℓ where
  err : Error → Result V
  ok : V → Result V

-- A function whose only result is an `error`: nil is `ok tt`.
abbrev pub Check : Type 0
Check = Result (Unit {0})

abbrev pub nil : Check
nil = ok tt

infixl 5 ◌>>=◌ ◌>>◌
abbrev pub ◌>>=◌ {ℓ κ} : {V : Type ℓ} {W : Type κ} → Result V → (V → Result W) → Result W
◌>>=◌ (err e) next = err e
◌>>=◌ (ok v) next = next v

abbrev pub ◌>>◌ {ℓ} : {W : Type ℓ} → Check → Result W → Result W
check >> next = check >>= λ _. next

-- `if c { return e }`
abbrev pub fail_if : Bool → Error → Check
fail_if true e = err e
fail_if false e = ok tt

-- `if err != nil { return fmt.Errorf("<text>: %w", err) }`
abbrev pub wrap {ℓ} : {A : Type ℓ} → String → Result A → Result A
wrap text (ok a) = ok a
wrap text (err e) = err (wrapped text e)

-- Inversions of a successful chain.
pub >>=-eq-ok {ℓ κ} :
    {V : Type ℓ} {W : Type κ} (r : Result V) (next : V → Result W) {w : W}
    → (r >>= next) ≡ ok w
    → (v : V) × (r ≡ ok v) × (next v ≡ ok w)
>>=-eq-ok (err e) next h = cc
>>=-eq-ok (ok v) next h = (v, refl, h)

pub fail_if-eq-ok : (c : Bool) (e : Error) → fail_if c e ≡ nil → c ≡ false
fail_if-eq-ok true e h = cc
fail_if-eq-ok false e h = refl

-- A chain of checks passes exactly when its first check passes and the rest does.
pub fail_then {ℓ} :
    {A : Type ℓ} {a : A} (c : Bool) (e : Error) (k : Result A)
    → (fail_if c e >> k) ≡ ok a
    → (c ≡ false) × (k ≡ ok a)
fail_then true e k h = cc
fail_then false e k h = (refl, h)
