-- ===== src/Hosts/Tests.antt =====
-- A key file that is made once, and a host for it.
use openclaw_p2p.Hosts.Stable.{load_or_create_identity_stable}
use openclaw_p2p.Error.{ok, nil}
use openclaw_p2p.Sae.Tests.{json_toy}
use openclaw_p2p.Hosts.{load_or_create_identity, IdentityInputs, KeyFormat, key_written}
use openclaw_p2p.Prelude.{refl, [], ap, ◌∷◌, ◌≡◌, none, some}

-- One key, of one byte.
abbrev pub one_key : KeyFormat json_toy
one_key = record { unmarshal_private_key = λ raw. ok tt; marshal_private_key = λ priv. ok (7 ∷ []) }

abbrev pub first_start : IdentityInputs json_toy
first_start = record { mkdir = nil; read_fault = none; generated = ok tt; write = key_written }

created_test : load_or_create_identity one_key first_start none ≡ (ok tt, some (7 ∷ []))
unfolding load_or_create_identity
created_test = refl

load_or_create_identity_stable_example :
    load_or_create_identity one_key first_start (load_or_create_identity one_key first_start none).1
    ≡ (ok tt, (load_or_create_identity one_key first_start none).1)
load_or_create_identity_stable_example =
    load_or_create_identity_stable one_key (λ priv raw h. refl) first_start first_start none tt
      (ap (λ r. r.0) created_test) refl refl
