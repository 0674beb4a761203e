-- ===== src/Hosts.antt =====
-- internal/p2p/hosts.go: the identity of a node, which a key file keeps over restarts.
pub mod Stable
pub mod Tests
use openclaw_p2p.Sae.Sign.{did_from_pub_key}
use openclaw_p2p.Error.{wrapped, ok, err, Result, Check, nil, wrap, Error}
use openclaw_p2p.Sae.Libs.{Bytes, Libs}
use openclaw_p2p.Exec.{Exec, lift, ◌>>=◌, ◌>>◌}
use openclaw_p2p.Prelude.{none, some, ℤ, ◌≡◌, some, Option, String}

-- crypto.UnmarshalPrivateKey and crypto.MarshalPrivateKey
pub record KeyFormat (L : Libs) : Type 0 where
  pub unmarshal_private_key : Bytes → Result L.PrivKey
  pub marshal_private_key : L.PrivKey → Result Bytes

-- A private key that is marshalled can be unmarshalled.
abbrev pub KeysRoundTrip : {L : Libs} → KeyFormat L → Type 0
KeysRoundTrip {L} K =
    (priv : L.PrivKey) (raw : Bytes)
    → K.marshal_private_key priv ≡ ok raw
    → K.unmarshal_private_key raw ≡ ok priv

-- The key file; none if it does not exist.
abbrev pub KeyFile : Type 0
KeyFile = Option Bytes

-- The end of os.WriteFile; one that fails may leave anything.
pub data KeyWrite : Type 0 where
  key_written : KeyWrite
  key_write_failed : Error → KeyFile → KeyWrite

-- What the system answers: MkdirAll, ReadFile (a missing file is no fault), the fresh key, WriteFile.
pub record IdentityInputs (L : Libs) : Type 0 where
  pub mkdir : Check
  pub read_fault : Option Error
  pub generated : Result L.PrivKey
  pub write : KeyWrite

pub record Identity (L : Libs) : Type 0 where
  pub priv_key : L.PrivKey
  pub pub_key : L.PubKey
  pub peer_id : L.PeerId
  pub did : String
  pub key_path : String

abbrev pub write_key : KeyWrite → Bytes → Exec KeyFile (Unit {0})
write_key key_written raw file = (nil, some raw)
write_key (key_write_failed e left) raw file = (err (wrapped "persist private key" e), left)

module _ {L : Libs} (K : KeyFormat L) where
  abbrev pub after_write : L.PrivKey → Check × KeyFile → Result L.PrivKey × KeyFile
  after_write priv (ok _, file) = (ok priv, file)
  after_write priv (err e, file) = (err e, file)

  abbrev pub persist_identity : IdentityInputs L → L.PrivKey → Result Bytes → Exec KeyFile L.PrivKey
  persist_identity i priv (err e) file = (err (wrapped "marshal private key" e), file)
  persist_identity i priv (ok raw) file = after_write priv (write_key i.write raw file)

  -- the part of `loadOrCreateIdentity` for a missing file
  abbrev pub create_identity : IdentityInputs L → Result L.PrivKey → Exec KeyFile L.PrivKey
  create_identity i (err e) file = (err (wrapped "generate Ed25519 key" e), file)
  create_identity i (ok priv) file = persist_identity i priv (K.marshal_private_key priv) file

  -- if raw, err := os.ReadFile(identityPath); …
  abbrev pub read_identity : IdentityInputs L → Option Error → Exec KeyFile L.PrivKey
  read_identity i (some fault) file = (err fault, file)
  read_identity i none (some raw) = (K.unmarshal_private_key raw, some raw)
  read_identity i none none = create_identity i i.generated none

  unfoldable pub load_or_create_identity : IdentityInputs L → Exec KeyFile L.PrivKey
  load_or_create_identity i = do
    lift (wrap "create identity dir" i.mkdir)
    read_identity i i.read_fault

  abbrev pub identity_of : L.PrivKey → String → L.PeerId → Identity L
  identity_of priv path host_id = record {
    priv_key = priv;
    pub_key = L.get_public priv;
    peer_id = host_id;
    did = did_from_pub_key L (L.get_public priv);
    key_path = path;
  }

  -- `CreateHost`, where `new_host` is libp2p.New on the port and the key, which gives the host's ID
  unfoldable pub create_host :
      IdentityInputs L → (ℤ → L.PrivKey → Result L.PeerId) → ℤ → String → Exec KeyFile (Identity L)
  unfolding load_or_create_identity did_from_pub_key
  create_host i new_host port path = do
    priv ← load_or_create_identity i
    host_id ← lift (wrap "create host" (new_host port priv))
    lift (ok (identity_of priv path host_id))
