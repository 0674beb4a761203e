-- ===== src/Hosts/Stable.antt =====
-- The identity of a node over its restarts.
use openclaw_p2p.Error.{Error, err, ok, nil, Result, Check}
use openclaw_p2p.Sae.Libs.{Bytes, Libs}
use openclaw_p2p.Hosts.{
  read_identity, persist_identity, KeyWrite, IdentityInputs, KeyFile, load_or_create_identity,
  KeysRoundTrip, KeyFormat, key_written, key_write_failed,
}
use openclaw_p2p.Prelude.{ap, ◌∙◌, Option, refl, none, some, ◌≡◌}

module _ {L : Libs} (K : KeyFormat L) where
  -- A key file that the key can be read from.
  abbrev HoldsKey : L.PrivKey → KeyFile → Type 0
  HoldsKey priv file = (raw : Bytes) × (file ≡ some raw) × (K.unmarshal_private_key raw ≡ ok priv)

  persist_identity-HoldsKey :
      KeysRoundTrip K
      → (i : IdentityInputs L) (key : L.PrivKey) (r : Result Bytes) (w : KeyWrite) (file : KeyFile)
        (priv : L.PrivKey)
      → K.marshal_private_key key ≡ r
      → (persist_identity K (record i { write = w }) key r file).0 ≡ ok priv
      → HoldsKey priv (persist_identity K (record i { write = w }) key r file).1
  persist_identity-HoldsKey trips i key (err e) w file priv m h = cc h
  persist_identity-HoldsKey trips i key (ok raw) key_written file priv m h =
      let same : key ≡ priv = cc h in (raw, refl, trips key raw m ∙ ap ok same)
  persist_identity-HoldsKey trips i key (ok raw) (key_write_failed e left) file priv m h = cc h

  read_identity-HoldsKey :
      KeysRoundTrip K
      → (i : IdentityInputs L) (generated : Result L.PrivKey) (fault : Option Error)
        (file : KeyFile) (priv : L.PrivKey)
      → (read_identity K (record i { generated = generated }) fault file).0 ≡ ok priv
      → HoldsKey priv (read_identity K (record i { generated = generated }) fault file).1
  read_identity-HoldsKey trips i g (some e) file priv h = cc h
  read_identity-HoldsKey trips i g none (some raw) priv h = (raw, refl, h)
  read_identity-HoldsKey trips i (err e) none none priv h = cc h
  read_identity-HoldsKey trips i (ok key) none none priv h =
      persist_identity-HoldsKey trips i key (K.marshal_private_key key) i.write none priv refl h

  load_or_create_identity-HoldsKey :
      KeysRoundTrip K
      → (i : IdentityInputs L) (mkdir : Check) (file : KeyFile) (priv : L.PrivKey)
      → (load_or_create_identity K (record i { mkdir = mkdir }) file).0 ≡ ok priv
      → HoldsKey priv (load_or_create_identity K (record i { mkdir = mkdir }) file).1
  unfolding load_or_create_identity
  load_or_create_identity-HoldsKey trips i (err e) file priv h = cc h
  load_or_create_identity-HoldsKey trips i (ok u) file priv h =
      read_identity-HoldsKey trips (record i { mkdir = ok u }) i.generated i.read_fault file priv h

  load-HoldsKey :
      (j : IdentityInputs L) (file : KeyFile) (priv : L.PrivKey)
      → j.mkdir ≡ nil
      → j.read_fault ≡ none
      → HoldsKey priv file
      → load_or_create_identity K j file ≡ (ok priv, file)
  unfolding load_or_create_identity
  load-HoldsKey j file priv m r (raw, e, u) = rw (m, r, e, u) refl

  -- The key that a node loaded or created is the key that it loads at its next start, whatever a
  -- fresh key would be; the key file stays as it is. (Unmarshalling undoes marshalling, and at the
  -- next start the directory and the file can be read.)
  pub load_or_create_identity_stable :
      KeysRoundTrip K
      → (i j : IdentityInputs L) (file : KeyFile) (priv : L.PrivKey)
      → (load_or_create_identity K i file).0 ≡ ok priv
      → j.mkdir ≡ nil
      → j.read_fault ≡ none
      → load_or_create_identity K j (load_or_create_identity K i file).1
        ≡ (ok priv, (load_or_create_identity K i file).1)
  load_or_create_identity_stable trips i j file priv h m r =
      load-HoldsKey j (load_or_create_identity K i file).1 priv m r
        (load_or_create_identity-HoldsKey trips i i.mkdir file priv h)
