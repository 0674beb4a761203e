-- ===== src/Discovery/Bootstrap.antt =====
-- What a node knows once its bootstrap peers have been connected.
use openclaw_p2p.GoMap.Laws.{get-put}
use openclaw_p2p.Error.{wrap, err, ok, Check, nil}
use openclaw_p2p.Store.Records.{record_peer}
use openclaw_p2p.GoMap.{get}
use openclaw_p2p.Discovery.{ensured, connect_to, Visit, ensure_connected_peers}
use openclaw_p2p.Store.State.{KnownPeer, Store}
use openclaw_p2p.Node.Peers.{record_unless, is_no_peer, on_peer_discovered, PeerInputs, AddrInfo}
use openclaw_p2p.Sae.Libs.{Libs}
use openclaw_p2p.Prelude.{
  ◌∙◌, refl, if◌then◌else◌, Bool, ◌==◌, [], inr, eq_refl, inl, All, ◌⊎◌, ◌∷◌, String, true, some,
  List, false, Option, ◌≡◌,
}

abbrev pub KnowsPeer : (L : Libs) → AddrInfo L → Store → Type 0
KnowsPeer L info s = (p : KnownPeer) × (get (L.peer_string info.id) s.peers ≡ some p)

module _ (L : Libs) (own : L.PeerId) (inputs : AddrInfo L → PeerInputs) where
  -- `onPeerDiscovered` as the callback of discovery
  abbrev pub discovered : Option (AddrInfo L → Store → Store)
  discovered = some (λ info s. on_peer_discovered L (inputs info) own info s)

  -- A peer that is not the node itself was connected, and is known if it has an ID.
  pub record IsReached (visit : AddrInfo L → Visit) (s : Store) (info : AddrInfo L) : Type 0 where
    pub connected :
        L.same_peer info.id own ≡ false
        → ((visit info).connected ≡ true) ⊎ ((visit info).connect ≡ nil)
    pub known : L.same_peer info.id own ≡ false → is_no_peer L info.id ≡ false → KnowsPeer L info s

  get-record_peer :
      (i : PeerInputs) (info : AddrInfo L) (s : Store) (k : String) (known : Bool) (p : KnownPeer)
      → (L.peer_string info.id == k) ≡ known
      → (get k s.peers ≡ some p) ⊎ (known ≡ true)
      → (q : KnownPeer) × (get k
            (record_peer i.out i.now (L.peer_string info.id) info.addrs s).1.peers
          ≡ some q)
  unfolding record_peer
  get-record_peer i info s k true p e h =
      let q : KnownPeer = record {
        id = L.peer_string info.id;
        addrs = info.addrs;
        last_seen = i.now;
      } in
      (q, get-put k (L.peer_string info.id) q s.peers ∙ rw e refl)
  get-record_peer i info s k false p e (inl h) =
      let q : KnownPeer = record {
        id = L.peer_string info.id;
        addrs = info.addrs;
        last_seen = i.now;
      } in
      (p, get-put k (L.peer_string info.id) q s.peers ∙ rw e h)
  get-record_peer i info s k false p e (inr h) = cc h

  get-record_unless :
      (b : Bool) (i : PeerInputs) (info : AddrInfo L) (s : Store) (k : String) (p : KnownPeer)
      → get k s.peers ≡ some p
      → (q : KnownPeer) × (get k (record_unless L b i info s).peers ≡ some q)
  get-record_unless true i info s k p h = (p, h)
  get-record_unless false i info s k p h =
      get-record_peer i info s k (L.peer_string info.id == k) p refl (inl h)

  abbrev no_peer : KnownPeer
  no_peer = record { id = ""; addrs = []; last_seen = 0 }

  on_peer_discovered-KnowsPeer :
      (i : PeerInputs) (info : AddrInfo L) (s : Store)
      → L.same_peer info.id own ≡ false
      → is_no_peer L info.id ≡ false
      → KnowsPeer L info (on_peer_discovered L i own info s)
  unfolding on_peer_discovered
  on_peer_discovered-KnowsPeer i info s h e =
      rw (e, h)
        (get-record_peer i info s (L.peer_string info.id) true no_peer
          (eq_refl (L.peer_string info.id)) (inr refl))

  -- Peers that are known stay so.
  ensure-keeps :
      (visit : AddrInfo L → Visit) (infos : List (AddrInfo L)) (s : Store) (k : String)
      (p : KnownPeer)
      → get k s.peers ≡ some p
      → (q : KnownPeer) × (get k (ensure_connected_peers own discovered visit infos s).1.peers
          ≡ some q)
  unfolding ensure_connected_peers on_peer_discovered
  ensure-keeps visit [] s k p h = (p, h)
  ensure-keeps visit (info ∷ rest) s k p h =
      after (L.same_peer info.id own) (connect_to own discovered (visit info) info)
        (λ t q g. ensure-keeps visit rest t k q g)
    where
      after :
          (b : Bool) (c : Check)
          → ((t : Store) (q : KnownPeer)
              → get k t.peers ≡ some q
              → (x : KnownPeer) × (get k
                    (ensure_connected_peers own discovered visit rest t).1.peers
                  ≡ some x))
          → (q : KnownPeer) × (get k
                (ensured own discovered b c info
                  (ensure_connected_peers own discovered visit rest)
                  s).1.peers
              ≡ some q)
      after true c keeps = keeps s p h
      after false (ok u) keeps =
          let (q, g) = get-record_unless _ (inputs info) info s k p h in keeps _ q g
      after false (err e) keeps = (p, h)

  connect_to-nil :
      (b : Bool) (c : Check) (what : String)
      → (if b then nil else wrap what c) ≡ nil
      → (b ≡ true) ⊎ (c ≡ nil)
  connect_to-nil true c what h = inl refl
  connect_to-nil false (ok u) what h = inr refl
  connect_to-nil false (err e) what h = cc h

  -- When `ensureConnectedPeers` returns nil, each peer of the list that is not the node itself was
  -- connected or could be, and it is among the known peers of the store, if it has an ID.
  pub ensure_connected_peers_lem :
      (visit : AddrInfo L → Visit) (infos : List (AddrInfo L)) (s : Store)
      → (ensure_connected_peers own discovered visit infos s).0 ≡ nil
      → All (IsReached visit (ensure_connected_peers own discovered visit infos s).1) infos
  unfolding ensure_connected_peers
  ensure_connected_peers_lem visit [] s h = tt
  ensure_connected_peers_lem visit (info ∷ rest) s h =
      after (L.same_peer info.id own) (connect_to own discovered (visit info) info) refl refl
        (ensure_connected_peers_lem visit rest) h
    where
      after :
          (b : Bool) (c : Check)
          → L.same_peer info.id own ≡ b
          → connect_to own discovered (visit info) info ≡ c
          → ((t : Store)
              → (ensure_connected_peers own discovered visit rest t).0 ≡ nil
              → All (IsReached visit (ensure_connected_peers own discovered visit rest t).1) rest)
          → (let r =
                ensured own discovered b c info
                  (ensure_connected_peers own discovered visit rest)
                  s in
              r.0 ≡ nil → IsReached visit r.1 info × All (IsReached visit r.1) rest)
      after true c e f later g =
          (record { connected = λ x. cc (e, x); known = λ x y. cc (e, x) }, later s g)
      after false (ok u) e f later g = (
        record {
          connected = λ x. connect_to-nil _ _ _ f;
          known = λ x y.
              let (p, known) = on_peer_discovered-KnowsPeer (inputs info) info s x y in
              ensure-keeps visit rest _ (L.peer_string info.id) p known;
        },
        later _ g,
      )
      after false (err x) e f later g = cc g
