-- ===== src/Discovery.antt =====
-- internal/p2p/discovery.go: bootstrap peers, and the rounds that look for further peers. What the
-- network and the DHT answer is an argument.
pub mod Bootstrap
pub mod Tests
use openclaw_p2p.Node.Peers.{is_no_peer, AddrInfo}
use openclaw_p2p.Text.{contains}
use openclaw_p2p.Error.{
  bad_bootstrap_info, wrap, bad_bootstrap, wrapped, err, nil, Result, ok, Error, Check,
}
use openclaw_p2p.Sae.Libs.{Libs}
use openclaw_p2p.Exec.{Exec, lift, on_error, ◌>>=◌, ◌>>◌}
use Prim.Native.String.{◌++◌ as append}
use openclaw_p2p.Prelude.{
  ◌||◌, [], false, true, none, if◌then◌else◌, ◌∷◌, some, Bool, Option, String, List,
}

-- What `Connectedness` and `Connect` answer for a peer.
pub record Visit : Type 0 where
  pub connected : Bool
  pub connect : Check

abbrev pub succeeds : Check → Bool
succeeds (ok _) = true
succeeds (err e) = false

-- if onPeer != nil { onPeer(info) }
abbrev pub notify : {A S : Type 0} → Option (A → S → S) → A → S → S
notify none info s = s
notify (some on_peer) info s = on_peer info s

module _ {L : Libs} {Addr : Type 0} (new_multiaddr : String → Result Addr)
    (addr_info : Addr → Result (AddrInfo L)) where
  abbrev pub bootstrap_peer : String → Result (AddrInfo L)
  bootstrap_peer bootstrap = elim (new_multiaddr bootstrap) [
    | err e ↦ err (bad_bootstrap bootstrap e)
    | ok addr ↦ elim (addr_info addr) [
      | err e ↦ err (bad_bootstrap_info bootstrap e)
      | ok info ↦ ok info
    ]
  ]

  -- the first error, or one more peer
  abbrev pub add_peer :
      Result (AddrInfo L) → Result (List (AddrInfo L)) → Result (List (AddrInfo L))
  add_peer (err e) rest = err e
  add_peer (ok info) (err e) = err e
  add_peer (ok info) (ok infos) = ok (info ∷ infos)

  unfoldable pub parse_bootstrap_peers : List String → Result (List (AddrInfo L))
  parse_bootstrap_peers [] = ok []
  parse_bootstrap_peers (bootstrap ∷ rest) =
      add_peer (bootstrap_peer bootstrap) (parse_bootstrap_peers rest)

-- The error of `Advertise` that is no error: the routing table is empty.
unfoldable pub try_advertise : (Error → String) → Check → Check
unfolding contains
try_advertise text_of (ok _) = nil
try_advertise text_of (err e) =
    if contains (text_of e) "failed to find any peer in table"
    then nil
    else err (wrapped "advertise rendezvous" e)

module _ {L : Libs} {S : Type 0} (own : L.PeerId) (on_peer : Option (AddrInfo L → S → S)) where
  abbrev pub connect_to : Visit → AddrInfo L → Check
  connect_to visit info =
      if visit.connected
      then nil
      else wrap (append "connect peer " (L.peer_string info.id)) visit.connect

  -- one peer of the loop of `ensureConnectedPeers`, with `continue` for the node itself, and the
  -- peers after it
  abbrev pub ensured : Bool → Check → AddrInfo L → Exec S (Unit {0}) → Exec S (Unit {0})
  ensured true check info rest s = rest s
  ensured false (err e) info rest s = (err e, s)
  ensured false (ok _) info rest s = rest (notify on_peer info s)

  unfoldable pub ensure_connected_peers :
      (AddrInfo L → Visit) → List (AddrInfo L) → Exec S (Unit {0})
  ensure_connected_peers visit [] s = (nil, s)
  ensure_connected_peers visit (info ∷ rest) s =
      ensured (L.same_peer info.id own) (connect_to (visit info) info) info
        (ensure_connected_peers visit rest) s

  -- one peer of the loop of `findAndConnect`
  abbrev pub visited : Visit → AddrInfo L → S → S
  visited visit info s =
      if is_no_peer L info.id || L.same_peer info.id own
      then s
      else if visit.connected || succeeds visit.connect
      then notify on_peer info s
      else s

  abbrev pub visit_each : (AddrInfo L → Visit) → List (AddrInfo L) → S → S
  visit_each visit [] s = s
  visit_each visit (info ∷ rest) s = visit_each visit rest (visited (visit info) info s)

  unfoldable pub find_and_connect : (AddrInfo L → Visit) → Result (List (AddrInfo L)) → S → S
  find_and_connect visit (err e) s = s
  find_and_connect visit (ok peers) s = visit_each visit peers s

  -- What is answered during one round of the goroutine of `SetupRendezvous`, whose errors are
  -- dropped; advertising changes nothing here.
  pub record Round : Type 0 where
    pub ensure_visit : AddrInfo L → Visit
    pub found : Result (List (AddrInfo L))
    pub find_visit : AddrInfo L → Visit

  unfoldable pub discovery_loop : List (AddrInfo L) → List Round → S → S
  unfolding ensure_connected_peers find_and_connect
  discovery_loop bootstrap [] s = s
  discovery_loop bootstrap (r ∷ rounds) s =
      discovery_loop bootstrap rounds (
        find_and_connect r.find_visit r.found (ensure_connected_peers r.ensure_visit bootstrap s).1)

-- What the DHT and the visited peers answer while `SetupRendezvous` runs.
pub record RendezvousInputs (L : Libs) : Type 0 where
  pub dht : Check
  pub visit : AddrInfo L → Visit
  pub bootstrap : Check

module _ {L : Libs} {Addr S : Type 0} (new_multiaddr : String → Result Addr)
    (addr_info : Addr → Result (AddrInfo L)) (own : L.PeerId)
    (on_peer : Option (AddrInfo L → S → S)) where
  -- whether the discovery's context is live, beside what the callback changes
  abbrev pub on_peers : {A : Type 0} → Exec S A → Exec (Bool × S) A
  on_peers m (live, s) = let (r, t) = m s in (r, (live, t))

  abbrev pub cancel_discovery : Bool × S → Bool × S
  cancel_discovery (live, s) = (false, s)

  abbrev pub join_rendezvous : RendezvousInputs L → List String → Exec (Bool × S) (Unit {0})
  join_rendezvous i bootstrap = do
    lift (wrap "create DHT" i.dht)
    infos ← lift (parse_bootstrap_peers new_multiaddr addr_info bootstrap)
    on_peers (ensure_connected_peers own on_peer i.visit infos)
    lift (wrap "bootstrap DHT" i.bootstrap)

  -- `SetupRendezvous`, up to the goroutine that it starts; the first `tryAdvertise` changes nothing.
  unfoldable pub setup_rendezvous : RendezvousInputs L → List String → Exec (Bool × S) (Unit {0})
  unfolding parse_bootstrap_peers ensure_connected_peers
  setup_rendezvous i bootstrap (live, s) =
      on_error cancel_discovery (join_rendezvous i bootstrap) (true, s)
