-- ===== src/Discovery/Tests.antt =====
-- Two bootstrap peers, of which the second has to be connected.
use openclaw_p2p.Store.Tests.{empty_store}
use openclaw_p2p.Store.Files.{written}
use openclaw_p2p.Error.{nil, wrapped, ok, invalid_signature, err}
use openclaw_p2p.Discovery.Bootstrap.{ensure_connected_peers_lem, discovered, IsReached}
use openclaw_p2p.Node.Peers.{PeerInputs, AddrInfo}
use openclaw_p2p.Discovery.{Visit, ensure_connected_peers, try_advertise}
use openclaw_p2p.Sae.Libs.{Libs}
use openclaw_p2p.Sae.Tests.{json_toy}
use openclaw_p2p.Prelude.{refl, ◌==◌, false, ◌∷◌, String, [], All, ◌≡◌, none, some}

-- Libraries whose peer IDs are texts.
abbrev named_toy : Libs
named_toy = record json_toy {
  PeerId = String;
  decode_peer = λ s. ok s;
  peer_string = λ pid. pid;
  extract_public_key = λ pid. ok (some tt);
  same_peer = λ p q. p == q;
}

abbrev first : AddrInfo named_toy
first = record { id = "a"; addrs = "/ip4/10.0.0.1" ∷ [] }

abbrev second : AddrInfo named_toy
second = record { id = "b"; addrs = [] }

abbrev inputs : AddrInfo named_toy → PeerInputs
inputs info = record { out = written; now = 3; event_fault = none; event_now = 3 }

abbrev visit : AddrInfo named_toy → Visit
visit info = record { connected = info.id == "a"; connect = nil }

connected_test :
    (ensure_connected_peers {L = named_toy} "own"
      (discovered named_toy "own" inputs)
      visit
      (first ∷ second ∷ [])
      empty_store).0
    ≡ nil
unfolding ensure_connected_peers
connected_test = refl

ensure_connected_peers_lem_example :
    All
      (IsReached named_toy "own" inputs visit
        (ensure_connected_peers {L = named_toy} "own"
          (discovered named_toy "own" inputs)
          visit
          (first ∷ second ∷ [])
          empty_store).1)
      (first ∷ second ∷ [])
ensure_connected_peers_lem_example =
    ensure_connected_peers_lem named_toy "own" inputs visit (first ∷ second ∷ []) empty_store
      connected_test

abbrev unreachable : AddrInfo named_toy → Visit
unreachable info = record { connected = false; connect = err invalid_signature }

-- The first peer that cannot be reached ends the loop.
unreachable_test :
    (ensure_connected_peers {L = named_toy} "own"
      (discovered named_toy "own" inputs)
      unreachable
      (first ∷ second ∷ [])
      empty_store).0
    ≡ err (wrapped "connect peer a" invalid_signature)
unfolding ensure_connected_peers
unreachable_test = refl

advertise_test :
    try_advertise (λ e. "x: failed to find any peer in table") (err invalid_signature) ≡ nil
unfolding try_advertise
advertise_test = refl
