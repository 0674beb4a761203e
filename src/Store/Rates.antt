-- ===== src/Store/Rates.antt =====
-- internal/p2p/store.go: `AllowPeer`, the limit on events per peer and minute.
pub mod Window
pub mod Reopens
use openclaw_p2p.Prelude.{
  ℕ, ℤ, pos, ◌-◌, String, Bool, true, false, ◌||◌, Option, none, some, ◌==◌, leb, leb_ℤ, int64_incr,
  if◌then◌else◌,
}
use openclaw_p2p.Clock.{Time, is_zero, minute}
use openclaw_p2p.GoMap.{get, put}
use openclaw_p2p.Store.State.{PeerRate, Store}

-- s.rates[peerID]: the zero value for an unknown peer
abbrev pub rate_or_zero : Option PeerRate → PeerRate
rate_or_zero none = record { window_start = 0; count = pos 0 }
rate_or_zero (some rate) = rate

-- The window that `now` falls in. A clock that went back gives a negative difference in Go, and 0
-- here; neither reaches a minute.
abbrev pub current_window : Time → PeerRate → PeerRate
current_window now rate =
    if is_zero rate.window_start || leb minute (now - rate.window_start)
    then record { window_start = now; count = pos 0 }
    else rate

abbrev pub count_event : PeerRate → PeerRate
count_event rate = record rate { count = int64_incr rate.count }

-- the part under the mutex
unfoldable pub count_peer : Time → String → ℤ → Store → Bool × Store
count_peer now peer_id limit s =
    let rate = count_event (current_window now (rate_or_zero (get peer_id s.rates))) in
    (leb_ℤ rate.count limit, record s { rates = put peer_id rate s.rates })

unfoldable pub allow_peer : Time → String → ℤ → Store → Bool × Store
unfolding count_peer
allow_peer now peer_id limit s =
    if leb_ℤ limit (pos 0) || peer_id == "" then (true, s) else count_peer now peer_id limit s
