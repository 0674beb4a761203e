-- ===== src/Store/Rates/Window.antt =====
-- How many events of one peer `AllowPeer` lets through.
use openclaw_p2p.GoMap.Laws.{get-put}
use openclaw_p2p.GoMap.{get}
use openclaw_p2p.Store.State.{PeerRate, Store}
use openclaw_p2p.Clock.{minute, Time}
use openclaw_p2p.Prelude.{
  eq_refl, refl, none, ◌≤◌, length, test_of_ne, All, Option, leb, some, arith, ◌≢◌, ◌≡◌, pos, ◌^◌,
  ℤ, ◌<◌, if◌then◌else◌, String, ◌∷◌, ◌+◌, ℕ, Bool, List, int64_incr, [],
}
use Prim.Native.Nat.{min}
use openclaw_p2p.Store.Rates.{rate_or_zero, count_peer, current_window, allow_peer}

int64_incr_small : (n : ℕ) → n + 1 < 2 ^ 63 → int64_incr (pos n) ≡ pos (n + 1)
unfolding int64_incr
int64_incr_small n h = ground arith

-- `AllowPeer` at each of the times, in turn: the answers and the last state.
unfoldable pub allow_all : List Time → String → ℤ → Store → List Bool × Store
allow_all [] peer_id limit s = ([], s)
allow_all (now ∷ times) peer_id limit s =
    let (allowed, s') = allow_peer now peer_id limit s in
    let (rest, s'') = allow_all times peer_id limit s' in (allowed ∷ rest, s'')

-- How many of the answers are yes.
abbrev pub count_true : List Bool → ℕ
count_true [] = 0
count_true (b ∷ bs) = (if b then 1 else 0) + count_true bs

-- The state of a peer's window: `n` events were counted in the window that began at `start`.
abbrev pub HasWindow : String → Time → ℕ → Store → Type 0
HasWindow peer_id start n s =
    get peer_id s.rates ≡ some (record { window_start = start; count = pos n })

counted :
    (now : Time) (peer_id : String) (limit : ℕ) (s : Store)
    → 0 < limit
    → peer_id ≢ ""
    → allow_peer now peer_id (pos limit) s ≡ count_peer now peer_id (pos limit) s
unfolding allow_peer
counted now peer_id limit s hl hp = rw (test_of_ne peer_id "" hp) (ground arith)

-- A window that is still open stays, an unknown or finished one starts anew.
open_window :
    (now start : Time) (c : ℤ)
    → 0 < start
    → now < start + minute
    → current_window now (record { window_start = start; count = c })
      ≡ record { window_start = start; count = c }
open_window now start c hs hn = ground arith

abbrev pub IsOver : Time → Option PeerRate → Type 0
IsOver now none = Unit
IsOver now (some rate) = rate.window_start + minute ≤ now

pub new_window :
    (now : Time) (o : Option PeerRate)
    → IsOver now o
    → current_window now (rate_or_zero o) ≡ record { window_start = now; count = pos 0 }
new_window now none h = refl
new_window now (some rate) h = ground arith

pub count_peer-HasWindow :
    (now start : Time) (peer_id : String) (limit n : ℕ) (s : Store)
    → n + 1 < 2 ^ 63
    → current_window now (rate_or_zero (get peer_id s.rates))
      ≡ record { window_start = start; count = pos n }
    → ((count_peer now peer_id (pos limit) s).0 ≡ leb (n + 1) limit)
      × HasWindow peer_id start (n + 1) (count_peer now peer_id (pos limit) s).1
unfolding count_peer
count_peer-HasWindow now start peer_id limit n s hc w = (
  rw (w, int64_incr_small n hc) (ground arith),
  rw (
    w,
    int64_incr_small n hc,
    get-put peer_id peer_id (record { window_start = start; count = pos (n + 1) }) s.rates,
    eq_refl peer_id,
  ),
)

-- One call in a window that is still open: it is counted, and allowed if the limit is not reached.
allow_peer-HasWindow :
    (now start : Time) (peer_id : String) (limit n : ℕ) (s : Store)
    → 0 < limit
    → peer_id ≢ ""
    → 0 < start
    → now < start + minute
    → n + 1 < 2 ^ 63
    → HasWindow peer_id start n s
    → ((allow_peer now peer_id (pos limit) s).0 ≡ leb (n + 1) limit)
      × HasWindow peer_id start (n + 1) (allow_peer now peer_id (pos limit) s).1
allow_peer-HasWindow now start peer_id limit n s hl hp hs hn hc w =
    rw (counted now peer_id limit s hl hp) (
      count_peer-HasWindow now start peer_id limit n s hc
        (rw w (open_window now start (pos n) hs hn)))

-- The calls of one window, after its first `n`.
allow_all_in_window :
    (times : List Time) (start : Time) (peer_id : String) (limit n : ℕ) (s : Store)
    → 0 < limit
    → peer_id ≢ ""
    → 0 < start
    → All (λ now. now < start + minute) times
    → n + length times < 2 ^ 63
    → HasWindow peer_id start n s
    → count_true (allow_all times peer_id (pos limit) s).0 + min limit n
      ≡ min limit (n + length times)
unfolding allow_all
allow_all_in_window [] start peer_id limit n s hl hp hs ht hc w = omega arith
allow_all_in_window (now ∷ times) start peer_id limit n s hl hp hs ht hc w =
    let (answer, w') =
      allow_peer-HasWindow now start peer_id limit n s hl hp hs ht.0 (omega arith) w in
    let rest =
      allow_all_in_window times start peer_id limit (n + 1) (allow_peer now peer_id (pos limit) s).1
        hl hp hs ht.1 (omega arith) w' in
    rw answer (ground (arith, rest))

-- Of the events of one peer within a minute of the first, exactly the first `limit` are allowed,
-- when the peer has no earlier window that is still open and the limit is positive: as many as
-- there are, or `limit`. (Fewer than 2^63 events, so that the counter does not wrap.)
pub allow_all_limit :
    (now : Time) (times : List Time) (peer_id : String) (limit : ℕ) (s : Store)
    → 0 < limit
    → peer_id ≢ ""
    → 0 < now
    → IsOver now (get peer_id s.rates)
    → All (λ later. later < now + minute) times
    → 1 + length times < 2 ^ 63
    → count_true (allow_all (now ∷ times) peer_id (pos limit) s).0 ≡ min limit (1 + length times)
unfolding allow_all
allow_all_limit now times peer_id limit s hl hp hs over ht hc =
    let (answer, w) =
      count_peer-HasWindow now now peer_id limit 0 s (omega arith)
        (new_window now (get peer_id s.rates) over) in
    let rest =
      allow_all_in_window times now peer_id limit 1 (count_peer now peer_id (pos limit) s).1 hl hp
        hs ht hc w in
    rw (counted now peer_id limit s hl hp, answer) (ground (arith, rest))
