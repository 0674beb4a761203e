-- ===== src/Store/Rates/Reopens.antt =====
-- `AllowPeer` after a minute without events.
use openclaw_p2p.GoMap.{get}
use openclaw_p2p.Prelude.{
  ◌∙◌, ◌==◌, ◌||◌, refl, [], none, false, pos, ◌∷◌, some, leb_ℤ, arith, All, if◌then◌else◌, ◌<◌,
  eq_refl, ℕ, ◌+◌, true, ◌≤◌, ℤ, Option, ◌≡◌, String, List, Bool,
}
use openclaw_p2p.Clock.{minute, Time}
use openclaw_p2p.Store.State.{PeerRate, Store}
use openclaw_p2p.Store.Rates.{rate_or_zero, count_peer, current_window, allow_peer, count_event}
use openclaw_p2p.Store.Rates.Window.{IsOver, allow_all, new_window, count_peer-HasWindow}
use openclaw_p2p.GoMap.Laws.{get-put}

-- The window of a peer began no later than `t`, if it has one.
abbrev pub StartsBy : Time → Option PeerRate → Type 0
StartsBy t o = (rate_or_zero o).window_start ≤ t

current_window-StartsBy :
    (now t : Time) (rate : PeerRate)
    → now ≤ t
    → rate.window_start ≤ t
    → (current_window now rate).window_start ≤ t
current_window-StartsBy now t rate h g = ground arith

count_peer-StartsBy :
    (now t : Time) (peer_id : String) (limit : ℤ) (s : Store)
    → now ≤ t
    → StartsBy t (get peer_id s.rates)
    → StartsBy t (get peer_id (count_peer now peer_id limit s).1.rates)
unfolding count_peer
count_peer-StartsBy now t peer_id limit s h g =
    let rate = current_window now (rate_or_zero (get peer_id s.rates)) in
    rw (get-put peer_id peer_id (count_event rate) s.rates, eq_refl peer_id)
      (current_window-StartsBy now t (rate_or_zero (get peer_id s.rates)) h g)

if-StartsBy :
    (b : Bool) (t : Time) (peer_id : String) (x y : Bool × Store)
    → StartsBy t (get peer_id x.1.rates)
    → StartsBy t (get peer_id y.1.rates)
    → StartsBy t (get peer_id (if b then x else y).1.rates)
if-StartsBy true t peer_id x y h g = h
if-StartsBy false t peer_id x y h g = g

allow_peer-StartsBy :
    (now t : Time) (peer_id : String) (limit : ℤ) (s : Store)
    → now ≤ t
    → StartsBy t (get peer_id s.rates)
    → StartsBy t (get peer_id (allow_peer now peer_id limit s).1.rates)
unfolding allow_peer
allow_peer-StartsBy now t peer_id limit s h g =
    if-StartsBy (leb_ℤ limit (pos 0) || peer_id == "") t peer_id (true, s)
      (count_peer now peer_id limit s) g (count_peer-StartsBy now t peer_id limit s h g)

allow_all-StartsBy :
    (times : List Time) (t : Time) (peer_id : String) (limit : ℤ) (s : Store)
    → All (λ now. now ≤ t) times
    → StartsBy t (get peer_id s.rates)
    → StartsBy t (get peer_id (allow_all times peer_id limit s).1.rates)
unfolding allow_all
allow_all-StartsBy [] t peer_id limit s h g = g
allow_all-StartsBy (now ∷ times) t peer_id limit s (h, hs) g =
    allow_all-StartsBy times t peer_id limit (allow_peer now peer_id limit s).1 hs
      (allow_peer-StartsBy now t peer_id limit s h g)

StartsBy-IsOver :
    (now t : Time) (o : Option PeerRate) → t + minute ≤ now → StartsBy t o → IsOver now o
StartsBy-IsOver now t none h g = tt
StartsBy-IsOver now t (some rate) h g = omega arith

if_allowed :
    (b : Bool) (s : Store) (y : Bool × Store) → y.0 ≡ true → (if b then (true, s) else y).0 ≡ true
if_allowed true s y h = refl
if_allowed false s y h = h

over-allowed :
    (now : Time) (peer_id : String) (limit : ℕ) (s : Store)
    → 0 < limit
    → IsOver now (get peer_id s.rates)
    → (allow_peer now peer_id (pos limit) s).0 ≡ true
unfolding allow_peer
over-allowed now peer_id limit s hl over =
    if_allowed (leb_ℤ (pos limit) (pos 0) || peer_id == "") s (count_peer now peer_id (pos limit) s)
      ((count_peer-HasWindow now now peer_id limit 0 s (omega arith)
          (new_window now (get peer_id s.rates) over)).0
        ∙ ground arith)

-- However many events of a peer came, in whatever order of the clock's readings and however many of
-- them were refused: an event that comes a minute or more after the latest of them is allowed, if
-- the limit is positive and the peer's window before these events began no later than the latest.
pub allow_peer_reopens :
    (times : List Time) (t now : Time) (peer_id : String) (limit : ℕ) (s : Store)
    → 0 < limit
    → StartsBy t (get peer_id s.rates)
    → All (λ time. time ≤ t) times
    → t + minute ≤ now
    → (allow_peer now peer_id (pos limit) (allow_all times peer_id (pos limit) s).1).0 ≡ true
allow_peer_reopens times t now peer_id limit s hl g ht h =
    let s' = (allow_all times peer_id (pos limit) s).1 in
    over-allowed now peer_id limit s' hl (
      StartsBy-IsOver now t (get peer_id s'.rates) h
        (allow_all-StartsBy times t peer_id (pos limit) s ht g))
