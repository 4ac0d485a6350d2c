-- ===== src/Sync/Socket.antt =====
-- sync.js, the WebSocket client: how reconnection backs off and gives up, and the save counter.
-- Timers and the socket are the browser's: `setTimeout(wsConnect, delay)` is a delay in the result.
use yumyums_purchase_orders.Common.{
  ℕ, zero, suc, ◌+◌, ◌*◌, ◌^◌, ◌≤◌, min, ◌≡◌, refl, Bool, true, false, ◌&&◌, arith, leb, ltb,
  if◌then◌else◌,
}
use native.Mathlib.Nat.{pow-succ'}

abbrev pub ws_max_backoff : ℕ
ws_max_backoff = 30000

abbrev pub ws_max_attempts : ℕ
ws_max_attempts = 15

-- `_wsBackoff` and `_wsAttempts`.
pub record Socket : Type 0 where
  pub backoff : ℕ
  pub attempts : ℕ

abbrev pub fresh : Socket
fresh = record { backoff = 500; attempts = 0 }

-- `wsConnect`: whether a socket is opened.
pub connects : Socket → Bool
connects s = if leb ws_max_attempts s.attempts then false else true

-- `_ws.onopen`.
pub on_open : Socket → Socket
on_open s = record { backoff = 500; attempts = 0 }

-- `_ws.onclose`, with the jitter that was drawn: the state, and the delay before `wsConnect`.
pub on_close : ℕ → Socket → Socket × ℕ
on_close jitter s = (
  record { backoff = min (s.backoff * 2) ws_max_backoff; attempts = s.attempts + 1 },
  min (s.backoff + jitter) ws_max_backoff,
)

-- The handler of 'visibilitychange', for a page that is visible or not and a socket that is closed or
-- not: the state, and whether it calls `wsConnect`.
abbrev pub on_visibility : Bool → Bool → Socket → Socket × Bool
on_visibility visible closed s =
    if visible && closed then (record s { attempts = 0 }, true) else (s, false)

-- The socket after `n` failed attempts in a row, each with its jitter.
abbrev pub failures : (ℕ → ℕ) → ℕ → Socket → Socket
failures jitter zero s = s
failures jitter (suc n) s = (on_close (jitter n) (failures jitter n s)).0

failures_lem :
    (jitter : ℕ → ℕ) (n : ℕ)
    → (1 ≤ 2 ^ n)
      × ((failures jitter n fresh).backoff ≡ min (500 * 2 ^ n) ws_max_backoff)
      × ((failures jitter n fresh).attempts ≡ n)
unfolding on_close
failures_lem jitter zero = (omega arith, omega arith, refl)
failures_lem jitter (suc n) =
    let (p, b, a) = failures_lem jitter n in
    let double : 2 ^ suc n ≡ 2 * 2 ^ n = pow-succ' 2 n in
    (omega (arith, double), omega (arith, double, b), omega (arith, a))

-- From a fresh socket, the backoff after `n` failed attempts in a row is 500 ms doubled `n` times, at
-- most 30 s, and the next attempt is made just while fewer than 15 have failed; whatever the
-- jitter, the delay before it lies between the backoff and 30 s.
pub failures-backoff :
    (jitter : ℕ → ℕ) (n : ℕ)
    → let s = failures jitter n fresh in
      (s.backoff ≡ min (500 * 2 ^ n) ws_max_backoff)
      × (connects s ≡ ltb n ws_max_attempts)
      × (s.backoff ≤ (on_close (jitter n) s).1)
      × ((on_close (jitter n) s).1 ≤ ws_max_backoff)
unfolding on_close connects
failures-backoff jitter n =
    let (p, b, a) = failures_lem jitter n in (b, ground (arith, a), omega (arith, b), omega arith)
