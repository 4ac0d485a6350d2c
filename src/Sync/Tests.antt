-- ===== src/Sync/Tests.antt =====
-- The shared client at concrete inputs: clocks, reconnections, and the queue of submissions.
use yumyums_purchase_orders.Common.{
  ℕ, ◌*◌, ◌^◌, ◌≤◌, min, String, ◌≡◌, refl, Bool, true, false, List, [], ◌∷◌, none, some, ltb,
  if◌then◌else◌, text_eq,
}
use yumyums_purchase_orders.Sync.Lamport.{LamportClock, local, remote, ClockEvent}
use yumyums_purchase_orders.Sync.Socket.{
  ws_max_backoff, ws_max_attempts, failures, fresh, connects, on_close, failures-backoff,
}
use yumyums_purchase_orders.Sync.Queue.{
  Response, no_response, response, Entry, drain_queue, replay_all, replay, api,
}
use yumyums_purchase_orders.Sync.Queue.Order.{drain_queue-conflict, has_entry}

abbrev clock : LamportClock
clock = record { ts = 7; device_id = "tab-1"; stored = none }

abbrev events : List ClockEvent
events = local ∷ remote 12 ∷ local ∷ []

abbrev jitter : ℕ → ℕ
jitter n = 250

failures-backoff_example :
    let s = failures jitter 4 fresh in
    (s.backoff ≡ min (500 * 2 ^ 4) ws_max_backoff)
    × (connects s ≡ ltb 4 ws_max_attempts)
    × (s.backoff ≤ (on_close (jitter 4) s).1)
    × ((on_close (jitter 4) s).1 ≤ ws_max_backoff)
failures-backoff_example = failures-backoff jitter 4

abbrev opened : Entry
opened = record { id = "s1"; queued_at = some "a"; template_id = "t1"; period = "day" }

abbrev closed : Entry
closed = record { id = "s2"; queued_at = some "b"; template_id = "t2"; period = "day" }

-- The server takes the first of them and cannot be reached for the second.
abbrev server : Entry → Response
server e = if text_eq e.id "s1" then response 200 true none else no_response

abbrev refuses : Entry → Response
refuses e =
    if text_eq e.id "s2" then response 409 true (some "lost_race") else response 200 true none

abbrev any_order : String → String → Bool
any_order a b = true

drain_queue-conflict_example :
    (has_entry "s2" (drain_queue refuses any_order false true (opened ∷ closed ∷ [])).queue ≡ false)
    × ((drain_queue refuses any_order false true (opened ∷ closed ∷ [])).cards ≡ [])
unfolding drain_queue replay_all replay api
drain_queue-conflict_example =
    drain_queue-conflict refuses any_order false true (opened ∷ closed ∷ []) "s2" refl

any_order_total : (a b : String) → any_order a b ≡ false → any_order b a ≡ true
any_order_total a b h = refl
