-- ===== src/Machine/Trip.antt =====
-- The tripwire: what an event outside the alphabet does in the production mode.
use yumyums_purchase_orders.Common.{Option, none, ◌∙◌, ◌≡◌, refl, [], some, arith}
use yumyums_purchase_orders.Machine.{
  undeclared, Conn, online, offline, stale, Overlay, closed, prompt, ScanState, idle,
  unexpected_event, Event, Context,
}
use yumyums_purchase_orders.Machine.Engine.{
  enter, Snapshot, Log, microstep, settle, macrostep, trip_info, Engine,
}

-- The mirrors in the context show the states of the regions.
pub record IsMirrored (s : Snapshot) : Type 0 where
  pub conn_shown : s.context.conn ≡ s.connectivity
  pub ov_shown : s.context.ov ≡ s.overlay
  pub sc_shown : s.context.sc ≡ s.scan

-- Entering states keeps the mirrors true.
pub enter-IsMirrored :
    (t : Option Conn) (u : Option Overlay) (v : Option ScanState) (s : Snapshot)
    → IsMirrored s
    → IsMirrored (enter t u v s)
enter-IsMirrored none none none s m = ground arith
enter-IsMirrored none none (some q) s m = ground arith
enter-IsMirrored none (some o) none s m = ground arith
enter-IsMirrored none (some o) (some q) s m = ground arith
enter-IsMirrored (some r) none none s m = ground arith
enter-IsMirrored (some r) none (some q) s m = ground arith
enter-IsMirrored (some r) (some o) none s m = ground arith
enter-IsMirrored (some r) (some o) (some q) s m = ground arith

abbrev pub at : Conn → Overlay → ScanState → Context → Snapshot
at r o q c = record {
  connectivity = r;
  overlay = o;
  scan = q;
  context = record c { conn = r; ov = o; sc = q };
}

-- The error card: the prompt closes, and the context keeps what happened and where.
abbrev pub tripped : Snapshot → Event → Snapshot
tripped s e = record {
  connectivity = s.connectivity;
  overlay = closed;
  scan = unexpected_event;
  context = record (s.context) {
    ov = closed;
    sc = unexpected_event;
    unexpected_info = some (trip_info s.context e);
    unexpected_return = some s.scan;
  };
}

settle_trip : Snapshot → Event → Snapshot × Log
unfolding microstep settle
settle_trip s e = let (s', l) = microstep s undeclared e in settle l.raised (s', l)

trip_at :
    (r : Conn) (o : Overlay) (q : ScanState) (c : Context) (e : Event)
    → ((settle_trip (at r o q c) e).0 ≡ tripped (at r o q c) e)
      × ((settle_trip (at r o q c) e).1.effects ≡ [])
unfolding settle_trip
trip_at online closed idle c e = (refl, refl)
trip_at online closed _ c e = (refl, refl)
trip_at online prompt idle c e = (refl, refl)
trip_at online prompt _ c e = (refl, refl)
trip_at offline closed idle c e = (refl, refl)
trip_at offline closed _ c e = (refl, refl)
trip_at offline prompt idle c e = (refl, refl)
trip_at offline prompt _ c e = (refl, refl)
trip_at stale closed idle c e = (refl, refl)
trip_at stale closed _ c e = (refl, refl)
trip_at stale prompt idle c e = (refl, refl)
trip_at stale prompt _ c e = (refl, refl)

at-IsMirrored : (s : Snapshot) → IsMirrored s → s ≡ at s.connectivity s.overlay s.scan s.context
at-IsMirrored s m = ground arith

macrostep-undeclared :
    (s : Snapshot) (e : Event) → e.type_name ≡ undeclared → macrostep s e ≡ settle_trip s e
unfolding macrostep settle_trip
macrostep-undeclared s e h = λ i. let (s', l) = microstep s (h i) e in settle l.raised (s', l)

-- An event outside the alphabet leads to the error card from every state, with the prompt closed
-- and connectivity where it was. The context keeps the event and the interrupted state, and nothing
-- is asked of the server.
pub send-undeclared :
    (x : Engine) (s : Snapshot) (e : Event)
    → IsMirrored s
    → e.type_name ≡ undeclared
    → ((x.send s e).0 ≡ tripped s e) × ((x.send s e).1.effects ≡ [])
send-undeclared x s e m h =
    rw (x.send_lem s e ∙ macrostep-undeclared s e h)
      (rw (at-IsMirrored s m) (trip_at s.connectivity s.overlay s.scan s.context e))
