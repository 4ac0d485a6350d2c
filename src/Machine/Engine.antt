-- ===== src/Machine/Engine.antt =====
-- How the chart is run. XState v5 (lib/xstate.umd.min.js) is a vendored package: it enters as the
-- parameter Engine, with what its documentation says of parallel regions as the law `send_lem`. The
-- law is written with the chart of Machine/Chart.antt and the wildcard of the production mode.
use yumyums_purchase_orders.Common.{
  ℕ, zero, suc, ◌+◌, ◌≡◌, Bool, true, false, List, [], ◌∷◌, ◌++◌, Option, none, some, if◌then◌else◌,
}
use yumyums_purchase_orders.Machine.{
  prompt, closed, EventName, unexpected, Conn, online, Overlay, closed, ScanState, idle, unmapped,
  Event, TripInfo, Context, Effect, Action, assign, push, on_trip, raise_unexpected, Transition,
}
use yumyums_purchase_orders.Machine.Chart.{OnMap, candidates, connectivity_on, overlay_on, scan_on}

pub record Snapshot : Type 0 where
  pub connectivity : Conn
  pub overlay : Overlay
  pub scan : ScanState
  pub context : Context

-- What a step does besides the snapshot: the effects pushed, the calls of `onTrip`, and how often
-- UNEXPECTED was raised.
pub record Log : Type 0 where
  pub effects : List Effect
  pub trips : List TripInfo
  pub raised : ℕ

-- What the page shows: the prompt, or the scan region's state (`scan`).
pub data Screen : Type 0 where
  prompt_finish_current : Screen
  scan_screen : ScanState → Screen

abbrev pub screen : Snapshot → Screen
screen s = elim s.overlay [ prompt ↦ prompt_finish_current | closed ↦ scan_screen s.scan ]

-- `flags`: the override's availability, and the warning.
abbrev pub flags : Snapshot → Bool × Bool
flags s = (s.context.override_available, s.context.unverified_warning)

abbrev pub nothing : Log
nothing = record { effects = []; trips = []; raised = 0 }

-- The context that `createMachine` starts with, and the snapshot.
abbrev pub initial_context : Bool → Context
initial_context can_override = record {
  can_override = can_override;
  conn = online;
  ov = closed;
  sc = idle;
  session_code = none;
  resolution_kind = none;
  requires_online = false;
  override_available = false;
  unverified_warning = false;
  gate_return = none;
  unexpected_info = none;
  unexpected_return = none;
}

abbrev pub initial : Bool → Snapshot
initial can_override = record {
  connectivity = online;
  overlay = closed;
  scan = idle;
  context = initial_context can_override;
}

-- `tripInfo`.
abbrev pub trip_info : Context → Event → TripInfo
trip_info c e = record { event = e.type_name; at_scan = c.sc; at_conn = c.conn; at_overlay = c.ov }

-- `wildcard`, in the mode 'model'.
abbrev pub wildcard : {S : Type 0} → Transition S
wildcard = record {
  guard = none;
  target = none;
  actions =
      on_trip
      ∷ assign (λ c e. record c {
        unexpected_info = some (trip_info c e);
        unexpected_return = some c.sc;
      })
      ∷ raise_unexpected
      ∷ [];
}

-- The first candidate whose guard passes; with none, the wildcard of the region.
abbrev pub passes : {S : Type 0} → Transition S → Context → Event → Bool
passes t c e = elim t.guard [ none ↦ true | some g ↦ g c e ]

abbrev pub first_enabled : {S : Type 0} → List (Transition S) → Context → Event → Transition S
first_enabled [] c e = wildcard
first_enabled (t ∷ ts) c e = if passes t c e then t else first_enabled ts c e

abbrev pub choose : {S : Type 0} → Option (OnMap S) → EventName → Context → Event → Transition S
choose none n c e = wildcard
choose (some m) n c e = elim (candidates n m) [ none ↦ wildcard | some ts ↦ first_enabled ts c e ]

-- The actions of a transition, in order.
abbrev pub run_action : Action → Event → Context × Log → Context × Log
run_action (assign f) e (c, l) = (f c e, l)
run_action (push f) e (c, l) = (c, record l { effects = l.effects ++ f c ∷ [] })
run_action on_trip e (c, l) = (c, record l { trips = l.trips ++ trip_info c e ∷ [] })
run_action raise_unexpected e (c, l) = (c, record l { raised = suc l.raised })

abbrev pub run_actions : List Action → Event → Context × Log → Context × Log
run_actions [] e r = r
run_actions (a ∷ as') e r = run_actions as' e (run_action a e r)

-- `entry: assign({ mirror: name })` of the states entered.
abbrev pub enter : Option Conn → Option Overlay → Option ScanState → Snapshot → Snapshot
enter conn ov sc s = record {
  connectivity = elim conn [ none ↦ s.connectivity | some x ↦ x ];
  overlay = elim ov [ none ↦ s.overlay | some x ↦ x ];
  scan = elim sc [ none ↦ s.scan | some x ↦ x ];
  context = record (s.context) {
    conn = elim conn [ none ↦ s.context.conn | some x ↦ x ];
    ov = elim ov [ none ↦ s.context.ov | some x ↦ x ];
    sc = elim sc [ none ↦ s.context.sc | some x ↦ x ];
  };
}

-- One event: every region chooses on the context before it, the actions run in the order of the
-- regions, then the states are entered.
abbrev pub commit :
    Transition Conn → Transition Overlay → Transition ScanState → Event → Snapshot → Snapshot × Log
commit t u v e s =
    let (c, l) =
      run_actions v.actions e
        (run_actions u.actions e (run_actions t.actions e (s.context, nothing))) in
    (enter t.target u.target v.target (record s { context = c }), l)

unfoldable pub microstep : Snapshot → EventName → Event → Snapshot × Log
unfolding connectivity_on overlay_on scan_on
microstep s n e =
    commit (choose (connectivity_on s.connectivity) n s.context e)
      (choose (overlay_on s.overlay) n s.context e) (choose (scan_on s.scan) n s.context e) e s

abbrev pub unexpected_event_object : Event
unexpected_event_object = record {
  type_name = unexpected;
  code = none;
  kind = unmapped;
  requires_online = false;
}

abbrev pub and_then : Log → Log → Log
and_then a b = record {
  effects = a.effects ++ b.effects;
  trips = a.trips ++ b.trips;
  raised = a.raised + b.raised;
}

-- The raised events, each taken as an event of its own.
unfoldable pub settle : ℕ → Snapshot × Log → Snapshot × Log
unfolding microstep
settle zero r = r
settle (suc n) (s, l) =
    let (s', l') = microstep s unexpected unexpected_event_object in settle n (s', and_then l l')

unfoldable pub macrostep : Snapshot → Event → Snapshot × Log
unfolding microstep settle
macrostep s e = let (s', l) = microstep s e.type_name e in settle l.raised (s', l)

-- The engine: `actor.send`, on a live actor.
pub record Engine : Type 0 where
  pub send : Snapshot → Event → Snapshot × Log
  pub send_lem : (s : Snapshot) (e : Event) → send s e ≡ macrostep s e
