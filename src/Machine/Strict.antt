-- ===== src/Machine/Strict.antt =====
-- Strictness: every event of the alphabet is decided in every state of every region.
use yumyums_purchase_orders.Common.{
  ◌∙◌, ap, ◌≡◌, ◌≢◌, refl, Bool, true, false, List, [], ◌∷◌, arith,
}
use yumyums_purchase_orders.Machine.{
  EventName, undeclared, Conn, online, offline, stale, Overlay, closed, prompt, ScanState, idle,
  scanning, resolving, offer_ready, ready_to_submit, unknown_code, blocked_offline,
  override_confirm_state, override_pending, submitting, redeemed, already_used, spent_locally,
  expired_locally, expired, not_found, error, unexpected_event, Event, Context, Action, on_trip,
  raise_unexpected, assign, push,
}
use yumyums_purchase_orders.Machine.Chart.{connectivity_on, overlay_on, scan_on}
use yumyums_purchase_orders.Machine.Engine.{
  settle, microstep, choose, Snapshot, Log, nothing, run_actions, enter, macrostep, Engine,
}

-- The transition neither calls `onTrip` nor raises UNEXPECTED.
abbrev pub is_calm : List Action → Bool
is_calm [] = true
is_calm (assign f ∷ as') = is_calm as'
is_calm (push f ∷ as') = is_calm as'
is_calm (on_trip ∷ as') = false
is_calm (raise_unexpected ∷ as') = false

calm_connectivity :
    (r : Conn) (n : EventName) (c : Context) (e : Event)
    → n ≢ undeclared
    → is_calm (choose (connectivity_on r) n c e).actions ≡ true
unfolding connectivity_on
calm_connectivity r undeclared c e h = absurd (h refl)
calm_connectivity online _ c e h = refl
calm_connectivity offline _ c e h = refl
calm_connectivity stale _ c e h = refl

calm_overlay :
    (r : Overlay) (n : EventName) (c : Context) (e : Event)
    → n ≢ undeclared
    → is_calm (choose (overlay_on r) n c e).actions ≡ true
unfolding overlay_on
calm_overlay r undeclared c e h = absurd (h refl)
calm_overlay closed _ c e h = ground arith
calm_overlay prompt _ c e h = ground arith

calm_scan :
    (r : ScanState) (n : EventName) (c : Context) (e : Event)
    → n ≢ undeclared
    → is_calm (choose (scan_on r) n c e).actions ≡ true
unfolding scan_on
calm_scan r undeclared c e h = absurd (h refl)
calm_scan idle _ c e h = ground arith
calm_scan scanning _ c e h = ground arith
calm_scan resolving _ c e h = ground arith
calm_scan ready_to_submit _ c e h = ground arith
calm_scan offer_ready _ c e h = ground arith
calm_scan unknown_code _ c e h = ground arith
calm_scan blocked_offline _ c e h = ground arith
calm_scan override_confirm_state _ c e h = ground arith
calm_scan override_pending _ c e h = ground arith
calm_scan submitting _ c e h = ground arith
calm_scan redeemed _ c e h = ground arith
calm_scan already_used _ c e h = ground arith
calm_scan spent_locally _ c e h = ground arith
calm_scan expired_locally _ c e h = ground arith
calm_scan expired _ c e h = ground arith
calm_scan not_found _ c e h = ground arith
calm_scan error _ c e h = ground arith
calm_scan unexpected_event _ c e h = ground arith

-- The actions of the first two regions: none, on an event of the alphabet.
still_connectivity :
    (r : Conn) (n : EventName) (c : Context) (e : Event)
    → n ≢ undeclared
    → (choose (connectivity_on r) n c e).actions ≡ []
unfolding connectivity_on
still_connectivity r undeclared c e h = absurd (h refl)
still_connectivity online _ c e h = refl
still_connectivity offline _ c e h = refl
still_connectivity stale _ c e h = refl

still_overlay :
    (r : Overlay) (n : EventName) (c : Context) (e : Event)
    → n ≢ undeclared
    → (choose (overlay_on r) n c e).actions ≡ []
unfolding overlay_on
still_overlay r undeclared c e h = absurd (h refl)
still_overlay closed _ c e h = ground arith
still_overlay prompt _ c e h = ground arith

calm_log :
    (as' : List Action) (e : Event) (c : Context) (l : Log)
    → is_calm as' ≡ true
    → ((run_actions as' e (c, l)).1.raised ≡ l.raised)
      × ((run_actions as' e (c, l)).1.trips ≡ l.trips)
calm_log [] e c l h = (refl, refl)
calm_log (assign f ∷ as') e c l h = calm_log as' e (f c e) l h
calm_log (push f ∷ as') e c l h = calm_log as' e c _ h
calm_log (on_trip ∷ as') e c l h = cc
calm_log (raise_unexpected ∷ as') e c l h = cc

-- What the scan region does alone: the actions of its transition on the context before the event.
abbrev pub scan_run : Snapshot → Event → Context × Log
scan_run s e =
    run_actions (choose (scan_on s.scan) e.type_name s.context e).actions e (s.context, nothing)

-- The snapshot after an event of the alphabet.
abbrev pub after : Snapshot → Event → Snapshot
after s e =
    enter (choose (connectivity_on s.connectivity) e.type_name s.context e).target
      (choose (overlay_on s.overlay) e.type_name s.context e).target
      (choose (scan_on s.scan) e.type_name s.context e).target
      (record s { context = (scan_run s e).0 })

scan_calm :
    (s : Snapshot) (e : Event)
    → e.type_name ≢ undeclared
    → ((scan_run s e).1.raised ≡ 0) × ((scan_run s e).1.trips ≡ [])
scan_calm s e h =
    calm_log (choose (scan_on s.scan) e.type_name s.context e).actions e s.context nothing
      (calm_scan s.scan e.type_name s.context e h)

microstep-alphabet :
    (s : Snapshot) (e : Event)
    → e.type_name ≢ undeclared
    → microstep s e.type_name e ≡ (after s e, (scan_run s e).1)
unfolding microstep
microstep-alphabet s e h =
    let t = choose (connectivity_on s.connectivity) e.type_name s.context e in
    let u = choose (overlay_on s.overlay) e.type_name s.context e in
    let v = choose (scan_on s.scan) e.type_name s.context e in
    λ i.
      let (c, l) = run_actions v.actions e (
        run_actions (still_overlay s.overlay e.type_name s.context e h i) e (
          run_actions (still_connectivity s.connectivity e.type_name s.context e h i) e
            (s.context, nothing))) in
      (enter t.target u.target v.target (record s { context = c }), l)

macrostep-alphabet :
    (s : Snapshot) (e : Event)
    → e.type_name ≢ undeclared
    → macrostep s e ≡ (after s e, (scan_run s e).1)
unfolding macrostep
macrostep-alphabet s e h =
    ap (λ (r : Snapshot × Log). settle r.1.raised r) (microstep-alphabet s e h)
    ∙ (λ i. settle ((scan_calm s e h).0 i) (after s e, (scan_run s e).1))

module _ (x : Engine) (s : Snapshot) (e : Event) (known : e.type_name ≢ undeclared) where
  -- An event of the alphabet is one step: only the scan region has actions, and no event follows.
  pub send-alphabet : x.send s e ≡ (after s e, (scan_run s e).1)
  send-alphabet = x.send_lem s e ∙ macrostep-alphabet s e known

  -- An event of the alphabet never trips the wildcard, in any state of any region.
  pub send-never_trips : ((x.send s e).1.trips ≡ []) × ((x.send s e).1.raised ≡ 0)
  send-never_trips = rw send-alphabet ((scan_calm s e known).1, (scan_calm s e known).0)
