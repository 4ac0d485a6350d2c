-- ===== src/Machine/Effects.antt =====
-- What the statechart asks of the page: exactly when an effect is pushed.
use yumyums_purchase_orders.Common.{
  ◌≡◌, ◌≢◌, refl, Bool, true, ◌&&◌, ◌||◌, List, [], ◌∷◌, arith, if◌then◌else◌,
}
use yumyums_purchase_orders.Machine.{
  EventName, undeclared, submit, override_confirm, ScanState, idle, scanning, resolving,
  offer_ready, ready_to_submit, unknown_code, blocked_offline, override_confirm_state,
  override_pending, submitting, redeemed, already_used, spent_locally, expired_locally, expired,
  not_found, error, unexpected_event, Event, Context, Effect, submit_to_server, write_attempt,
  same_event, same_state, unknown_code_kind,
}
use yumyums_purchase_orders.Machine.Chart.{scan_on, is_online, overlay_closed, is_kind}
use yumyums_purchase_orders.Machine.Engine.{choose, Snapshot, nothing, run_actions, Engine}
use yumyums_purchase_orders.Machine.Strict.{send-alphabet}

-- A submit with an order or an unknown code, while online and with no prompt open.
abbrev pub is_submission : ScanState → EventName → Context → Bool
is_submission q n c =
    overlay_closed c.ov
    && (same_event n submit
        && ((same_state q ready_to_submit || same_state q unknown_code) && is_online c.conn))

-- A confirmed override, with no prompt open.
abbrev pub is_override : ScanState → EventName → Context → Bool
is_override q n c =
    overlay_closed c.ov && (same_event n override_confirm && same_state q override_confirm_state)

abbrev pub effects_of : ScanState → EventName → Context → List Effect
effects_of q n c =
    if is_submission q n c
    then submit_to_server ∷ []
    else if is_override q n c
    then write_attempt true (is_kind c.resolution_kind unknown_code_kind) ∷ []
    else []

pub scan_effects :
    (q : ScanState) (n : EventName) (c : Context) (e : Event)
    → n ≢ undeclared
    → (run_actions (choose (scan_on q) n c e).actions e (c, nothing)).1.effects ≡ effects_of q n c
unfolding scan_on
scan_effects q undeclared c e h = absurd (h refl)
scan_effects idle _ c e h = ground arith
scan_effects scanning _ c e h = ground arith
scan_effects resolving _ c e h = ground arith
scan_effects offer_ready _ c e h = ground arith
scan_effects ready_to_submit _ c e h = ground arith
scan_effects unknown_code _ c e h = ground arith
scan_effects blocked_offline _ c e h = ground arith
scan_effects override_confirm_state _ c e h = ground arith
scan_effects override_pending _ c e h = ground arith
scan_effects submitting _ c e h = ground arith
scan_effects redeemed _ c e h = ground arith
scan_effects already_used _ c e h = ground arith
scan_effects spent_locally _ c e h = ground arith
scan_effects expired_locally _ c e h = ground arith
scan_effects expired _ c e h = ground arith
scan_effects not_found _ c e h = ground arith
scan_effects error _ c e h = ground arith
scan_effects unexpected_event _ c e h = ground arith

-- An event of the alphabet pushes exactly one of three things: the submission to the server, on a
-- submit in `readyToSubmit` or `unknownCode` while the context reads online and no prompt is open;
-- the write of an attempt, flagged as an override and with the mark of an unknown code, on a
-- confirmation in `overrideConfirm` with no prompt open; and nothing in every other case.
pub send-effects :
    (x : Engine) (s : Snapshot) (e : Event)
    → e.type_name ≢ undeclared
    → (x.send s e).1.effects ≡ effects_of s.scan e.type_name s.context
send-effects x s e h = rw (send-alphabet x s e h) (scan_effects s.scan e.type_name s.context e h)
