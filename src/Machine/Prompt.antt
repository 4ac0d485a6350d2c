-- ===== src/Machine/Prompt.antt =====
-- The finish-first prompt: where it may stand, and that the scan region waits beneath it.
use yumyums_purchase_orders.Common.{
  ◌≡◌, ◌≢◌, refl, Bool, true, not, ◌&&◌, none, some, arith, if◌then◌else◌,
}
use yumyums_purchase_orders.Machine.{
  EventName, undeclared, qr_decoded, same_event, Overlay, closed, prompt, ScanState, idle, scanning,
  resolving, offer_ready, ready_to_submit, unknown_code, blocked_offline, override_confirm_state,
  override_pending, submitting, redeemed, already_used, spent_locally, expired_locally, expired,
  not_found, error, unexpected_event, Event, Context, interruptible,
}
use yumyums_purchase_orders.Machine.Chart.{scan_on, overlay_on, in_session, same_code}
use yumyums_purchase_orders.Machine.Engine.{choose}
use yumyums_purchase_orders.Machine.Session.{scan_to, scan_context}

abbrev pub overlay_to : Overlay → EventName → Context → Event → Overlay
overlay_to o n c e = elim (choose (overlay_on o) n c e).target [ none ↦ o | some x ↦ x ]

-- A prompt stands only over a state that may be interrupted, with a customer's code in hand.
abbrev pub PromptFits : Overlay → ScanState → Context → Type 0
PromptFits closed q c = Unit
PromptFits prompt q c = (interruptible q ≡ true) × (in_session c ≡ true)

-- A decode of another code opens the prompt, in a session that may be interrupted; nothing else does.
abbrev pub opens : ScanState → EventName → Context → Event → Bool
opens q n c e =
    same_event n qr_decoded
    && (in_session c && (not (same_code e.code c.session_code) && interruptible c.sc))

pub overlay_closed_lem :
    (n : EventName) (c : Context) (e : Event)
    → n ≢ undeclared
    → overlay_to closed n c e ≡ (if opens c.sc n c e then prompt else closed)
unfolding overlay_on
overlay_closed_lem undeclared c e h = absurd (h refl)
overlay_closed_lem qr_decoded c e h = ground arith
overlay_closed_lem _ c e h = refl

pub scan_beneath_closed :
    (q : ScanState) (c : Context) (e : Event)
    → interruptible q ≡ true
    → (scan_to q qr_decoded c e ≡ q) × (scan_context q qr_decoded c e ≡ c)
unfolding scan_on
scan_beneath_closed idle c e h = cc
scan_beneath_closed scanning c e h = ground arith
scan_beneath_closed resolving c e h = ground arith
scan_beneath_closed offer_ready c e h = ground arith
scan_beneath_closed ready_to_submit c e h = ground arith
scan_beneath_closed unknown_code c e h = ground arith
scan_beneath_closed blocked_offline c e h = ground arith
scan_beneath_closed override_confirm_state c e h = ground arith
scan_beneath_closed override_pending c e h = ground arith
scan_beneath_closed submitting c e h = ground arith
scan_beneath_closed redeemed c e h = ground arith
scan_beneath_closed already_used c e h = ground arith
scan_beneath_closed spent_locally c e h = ground arith
scan_beneath_closed expired_locally c e h = ground arith
scan_beneath_closed expired c e h = ground arith
scan_beneath_closed not_found c e h = ground arith
scan_beneath_closed error c e h = ground arith
scan_beneath_closed unexpected_event c e h = ground arith

pub prompt_stays :
    (q : ScanState) (n : EventName) (c : Context) (e : Event)
    → n ≢ undeclared
    → c.ov ≡ prompt
    → interruptible q ≡ true
    → in_session c ≡ true
    → PromptFits (overlay_to prompt n c e) (scan_to q n c e) (scan_context q n c e)
unfolding overlay_on scan_on
prompt_stays q undeclared c e h o i s = absurd (h refl)
prompt_stays idle _ c e h o i s = ground arith
prompt_stays scanning _ c e h o i s = ground arith
prompt_stays resolving _ c e h o i s = ground arith
prompt_stays offer_ready _ c e h o i s = ground arith
prompt_stays ready_to_submit _ c e h o i s = ground arith
prompt_stays unknown_code _ c e h o i s = ground arith
prompt_stays blocked_offline _ c e h o i s = ground arith
prompt_stays override_confirm_state _ c e h o i s = ground arith
prompt_stays override_pending _ c e h o i s = ground arith
prompt_stays submitting _ c e h o i s = ground arith
prompt_stays redeemed _ c e h o i s = ground arith
prompt_stays already_used _ c e h o i s = ground arith
prompt_stays spent_locally _ c e h o i s = ground arith
prompt_stays expired_locally _ c e h o i s = ground arith
prompt_stays expired _ c e h o i s = ground arith
prompt_stays not_found _ c e h o i s = ground arith
prompt_stays error _ c e h o i s = ground arith
prompt_stays unexpected_event _ c e h o i s = ground arith
