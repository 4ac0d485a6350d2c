-- ===== src/Machine/Session.antt =====
-- The session invariant of the statechart: which states hold a customer's code, when the override is
-- open, and when the finish-first prompt may stand.
use yumyums_purchase_orders.Common.{
  ◌≡◌, ◌≢◌, refl, Bool, true, false, not, ◌&&◌, Option, none, some, arith, if◌then◌else◌,
}
use yumyums_purchase_orders.Machine.{
  EventName, undeclared, unexpected, retry, qr_decoded, same_event, ScanState, idle, scanning,
  resolving, offer_ready, ready_to_submit, unknown_code, blocked_offline, override_confirm_state,
  override_pending, submitting, redeemed, already_used, spent_locally, expired_locally, expired,
  not_found, error, unexpected_event, Event, Context,
}
use yumyums_purchase_orders.Machine.Chart.{scan_on, in_session}
use yumyums_purchase_orders.Machine.Engine.{nothing, choose, run_actions}

-- What the context holds in a state of the scan region: no code before the first decode, a code
-- from then on, and behind the gate an override that is open just when the device holds the
-- permission and the campaign does not require to be online.
abbrev pub Sound : ScanState → Context → Type 0
Sound idle c = in_session c ≡ false
Sound scanning c = in_session c ≡ false
Sound unexpected_event c = Unit
Sound blocked_offline c =
    (in_session c ≡ true) × (c.override_available ≡ (c.can_override && not c.requires_online))
Sound override_confirm_state c =
    (in_session c ≡ true)
    × (c.override_available ≡ true)
    × (c.can_override ≡ true)
    × (c.requires_online ≡ false)
Sound _ c = in_session c ≡ true

abbrev pub SoundReturn : Option ScanState → Context → Type 0
SoundReturn none c = Unit
SoundReturn (some q) c = Sound q c

-- On the error card the same holds of the state that RETRY returns to.
abbrev pub SoundHere : ScanState → Context → Type 0
SoundHere unexpected_event c = SoundReturn c.unexpected_return c
SoundHere q c = Sound q c

abbrev pub has_code : Event → Bool
has_code e = elim e.code [ none ↦ false | some code ↦ true ]

-- A decode carries its code, as the page sends it.
abbrev pub carries_code : EventName → Event → Bool
carries_code n e = if same_event n qr_decoded then has_code e else true

abbrev pub scan_to : ScanState → EventName → Context → Event → ScanState
scan_to q n c e = elim (choose (scan_on q) n c e).target [ none ↦ q | some x ↦ x ]

abbrev pub scan_context : ScanState → EventName → Context → Event → Context
scan_context q n c e = (run_actions (choose (scan_on q) n c e).actions e (c, nothing)).0

retry_keeps :
    (r : Option ScanState) (c : Context) (e : Event)
    → c.unexpected_return ≡ r
    → SoundReturn r c
    → SoundHere (scan_to unexpected_event retry c e) (scan_context unexpected_event retry c e)
unfolding scan_on
retry_keeps none c e h w = ground arith
retry_keeps (some idle) c e h w = ground arith
retry_keeps (some scanning) c e h w = ground arith
retry_keeps (some resolving) c e h w = ground arith
retry_keeps (some offer_ready) c e h w = ground arith
retry_keeps (some ready_to_submit) c e h w = ground arith
retry_keeps (some unknown_code) c e h w = ground arith
retry_keeps (some blocked_offline) c e h w = ground arith
retry_keeps (some override_confirm_state) c e h w = ground arith
retry_keeps (some override_pending) c e h w = ground arith
retry_keeps (some submitting) c e h w = ground arith
retry_keeps (some redeemed) c e h w = ground arith
retry_keeps (some already_used) c e h w = ground arith
retry_keeps (some spent_locally) c e h w = ground arith
retry_keeps (some expired_locally) c e h w = ground arith
retry_keeps (some expired) c e h w = ground arith
retry_keeps (some not_found) c e h w = ground arith
retry_keeps (some error) c e h w = ground arith
retry_keeps (some unexpected_event) c e h w = ground arith

pub scan_keeps :
    (q : ScanState) (n : EventName) (c : Context) (e : Event)
    → n ≢ undeclared
    → n ≢ unexpected
    → carries_code n e ≡ true
    → SoundHere q c
    → SoundHere (scan_to q n c e) (scan_context q n c e)
unfolding scan_on
scan_keeps q undeclared c e h h' k w = absurd (h refl)
scan_keeps q unexpected c e h h' k w = absurd (h' refl)
scan_keeps unexpected_event retry c e h h' k w = retry_keeps c.unexpected_return c e refl w
scan_keeps idle _ c e h h' k w = ground arith
scan_keeps scanning _ c e h h' k w = ground arith
scan_keeps resolving _ c e h h' k w = ground arith
scan_keeps offer_ready _ c e h h' k w = ground arith
scan_keeps ready_to_submit _ c e h h' k w = ground arith
scan_keeps unknown_code _ c e h h' k w = ground arith
scan_keeps blocked_offline _ c e h h' k w = ground arith
scan_keeps override_confirm_state _ c e h h' k w = ground arith
scan_keeps override_pending _ c e h h' k w = ground arith
scan_keeps submitting _ c e h h' k w = ground arith
scan_keeps redeemed _ c e h h' k w = ground arith
scan_keeps already_used _ c e h h' k w = ground arith
scan_keeps spent_locally _ c e h h' k w = ground arith
scan_keeps expired_locally _ c e h h' k w = ground arith
scan_keeps expired _ c e h h' k w = ground arith
scan_keeps not_found _ c e h h' k w = ground arith
scan_keeps error _ c e h h' k w = ground arith
scan_keeps unexpected_event _ c e h h' k w = ground arith
