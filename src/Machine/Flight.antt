-- ===== src/Machine/Flight.antt =====
-- A submission in flight, the next customer, and a verdict that lands on the error card.
use yumyums_purchase_orders.Common.{
  ◌∙◌, ap, ◌≡◌, ◌≢◌, refl, Bool, true, false, [], ◌∷◌, none, some, arith, if◌then◌else◌,
}
use yumyums_purchase_orders.Machine.{
  EventName, scan, Overlay, prompt, undeclared, unexpected, retry, next_customer, srv_redeemed,
  srv_already_used, srv_expired, srv_not_found, srv_error, ScanState, idle, scanning, resolving,
  offer_ready, ready_to_submit, unknown_code, blocked_offline, override_confirm_state,
  override_pending, submitting, redeemed, already_used, spent_locally, expired_locally, expired,
  not_found, error, unexpected_event, Event, Context, closed, srv_verdicts, includes_event,
  reset_ctx,
}
use yumyums_purchase_orders.Machine.Chart.{scan_on, overlay_on}
use yumyums_purchase_orders.Machine.Engine.{Snapshot, Log, choose, Engine}
use yumyums_purchase_orders.Machine.Strict.{send-alphabet, after}
use yumyums_purchase_orders.Machine.Trip.{IsMirrored, tripped, send-undeclared}
use yumyums_purchase_orders.Machine.Session.{scan_to, scan_context}
use yumyums_purchase_orders.Machine.Prompt.{overlay_to}
use yumyums_purchase_orders.Machine.Override.{run}
use yumyums_purchase_orders.Machine.Effects.{send-effects}

-- The card that a verdict of the server shows; every other event leaves the submission alone.
abbrev pub verdict_card : EventName → ScanState
verdict_card srv_redeemed = redeemed
verdict_card srv_already_used = already_used
verdict_card srv_expired = expired
verdict_card srv_not_found = not_found
verdict_card srv_error = error
verdict_card unexpected = unexpected_event
verdict_card _ = submitting

from_submitting :
    (n : EventName) (c : Context) (e : Event)
    → n ≢ undeclared
    → c.ov ≡ closed
    → scan_to submitting n c e ≡ verdict_card n
unfolding scan_on
from_submitting undeclared c e h o = absurd (h refl)
from_submitting _ c e h o = ground arith

-- While a submission is in flight, with no prompt open, each verdict of the server shows its own
-- card, and no other event of the alphabet leaves the state.
pub send-submitting :
    (x : Engine) (s : Snapshot) (e : Event)
    → IsMirrored s
    → s.scan ≡ submitting
    → s.overlay ≡ closed
    → e.type_name ≢ undeclared
    → (x.send s e).0.scan ≡ verdict_card e.type_name
send-submitting x s e m q o h =
    rw (send-alphabet x s e h) (rw q (from_submitting e.type_name s.context e h (m.ov_shown ∙ o)))

-- The states that the next customer does not leave: before a session, and where an answer is owed.
abbrev pub holds_customer : ScanState → Bool
holds_customer idle = true
holds_customer scanning = true
holds_customer override_confirm_state = true
holds_customer submitting = true
holds_customer _ = false

next_from :
    (q : ScanState) (c : Context) (e : Event)
    → (scan_to q next_customer c e ≡ (if holds_customer q then q else idle))
      × (scan_context q next_customer c e ≡ (if holds_customer q then c else reset_ctx c))
unfolding scan_on
next_from idle c e = (refl, refl)
next_from scanning c e = (refl, refl)
next_from resolving c e = (refl, refl)
next_from offer_ready c e = (refl, refl)
next_from ready_to_submit c e = (refl, refl)
next_from unknown_code c e = (refl, refl)
next_from blocked_offline c e = (refl, refl)
next_from override_confirm_state c e = (refl, refl)
next_from override_pending c e = (refl, refl)
next_from submitting c e = (refl, refl)
next_from redeemed c e = (refl, refl)
next_from already_used c e = (refl, refl)
next_from spent_locally c e = (refl, refl)
next_from expired_locally c e = (refl, refl)
next_from expired c e = (refl, refl)
next_from not_found c e = (refl, refl)
next_from error c e = (refl, refl)
next_from unexpected_event c e = (refl, refl)

next_overlay : (o : Overlay) (c : Context) (e : Event) → overlay_to o next_customer c e ≡ closed
unfolding overlay_on
next_overlay closed c e = refl
next_overlay prompt c e = refl

-- NEXT_CUSTOMER closes the prompt and starts over from every state, the session forgotten, but for
-- the four states that it leaves alone with their session: the two before a session, a pending
-- override confirmation and a submission in flight.
pub send-next_customer :
    (x : Engine) (s : Snapshot) (e : Event)
    → e.type_name ≡ next_customer
    → let s' = (x.send s e).0 in
      (s'.overlay ≡ closed)
      × (s'.scan ≡ (if holds_customer s.scan then s.scan else idle))
      × (s'.context.session_code ≡ (if holds_customer s.scan then s.context.session_code else none))
send-next_customer x s e h =
    rw (send-alphabet x s e (λ u. cc))
      (ground (arith, next_from s.scan s.context e, next_overlay s.overlay s.context e))

card_ignores :
    (n : EventName) (c : Context) (e : Event)
    → includes_event srv_verdicts n ≡ true
    → (scan_to unexpected_event n c e ≡ unexpected_event)
      × (scan_context unexpected_event n c e ≡ c)
      × ((choose (overlay_on closed) n c e).target ≡ none)
unfolding scan_on overlay_on
card_ignores scan c e h = cc
card_ignores _ c e h = ground arith

card_retries :
    (c : Context) (e : Event)
    → c.ov ≡ closed
    → c.unexpected_return ≡ some submitting
    → scan_to unexpected_event retry c e ≡ submitting
unfolding scan_on
card_retries c e o r = ground arith

-- The snapshot after a verdict on the error card.
after-verdict :
    (s : Snapshot) (v : Event)
    → includes_event srv_verdicts v.type_name ≡ true
    → s.scan ≡ unexpected_event
    → s.overlay ≡ closed
    → s.context.ov ≡ closed
    → ((after s v).scan ≡ unexpected_event)
      × ((after s v).context.ov ≡ closed)
      × ((after s v).context.unexpected_return ≡ s.context.unexpected_return)
after-verdict s v h q o c = rw (q, o) (ground (arith, card_ignores v.type_name s.context v h))

verdict_known : (n : EventName) → includes_event srv_verdicts n ≡ true → n ≢ undeclared
verdict_known n h u =
    let no_verdict : includes_event srv_verdicts undeclared ≡ true = rw u at h in cc

retried :
    (x : Engine) (s : Snapshot) (r : Event)
    → r.type_name ≡ retry
    → s.scan ≡ unexpected_event
    → s.context.ov ≡ closed
    → s.context.unexpected_return ≡ some submitting
    → (x.send s r).0.scan ≡ submitting
retried x s r h q o u = ground (arith, send-alphabet x s r (λ e. cc), card_retries s.context r o u)

-- No event of the alphabet pushes an effect on the error card.
card_quiet :
    (x : Engine) (s : Snapshot) (e : Event)
    → e.type_name ≢ undeclared
    → s.scan ≡ unexpected_event
    → (x.send s e).1.effects ≡ []
card_quiet x s e h q = ground (arith, send-effects x s e h)

-- A verdict that arrives while the error card stands over a submission in flight is lost: after an
-- undeclared event, the verdict and RETRY, the machine is in `submitting` again and has asked the
-- server for nothing more.
pub run-loses_verdict :
    (x : Engine) (s : Snapshot) (u v r : Event)
    → IsMirrored s
    → s.scan ≡ submitting
    → u.type_name ≡ undeclared
    → includes_event srv_verdicts v.type_name ≡ true
    → r.type_name ≡ retry
    → let (s', effects) = run x s (u ∷ v ∷ r ∷ []) in (s'.scan ≡ submitting) × (effects ≡ [])
unfolding run
run-loses_verdict x s u v r m q hu hv hr =
    let (first, quiet) = send-undeclared x s u m hu in
    let s1 = tripped s u in
    let s2 = after s1 v in
    let known = verdict_known v.type_name hv in
    let (at_card, shown, kept) = after-verdict s1 v hv refl refl refl in
    let back = retried x s2 r hr at_card shown (kept ∙ ap some q) in
    let none2 = card_quiet x s1 v known refl in
    let none3 = card_quiet x s2 r (λ h. cc) at_card in
    rw first (
      rw (ap (λ (t : Snapshot × Log). t.0) (send-alphabet x s1 v known))
        (back, rw (quiet, none2, none3)))
