-- ===== src/Flow/Steps.antt =====
-- marketing/submit-flow.js, what the crew and the network do to the page: the order number with
-- `validateOrderNumber` of marketing/submit-support.js, the buttons, the reachability signals and the
-- server's reply; a run of them.
use Prim.Native.String.{String}
use yumyums_purchase_orders.Common.{
  ℕ, suc, Bool, true, false, ◌&&◌, ◌∷◌, List, [], Option, none, some, leb, if◌then◌else◌, text_eq,
}
use yumyums_purchase_orders.Scope.{all_codes, is_digit}
use yumyums_purchase_orders.Machine.{
  EventName, order_ok, submit, override_request, override_confirm, override_cancel, dismiss, retry,
  next_customer, srv_redeemed, srv_already_used, srv_expired, srv_not_found, srv_error, conn_up,
  probe_timeout, resubscribed, online, offline, stale, idle, offer_ready, same_state,
}
use yumyums_purchase_orders.Machine.Chart.{is_stale}
use yumyums_purchase_orders.Machine.Engine.{Engine}
use yumyums_purchase_orders.Scan.{Code, Result}
use yumyums_purchase_orders.Flow.{
  PolicySource, Page, Session, Winner, Order, SubmitError, timed_out, network_failure, reported,
  http_error, Output, plain, seq, send, gate, finish_result, on_result,
}

abbrev pub characters : String → ℕ
characters String.[] = 0
characters (String.◌∷◌ c s) = suc (characters s)

-- TOAST_ORDER_NUMBER_PLACEHOLDER_PATTERN.
abbrev pub is_order_number : String → Bool
is_order_number v = all_codes is_digit v && (leb 1 (characters v) && leb (characters v) 6)

-- What the server's answer to a redeem request is, or why there is none; a reply that is no JSON
-- counts as no answer.
pub data Reply : Type 0 where
  verdict : Option String → Option String → Reply
  refused_http : ℕ → Option String → Reply
  aborted : Reply
  failed : Reply

abbrev pub verdict_event : Option String → EventName
verdict_event none = srv_error
verdict_event (some r) =
    if text_eq r "redeemed"
    then srv_redeemed
    else if text_eq r "already_used"
    then srv_already_used
    else if text_eq r "expired"
    then srv_expired
    else if text_eq r "not_found"
    then srv_not_found
    else srv_error

abbrev pub reply_event : Reply → EventName
reply_event (verdict r e) = verdict_event r
reply_event _ = srv_error

abbrev pub is_srv_error : EventName → Bool
is_srv_error srv_error = true
is_srv_error _ = false

abbrev pub reply_error : Reply → Option SubmitError → Option SubmitError
reply_error (verdict r e) before =
    if is_srv_error (verdict_event r) then some (reported e) else before
reply_error (refused_http status e) before = some (http_error status e)
reply_error aborted before = some timed_out
reply_error failed before = some network_failure

-- What happens to the page.
pub data Input : Type 0 where
  scanned : Option String → Input
  result : Option (List Code) → Result ℕ → Input
  late_result : Option (List Code) → Result ℕ → Input
  typed : String → Input
  submit_tapped override_tapped confirm_tapped cancel_tapped retry_tapped dismiss_tapped : Input
  next_tapped scan_again : Input
  probed : Bool → Input
  channel_up channel_down : Input
  replied : Option Winner → Reply → Input
  row_written : Option String → Input

abbrev pub is_some_session : Option Session → Bool
is_some_session none = false
is_some_session (some c) = true

abbrev pub winner_or : Option Winner → Option Session → Option Winner
winner_or (some w) c = some w
winner_or none none = none
winner_or none (some c) = c.winner

abbrev pub is_already_used : EventName → Bool
is_already_used srv_already_used = true
is_already_used _ = false

module _ (x : Engine) (trim : String → String) (policy : Option PolicySource) where
  -- `dispatchOrValidate`.
  unfoldable pub dispatch_or_validate : EventName → Page → Page × List Output
  dispatch_or_validate n p =
      let v = trim p.order.raw in
      let refused = record (p.order) { ok = false } in
      let accepted = record (p.order) { ok = true; value = v } in
      let sent = send x (plain n) (record p { order = accepted }) in
      if is_order_number v then sent else (record p { order = refused }, [])

  -- `onInput`.
  unfoldable pub on_input : String → Page → Page × List Output
  on_input text p =
      let v = trim text in
      let ok = is_order_number v in
      let order : Order = record { raw = text; ok = ok; value = if ok then v else "" } in
      let p' = record p { order = order } in
      let sent = send x (plain order_ok) p' in
      if ok && same_state p.machine.context.sc offer_ready then sent else (p', [])

  -- `onScanAgain`.
  unfoldable pub on_scan_again : Page → Page × List Output
  on_scan_again p =
      let sent = send x (plain next_customer) p in
      if same_state p.machine.context.sc idle then (p, []) else sent

  -- `afterReachable`, but for the call of `resync`.
  abbrev pub after_reachable : Page → Page × List Output
  after_reachable p = send x (plain resubscribed) p

  -- `handleProbe`.
  unfoldable pub handle_probe : Bool → Page → Page × List Output
  handle_probe false p = send x (plain probe_timeout) p
  handle_probe true p = elim p.machine.connectivity [
    | offline ↦ seq (send x (plain conn_up) p) after_reachable
    | stale ↦ after_reachable p
    | online ↦ (p, [])
  ]

  -- `reportChannelStatus`, of SUBSCRIBED and of the three dead states.
  unfoldable pub report_channel_status : Bool → Page → Page × List Output
  report_channel_status false p = send x (plain probe_timeout) p
  report_channel_status true p =
      let sent = send x (plain resubscribed) p in
      if is_stale p.machine.connectivity then sent else (p, [])

  -- The end of `doOnlineSubmit`, with what `lookupWinner` finds in the replica. Without a session a
  -- verdict `already_used` throws before anything is sent.
  unfoldable pub on_reply : Option Winner → Reply → Page → Page × List Output
  on_reply found r p =
      let n = reply_event r in
      let named = record p { submit_error = reply_error r p.submit_error } in
      let won = record named { winner = winner_or found p.submit_ctx } in
      let sent = send x (plain n) named in
      let sent_won = send x (plain n) won in
      if is_already_used n
      then if is_some_session p.submit_ctx then sent_won else (named, [])
      else sent

  unfoldable pub step : Input → Page → Page × List Output
  step (scanned h) p = gate x h p
  step (result found r) p = on_result x policy found r p
  step (late_result found r) p = finish_result x policy found r p
  step (typed text) p = on_input text p
  step submit_tapped p = dispatch_or_validate submit p
  step confirm_tapped p = dispatch_or_validate override_confirm p
  step override_tapped p = send x (plain override_request) p
  step cancel_tapped p = send x (plain override_cancel) p
  step retry_tapped p = send x (plain retry) p
  step dismiss_tapped p = send x (plain dismiss) p
  step next_tapped p = seq (send x (plain next_customer) p) on_scan_again
  step scan_again p = on_scan_again p
  step (probed ok) p = handle_probe ok p
  step channel_up p = report_channel_status true p
  step channel_down p = report_channel_status false p
  step (replied found r) p = on_reply found r p
  step (row_written e) p = (record p { override_write_error = e }, [])

  unfoldable pub run : List Input → Page → Page × List Output
  run [] p = (p, [])
  run (i ∷ is') p = seq (step i p) (run is')
