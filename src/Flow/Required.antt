-- ===== src/Flow/Required.antt =====
-- The offline override against the campaign policy: what the page writes between one result and the
-- next, when the result's campaign requires to be online or is not known to do without.
use mathlib.Core.Path.{subst}
use yumyums_purchase_orders.Common.{
  ℕ, ◌≡◌, refl, sym, ap, ◌∙◌, String, Bool, true, false, ◌&&◌, List, [], ◌∷◌, Option, none, some,
  arith, if◌then◌else◌, any,
}
use yumyums_purchase_orders.Machine.{
  EventName, Kind, event_id, submit, override_confirm, Event, idle, resolving, same_state, resolved,
  scan, qr_decoded, offer_ready, order_ok, override_request, override_cancel, dismiss, retry,
  next_customer, conn_up, probe_timeout, resubscribed, online, offline, stale,
}
use yumyums_purchase_orders.Machine.Chart.{is_stale}
use yumyums_purchase_orders.Machine.Engine.{Engine}
use yumyums_purchase_orders.Machine.Runs.{Inv, send-Inv}
use yumyums_purchase_orders.Machine.Held.{resolved-IsHeld}
use yumyums_purchase_orders.Flow.Orders.{send-quiet}
use yumyums_purchase_orders.Scan.{Code, Result}
use yumyums_purchase_orders.Flow.{
  Winner, PolicySource, Page, Session, plain, seq, send, updated, gate, stashed, finish_result,
  on_result, clear_session,
}
use yumyums_purchase_orders.Flow.Steps.{
  is_order_number, Input, scanned, result, late_result, typed, submit_tapped, override_tapped,
  confirm_tapped, cancel_tapped, retry_tapped, dismiss_tapped, next_tapped, scan_again, probed,
  channel_up, channel_down, replied, row_written, dispatch_or_validate, on_input, on_scan_again,
  after_reachable, handle_probe, report_channel_status, verdict, refused_http, aborted, failed,
  is_already_used, is_some_session, on_reply, reply_event, Reply, step, run,
}
use yumyums_purchase_orders.Flow.Sealed.{
  Safe, Safe-if, Safe-seq, Sealed, decoded-IsPlain, is_plain, is_row, plain-IsPlain, send-Safe,
  updated-Sealed,
}

-- Between two results.
abbrev pub is_result : Input → Bool
is_result (result found r) = true
is_result (late_result found r) = true
is_result _ = false

-- The event of a result that requires to be online.
abbrev required_event : Kind → Event
required_event kind = record (plain resolved) { kind = kind; requires_online = true }

module _ (x : Engine) where
  module _ (trim : String → String) (policy : Option PolicySource) where
    plain-Safe :
        (n : EventName) (p : Page) → is_plain n ≡ true → Sealed p → Safe (send x (plain n) p)
    plain-Safe n p h s = send-Safe x (plain n) p (plain-IsPlain n h) s

    dispatch-Safe :
        (n : EventName) (p : Page)
        → is_plain n ≡ true
        → Sealed p
        → Safe (dispatch_or_validate x trim policy n p)
    unfolding dispatch_or_validate
    dispatch-Safe n p h s =
        Safe-if (is_order_number (trim p.order.raw)) _ _ (plain-Safe n _ h s) (s, refl)

    input-Safe : (t : String) (p : Page) → Sealed p → Safe (on_input x trim policy t p)
    unfolding on_input
    input-Safe t p s =
        Safe-if (is_order_number (trim t) && same_state p.machine.context.sc offer_ready) _ _
          (plain-Safe order_ok _ refl s) (s, refl)

    again-Safe : (p : Page) → Sealed p → Safe (on_scan_again x trim policy p)
    unfolding on_scan_again
    again-Safe p s =
        Safe-if (same_state p.machine.context.sc idle) _ _ (s, refl)
          (plain-Safe next_customer p refl s)

    probe-Safe : (ok : Bool) (p : Page) → Sealed p → Safe (handle_probe x trim policy ok p)
    unfolding handle_probe
    probe-Safe false p s = plain-Safe probe_timeout p refl s
    probe-Safe true p s =
        elim p.machine.connectivity
          as (λ c. Safe (elim c [
            | offline ↦ seq (send x (plain conn_up) p) (after_reachable x trim policy)
            | stale ↦ after_reachable x trim policy p
            | online ↦ (p, [])
          ])) [
            | offline ↦
                Safe-seq (send x (plain conn_up) p) (after_reachable x trim policy)
                  (plain-Safe conn_up p refl s) (λ q t. plain-Safe resubscribed q refl t)
            | stale ↦ plain-Safe resubscribed p refl s
            | online ↦ (s, refl)
          ]

    channel-Safe :
        (up : Bool) (p : Page) → Sealed p → Safe (report_channel_status x trim policy up p)
    unfolding report_channel_status
    channel-Safe false p s = plain-Safe probe_timeout p refl s
    channel-Safe true p s =
        Safe-if (is_stale p.machine.connectivity) _ _ (plain-Safe resubscribed p refl s) (s, refl)

    reply_plain : (r : Reply) → is_plain (reply_event r) ≡ true
    reply_plain (verdict none e) = refl
    reply_plain (verdict (some t) e) = ground arith
    reply_plain (refused_http n e) = refl
    reply_plain aborted = refl
    reply_plain failed = refl

    reply-Safe :
        (found : Option Winner) (r : Reply) (p : Page)
        → Sealed p
        → Safe (on_reply x trim policy found r p)
    unfolding on_reply
    reply-Safe found r p s =
        let k = reply_plain r in
        Safe-if (is_already_used (reply_event r)) _ _
          (Safe-if (is_some_session p.submit_ctx) _ _ (plain-Safe (reply_event r) _ k s) (s, refl))
          (plain-Safe (reply_event r) _ k s)

    gate-Safe : (h : Option String) (p : Page) → Sealed p → Safe (gate x h p)
    gate-Safe none p s = (s, refl)
    gate-Safe (some h) p s =
        Safe-seq (if same_state p.machine.context.sc idle then send x (plain scan) p else (p, []))
          (send x (record (plain qr_decoded) { code = some h }))
          (Safe-if (same_state p.machine.context.sc idle) _ _ (plain-Safe scan p refl s) (s, refl))
          (λ q t. send-Safe x (record (plain qr_decoded) { code = some h }) q (decoded-IsPlain h) t)

    step-Safe :
        (i : Input) (p : Page) → is_result i ≡ false → Sealed p → Safe (step x trim policy i p)
    unfolding step
    step-Safe (scanned h) p k s = gate-Safe h p s
    step-Safe (result found r) p k s = ground (arith, k)
    step-Safe (late_result found r) p k s = ground (arith, k)
    step-Safe (typed t) p k s = input-Safe t p s
    step-Safe submit_tapped p k s = dispatch-Safe submit p refl s
    step-Safe confirm_tapped p k s = dispatch-Safe override_confirm p refl s
    step-Safe override_tapped p k s = plain-Safe override_request p refl s
    step-Safe cancel_tapped p k s = plain-Safe override_cancel p refl s
    step-Safe retry_tapped p k s = plain-Safe retry p refl s
    step-Safe dismiss_tapped p k s = plain-Safe dismiss p refl s
    step-Safe next_tapped p k s =
        Safe-seq (send x (plain next_customer) p) (on_scan_again x trim policy)
          (plain-Safe next_customer p refl s) again-Safe
    step-Safe scan_again p k s = again-Safe p s
    step-Safe (probed ok) p k s = probe-Safe ok p s
    step-Safe channel_up p k s = channel-Safe true p s
    step-Safe channel_down p k s = channel-Safe false p s
    step-Safe (replied found r) p k s = reply-Safe found r p s
    step-Safe (row_written e) p k s = (s, refl)

    run-Safe :
        (is' : List Input) (p : Page)
        → any is_result is' ≡ false
        → Sealed p
        → Safe (run x trim policy is' p)
    unfolding run
    run-Safe [] p k s = (s, refl)
    run-Safe (i ∷ is') p k s =
        Safe-seq (step x trim policy i p) (run x trim policy is')
          (step-Safe i p (ground (arith, k)) s) (λ q t. run-Safe is' q (ground (arith, k)) t)

    result-Safe :
        (found : Option (List Code)) (r : Result ℕ) (p : Page) (s : Session) (kind : Kind)
        → Inv p.machine
        → p.machine.scan ≡ resolving
        → stashed policy found r ≡ some (s, kind, true)
        → Safe (on_result x policy found r p)
    unfolding on_result finish_result
    result-Safe found r p s kind i q st =
        let e = required_event kind in
        let begun : Page = record (clear_session p) { submit_ctx = some s } in
        let here : same_state p.machine.context.sc resolving ≡ true =
          ap (λ t. same_state t resolving) (i.mirrored.sc_shown ∙ q) in
        let ends : finish_result x policy found r p ≡ (updated (x.send p.machine e).0 begun, []) =
          rw (st, finish_result) (send-quiet x e begun refl) in
        let sealed =
          updated-Sealed (x.send p.machine e).0 begun
            (send-Inv x p.machine e
              (record { external = λ u. ground (arith, ap event_id u); coded = refl }) i)
            (resolved-IsHeld x p.machine e q refl refl) in
        rw (here) (subst Safe (sym ends) (sealed, refl))

    -- A result that requires to be online closes the override: a machine that is resolving takes it, and
    -- until the next result no offline override is recorded, whatever is scanned, typed and
    -- tapped, whatever the signals and replies, and even across the next customer.
    pub result-closes :
        (found : Option (List Code)) (r : Result ℕ) (p : Page) (s : Session) (kind : Kind)
        (is' : List Input)
        → Inv p.machine
        → p.machine.scan ≡ resolving
        → stashed policy found r ≡ some (s, kind, true)
        → any is_result is' ≡ false
        → any is_row (run x trim policy (result found r ∷ is') p).1 ≡ false
    unfolding run step
    result-closes found r p s kind is' i q st k =
        (Safe-seq (on_result x policy found r p) (run x trim policy is')
          (result-Safe found r p s kind i q st) (λ t u. run-Safe is' t k u)).1
