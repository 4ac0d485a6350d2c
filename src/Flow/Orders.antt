-- ===== src/Flow/Orders.antt =====
-- The order number of what the page sends: the redemption is complete only with one.
use yumyums_purchase_orders.Common.{
  eq_iff, ℕ, ◌≡◌, ◌≢◌, refl, ap, ◌∙◌, String, Bool, true, false, ◌&&◌, List, [], ◌∷◌, ◌++◌, Option,
  none, some, arith, if◌then◌else◌, text_eq, all, Bool-cases, Option-cases, inl, inr,
}
use yumyums_purchase_orders.Machine.{
  EventName, submit, override_confirm, undeclared, Event, Effect, submit_to_server, write_attempt,
  idle, same_state, resolved, scan, qr_decoded, order_ok, override_request, override_cancel,
  dismiss, retry, next_customer, conn_up, probe_timeout, resubscribed, ScanState, Context,
}
use yumyums_purchase_orders.Machine.Engine.{Engine, Snapshot}
use yumyums_purchase_orders.Machine.Effects.{effects_of, send-effects}
use yumyums_purchase_orders.Scan.{Code, Result}
use yumyums_purchase_orders.Flow.{
  PolicySource, Page, Output, Winner, clear_session, redeem_request, attempt_row, plain, seq, send,
  handle_effect, handle_effects, updated, gate, stashed, finish_result, on_result, given,
}
use yumyums_purchase_orders.Flow.Steps.{
  is_order_number, Input, scanned, result, late_result, typed, submit_tapped, override_tapped,
  confirm_tapped, cancel_tapped, retry_tapped, dismiss_tapped, next_tapped, scan_again, probed,
  channel_up, channel_down, replied, row_written, reply_error, winner_or, dispatch_or_validate,
  on_input, on_scan_again, after_reachable, handle_probe, report_channel_status, on_reply,
  reply_event, Reply, verdict, refused_http, aborted, failed, step, run,
}

-- Whether what is sent out carries an order number.
abbrev pub is_numbered : Option String → Bool
is_numbered none = false
is_numbered (some v) = is_order_number v

abbrev pub has_order : Output → Bool
has_order (redeem_request b) = is_numbered b.order_number
has_order (attempt_row r) = is_numbered r.pos_order_number

-- An event that neither submits nor confirms.
abbrev pub is_quiet : EventName → Bool
is_quiet submit = false
is_quiet override_confirm = false
is_quiet undeclared = false
is_quiet _ = true

quiet_effects :
    (q : ScanState) (n : EventName) (c : Context) → is_quiet n ≡ true → effects_of q n c ≡ []
quiet_effects q submit c h = ground (arith, h)
quiet_effects q override_confirm c h = ground (arith, h)
quiet_effects q undeclared c h = ground (arith, h)
quiet_effects q _ c h = ground arith

quiet_known : (n : EventName) → is_quiet n ≡ true → n ≢ undeclared
quiet_known n h e = ground (arith, h, ap is_quiet e)

-- Only a tap on submit or on confirm sends anything out.
abbrev pub is_sending : Input → Bool
is_sending submit_tapped = true
is_sending confirm_tapped = true
is_sending _ = false

-- Nothing can be sent out but with an order number.
abbrev pub is_ready_page : Page → Bool
is_ready_page p = elim p.submit_ctx [ none ↦ true | some c ↦ is_order_number p.order.value ]

module _ (x : Engine) where
  -- Such an event sends nothing out.
  pub send-quiet :
      (e : Event) (p : Page)
      → is_quiet e.type_name ≡ true
      → send x e p ≡ (updated (x.send p.machine e).0 p, [])
  unfolding send
  send-quiet e p h =
      rw
        (send-effects x p.machine e (quiet_known e.type_name h)
          ∙ quiet_effects p.machine.scan e.type_name p.machine.context h)
        refl

  seq_quiet :
      (a : Page × List Output) (f : Page → Page × List Output)
      → a.1 ≡ []
      → (f a.0).1 ≡ []
      → (seq a f).1 ≡ []
  seq_quiet (p, out) f h k = rw (h) k

  pub quiet_output : (e : Event) (p : Page) → is_quiet e.type_name ≡ true → (send x e p).1 ≡ []
  quiet_output e p h = ap (λ r. r.1) (send-quiet e p h)

  given-numbered : (v : String) → is_order_number v ≡ true → is_numbered (given v) ≡ true
  given-numbered v h = elim (Bool-cases (text_eq v "")) [
    | inl y ↦ ground (arith, h, ap is_order_number ((eq_iff v "").0 y))
    | inr n ↦ rw (n) h
  ]

  updated-ready :
      (s : Snapshot) (p : Page) → is_ready_page p ≡ true → is_ready_page (updated s p) ≡ true
  updated-ready s p h = ground (arith, h)

  handle_effect-ready :
      (e : Effect) (p : Page)
      → is_ready_page p ≡ true
      → (is_ready_page (handle_effect x e p).0 ≡ true)
        × (all has_order (handle_effect x e p).1 ≡ true)
  handle_effect-ready submit_to_server p h = elim (Option-cases p.submit_ctx) [
    | inl n ↦ rw (n) (ground (arith, n), refl)
    | inr (c, e) ↦ rw (e) (ground (arith, h, e), ground (arith, given-numbered p.order.value, h, e))
  ]
  handle_effect-ready (write_attempt o u) p h = elim (Option-cases p.submit_ctx) [
    | inl n ↦ rw (n) (ground (arith, n), refl)
    | inr (c, e) ↦ rw (e) (ground (arith, h, e), ground (arith, given-numbered p.order.value, h, e))
  ]

  all-append :
      (xs ys : List Output) → all has_order (xs ++ ys) ≡ (all has_order xs && all has_order ys)
  all-append [] ys = refl
  all-append (o ∷ xs) ys = ground (arith, all-append xs ys)

  handle_effects-ready :
      (es : List Effect) (p : Page)
      → is_ready_page p ≡ true
      → all has_order (handle_effects x es p).1 ≡ true
  handle_effects-ready [] p h = refl
  handle_effects-ready (e ∷ es) p h =
      let (ready, first) = handle_effect-ready e p h in
      let rest = handle_effects-ready es (handle_effect x e p).0 ready in
      all-append (handle_effect x e p).1 (handle_effects x es (handle_effect x e p).0).1
      ∙ ground (arith, first, rest)

  send-ready : (e : Event) (p : Page) → is_ready_page p ≡ true → all has_order (send x e p).1 ≡ true
  unfolding send
  send-ready e p h =
      handle_effects-ready (x.send p.machine e).1.effects (updated (x.send p.machine e).0 p)
        (updated-ready (x.send p.machine e).0 p h)

  none_sent : (out : List Output) → out ≡ [] → all has_order out ≡ true
  none_sent out h = ap (all has_order) h

  module _ (trim : String → String) (policy : Option PolicySource) where
    dispatch-numbered :
        (n : EventName) (p : Page) → all has_order (dispatch_or_validate x trim policy n p).1 ≡ true
    unfolding dispatch_or_validate
    dispatch-numbered n p = elim (Bool-cases (is_order_number (trim p.order.raw))) [
      | inr f ↦ rw (f) refl
      | inl t ↦ rw (t) (
          send-ready (plain n)
            (record p { order = record (p.order) { ok = true; value = trim p.order.raw } })
            (ground (arith, t)))
    ]

    input-quiet : (t : String) (p : Page) → (on_input x trim policy t p).1 ≡ []
    unfolding on_input
    input-quiet t p = ground (
      arith,
      quiet_output (plain order_ok)
          (record p {
            order = record {
              raw = t;
              ok = is_order_number (trim t);
              value = if is_order_number (trim t) then trim t else "";
            };
          })
          refl,
    )

    again-quiet : (p : Page) → (on_scan_again x trim policy p).1 ≡ []
    unfolding on_scan_again
    again-quiet p = ground (arith, quiet_output (plain next_customer) p refl)

    probe-quiet : (ok : Bool) (p : Page) → (handle_probe x trim policy ok p).1 ≡ []
    unfolding handle_probe
    probe-quiet false p = quiet_output (plain probe_timeout) p refl
    probe-quiet true p =
        let up = send x (plain conn_up) p in
        let both =
          seq_quiet up (after_reachable x trim policy) (quiet_output (plain conn_up) p refl)
            (quiet_output (plain resubscribed) up.0 refl) in
        ground (arith, both, quiet_output (plain resubscribed) p refl)

    channel-quiet : (up : Bool) (p : Page) → (report_channel_status x trim policy up p).1 ≡ []
    unfolding report_channel_status
    channel-quiet false p = quiet_output (plain probe_timeout) p refl
    channel-quiet true p = ground (arith, quiet_output (plain resubscribed) p refl)

    reply_quiet : (r : Reply) → is_quiet (reply_event r) ≡ true
    reply_quiet (verdict none e) = refl
    reply_quiet (verdict (some t) e) = ground arith
    reply_quiet (refused_http n e) = refl
    reply_quiet aborted = refl
    reply_quiet failed = refl

    reply-quiet :
        (found : Option Winner) (r : Reply) (p : Page) → (on_reply x trim policy found r p).1 ≡ []
    unfolding on_reply
    reply-quiet found r p =
        let named : Page = record p { submit_error = reply_error r p.submit_error } in
        let won : Page = record named { winner = winner_or found p.submit_ctx } in
        ground (
          arith,
          quiet_output (plain (reply_event r)) named (reply_quiet r),
          quiet_output (plain (reply_event r)) won (reply_quiet r),
        )

    finish-quiet :
        (found : Option (List Code)) (r : Result ℕ) (p : Page)
        → (finish_result x policy found r p).1 ≡ []
    unfolding finish_result
    finish-quiet found r p = elim (Option-cases (stashed policy found r)) [
      | inl n ↦ rw (n, finish_result) refl
      | inr ((s, kind, required), e) ↦
          rw (e, finish_result)
            (quiet_output (record (plain resolved) { kind = kind; requires_online = required })
              (record (clear_session p) { submit_ctx = some s }) refl)
    ]

    result-quiet :
        (found : Option (List Code)) (r : Result ℕ) (p : Page)
        → (on_result x policy found r p).1 ≡ []
    unfolding on_result
    result-quiet found r p = ground (arith, finish-quiet found r p)

    gate-quiet : (h : Option String) (p : Page) → (gate x h p).1 ≡ []
    gate-quiet none p = refl
    gate-quiet (some h) p = elim (Bool-cases (same_state p.machine.context.sc idle)) [
      | inl y ↦ rw (y) (
          seq_quiet (send x (plain scan) p) (send x (record (plain qr_decoded) { code = some h }))
            (quiet_output (plain scan) p refl)
            (quiet_output (record (plain qr_decoded) { code = some h }) (send x (plain scan) p).0
              refl))
      | inr n ↦ rw (n) (quiet_output (record (plain qr_decoded) { code = some h }) p refl)
    ]

    pub step-quiet : (i : Input) (p : Page) → is_sending i ≡ false → (step x trim policy i p).1 ≡ []
    unfolding step
    step-quiet (scanned h) p k = gate-quiet h p
    step-quiet (result found r) p k = result-quiet found r p
    step-quiet (late_result found r) p k = finish-quiet found r p
    step-quiet (typed t) p k = input-quiet t p
    step-quiet submit_tapped p k = ground (arith, k)
    step-quiet confirm_tapped p k = ground (arith, k)
    step-quiet override_tapped p k = quiet_output (plain override_request) p refl
    step-quiet cancel_tapped p k = quiet_output (plain override_cancel) p refl
    step-quiet retry_tapped p k = quiet_output (plain retry) p refl
    step-quiet dismiss_tapped p k = quiet_output (plain dismiss) p refl
    step-quiet next_tapped p k =
        seq_quiet (send x (plain next_customer) p) (on_scan_again x trim policy)
          (quiet_output (plain next_customer) p refl)
          (again-quiet (send x (plain next_customer) p).0)
    step-quiet scan_again p k = again-quiet p
    step-quiet (probed ok) p k = probe-quiet ok p
    step-quiet channel_up p k = channel-quiet true p
    step-quiet channel_down p k = channel-quiet false p
    step-quiet (replied found r) p k = reply-quiet found r p
    step-quiet (row_written e) p k = refl

    step-numbered : (i : Input) (p : Page) → all has_order (step x trim policy i p).1 ≡ true
    unfolding step
    step-numbered submit_tapped p = dispatch-numbered submit p
    step-numbered confirm_tapped p = dispatch-numbered override_confirm p
    step-numbered i p = none_sent (step x trim policy i p).1 (step-quiet i p (ground arith))

    -- Every redeem request that the page sends, and every offline override that it records, carries an
    -- order number of one to six digits: whatever is scanned, typed and tapped, in any
    -- order, with any results, signals and replies between.
    pub run-numbered :
        (is' : List Input) (p : Page) → all has_order (run x trim policy is' p).1 ≡ true
    unfolding run
    run-numbered [] p = refl
    run-numbered (i ∷ is') p =
        let first = step x trim policy i p in
        all-append first.1 (run x trim policy is' first.0).1
        ∙ ground (arith, step-numbered i p, run-numbered is' first.0)
