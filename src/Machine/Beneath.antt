-- ===== src/Machine/Beneath.antt =====
-- The states beneath the finish-first prompt: nothing that the screen sends moves them, and
-- dismissing the prompt takes the machine back to where it was.
use yumyums_purchase_orders.Common.{◌∙◌, ◌≡◌, ◌≢◌, refl, Bool, true, false, [], none, arith}
use yumyums_purchase_orders.Machine.{
  EventName, undeclared, unexpected, qr_decoded, dismiss, next_customer, resubscribed, Conn, online,
  offline, stale, closed, prompt, ScanState, idle, scanning, resolving, offer_ready,
  ready_to_submit, unknown_code, blocked_offline, override_confirm_state, override_pending,
  submitting, redeemed, already_used, spent_locally, expired_locally, expired, not_found, error,
  unexpected_event, Event, Context,
}
use yumyums_purchase_orders.Machine.Chart.{scan_on, connectivity_on, overlay_on}
use yumyums_purchase_orders.Machine.Engine.{Snapshot, choose, Engine}
use yumyums_purchase_orders.Machine.Strict.{send-alphabet, after}
use yumyums_purchase_orders.Machine.Trip.{IsMirrored, enter-IsMirrored}
use yumyums_purchase_orders.Machine.Session.{scan_to, scan_context}
use yumyums_purchase_orders.Machine.Prompt.{
  overlay_to, opens, overlay_closed_lem, scan_beneath_closed,
}
use yumyums_purchase_orders.Machine.Effects.{scan_effects}

-- The events that reach a state beneath the prompt: the two that pass the gate, and the tripwire.
abbrev pub bypasses : EventName → Bool
bypasses next_customer = true
bypasses resubscribed = true
bypasses unexpected = true
bypasses undeclared = true
bypasses _ = false

beneath :
    (q : ScanState) (n : EventName) (c : Context) (e : Event)
    → bypasses n ≡ false
    → c.ov ≡ prompt
    → (scan_to q n c e ≡ q) × (scan_context q n c e ≡ c)
unfolding scan_on
beneath idle next_customer c e b o = cc
beneath idle _ c e b o = ground arith
beneath scanning next_customer c e b o = cc
beneath scanning _ c e b o = ground arith
beneath resolving next_customer c e b o = cc
beneath resolving _ c e b o = ground arith
beneath offer_ready next_customer c e b o = cc
beneath offer_ready _ c e b o = ground arith
beneath ready_to_submit next_customer c e b o = cc
beneath ready_to_submit _ c e b o = ground arith
beneath unknown_code next_customer c e b o = cc
beneath unknown_code _ c e b o = ground arith
beneath blocked_offline next_customer c e b o = cc
beneath blocked_offline _ c e b o = ground arith
beneath override_confirm_state next_customer c e b o = cc
beneath override_confirm_state _ c e b o = ground arith
beneath override_pending next_customer c e b o = cc
beneath override_pending _ c e b o = ground arith
beneath submitting next_customer c e b o = cc
beneath submitting _ c e b o = ground arith
beneath redeemed next_customer c e b o = cc
beneath redeemed _ c e b o = ground arith
beneath already_used next_customer c e b o = cc
beneath already_used _ c e b o = ground arith
beneath spent_locally next_customer c e b o = cc
beneath spent_locally _ c e b o = ground arith
beneath expired_locally next_customer c e b o = cc
beneath expired_locally _ c e b o = ground arith
beneath expired next_customer c e b o = cc
beneath expired _ c e b o = ground arith
beneath not_found next_customer c e b o = cc
beneath not_found _ c e b o = ground arith
beneath error next_customer c e b o = cc
beneath error _ c e b o = ground arith
beneath unexpected_event next_customer c e b o = cc
beneath unexpected_event _ c e b o = ground arith

not_undeclared : (n : EventName) → bypasses n ≡ false → n ≢ undeclared
not_undeclared n b h = cc

-- While the prompt is open no event but NEXT_CUSTOMER, RESUBSCRIBED and the tripwire moves the scan
-- region or its session, and no effect is pushed: only the mirrors of the other regions may change.
pub send-beneath_prompt :
    (x : Engine) (s : Snapshot) (e : Event)
    → IsMirrored s
    → s.overlay ≡ prompt
    → bypasses e.type_name ≡ false
    → let s' = (x.send s e).0 in
      (s'.scan ≡ s.scan)
      × (s'.context ≡ record (s.context) { conn = s'.connectivity; ov = s'.overlay })
      × ((x.send s e).1.effects ≡ [])
send-beneath_prompt x s e m o b = rw (send-alphabet x s e known) (
    ground (
      arith,
      beneath s.scan e.type_name s.context e b (m.ov_shown ∙ o),
      enter-IsMirrored (choose (connectivity_on s.connectivity) e.type_name s.context e).target
          (choose (overlay_on s.overlay) e.type_name s.context e).target
          (choose (scan_on s.scan) e.type_name s.context e).target s m,
      scan_effects s.scan e.type_name s.context e known,
    ))
  where
    known : e.type_name ≢ undeclared
    known = not_undeclared e.type_name b

connectivity_ignores :
    (r : Conn) (c : Context) (e : Event)
    → ((choose (connectivity_on r) qr_decoded c e).target ≡ none)
      × ((choose (connectivity_on r) dismiss c e).target ≡ none)
unfolding connectivity_on
connectivity_ignores online c e = (refl, refl)
connectivity_ignores offline c e = (refl, refl)
connectivity_ignores stale c e = (refl, refl)

-- The snapshot with the prompt drawn over it.
abbrev prompted : Snapshot → Snapshot
prompted s = record s { overlay = prompt; context = record (s.context) { ov = prompt } }

after-opens :
    (s : Snapshot) (e : Event)
    → IsMirrored s
    → s.overlay ≡ closed
    → e.type_name ≡ qr_decoded
    → opens s.scan qr_decoded s.context e ≡ true
    → after s e ≡ prompted s
after-opens s e m o p i = ground (
  arith,
  connectivity_ignores s.connectivity s.context e,
  overlay_closed_lem qr_decoded s.context e (λ h. cc),
  scan_beneath_closed s.scan s.context e,
  enter-IsMirrored (choose (connectivity_on s.connectivity) e.type_name s.context e).target
      (choose (overlay_on s.overlay) e.type_name s.context e).target
      (choose (scan_on s.scan) e.type_name s.context e).target s m,
)

overlay_dismissed : (c : Context) (e : Event) → overlay_to prompt dismiss c e ≡ closed
unfolding overlay_on
overlay_dismissed c e = refl

after-dismiss :
    (s : Snapshot) (d : Event)
    → IsMirrored s
    → s.overlay ≡ closed
    → d.type_name ≡ dismiss
    → after (prompted s) d ≡ s
after-dismiss s d m o q =
    let s' = prompted s in
    ground (
      arith,
      connectivity_ignores s.connectivity s'.context d,
      overlay_dismissed s'.context d,
      beneath s.scan dismiss s'.context d refl refl,
      enter-IsMirrored (choose (connectivity_on s.connectivity) d.type_name s'.context d).target
          (choose (overlay_on prompt) d.type_name s'.context d).target
          (choose (scan_on s.scan) d.type_name s'.context d).target s'
          (record { conn_shown = m.conn_shown; ov_shown = refl; sc_shown = m.sc_shown }),
    )

-- Progress is preserved: where a decode of another code opens the prompt, DISMISS takes the machine
-- back to the very snapshot that was interrupted.
pub dismiss-opens :
    (x : Engine) (s : Snapshot) (e d : Event)
    → IsMirrored s
    → s.overlay ≡ closed
    → e.type_name ≡ qr_decoded
    → opens s.scan qr_decoded s.context e ≡ true
    → d.type_name ≡ dismiss
    → ((x.send s e).0.overlay ≡ prompt) × ((x.send (x.send s e).0 d).0 ≡ s)
dismiss-opens x s e d m o p i q =
    rw
      (
        send-alphabet x s e (λ h. cc),
        after-opens s e m o p i,
        send-alphabet x (prompted s) d (λ h. cc),
        after-dismiss s d m o q,
      )
      (refl, refl)
