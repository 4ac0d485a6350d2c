-- ===== src/Machine/Held.antt =====
-- A campaign that requires to be online keeps its customer's session closed to the override: from a
-- result that says so until the next result, whatever is tapped and scanned.
use mathlib.Core.Path.{subst}
use yumyums_purchase_orders.Common.{
  ◌∙◌, sym, ◌≡◌, ◌≢◌, refl, true, false, any, Option, none, some, arith,
}
use yumyums_purchase_orders.Machine.{
  EventName, undeclared, unexpected, resolved, retry, ScanState, idle, scanning, resolving,
  offer_ready, ready_to_submit, unknown_code, blocked_offline, override_confirm_state,
  override_pending, submitting, redeemed, already_used, spent_locally, expired_locally, expired,
  not_found, error, unexpected_event, Event, Context, Conn, Overlay,
}
use yumyums_purchase_orders.Machine.Chart.{scan_on}
use yumyums_purchase_orders.Machine.Engine.{Snapshot, Engine}
use yumyums_purchase_orders.Machine.Strict.{send-alphabet, scan_run, after}
use yumyums_purchase_orders.Machine.Session.{scan_to, scan_context, SoundHere}
use yumyums_purchase_orders.Machine.Effects.{effects_of}
use yumyums_purchase_orders.Machine.Override.{is_write}

-- No result is there yet, or it requires to be online.
abbrev pub Held : ScanState → Context → Type 0
Held idle c = Unit
Held scanning c = Unit
Held resolving c = Unit
Held unexpected_event c = Unit
Held _ c = c.requires_online ≡ true

abbrev pub HeldReturn : Option ScanState → Context → Type 0
HeldReturn none c = Unit
HeldReturn (some q) c = Held q c

abbrev pub HeldHere : ScanState → Context → Type 0
HeldHere unexpected_event c = HeldReturn c.unexpected_return c
HeldHere q c = Held q c

retry_held :
    (r : Option ScanState) (c : Context) (e : Event)
    → c.unexpected_return ≡ r
    → HeldReturn r c
    → HeldHere (scan_to unexpected_event retry c e) (scan_context unexpected_event retry c e)
unfolding scan_on
retry_held none c e h w = ground arith
retry_held (some idle) c e h w = ground arith
retry_held (some scanning) c e h w = ground arith
retry_held (some resolving) c e h w = ground arith
retry_held (some offer_ready) c e h w = ground arith
retry_held (some ready_to_submit) c e h w = ground arith
retry_held (some unknown_code) c e h w = ground arith
retry_held (some blocked_offline) c e h w = ground arith
retry_held (some override_confirm_state) c e h w = ground arith
retry_held (some override_pending) c e h w = ground arith
retry_held (some submitting) c e h w = ground arith
retry_held (some redeemed) c e h w = ground arith
retry_held (some already_used) c e h w = ground arith
retry_held (some spent_locally) c e h w = ground arith
retry_held (some expired_locally) c e h w = ground arith
retry_held (some expired) c e h w = ground arith
retry_held (some not_found) c e h w = ground arith
retry_held (some error) c e h w = ground arith
retry_held (some unexpected_event) c e h w = ground arith

scan_held :
    (q : ScanState) (n : EventName) (c : Context) (e : Event)
    → n ≢ undeclared
    → n ≢ unexpected
    → n ≢ resolved
    → HeldHere q c
    → HeldHere (scan_to q n c e) (scan_context q n c e)
unfolding scan_on
scan_held q undeclared c e h h' k w = absurd (h refl)
scan_held q unexpected c e h h' k w = absurd (h' refl)
scan_held q resolved c e h h' k w = absurd (k refl)
scan_held unexpected_event retry c e h h' k w = retry_held c.unexpected_return c e refl w
scan_held idle _ c e h h' k w = ground arith
scan_held scanning _ c e h h' k w = ground arith
scan_held resolving _ c e h h' k w = ground arith
scan_held offer_ready _ c e h h' k w = ground arith
scan_held ready_to_submit _ c e h h' k w = ground arith
scan_held unknown_code _ c e h h' k w = ground arith
scan_held blocked_offline _ c e h h' k w = ground arith
scan_held override_confirm_state _ c e h h' k w = ground arith
scan_held override_pending _ c e h h' k w = ground arith
scan_held submitting _ c e h h' k w = ground arith
scan_held redeemed _ c e h h' k w = ground arith
scan_held already_used _ c e h h' k w = ground arith
scan_held spent_locally _ c e h h' k w = ground arith
scan_held expired_locally _ c e h h' k w = ground arith
scan_held expired _ c e h h' k w = ground arith
scan_held not_found _ c e h h' k w = ground arith
scan_held error _ c e h h' k w = ground arith
scan_held unexpected_event _ c e h h' k w = ground arith

-- A result that requires to be online, in the state that takes results.
resolved_held :
    (c : Context) (e : Event)
    → e.requires_online ≡ true
    → HeldHere (scan_to resolving resolved c e) (scan_context resolving resolved c e)
unfolding scan_on
resolved_held c e h = ground (arith, h)

Held-mirrors :
    (q : ScanState) (c : Context) (r : Conn) (o : Overlay) (p : ScanState)
    → Held q c
    → Held q (record c { conn = r; ov = o; sc = p })
Held-mirrors idle c r o p w = w
Held-mirrors scanning c r o p w = w
Held-mirrors resolving c r o p w = w
Held-mirrors unexpected_event c r o p w = w
Held-mirrors _ c r o p w = w

HeldReturn-mirrors :
    (q : Option ScanState) (c : Context) (r : Conn) (o : Overlay) (p : ScanState)
    → HeldReturn q c
    → HeldReturn q (record c { conn = r; ov = o; sc = p })
HeldReturn-mirrors none c r o p w = w
HeldReturn-mirrors (some q) c r o p w = Held-mirrors q c r o p w

HeldHere-mirrors :
    (q : ScanState) (c : Context) (r : Conn) (o : Overlay) (p : ScanState)
    → HeldHere q c
    → HeldHere q (record c { conn = r; ov = o; sc = p })
HeldHere-mirrors unexpected_event c r o p w = HeldReturn-mirrors c.unexpected_return c r o p w
HeldHere-mirrors idle c r o p w = w
HeldHere-mirrors scanning c r o p w = w
HeldHere-mirrors resolving c r o p w = w
HeldHere-mirrors _ c r o p w = w

abbrev pub IsHeld : Snapshot → Type 0
IsHeld s = HeldHere s.scan s.context

pub send-IsHeld :
    (x : Engine) (s : Snapshot) (e : Event)
    → e.type_name ≢ undeclared
    → e.type_name ≢ unexpected
    → e.type_name ≢ resolved
    → IsHeld s
    → IsHeld (x.send s e).0
send-IsHeld x s e k u r w = rw (send-alphabet x s e k) (
    HeldHere-mirrors (scan_to s.scan e.type_name s.context e) (scan_run s e).0
      (after s e).context.conn (after s e).context.ov (after s e).context.sc
      (scan_held s.scan e.type_name s.context e k u r w))

pub resolved-IsHeld :
    (x : Engine) (s : Snapshot) (e : Event)
    → s.scan ≡ resolving
    → e.type_name ≡ resolved
    → e.requires_online ≡ true
    → IsHeld (x.send s e).0
resolved-IsHeld x s e q n r =
    let here : HeldHere (scan_to s.scan e.type_name s.context e)
        (scan_context s.scan e.type_name s.context e) =
      subst (λ m. HeldHere (scan_to s.scan m s.context e) (scan_context s.scan m s.context e))
        (sym n)
        (subst
          (λ r. HeldHere (scan_to r resolved s.context e) (scan_context r resolved s.context e))
          (sym q) (resolved_held s.context e r)) in
    rw (send-alphabet x s e (λ u. ground (arith, sym n ∙ u))) (
      HeldHere-mirrors (scan_to s.scan e.type_name s.context e) (scan_run s e).0
        (after s e).context.conn (after s e).context.ov (after s e).context.sc here)

-- While it is held, no event writes an attempt past the server.
pub held_writes :
    (q : ScanState) (n : EventName) (c : Context)
    → SoundHere q c
    → HeldHere q c
    → any is_write (effects_of q n c) ≡ false
held_writes override_confirm_state n c w h = ground (arith, w.3, h)
held_writes _ n c w h = ground arith
