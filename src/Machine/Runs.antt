-- ===== src/Machine/Runs.antt =====
-- Runs of the statechart: the invariant holds along every run, and with it who may override.
use yumyums_purchase_orders.Common.{
  Bool-cases, ◌∙◌, ◌≡◌, ◌≢◌, refl, Bool, true, Option, none, some, arith, inl, inr,
}
use yumyums_purchase_orders.Machine.{
  EventName, undeclared, unexpected, qr_decoded, Conn, Overlay, closed, prompt, ScanState, idle,
  scanning, resolving, offer_ready, ready_to_submit, unknown_code, blocked_offline,
  override_confirm_state, override_pending, submitting, redeemed, already_used, spent_locally,
  expired_locally, expired, not_found, error, unexpected_event, Event, Context,
}
use yumyums_purchase_orders.Machine.Chart.{scan_on, connectivity_on, overlay_on}
use yumyums_purchase_orders.Machine.Engine.{Snapshot, choose, Engine, initial}
use yumyums_purchase_orders.Machine.Strict.{send-alphabet, after, scan_run}
use yumyums_purchase_orders.Machine.Trip.{IsMirrored, enter-IsMirrored, tripped, send-undeclared}
use yumyums_purchase_orders.Machine.Session.{
  scan_to, scan_context, scan_keeps, Sound, SoundReturn, SoundHere, carries_code,
}
use yumyums_purchase_orders.Machine.Prompt.{
  overlay_to, opens, PromptFits, overlay_closed_lem, scan_beneath_closed, prompt_stays,
}

pub record Inv (s : Snapshot) : Type 0 where
  pub mirrored : IsMirrored s
  pub sound : SoundHere s.scan s.context
  pub prompted : PromptFits s.overlay s.scan s.context

-- An event that the page sends: never the internal UNEXPECTED, and a decode with its code.
pub record IsSent (e : Event) : Type 0 where
  pub external : e.type_name ≢ unexpected
  pub coded : carries_code e.type_name e ≡ true

pub context_mirrors :
    (q : ScanState) (n : EventName) (c : Context) (e : Event)
    → n ≢ undeclared
    → (scan_context q n c e).conn ≡ c.conn
      × (scan_context q n c e).ov ≡ c.ov
      × (scan_context q n c e).sc ≡ c.sc
      × (scan_context q n c e).can_override ≡ c.can_override
unfolding scan_on
context_mirrors q undeclared c e h = absurd (h refl)
context_mirrors idle _ c e h = ground arith
context_mirrors scanning _ c e h = ground arith
context_mirrors resolving _ c e h = ground arith
context_mirrors offer_ready _ c e h = ground arith
context_mirrors ready_to_submit _ c e h = ground arith
context_mirrors unknown_code _ c e h = ground arith
context_mirrors blocked_offline _ c e h = ground arith
context_mirrors override_confirm_state _ c e h = ground arith
context_mirrors override_pending _ c e h = ground arith
context_mirrors submitting _ c e h = ground arith
context_mirrors redeemed _ c e h = ground arith
context_mirrors already_used _ c e h = ground arith
context_mirrors spent_locally _ c e h = ground arith
context_mirrors expired_locally _ c e h = ground arith
context_mirrors expired _ c e h = ground arith
context_mirrors not_found _ c e h = ground arith
context_mirrors error _ c e h = ground arith
context_mirrors unexpected_event _ c e h = ground arith

Sound-mirrors :
    (q : ScanState) (c : Context) (r : Conn) (o : Overlay) (p : ScanState)
    → Sound q c
    → Sound q (record c { conn = r; ov = o; sc = p })
Sound-mirrors idle c r o p w = w
Sound-mirrors _ c r o p w = w

SoundReturn-mirrors :
    (q : Option ScanState) (c : Context) (r : Conn) (o : Overlay) (p : ScanState)
    → SoundReturn q c
    → SoundReturn q (record c { conn = r; ov = o; sc = p })
SoundReturn-mirrors none c r o p w = w
SoundReturn-mirrors (some q) c r o p w = Sound-mirrors q c r o p w

SoundHere-mirrors :
    (q : ScanState) (c : Context) (r : Conn) (o : Overlay) (p : ScanState)
    → SoundHere q c
    → SoundHere q (record c { conn = r; ov = o; sc = p })
SoundHere-mirrors unexpected_event c r o p w = SoundReturn-mirrors c.unexpected_return c r o p w
SoundHere-mirrors _ c r o p w = w

closed_fits :
    (q : ScanState) (n : EventName) (c : Context) (e : Event)
    → n ≢ undeclared
    → c.sc ≡ q
    → PromptFits (overlay_to closed n c e) (scan_to q n c e) (scan_context q n c e)
unfolding overlay_on
closed_fits q undeclared c e h i = absurd (h refl)
closed_fits q qr_decoded c e h i = elim (Bool-cases (opens c.sc qr_decoded c e)) [
  | inl y ↦ rw (overlay_closed_lem qr_decoded c e h, y) (ground (arith, scan_beneath_closed q c e))
  | inr n ↦ rw (overlay_closed_lem qr_decoded c e h, n) tt
]
closed_fits q _ c e h i = tt

PromptFits-mirrors :
    (o' : Overlay) (q : ScanState) (c : Context) (r : Conn) (o : Overlay) (p : ScanState)
    → PromptFits o' q c
    → PromptFits o' q (record c { conn = r; ov = o; sc = p })
PromptFits-mirrors closed q c r o p w = w
PromptFits-mirrors prompt q c r o p w = w

module _ (s : Snapshot) (e : Event) (known : e.type_name ≢ undeclared) (inv : Inv s) where
  after-IsMirrored : IsMirrored (after s e)
  after-IsMirrored =
      enter-IsMirrored (choose (connectivity_on s.connectivity) e.type_name s.context e).target
        (choose (overlay_on s.overlay) e.type_name s.context e).target
        (choose (scan_on s.scan) e.type_name s.context e).target
        (record s { context = (scan_run s e).0 })
        (ground (arith, context_mirrors s.scan e.type_name s.context e known, inv.mirrored))

  prompted-after :
      (o : Overlay)
      → s.overlay ≡ o
      → PromptFits o s.scan s.context
      → SoundHere s.scan s.context
      → PromptFits
          (overlay_to o e.type_name s.context e)
          (scan_to s.scan e.type_name s.context e)
          (scan_context s.scan e.type_name s.context e)
  prompted-after closed h p w =
      closed_fits s.scan e.type_name s.context e known inv.mirrored.sc_shown
  prompted-after prompt h p w =
      prompt_stays s.scan e.type_name s.context e known (inv.mirrored.ov_shown ∙ h) p.0 p.1

  after-Inv : IsSent e → Inv (after s e)
  after-Inv sent = record {
    mirrored = after-IsMirrored;
    sound =
        SoundHere-mirrors (scan_to s.scan e.type_name s.context e) (scan_run s e).0
          (after s e).context.conn (after s e).context.ov (after s e).context.sc
          (scan_keeps s.scan e.type_name s.context e known sent.external sent.coded inv.sound);
    prompted =
        PromptFits-mirrors (after s e).overlay (after s e).scan (scan_run s e).0
          (after s e).context.conn (after s e).context.ov (after s e).context.sc
          (prompted-after s.overlay refl inv.prompted inv.sound);
  }

Sound-Return : (q : ScanState) (c : Context) → SoundHere q c → Sound q c
Sound-Return unexpected_event c w = tt
Sound-Return idle c w = w
Sound-Return _ c w = w

Sound-trip :
    (q : ScanState) (s : Snapshot) (e : Event) → Sound q s.context → Sound q (tripped s e).context
Sound-trip idle s e w = w
Sound-trip _ s e w = w

tripped-Inv : (s : Snapshot) (e : Event) → Inv s → Inv (tripped s e)
tripped-Inv s e inv = record {
  mirrored = record { conn_shown = inv.mirrored.conn_shown; ov_shown = refl; sc_shown = refl };
  sound = Sound-trip s.scan s e (Sound-Return s.scan s.context inv.sound);
  prompted = tt;
}

pub dec_event : Discrete EventName
dec_event = hlevel

-- Every event that the page can send, known to the chart or not, keeps the invariant: the mirrors
-- show the regions, a code is in session just in the states that need one, the override is open
-- just as the permission and the campaign allow, and the prompt stands only where it may.
pub send-Inv : (x : Engine) (s : Snapshot) (e : Event) → IsSent e → Inv s → Inv (x.send s e).0
send-Inv x s e sent inv = elim (dec_event e.type_name undeclared) [
  | yes h ↦ rw (send-undeclared x s e inv.mirrored h).0 (tripped-Inv s e inv)
  | no h ↦ rw (send-alphabet x s e h) (after-Inv s e h inv sent)
]

pub initial-Inv : (can_override : Bool) → Inv (initial can_override)
initial-Inv b = record {
  mirrored = record { conn_shown = refl; ov_shown = refl; sc_shown = refl };
  sound = refl;
  prompted = tt;
}
