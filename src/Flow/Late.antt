-- ===== src/Flow/Late.antt =====
-- marketing/submit-flow.js, `onResult`: which session a result is taken for.
use yumyums_purchase_orders.Common.{
  ◌≡◌, refl, sym, ap, ◌∙◌, String, true, List, Option, none, some, arith,
}
use mathlib.Core.Path.{subst}
use yumyums_purchase_orders.Machine.{
  closed, resolving, resolved, unknown_code as unknown_state, unknown_code_kind, same_state, Event,
  Context, event_id,
}
use yumyums_purchase_orders.Machine.Chart.{scan_on, overlay_closed}
use yumyums_purchase_orders.Machine.Engine.{Engine}
use yumyums_purchase_orders.Machine.Strict.{after, send-alphabet, scan_run}
use yumyums_purchase_orders.Machine.Session.{scan_to, scan_context}
use yumyums_purchase_orders.Machine.Runs.{Inv, send-Inv}
use yumyums_purchase_orders.Scan.{Code, unknown_code}
use yumyums_purchase_orders.Flow.{
  PolicySource, Page, Session, plain, stash, stashed, finish_result, on_result, clear_session,
}
use yumyums_purchase_orders.Flow.Orders.{send-quiet}
use yumyums_purchase_orders.Flow.Sealed.{updated-machine}

unknown_taken :
    (c : Context) (e : Event)
    → overlay_closed c.ov ≡ true
    → e.kind ≡ unknown_code_kind
    → (scan_to resolving resolved c e ≡ unknown_state)
      × ((scan_context resolving resolved c e).session_code ≡ c.session_code)
unfolding scan_on
unknown_taken c e o k = ground (arith, o, k)

abbrev pub token_of : Option Session → Option String
token_of none = none
token_of (some s) = some s.token_hash

-- A result is taken for the session that is open, whichever code that session is of: a page that is
-- resolving, with no prompt open, goes on with an unknown code's result under its own session
-- code, while the token that it will submit is the result's.
pub on_result-session :
    (x : Engine) (policy : Option PolicySource) (found : Option (List Code)) (h : String) (p : Page)
    → Inv p.machine
    → p.machine.scan ≡ resolving
    → p.machine.overlay ≡ closed
    → let taken = (on_result x policy found (unknown_code h) p).0 in
      (taken.machine.scan ≡ unknown_state)
      × (taken.machine.context.session_code ≡ p.machine.context.session_code)
      × (token_of taken.submit_ctx ≡ some h)
unfolding on_result finish_result stashed
on_result-session x policy found h p i q c =
    let e : Event = record (plain resolved) { kind = unknown_code_kind } in
    let begun : Page = record (clear_session p) { submit_ctx = some (stash policy h) } in
    let m = (x.send p.machine e).0 in
    let here : same_state p.machine.context.sc resolving ≡ true =
      ap (λ t. same_state t resolving) (i.mirrored.sc_shown ∙ q) in
    let sent = send-quiet x e begun refl in
    let open_overlay : overlay_closed p.machine.context.ov ≡ true =
      ap overlay_closed (i.mirrored.ov_shown ∙ c) in
    let step : x.send p.machine e ≡ (after p.machine e, (scan_run p.machine e).1) =
      send-alphabet x p.machine e (λ u. ground (arith, ap event_id u)) in
    let taken = unknown_taken p.machine.context e open_overlay refl in
    let scan : m.scan ≡ unknown_state =
      ap (λ r. r.0.scan) step
      ∙ subst (λ r. scan_to r resolved p.machine.context e ≡ unknown_state) (sym q) taken.0 in
    let code : m.context.session_code ≡ p.machine.context.session_code =
      ap (λ r. r.0.context.session_code) step
      ∙ subst
          (λ r.
            (scan_context r resolved p.machine.context e).session_code
            ≡ p.machine.context.session_code)
          (sym q) taken.1 in
    let shown : m.context.sc ≡ unknown_state =
      (send-Inv x p.machine e
        (record { external = λ u. ground (arith, ap event_id u); coded = refl })
        i).mirrored.sc_shown
      ∙ scan in
    let same = updated-machine m begun in
    rw (here) (
      subst
        (λ r.
          (r.0.machine.scan ≡ unknown_state)
          × (r.0.machine.context.session_code ≡ p.machine.context.session_code)
          × (token_of r.0.submit_ctx ≡ some h))
        (sym sent)
        (
          ap (λ t. t.scan) same ∙ scan,
          ap (λ t. t.context.session_code) same ∙ code,
          ground (arith, shown),
        ))
