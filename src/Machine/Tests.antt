-- ===== src/Machine/Tests.antt =====
-- The statechart at work, on an engine that does what the law of Engine says.
use yumyums_purchase_orders.Common.{
  String, ◌≡◌, ◌≢◌, refl, true, false, List, [], ◌∷◌, none, some, any,
}
use yumyums_purchase_orders.Machine.{
  online, offer_ready, ready_to_submit, Context, Conn, offline, Overlay, ScanState,
  override_confirm_state, EventName, unexpected, same_event, scan, qr_decoded, resolved, order_ok,
  submit, override_request, override_confirm, retry, srv_redeemed, probe_timeout, undeclared,
  offer_ready_kind, unknown_code_kind, unmapped, Kind, Event, closed, prompt, submitting,
  submit_to_server, write_attempt,
}
use yumyums_purchase_orders.Machine.Engine.{initial_context, Snapshot, Engine, macrostep, initial}
use yumyums_purchase_orders.Machine.Strict.{send-never_trips}
use yumyums_purchase_orders.Machine.Trip.{at, IsMirrored}
use yumyums_purchase_orders.Machine.Beneath.{send-beneath_prompt}
use yumyums_purchase_orders.Machine.Runs.{Inv, IsSent, send-Inv, initial-Inv}
use yumyums_purchase_orders.Machine.Override.{run, is_write, AllSent, run-needs_permission}
use yumyums_purchase_orders.Machine.Flight.{run-loses_verdict}

abbrev interpreter : Engine
interpreter = record { send = macrostep; send_lem = λ s e. refl }

abbrev plain : EventName → Event
plain n = record { type_name = n; code = none; kind = unmapped; requires_online = false }

abbrev decode : String → Event
decode c = record {
  type_name = qr_decoded;
  code = some c;
  kind = unmapped;
  requires_online = false;
}

abbrev resolve_as : Kind → Event
resolve_as k = record { type_name = resolved; code = none; kind = k; requires_online = false }

-- A customer's code, decoded and resolved while online.
abbrev offered : List Event
offered = plain scan ∷ decode "a1" ∷ resolve_as offer_ready_kind ∷ []

abbrev in_flight : List Event
in_flight =
    plain scan ∷ decode "a1" ∷ resolve_as offer_ready_kind ∷ plain order_ok ∷ plain submit ∷ []

-- The same customer, offline, with the override asked for.
abbrev overriding : List Event
overriding =
    plain scan
    ∷ decode "a1"
    ∷ resolve_as unknown_code_kind
    ∷ plain probe_timeout
    ∷ plain submit
    ∷ plain override_request
    ∷ []

-- A session whose offer is shown, one that awaits the server, and one behind the gate.
abbrev session : Context
session = record (initial_context true) {
  session_code = some "a1";
  resolution_kind = some offer_ready_kind;
}

abbrev offered_at : Snapshot
offered_at = at online closed offer_ready session

abbrev armed_at : Snapshot
armed_at = at online closed ready_to_submit session

abbrev flying_at : Snapshot
flying_at = at online closed submitting session

abbrev prompted_at : Snapshot
prompted_at = at online prompt offer_ready session

abbrev confirming_at : Snapshot
confirming_at =
    at offline closed override_confirm_state
      (record session { override_available = true; gate_return = some ready_to_submit })

at-IsMirrored : (r : Conn) (o : Overlay) (q : ScanState) (c : Context) → IsMirrored (at r o q c)
at-IsMirrored r o q c = record { conn_shown = refl; ov_shown = refl; sc_shown = refl }

offered_is_reached : (run interpreter (initial true) offered).0 ≡ offered_at
unfolding run macrostep
offered_is_reached = refl

in_flight_submits : (run interpreter (initial false) in_flight).1 ≡ submit_to_server ∷ []
unfolding run macrostep
in_flight_submits = refl

override_writes :
    (run interpreter (initial true) (
      plain scan
      ∷ decode "a1"
      ∷ resolve_as unknown_code_kind
      ∷ plain probe_timeout
      ∷ plain submit
      ∷ plain override_request
      ∷ plain override_confirm
      ∷ [])).1
    ≡ write_attempt true true ∷ []
unfolding run macrostep
override_writes = refl

send-never_trips_example :
    ((interpreter.send offered_at (plain order_ok)).1.trips ≡ [])
    × ((interpreter.send offered_at (plain order_ok)).1.raised ≡ 0)
send-never_trips_example = send-never_trips interpreter offered_at (plain order_ok) (λ h. cc)

send-beneath_prompt_example :
    let s' = (interpreter.send prompted_at (plain order_ok)).0 in
    (s'.scan ≡ prompted_at.scan)
    × (s'.context ≡ record (prompted_at.context) { conn = s'.connectivity; ov = s'.overlay })
    × ((interpreter.send prompted_at (plain order_ok)).1.effects ≡ [])
send-beneath_prompt_example =
    send-beneath_prompt interpreter prompted_at (plain order_ok)
      (at-IsMirrored online prompt offer_ready session) refl refl

plain-IsSent : (n : EventName) → n ≢ unexpected → same_event n qr_decoded ≡ false → IsSent (plain n)
plain-IsSent n h k = record { external = h; coded = rw k }

send-Inv_example : Inv (interpreter.send (initial true) (plain scan)).0
send-Inv_example =
    send-Inv interpreter (initial true) (plain scan) (plain-IsSent scan (λ h. cc) refl)
      (initial-Inv true)

overriding_sent : AllSent overriding
overriding_sent = (
  plain-IsSent scan (λ h. cc) refl,
  (
    record { external = λ h. cc; coded = refl },
    (
      record { external = λ h. cc; coded = refl },
      (
        plain-IsSent probe_timeout (λ h. cc) refl,
        (plain-IsSent submit (λ h. cc) refl, (plain-IsSent override_request (λ h. cc) refl, tt)),
      ),
    ),
  ),
)

run-needs_permission_example : any is_write (run interpreter (initial false) overriding).1 ≡ false
run-needs_permission_example = run-needs_permission interpreter overriding overriding_sent

confirming_Inv : Inv confirming_at
confirming_Inv = record {
  mirrored = record { conn_shown = refl; ov_shown = refl; sc_shown = refl };
  sound = (refl, refl, refl, refl);
  prompted = tt;
}

run-loses_verdict_example :
    let (s', effects) =
      run interpreter flying_at (plain undeclared ∷ plain srv_redeemed ∷ plain retry ∷ []) in
    (s'.scan ≡ submitting) × (effects ≡ [])
run-loses_verdict_example =
    run-loses_verdict interpreter flying_at (plain undeclared) (plain srv_redeemed) (plain retry)
      (at-IsMirrored online closed submitting session) refl refl refl refl
