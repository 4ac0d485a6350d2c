-- ===== src/Machine/Chart.antt =====
-- marketing/submit-machine.js: the three regions of the chart, compiled by the names of Compiler.
mod Compiler
unfoldable pub use Compiler.*
use yumyums_purchase_orders.Common.{
  String, Bool, true, false, not, ◌&&◌, ◌||◌, List, [], ◌∷◌, ◌++◌, Option, none, some, map,
  if◌then◌else◌, text_eq, keep,
}
use yumyums_purchase_orders.Machine.{
  EventName, scan, qr_decoded, resolved, order_ok, submit, override_request, override_confirm,
  override_cancel, dismiss, retry, next_customer, srv_redeemed, srv_already_used, srv_expired,
  srv_not_found, srv_error, conn_down, conn_up, probe_timeout, resubscribed, unexpected,
  scan_events, conn_events, srv_verdicts, override_events, same_event, includes_event, Conn, online,
  offline, stale, Overlay, closed, prompt, ScanState, idle, scanning, resolving, offer_ready,
  ready_to_submit, unknown_code, blocked_offline, override_confirm_state, override_pending,
  submitting, redeemed, already_used, spent_locally, expired_locally, expired, not_found, error,
  unexpected_event, scan_state_names, same_state, interruptible, Kind, offer_ready_kind,
  unknown_code_kind, spent_locally_kind, expired_locally_kind, same_kind, Event, Context, reset_ctx,
  submit_to_server, write_attempt, Action, assign, push, Transition, no_op, goto,
}

abbrev pub is_online : Conn → Bool
is_online online = true
is_online _ = false

abbrev pub is_stale : Conn → Bool
is_stale stale = true
is_stale _ = false

abbrev pub same_code : Option String → Option String → Bool
same_code none none = true
same_code (some a) (some b) = text_eq a b
same_code _ _ = false

abbrev pub in_session : Context → Bool
in_session c = elim c.session_code [ none ↦ false | some code ↦ true ]

abbrev pub is_return : Option ScanState → ScanState → Bool
is_return none n = false
is_return (some s) n = same_state s n

abbrev pub is_kind : Option Kind → Kind → Bool
is_kind none k = false
is_kind (some j) k = same_kind j k

-- The `on` maps of the connectivity region.
unfoldable pub connectivity_on : Conn → Option (OnMap Conn)
unfolding build_on
connectivity_on online =
    build_on ((conn_down, goto offline ∷ []) ∷ (probe_timeout, goto offline ∷ []) ∷ [])
      (conn_up ∷ resubscribed ∷ unexpected ∷ scan_events)
connectivity_on offline =
    build_on ((conn_up, goto stale ∷ []) ∷ [])
      (conn_down ∷ probe_timeout ∷ resubscribed ∷ unexpected ∷ scan_events)
connectivity_on stale =
    build_on
      ((resubscribed, goto online ∷ [])
        ∷ (conn_down, goto offline ∷ [])
        ∷ (probe_timeout, goto offline ∷ [])
        ∷ [])
      (conn_up ∷ unexpected ∷ scan_events)

-- The `on` maps of the overlay region.
unfoldable pub overlay_on : Overlay → Option (OnMap Overlay)
unfolding build_on
overlay_on closed =
    build_on
      ((
        qr_decoded,
        record {
          guard = some (λ c e. in_session c && same_code e.code c.session_code);
          target = none;
          actions = [];
        }
            ∷ record {
              guard = some (λ c e. in_session c && interruptible c.sc);
              target = some prompt;
              actions = [];
            }
            ∷ no_op
            ∷ [],
      )
        ∷ (unexpected, no_op ∷ [])
        ∷ [])
      (keep (λ e. not (same_event e qr_decoded)) scan_events ++ conn_events)
overlay_on prompt =
    build_on
      ((dismiss, goto closed ∷ [])
        ∷ (next_customer, goto closed ∷ [])
        ∷ (
          qr_decoded,
          record {
            guard = some (λ c e. same_code e.code c.session_code);
            target = none;
            actions = [];
          }
              ∷ no_op
              ∷ [],
        )
        ∷ (unexpected, goto closed ∷ [])
        ∷ [])
      (keep (λ e. not (includes_event (dismiss ∷ next_customer ∷ qr_decoded ∷ []) e)) scan_events
        ++ conn_events)

-- `resettable`.
abbrev pub resettable : OnMap ScanState
resettable =
    (
      next_customer,
      record { guard = none; target = some idle; actions = assign (λ c e. reset_ctx c) ∷ [] } ∷ [],
    )
    ∷ []

-- `resolvedKind`.
abbrev pub resolved_kind : Action
resolved_kind =
    assign (λ c e. record c { resolution_kind = some e.kind; requires_online = e.requires_online })

-- `submitOrGate(self)`.
abbrev pub submit_or_gate : ScanState → OnMap ScanState
submit_or_gate self =
    (
      submit,
      record {
        guard = some (λ c e. is_online c.conn);
        target = some submitting;
        actions = push (λ c. submit_to_server) ∷ [];
      }
          ∷ record {
            guard = none;
            target = some blocked_offline;
            actions =
                assign (λ c e. record c {
                  override_available = c.can_override && not c.requires_online;
                  gate_return = some self;
                })
                ∷ [];
          }
          ∷ [],
    )
    ∷ []

-- A RESOLVED candidate: the guard, and the state that the code is shown in.
abbrev pub on_kind : (Context → Event → Bool) → ScanState → Transition ScanState
on_kind g s = record { guard = some g; target = some s; actions = resolved_kind ∷ [] }

-- A candidate without actions.
abbrev pub on_guard : (Context → Event → Bool) → ScanState → Transition ScanState
on_guard g s = record { guard = some g; target = some s; actions = [] }

-- The ignores that most states share: the scans, the submit and the override events, and the events
-- that belong to other regions.
abbrev pub quiet : List EventName
quiet = scan ∷ qr_decoded ∷ resolved ∷ order_ok ∷ submit ∷ override_events

-- The candidates of RETRY in `unexpectedEvent`.
abbrev pub retry_returns : List ScanState → List (Transition ScanState)
retry_returns [] =
    record { guard = none; target = some idle; actions = assign (λ c e. reset_ctx c) ∷ [] } ∷ []
retry_returns (n ∷ ns) = on_guard (λ c e. is_return c.unexpected_return n) n ∷ retry_returns ns

-- A state that only the next customer leaves.
unfoldable pub terminal : ScanState → Option (OnMap ScanState)
unfolding scan_state
terminal name = scan_state name resettable (quiet ++ dismiss ∷ retry ∷ srv_verdicts ++ conn_events)

-- The `on` maps of the scan region.
unfoldable pub scan_on : ScanState → Option (OnMap ScanState)
unfolding scan_state terminal
scan_on idle = scan_state idle ((scan, goto scanning ∷ []) ∷ []) (
    qr_decoded ∷ resolved ∷ order_ok ∷ submit ∷ override_events
    ++ dismiss ∷ retry ∷ next_customer ∷ srv_verdicts
    ++ conn_events)
scan_on scanning =
    scan_state scanning
      ((
        qr_decoded,
        record {
          guard = none;
          target = some resolving;
          actions = assign (λ c e. record c { session_code = e.code }) ∷ [];
        }
            ∷ [],
      )
        ∷ [])
      (scan ∷ resolved ∷ order_ok ∷ submit ∷ override_events
        ++ dismiss ∷ retry ∷ next_customer ∷ srv_verdicts
        ++ conn_events)
scan_on resolving =
    scan_state resolving
      ((
        resolved,
        on_kind (λ c e. same_kind e.kind offer_ready_kind) offer_ready
            ∷ on_kind (λ c e. same_kind e.kind unknown_code_kind) unknown_code
            ∷ on_kind (λ c e. same_kind e.kind spent_locally_kind && is_online c.conn) offer_ready
            ∷ on_kind (λ c e. same_kind e.kind spent_locally_kind) spent_locally
            ∷ on_kind (λ c e. same_kind e.kind expired_locally_kind) expired_locally
            ∷ [],
      )
        ∷ resettable)
      (scan ∷ qr_decoded ∷ order_ok ∷ submit ∷ override_events
        ++ dismiss ∷ retry ∷ srv_verdicts
        ++ conn_events)
scan_on offer_ready = scan_state offer_ready ((order_ok, goto ready_to_submit ∷ []) ∷ resettable) (
    scan ∷ qr_decoded ∷ resolved ∷ submit ∷ override_events
    ++ dismiss ∷ retry ∷ srv_verdicts
    ++ conn_events)
scan_on ready_to_submit =
    scan_state ready_to_submit (submit_or_gate ready_to_submit ++ resettable) (
      scan ∷ qr_decoded ∷ resolved ∷ order_ok ∷ override_events
      ++ dismiss ∷ retry ∷ srv_verdicts
      ++ conn_events)
scan_on unknown_code = scan_state unknown_code (submit_or_gate unknown_code ++ resettable) (
    scan ∷ qr_decoded ∷ resolved ∷ order_ok ∷ override_events
    ++ dismiss ∷ retry ∷ srv_verdicts
    ++ conn_events)
scan_on blocked_offline =
    scan_state blocked_offline
      ((
        override_request,
        record {
          guard = some (λ c e. c.override_available);
          target = some override_confirm_state;
          actions =
              assign (λ c e. record c {
                unverified_warning = is_kind c.resolution_kind unknown_code_kind;
              })
              ∷ [];
        }
            ∷ [],
      )
        ∷ (
          resubscribed,
          on_guard (λ c e. is_stale c.conn && is_return c.gate_return ready_to_submit)
                ready_to_submit
              ∷ on_guard (λ c e. is_stale c.conn && is_return c.gate_return unknown_code)
                  unknown_code
              ∷ [],
        )
        ∷ resettable)
      (scan ∷ qr_decoded ∷ resolved ∷ order_ok ∷ submit ∷ override_confirm ∷ override_cancel
          ∷ dismiss ∷ retry ∷ srv_verdicts
        ++ conn_down ∷ conn_up ∷ probe_timeout ∷ [])
scan_on override_confirm_state =
    scan_state override_confirm_state
      ((
        override_confirm,
        record {
          guard = none;
          target = some override_pending;
          actions =
              push (λ c. write_attempt true (is_kind c.resolution_kind unknown_code_kind)) ∷ [];
        }
            ∷ [],
      )
        ∷ (override_cancel, goto blocked_offline ∷ [])
        ∷ [])
      (scan ∷ qr_decoded ∷ resolved ∷ order_ok ∷ submit ∷ override_request ∷ dismiss ∷ retry
          ∷ next_customer ∷ srv_verdicts
        ++ conn_events)
scan_on override_pending = terminal override_pending
scan_on submitting =
    scan_state submitting
      ((srv_redeemed, goto redeemed ∷ [])
        ∷ (srv_already_used, goto already_used ∷ [])
        ∷ (srv_expired, goto expired ∷ [])
        ∷ (srv_not_found, goto not_found ∷ [])
        ∷ (srv_error, goto error ∷ [])
        ∷ [])
      (quiet ++ dismiss ∷ retry ∷ next_customer ∷ conn_events)
scan_on error =
    scan_state error ((retry, goto ready_to_submit ∷ []) ∷ resettable)
      (quiet ++ dismiss ∷ srv_verdicts ++ conn_events)
scan_on unexpected_event =
    scan_state unexpected_event
      ((retry, retry_returns (keep (λ n. not (same_state n unexpected_event)) scan_state_names))
        ∷ resettable)
      (quiet ++ dismiss ∷ srv_verdicts ++ conn_events ++ unexpected ∷ [])
scan_on name = terminal name
