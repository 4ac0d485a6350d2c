-- ===== src/Machine.antt =====
-- marketing/submit-machine.js: the alphabet, the states, the context and the transitions of the
-- scanner statechart. Machine/Chart.antt holds the chart itself, Machine/Engine.antt how it is run.
pub mod Chart
pub mod Engine
pub mod Strict
pub mod Effects
pub mod Trip
pub mod Session
pub mod Prompt
pub mod Beneath
pub mod Runs
pub mod Override
pub mod Flight
pub mod Held
mod Tests
use yumyums_purchase_orders.Common.{
  ℕ, String, Bool, true, false, ◌||◌, List, [], ◌∷◌, ◌++◌, Option, none, some, ◌==◌,
}

-- The alphabet, the internal `UNEXPECTED`, and `undeclared` for a type outside both.
pub data EventName : Type 0 where
  scan qr_decoded resolved order_ok submit : EventName
  override_request override_confirm override_cancel : EventName
  dismiss retry next_customer : EventName
  srv_redeemed srv_already_used srv_expired srv_not_found srv_error : EventName
  conn_down conn_up probe_timeout resubscribed : EventName
  unexpected undeclared : EventName

abbrev pub scan_events : List EventName
scan_events =
    scan ∷ qr_decoded ∷ resolved ∷ order_ok ∷ submit ∷ override_request ∷ override_confirm
    ∷ override_cancel ∷ dismiss ∷ retry ∷ next_customer ∷ srv_redeemed ∷ srv_already_used
    ∷ srv_expired ∷ srv_not_found ∷ srv_error ∷ []

abbrev pub conn_events : List EventName
conn_events = conn_down ∷ conn_up ∷ probe_timeout ∷ resubscribed ∷ []

abbrev pub event_alphabet : List EventName
event_alphabet = scan_events ++ conn_events

abbrev pub srv_verdicts : List EventName
srv_verdicts = srv_redeemed ∷ srv_already_used ∷ srv_expired ∷ srv_not_found ∷ srv_error ∷ []

abbrev pub override_events : List EventName
override_events = override_request ∷ override_confirm ∷ override_cancel ∷ []

-- Names are compared as the strings they stand for: one number for each.
abbrev pub event_id : EventName → ℕ
event_id scan = 0
event_id qr_decoded = 1
event_id resolved = 2
event_id order_ok = 3
event_id submit = 4
event_id override_request = 5
event_id override_confirm = 6
event_id override_cancel = 7
event_id dismiss = 8
event_id retry = 9
event_id next_customer = 10
event_id srv_redeemed = 11
event_id srv_already_used = 12
event_id srv_expired = 13
event_id srv_not_found = 14
event_id srv_error = 15
event_id conn_down = 16
event_id conn_up = 17
event_id probe_timeout = 18
event_id resubscribed = 19
event_id unexpected = 20
event_id undeclared = 21

abbrev pub same_event : EventName → EventName → Bool
same_event a b = event_id a == event_id b

abbrev pub includes_event : List EventName → EventName → Bool
includes_event [] e = false
includes_event (x ∷ xs) e = same_event x e || includes_event xs e

pub data Conn : Type 0 where
  online offline stale : Conn

pub data Overlay : Type 0 where
  closed prompt : Overlay

pub data ScanState : Type 0 where
  idle scanning resolving offer_ready ready_to_submit unknown_code : ScanState
  blocked_offline override_confirm_state override_pending submitting : ScanState
  redeemed already_used spent_locally expired_locally expired not_found error : ScanState
  unexpected_event : ScanState

abbrev pub scan_state_names : List ScanState
scan_state_names =
    idle ∷ scanning ∷ resolving ∷ offer_ready ∷ ready_to_submit ∷ unknown_code ∷ blocked_offline
    ∷ override_confirm_state ∷ override_pending ∷ submitting ∷ redeemed ∷ already_used
    ∷ spent_locally ∷ expired_locally ∷ expired ∷ not_found ∷ error ∷ unexpected_event ∷ []

abbrev pub scan_id : ScanState → ℕ
scan_id idle = 0
scan_id scanning = 1
scan_id resolving = 2
scan_id offer_ready = 3
scan_id ready_to_submit = 4
scan_id unknown_code = 5
scan_id blocked_offline = 6
scan_id override_confirm_state = 7
scan_id override_pending = 8
scan_id submitting = 9
scan_id redeemed = 10
scan_id already_used = 11
scan_id spent_locally = 12
scan_id expired_locally = 13
scan_id expired = 14
scan_id not_found = 15
scan_id error = 16
scan_id unexpected_event = 17

abbrev pub same_state : ScanState → ScanState → Bool
same_state a b = scan_id a == scan_id b

-- The states that a different code may interrupt with the finish-first prompt.
abbrev pub interruptible : ScanState → Bool
interruptible idle = false
interruptible scanning = false
interruptible override_confirm_state = false
interruptible submitting = false
interruptible _ = true

-- `kind` of a RESOLVED event; `unmapped` is any other.
pub data Kind : Type 0 where
  offer_ready_kind unknown_code_kind spent_locally_kind expired_locally_kind unmapped : Kind

abbrev pub same_kind : Kind → Kind → Bool
same_kind offer_ready_kind offer_ready_kind = true
same_kind unknown_code_kind unknown_code_kind = true
same_kind spent_locally_kind spent_locally_kind = true
same_kind expired_locally_kind expired_locally_kind = true
same_kind unmapped unmapped = true
same_kind _ _ = false

-- What `send(type, payload)` builds: `code` comes with QR_DECODED, `kind` and `requiresOnline` with
-- RESOLVED.
pub record Event : Type 0 where
  pub type_name : EventName
  pub code : Option String
  pub kind : Kind
  pub requires_online : Bool

pub record TripInfo : Type 0 where
  pub event : EventName
  pub at_scan : ScanState
  pub at_conn : Conn
  pub at_overlay : Overlay

pub record Context : Type 0 where
  pub can_override : Bool
  pub conn : Conn
  pub ov : Overlay
  pub sc : ScanState
  pub session_code : Option String
  pub resolution_kind : Option Kind
  pub requires_online : Bool
  pub override_available : Bool
  pub unverified_warning : Bool
  pub gate_return : Option ScanState
  pub unexpected_info : Option TripInfo
  pub unexpected_return : Option ScanState

-- `assign(RESET_CTX)`.
abbrev pub reset_ctx : Context → Context
reset_ctx c = record c {
  session_code = none;
  resolution_kind = none;
  requires_online = false;
  override_available = false;
  unverified_warning = false;
  gate_return = none;
  unexpected_info = none;
  unexpected_return = none;
}

pub data Effect : Type 0 where
  submit_to_server : Effect
  -- `offline_override` and `unverified_code`
  write_attempt : Bool → Bool → Effect

-- `actions`: an `assign`, an effect pushed to the sink, `onTrip`, and `raise(UNEXPECTED)`.
pub data Action : Type 0 where
  assign : (Context → Event → Context) → Action
  push : (Context → Effect) → Action
  on_trip : Action
  raise_unexpected : Action

-- A transition object: `{ guard?, target?, actions? }`. A state target is `some`.
pub record Transition (S : Type 0) : Type 0 where
  pub guard : Option (Context → Event → Bool)
  pub target : Option S
  pub actions : List Action

-- `{}`, the declared no-op.
abbrev pub no_op : {S : Type 0} → Transition S
no_op = record { guard = none; target = none; actions = [] }

-- A transition written as its target alone.
abbrev pub goto : {S : Type 0} → S → Transition S
goto s = record { guard = none; target = some s; actions = [] }
