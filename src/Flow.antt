-- ===== src/Flow.antt =====
-- marketing/submit-flow.js, the page between the scanner and the statechart: the session, the order
-- number, the campaign policy, and what is sent and written. A handler gives the page after it and
-- what it sends out; an effect of the statechart is handled when its event is. A stamp of the
-- time, the device's id and the markup are left out; `trim` is a parameter.
pub mod Steps
pub mod Orders
pub mod Sealed
pub mod Required
pub mod Campaign
pub mod Late
mod Tests
use yumyums_purchase_orders.Common.{
  ℕ, suc, String, Bool, true, false, not, ◌&&◌, List, [], ◌∷◌, ◌++◌, Option, none, some, leb,
  if◌then◌else◌, text_eq,
}
use yumyums_purchase_orders.Scope.{all_codes, is_digit}
use yumyums_purchase_orders.Machine.{
  EventName, scan, qr_decoded, resolved, order_ok, submit, override_request, override_confirm,
  override_cancel, dismiss, retry, next_customer, srv_redeemed, srv_already_used, srv_expired,
  srv_not_found, srv_error, conn_up, probe_timeout, resubscribed, Conn, online, offline, stale,
  ScanState, idle, resolving, offer_ready, same_state, Kind, offer_ready_kind, unknown_code_kind,
  spent_locally_kind, expired_locally_kind, unmapped, Event, Effect, submit_to_server,
  write_attempt,
}
use yumyums_purchase_orders.Machine.Chart.{same_code, in_session}
use yumyums_purchase_orders.Machine.Engine.{Snapshot, Engine}
use yumyums_purchase_orders.Scan.{
  Code, Embedded, Offer, Result, invalid_payload, offer_ready as offers_found, spent_locally,
  defer_to_server, expired_locally, embedded_offer, unknown_code, or_null,
}
use yumyums_purchase_orders.Scan.Policy.{Policy}

-- What a call of the policy source gives, which may throw.
pub data Answered (A : Type 0) : Type 0 where
  answered : A → Answered A
  threw : Answered A

-- CAMPAIGN_POLICY and CAMPAIGN_POLICY_UNRESOLVED.
pub record PolicySource : Type 0 where
  pub policy_of : Option String → Answered (Option Policy)
  pub source_unresolved : Answered Bool

-- `policyFor`.
unfoldable pub policy_for : Option PolicySource → Option String → Bool
policy_for none campaign = false
policy_for (some source) campaign = elim (source.policy_of campaign) [
  | threw ↦ false
  | answered none ↦ false
  | answered (some p) ↦ p.requires_online
]

-- `policyUnresolvedFor`.
abbrev pub policy_unresolved_for : Option PolicySource → Option String → Bool
policy_unresolved_for none campaign = true
policy_unresolved_for (some source) none = elim source.source_unresolved [
  | threw ↦ true
  | answered b ↦ b
]
policy_unresolved_for (some source) (some campaign) =
    if text_eq campaign ""
    then elim source.source_unresolved [ threw ↦ true | answered b ↦ b ]
    else elim (source.policy_of (some campaign)) [
      | threw ↦ true
      | answered none ↦ true
      | answered (some p) ↦ p.unresolved
    ]

pub record Winner : Type 0 where
  pub redeemed_at : Option String
  pub redeemed_by : Option String

-- SUBMIT_CTX, but for the kind that is drawn.
pub record Session : Type 0 where
  pub token_hash : String
  pub code_id : Option String
  pub value : Option ℕ
  pub winner : Option Winner
  pub policy_unresolved : Bool

-- ORDER_STATE.
pub record Order : Type 0 where
  pub raw : String
  pub ok : Bool
  pub value : String

pub data SubmitError : Type 0 where
  no_session timed_out network_failure : SubmitError
  reported : Option String → SubmitError
  http_error : ℕ → Option String → SubmitError

pub record Page : Type 0 where
  pub machine : Snapshot
  pub last_sc : ScanState
  pub submit_ctx : Option Session
  pub order : Order
  pub winner : Option Winner
  pub submit_error : Option SubmitError
  pub override_write_error : Option String

-- The body of the redeem request, and the row of an offline override.
pub record Body : Type 0 where
  pub token_hash : String
  pub order_number : Option String
  pub value : Option ℕ

pub record Row : Type 0 where
  pub code_id : String
  pub unverified_code : Bool
  pub policy_unresolved : Bool
  pub pos_order_number : Option String
  pub redeemed_value : Option ℕ

pub data Output : Type 0 where
  redeem_request : Body → Output
  attempt_row : Row → Output

abbrev pub no_order : Order
no_order = record { raw = ""; ok = false; value = "" }

-- `clearSession`.
abbrev pub clear_session : Page → Page
clear_session p = record p {
  submit_ctx = none;
  order = no_order;
  winner = none;
  submit_error = none;
  override_write_error = none;
}

-- The listener on the machine's changes.
abbrev pub on_change : Page → Page
on_change p =
    let sc = p.machine.context.sc in
    let cleared = clear_session p in
    record (if same_state sc idle && not (same_state p.last_sc idle) then cleared else p) {
      last_sc = sc;
    }

abbrev pub updated : Snapshot → Page → Page
updated s p = on_change (record p { machine = s })

-- `value || null`.
abbrev pub given : String → Option String
given t = if text_eq t "" then none else some t

abbrev pub body_of : Session → Order → Body
body_of c o = record { token_hash = c.token_hash; order_number = given o.value; value = c.value }

-- `code_id || token_hash`.
abbrev pub row_of : Session → Order → Bool → Row
row_of c o unverified = record {
  code_id = elim (or_null c.code_id) [ none ↦ c.token_hash | some id ↦ id ];
  unverified_code = unverified;
  policy_unresolved = c.policy_unresolved;
  pos_order_number = given o.value;
  redeemed_value = c.value;
}

-- `machine.send(type)` without a payload.
abbrev pub plain : EventName → Event
plain n = record { type_name = n; code = none; kind = unmapped; requires_online = false }

abbrev pub seq : Page × List Output → (Page → Page × List Output) → Page × List Output
seq (p, out) f = let (q, more) = f p in (q, out ++ more)

-- The stash, the kind and `requiresOnline` that a result gives; `find` is the codes replica's rows of
-- the token, when it can be read.
abbrev pub stash : Option PolicySource → String → Session
stash policy h = record {
  token_hash = h;
  code_id = none;
  value = none;
  winner = none;
  policy_unresolved = policy_unresolved_for policy none;
}

abbrev pub stash_used :
    Option PolicySource
    → String
    → Option String
    → Option String
    → Option (List Code)
    → Session × Bool
stash_used policy h at by (some (d ∷ ds)) = (
  record (stash policy h) {
    winner = some (record { redeemed_at = at; redeemed_by = by });
    code_id = some d.id;
    policy_unresolved = policy_unresolved_for policy (or_null d.campaign_id);
  },
  policy_for policy (or_null d.campaign_id),
)
stash_used policy h at by _ = (
  record (stash policy h) { winner = some (record { redeemed_at = at; redeemed_by = by }) },
  false,
)

unfoldable pub stashed :
    Option PolicySource → Option (List Code) → Result ℕ → Option (Session × Kind × Bool)
stashed policy found invalid_payload = none
stashed policy found (offers_found h []) = none
stashed policy found (offers_found h (o ∷ os)) = some (
  record (stash policy h) {
    code_id = some o.code_id;
    policy_unresolved = policy_unresolved_for policy (or_null o.campaign_id);
  },
  offer_ready_kind,
  policy_for policy (or_null o.campaign_id),
)
stashed policy found (defer_to_server h at by o) =
    let (s, required) = stash_used policy h at by found in some (s, spent_locally_kind, required)
stashed policy found (spent_locally h at by) =
    let (s, required) = stash_used policy h at by found in some (s, spent_locally_kind, required)
stashed policy found (embedded_offer h o expired) =
    some (record (stash policy h) { value = o.face_value }, unknown_code_kind, false)
stashed policy found (unknown_code h) = some (stash policy h, unknown_code_kind, false)
stashed policy found (expired_locally h at) = some (stash policy h, expired_locally_kind, false)

module _ (x : Engine) where
  -- The beginning of `doOnlineSubmit`, and `doOverrideWrite`, by the session.
  abbrev pub do_online_submit : Option Session → Page → Page × List Output
  do_online_submit none p = (
    updated (x.send p.machine (plain srv_error)).0 (record p { submit_error = some no_session }),
    [],
  )
  do_online_submit (some c) p = (p, redeem_request (body_of c p.order) ∷ [])

  abbrev pub do_override_write : Bool → Option Session → Page → Page × List Output
  do_override_write unverified none p = (p, [])
  do_override_write unverified (some c) p = (p, attempt_row (row_of c p.order unverified) ∷ [])

  -- `handleEffect`.
  abbrev pub handle_effect : Effect → Page → Page × List Output
  handle_effect submit_to_server p = do_online_submit p.submit_ctx p
  handle_effect (write_attempt o unverified) p = do_override_write unverified p.submit_ctx p

  abbrev pub handle_effects : List Effect → Page → Page × List Output
  handle_effects [] p = (p, [])
  handle_effects (e ∷ es) p = seq (handle_effect e p) (handle_effects es)

  -- `machine.send`, with the listener and the effects.
  unfoldable pub send : Event → Page → Page × List Output
  send e p = let (s, l) = x.send p.machine e in handle_effects l.effects (updated s p)

  -- `gate`, of the token's hash: whether the scan goes on to be resolved.
  abbrev pub gate : Option String → Page → Page × List Output
  gate none p = (p, [])
  gate (some h) p =
      let scanned = send (plain scan) p in
      let decoded = record (plain qr_decoded) { code = some h } in
      seq (if same_state p.machine.context.sc idle then scanned else (p, [])) (send decoded)

  abbrev pub proceeds : Option String → Page → Bool
  proceeds none p = not (in_session p.machine.context)
  proceeds (some h) p =
      let after = (gate (some h) p).0.machine.context in
      same_state after.sc resolving && same_code after.session_code (some h)

  -- The end of `onResult`, which in the two used cases comes after a wait for the replica.
  unfoldable pub finish_result :
      Option PolicySource → Option (List Code) → Result ℕ → Page → Page × List Output
  finish_result policy found r p = elim (stashed policy found r) [
    | none ↦ (p, [])
    | some (s, kind, required) ↦
        send (record (plain resolved) { kind = kind; requires_online = required })
          (record (clear_session p) { submit_ctx = some s })
  ]

  -- `onResult`: only while the machine is resolving.
  unfoldable pub on_result :
      Option PolicySource → Option (List Code) → Result ℕ → Page → Page × List Output
  on_result policy found r p =
      let finished = finish_result policy found r p in
      if same_state p.machine.context.sc resolving then finished else (p, [])
