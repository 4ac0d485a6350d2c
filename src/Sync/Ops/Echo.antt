-- ===== src/Sync/Ops/Echo.antt =====
-- sync.js, `submitOp`: what a tab posts, and its own operation when the server sends it back.
use yumyums_purchase_orders.Common.{
  ℕ, ◌+◌, String, ◌≡◌, refl, sym, ap, ◌∙◌, Bool, true, false, List, [], ◌∷◌, Option, none, some,
  if◌then◌else◌, text_eq, eq_refl,
}
use yumyums_purchase_orders.Common.Int.{ℤ}
use yumyums_purchase_orders.Json.{Value, Fields}
use yumyums_purchase_orders.Sync.Lamport.{
  LamportClock, tick, receive, ClockEvent, local, remote, step, steps,
}
use yumyums_purchase_orders.Sync.Ops.{Page, Op}
use yumyums_purchase_orders.Sync.Ops.Apply.{apply_op, apply_body}
use yumyums_purchase_orders.Sync.Ops.Catchup.{Tab, take_op, on_message}

-- The body of the request `POST ops`.
pub record Posted : Type 0 where
  pub op_type : String
  pub entity_id : String
  pub entity_type : String
  pub payload : Value
  pub lamport_ts : ℕ
  pub device_id : String

-- A tick whose `put` may fail: the time has moved on all the same, and `submitOp` goes on with 0.
unfoldable pub try_tick : Bool → LamportClock → LamportClock × ℕ
unfolding tick
try_tick true c = tick c
try_tick false c = (record c { ts = c.ts + 1 }, 0)

abbrev or_text : String → String → String
or_text a b = if text_eq a "" then b else a

-- `submitOp`, up to its request: `fallback` is `_fallbackDeviceId`, `stored` whether the put succeeds.
unfoldable pub submit_op :
    String
    → Bool
    → Option LamportClock
    → String
    → String
    → String
    → Value
    → Option LamportClock × Posted
unfolding try_tick
submit_op fallback stored none op_type entity_id entity_type payload = (
  none,
  record {
    op_type = op_type;
    entity_id = entity_id;
    entity_type = entity_type;
    payload = payload;
    lamport_ts = 0;
    device_id = fallback;
  },
)
submit_op fallback stored (some c) op_type entity_id entity_type payload =
    let (next, ts) = try_tick stored c in
    (
      some next,
      record {
        op_type = op_type;
        entity_id = entity_id;
        entity_type = entity_type;
        payload = payload;
        lamport_ts = ts;
        device_id = or_text next.device_id fallback;
      },
    )

step-device : (c : LamportClock) (e : ClockEvent) → (step c e).device_id ≡ c.device_id
unfolding tick receive
step-device c local = refl
step-device c (remote r) = refl

steps-device : (c : LamportClock) (es : List ClockEvent) → (steps c es).device_id ≡ c.device_id
steps-device c [] = refl
steps-device c (e ∷ es) = steps-device (step c e) es ∙ step-device c e

try_tick-device : (stored : Bool) (c : LamportClock) → (try_tick stored c).0.device_id ≡ c.device_id
unfolding try_tick tick
try_tick-device true c = refl
try_tick-device false c = refl

module _ (date : String → Option ℤ) (is_url : String → Bool) (indexed : Value → Fields) where
  apply_op-own :
      (id : String) (op : Op) (silent : Bool) (p : Page)
      → op.device_id ≡ id
      → apply_op date is_url indexed (some id) op silent p ≡ (p, [])
  unfolding apply_op
  apply_op-own id op silent p e =
      ap (λ b. if b then (p, []) else apply_body date is_url indexed op op.body silent p)
        (ap (λ d. text_eq d id) e ∙ eq_refl id)

  -- A tab's own operation, known by the device id that `submitOp` posted, does nothing when it comes back
  -- over the socket, even where the clock's store refused the stamp, and after any further events of the
  -- clock: the page is as it was and nothing is drawn, toasted or fetched. The tab has a clock whose id
  -- is not empty.
  pub on_message-echo :
      (fallback : String) (stored : Bool) (c : LamportClock)
      (op_type entity_id entity_type : String) (payload : Value) (events : List ClockEvent)
      (next : LamportClock) (op : Op) (p : Page)
      → let sent = submit_op fallback stored (some c) op_type entity_id entity_type payload in
        text_eq c.device_id "" ≡ false
        → sent.0 ≡ some next
        → op.device_id ≡ sent.1.device_id
        → let t : Tab = record { clock = steps next events; page = p } in
          ((on_message date is_url indexed op t).0.page ≡ p)
          × ((on_message date is_url indexed op t).1 ≡ [])
  unfolding submit_op on_message take_op receive
  on_message-echo fallback stored c op_type entity_id entity_type payload events next op p named
        sent back =
      let same : next.device_id ≡ c.device_id =
        ap (λ o. elim o [ none ↦ c.device_id | some x ↦ x.device_id ]) (sym sent)
        ∙ try_tick-device stored c in
      let posted : op.device_id ≡ c.device_id =
        back
        ∙ (ap (λ d. or_text d fallback) (try_tick-device stored c)
            ∙ ap (λ b. if b then fallback else c.device_id) named) in
      let own : op.device_id ≡ (steps next events).device_id =
        posted ∙ sym (steps-device next events ∙ same) in
      let quiet = apply_op-own (steps next events).device_id op false p own in
      (ap (λ r. r.0) quiet, ap (λ r. r.1) quiet)
