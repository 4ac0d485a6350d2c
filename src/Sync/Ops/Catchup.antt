-- ===== src/Sync/Ops/Catchup.antt =====
-- sync.js, `wsCatchUp` and the messages of the WebSocket: the clock of Lamport and the page of Ops
-- together. The tab has its clock, whose store takes every `put`. The request `ops/since` is the
-- function `server`, `none` where it fails or gives no array.
pub mod Again
pub mod Latest
pub mod Wire
pub mod Converge
use yumyums_purchase_orders.Common.{
  ℕ, String, Bool, true, false, List, [], ◌∷◌, ◌++◌, Option, none, some, ltb,
}
use yumyums_purchase_orders.Common.Int.{ℤ}
use yumyums_purchase_orders.Common.Sort.{sort_by}
use yumyums_purchase_orders.Json.{Value, Fields}
use yumyums_purchase_orders.Sync.Lamport.{LamportClock, receive}
use yumyums_purchase_orders.Sync.Ops.{Page, Op, Effect}
use yumyums_purchase_orders.Sync.Ops.Apply.{apply_op}

pub record Tab : Type 0 where
  pub clock : LamportClock
  pub page : Page

-- `ops.sort`: whether the comparator puts the first behind the second.
abbrev pub is_later : Op → Op → Bool
is_later a b = ltb b.lamport_ts a.lamport_ts

module _ (date : String → Option ℤ) (is_url : String → Bool) (indexed : Value → Fields) where
  -- One operation: the clock first, then the page.
  unfoldable pub take_op : Bool → Op → Tab → Tab × List Effect
  unfolding apply_op receive
  take_op silent op t =
      let c = receive t.clock op.lamport_ts in
      let (p, calls) = apply_op date is_url indexed (some c.device_id) op silent t.page in
      (record { clock = c; page = p }, calls)

  -- The loop over the operations.
  unfoldable pub take_ops : List Op → Tab → Tab × List Effect
  unfolding take_op
  take_ops [] t = (t, [])
  take_ops (op ∷ ops) t =
      let (next, calls) = take_op true op t in
      let (last, more) = take_ops ops next in (last, calls ++ more)

  unfoldable pub ws_catch_up : (ℕ → Option (List Op)) → Tab → Tab × List Effect
  unfolding take_ops
  ws_catch_up server t = elim (server t.clock.ts) [
    | none ↦ (t, [])
    | some ops ↦ take_ops (sort_by is_later ops) t
  ]

  -- `onmessage`, of a message that parses.
  unfoldable pub on_message : Op → Tab → Tab × List Effect
  unfolding take_op
  on_message op t = take_op false op t
