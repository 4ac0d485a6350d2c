-- ===== src/Sync/Ops/Catchup/Again.antt =====
-- The clock and the answers of the server: what a catch-up asks for, and what it does not.
use yumyums_purchase_orders.Common.{
  ℕ, ◌≤◌, String, ◌≡◌, refl, sym, ap, ◌∙◌, Bool, true, List, [], ◌∷◌, ◌++◌, Option, some, arith,
  ltb, leb, keep, all,
}
use yumyums_purchase_orders.Common.Int.{ℤ}
use yumyums_purchase_orders.Common.Sort.{sort_by, all-sort_by}
use yumyums_purchase_orders.Json.{Value, Fields}
use yumyums_purchase_orders.Sync.Lamport.{LamportClock, receive, ClockEvent, steps, steps-le}
use yumyums_purchase_orders.Sync.Ops.{Page, Op}
use yumyums_purchase_orders.Sync.Ops.Catchup.{Tab, is_later, take_op, take_ops, ws_catch_up}

-- What the server's journal gives for a stamp: the operations above it.
abbrev pub since : List Op → ℕ → List Op
since journal ts = keep (λ op. ltb ts op.lamport_ts) journal

since-none :
    (journal : List Op) (a b : ℕ)
    → a ≤ b
    → all (λ op. leb op.lamport_ts b) (since journal a) ≡ true
    → since journal b ≡ []
since-none [] a b le h = refl
since-none (op ∷ journal) a b le h = ground (arith, le, h, since-none journal a b le)

since-append :
    (xs ys : List Op) (op : Op) (ts : ℕ)
    → op.lamport_ts ≤ ts
    → since (xs ++ op ∷ ys) ts ≡ since (xs ++ ys) ts
since-append [] ys op ts le = ground (arith, le)
since-append (x ∷ xs) ys op ts le = ground (arith, le, since-append xs ys op ts le)

module _ (date : String → Option ℤ) (is_url : String → Bool) (indexed : Value → Fields) where
  take_op-clock :
      (silent : Bool) (op : Op) (t : Tab)
      → (t.clock.ts ≤ (take_op date is_url indexed silent op t).0.clock.ts)
        × (op.lamport_ts ≤ (take_op date is_url indexed silent op t).0.clock.ts)
  unfolding take_op receive
  take_op-clock silent op t = (omega arith, omega arith)

  -- After the loop the clock is above what it was and above every stamp.
  pub take_ops-clock :
      (ops : List Op) (t : Tab)
      → let c = (take_ops date is_url indexed ops t).0.clock in
        (t.clock.ts ≤ c.ts) × (all (λ op. leb op.lamport_ts c.ts) ops ≡ true)
  unfolding take_ops
  take_ops-clock [] t = (omega arith, refl)
  take_ops-clock (op ∷ ops) t =
      let (first, stamp) = take_op-clock true op t in
      let (rest, stamps) = take_ops-clock ops (take_op date is_url indexed true op t).0 in
      (omega (arith, first, rest), ground (arith, stamp, rest, stamps))

  take_ops-none : (t : Tab) → take_ops date is_url indexed [] t ≡ (t, [])
  unfolding take_ops
  take_ops-none t = refl

  -- A second catch-up on the same journal asks for nothing that the first one brought: it changes
  -- neither the clock nor the page and calls nothing, whatever the first one applied.
  pub ws_catch_up-again :
      (journal : List Op) (t : Tab)
      → let server : ℕ → Option (List Op) = λ ts. some (since journal ts) in
        let after = (ws_catch_up date is_url indexed server t).0 in
        ws_catch_up date is_url indexed server after ≡ (after, [])
  unfolding ws_catch_up
  ws_catch_up-again journal t =
      let ops = since journal t.clock.ts in
      let after = (take_ops date is_url indexed (sort_by is_later ops) t).0 in
      let (le, stamps) = take_ops-clock (sort_by is_later ops) t in
      let none_left : since journal after.clock.ts ≡ [] =
        since-none journal t.clock.ts after.clock.ts le
          (sym (all-sort_by is_later (λ op. leb op.lamport_ts after.clock.ts) ops) ∙ stamps) in
      ap (λ left. take_ops date is_url indexed (sort_by is_later left) after) none_left
      ∙ take_ops-none after

  -- An operation whose stamp is not above one that the tab has received is never caught up on: after any
  -- further events of the clock the catch-up ends as if the operation had not been made, whichever
  -- field it sets and whoever made it, where the server answers with the operations above the stamp
  -- that it is asked for.
  pub ws_catch_up-misses :
      (xs ys : List Op) (op : Op) (c : LamportClock) (r : ℕ) (events : List ClockEvent) (p : Page)
      → op.lamport_ts ≤ r
      → let t : Tab = record { clock = steps (receive c r) events; page = p } in
        ws_catch_up date is_url indexed (λ ts. some (since (xs ++ op ∷ ys) ts)) t
        ≡ ws_catch_up date is_url indexed (λ ts. some (since (xs ++ ys) ts)) t
  unfolding ws_catch_up receive
  ws_catch_up-misses xs ys op c r events p le =
      let now = steps (receive c r) events in
      ap
        (λ ops.
          take_ops date is_url indexed (sort_by is_later ops) (record { clock = now; page = p }))
        (since-append xs ys op now.ts (omega (arith, le, steps-le (receive c r) events)))
