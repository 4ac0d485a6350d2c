-- ===== src/Sync/Ops/Tests.antt =====
-- Two tabs, a page with a rejected answer, and operations from before and after the rejection.
use yumyums_purchase_orders.Common.{
  ℕ, String, ◌≡◌, refl, Bool, true, false, List, [], ◌∷◌, Option, none, some, arith, if◌then◌else◌,
  text_eq, all,
}
use yumyums_purchase_orders.Common.Int.{ℤ, pos}
use yumyums_purchase_orders.Common.Sort.{sort_by}
use yumyums_purchase_orders.Json.{Value, Fields, end, field, bool, obj}
use yumyums_purchase_orders.Store.{lookup}
use yumyums_purchase_orders.Sync.Lamport.{LamportClock, receive, local, remote, steps}
use yumyums_purchase_orders.Sync.Ops.{Answer, Flag, Page, Op, set_field}
use yumyums_purchase_orders.Sync.Ops.Catchup.{Tab, ws_catch_up, on_message, is_later}
use yumyums_purchase_orders.Sync.Ops.Catchup.Again.{since, ws_catch_up-misses}
use yumyums_purchase_orders.Sync.Ops.Catchup.Converge.{
  ws_catch_up-converges, ws_catch_up-latest, foreign,
}
use yumyums_purchase_orders.Sync.Ops.Catchup.Latest.{latest}
use yumyums_purchase_orders.Sync.Ops.Replay.{Holds, ws_catch_up-Holds}
use yumyums_purchase_orders.Sync.Ops.Echo.{submit_op, on_message-echo}
use yumyums_purchase_orders.Sync.Ops.Quiet.{is_quiet, ws_catch_up-quiet}
use yumyums_purchase_orders.Sync.Ops.Toasts.{Enqueued}

abbrev date : String → Option ℤ
date s =
    if text_eq s "before"
    then some (pos 3)
    else if text_eq s "rejected"
    then some (pos 5)
    else if text_eq s "after"
    then some (pos 9)
    else none

abbrev is_url : String → Bool
is_url s = false

abbrev indexed : Value → Fields
indexed v = end

abbrev yes : Value
yes = bool true

abbrev empty_page : Page
empty_page = record {
  responses = [];
  drafts = some [];
  fail_notes = [];
  photos = [];
  flags = [];
  runner = none;
}

abbrev bounced : Flag
bounced = record { rejected_at = some "rejected"; require_photo = false }

abbrev rejected_page : Page
rejected_page = record empty_page { flags = ("f", bounced) ∷ [] }

abbrev done : Answer
done = record { value = yes; sub_steps = none; answered_by = "Ann"; answered_at = "after" }

abbrev clock_at : ℕ → String → LamportClock
clock_at ts id = record { ts = ts; device_id = id; stored = none }

abbrev tab : Tab
tab = record { clock = clock_at 1 "mine"; page = empty_page }

abbrev other_tab : Tab
other_tab = record {
  clock = clock_at 2 "yours";
  page = record empty_page { responses = ("f", done) ∷ [] };
}

abbrev rejected_tab : Tab
rejected_tab = record { clock = clock_at 1 "mine"; page = rejected_page }

abbrev op_of : String → ℕ → String → String → Value → Op
op_of device ts at f v = record {
  device_id = device;
  user_id = "u1";
  lamport_ts = ts;
  server_ts = at;
  body = set_field f v "Bob";
}

-- The rejected field, and a parent that carries it as a sub-step.
abbrev parent_value : Value
parent_value = obj (field "value" yes (field "sub_steps" (obj (field "f" yes end)) end))

abbrev old_ops : List Op
old_ops = op_of "third" 7 "before" "g" parent_value ∷ op_of "third" 4 "before" "f" yes ∷ []

abbrev old_server : ℕ → Option (List Op)
old_server ts = some old_ops

ws_catch_up-Holds_example :
    Holds "f" bounced rejected_page (ws_catch_up date is_url indexed old_server rejected_tab).0.page
ws_catch_up-Holds_example =
    ws_catch_up-Holds date is_url indexed "f" bounced old_server old_ops rejected_tab refl refl refl

-- Of a redo the answer is taken and the flag goes.
redo_server : ℕ → Option (List Op)
redo_server ts = some (op_of "third" 8 "after" "f" yes ∷ old_ops)

redone :
    ((ws_catch_up date is_url indexed redo_server rejected_tab).0.page.flags ≡ [])
    × (lookup "f" (ws_catch_up date is_url indexed redo_server rejected_tab).0.page.responses
        ≡ some
            (record { value = yes; sub_steps = none; answered_by = "Bob"; answered_at = "after" }))
unfolding ws_catch_up redo_server
redone = (refl, refl)

ws_catch_up-latest_example :
    lookup "g" (ws_catch_up date is_url indexed old_server tab).0.page.responses
    ≡ latest date is_url indexed "g"
        (foreign date is_url indexed "mine" (sort_by is_later old_ops))
        none
ws_catch_up-latest_example =
    ws_catch_up-latest date is_url indexed "g" old_server old_ops tab refl refl

-- What the answers of a parent, of a bundle and of a bundle of a parent are afterwards.
abbrev bundled : Value → Value
bundled v = obj (field "_v" v (field "_correction_photo" (bool false) end))

abbrev wire_server : Value → ℕ → Option (List Op)
wire_server v ts = some (op_of "third" 7 "before" "g" v ∷ [])

abbrev answer_after : Value → Option Answer
answer_after v = lookup "g" (ws_catch_up date is_url indexed (wire_server v) tab).0.page.responses

abbrev by_bob : Value → Option Fields → Option Answer
by_bob v steps =
    some (record { value = v; sub_steps = steps; answered_by = "Bob"; answered_at = "before" })

abbrev parent_steps : Option Fields
parent_steps = some (field "f" yes end)

stored_answers :
    (answer_after parent_value ≡ by_bob yes parent_steps)
    × (answer_after (bundled yes) ≡ by_bob yes none)
    × (answer_after (bundled parent_value) ≡ by_bob yes parent_steps)
unfolding ws_catch_up
stored_answers = (refl, refl, refl)

ws_catch_up-converges_example :
    lookup "f" (ws_catch_up date is_url indexed old_server tab).0.page.responses
    ≡ lookup "f" (ws_catch_up date is_url indexed old_server other_tab).0.page.responses
ws_catch_up-converges_example =
    ws_catch_up-converges date is_url indexed "f" old_server old_ops tab other_tab refl refl refl
      refl refl refl refl

-- An operation with the stamp 4, of a tab that has received 6.
abbrev missed : Op
missed = op_of "third" 4 "before" "f" yes

ws_catch_up-misses_example :
    let t : Tab = record {
      clock = steps (receive (clock_at 1 "mine") 6) (local ∷ []);
      page = empty_page;
    } in
    ws_catch_up date is_url indexed (λ ts. some (since (missed ∷ []) ts)) t
    ≡ ws_catch_up date is_url indexed (λ ts. some (since [] ts)) t
ws_catch_up-misses_example =
    ws_catch_up-misses date is_url indexed [] [] missed (clock_at 1 "mine") 6 (local ∷ [])
      empty_page (omega arith)

abbrev echoed : Op
echoed = op_of "mine" 2 "after" "f" yes

on_message-echo_example :
    let t : Tab = record {
      clock = steps (clock_at 2 "mine") (remote 5 ∷ []);
      page = rejected_page;
    } in
    ((on_message date is_url indexed echoed t).0.page ≡ rejected_page)
    × ((on_message date is_url indexed echoed t).1 ≡ [])
unfolding submit_op
on_message-echo_example =
    on_message-echo date is_url indexed "none" false (clock_at 1 "mine") "SET_FIELD" "f"
      "field_response" yes (remote 5 ∷ []) (clock_at 2 "mine") echoed rejected_page refl refl refl

ws_catch_up-quiet_example :
    all is_quiet (ws_catch_up date is_url indexed old_server other_tab).1 ≡ true
ws_catch_up-quiet_example = ws_catch_up-quiet date is_url indexed old_server other_tab refl

abbrev toasts : List Enqueued
toasts =
    record { user_id = "u1"; user_name = "Ann"; field_ids = "f" ∷ "g" ∷ [] }
    ∷ record { user_id = ""; user_name = "Someone"; field_ids = "f" ∷ [] }
    ∷ record { user_id = "u1"; user_name = "Ann"; field_ids = "h" ∷ [] }
    ∷ []
