-- ===== src/Flow/Tests.antt =====
-- A page that is resolving a code, run on XState's documented step; its crew member may override.
use yumyums_purchase_orders.Common.{
  String, ◌≡◌, refl, true, false, List, [], ◌∷◌, Option, none, some, any, all,
}
use yumyums_purchase_orders.Machine.{closed, offline, resolving, unknown_code as unknown_state}
use yumyums_purchase_orders.Machine.Engine.{Engine, Snapshot, macrostep, initial_context}
use yumyums_purchase_orders.Machine.Runs.{Inv}
use yumyums_purchase_orders.Scan.{Offer, offer_ready, unknown_code}
use yumyums_purchase_orders.Scan.Policy.{
  Happens, documents, attaching, create_campaign_policy_source, after,
}
use yumyums_purchase_orders.Flow.{PolicySource, answered, Page, Session, no_order, stash, on_result}
use yumyums_purchase_orders.Flow.Steps.{
  Input, result, typed, submit_tapped, override_tapped, confirm_tapped, run, is_order_number,
}
use yumyums_purchase_orders.Flow.Orders.{has_order, run-numbered}
use yumyums_purchase_orders.Flow.Sealed.{is_row}
use yumyums_purchase_orders.Flow.Campaign.{campaign_policy, campaign-closes}
use yumyums_purchase_orders.Flow.Late.{token_of, on_result-session}

abbrev engine : Engine
engine = record { send = macrostep; send_lem = λ s e. refl }

abbrev trim : String → String
trim t = t

abbrev machine : Snapshot
machine = record {
  connectivity = offline;
  overlay = closed;
  scan = resolving;
  context = record (initial_context true) {
    conn = offline;
    sc = resolving;
    session_code = some "A";
  };
}

machine-Inv : Inv machine
machine-Inv = record {
  mirrored = record { conn_shown = refl; ov_shown = refl; sc_shown = refl };
  sound = refl;
  prompted = tt;
}

abbrev page : Page
page = record {
  machine = machine;
  last_sc = resolving;
  submit_ctx = none;
  order = no_order;
  winner = none;
  submit_error = none;
  override_write_error = none;
}

-- The whole path to an override.
abbrev forced : List Input
forced = typed "4321" ∷ submit_tapped ∷ override_tapped ∷ confirm_tapped ∷ []

abbrev offer : Offer
offer = record { code_id = "c1"; campaign_id = some "camp"; expires_at = "t" }

abbrev history : List Happens
history = attaching ∷ documents (record { id = "other"; requires_online = false } ∷ []) ∷ []

order_numbers :
    (is_order_number "4321" ≡ true)
    × (is_order_number "" ≡ false)
    × (is_order_number "1234567" ≡ false)
    × (is_order_number "12a" ≡ false)
order_numbers = (refl, refl, refl, refl)

run-numbered_example :
    all has_order (run engine trim none (result none (unknown_code "A") ∷ forced) page).1 ≡ true
run-numbered_example = run-numbered engine trim none (result none (unknown_code "A") ∷ forced) page

-- A source that requires every campaign to be online.
abbrev strict : PolicySource
strict = record {
  policy_of = λ c. answered (some (record { requires_online = true; unresolved = false }));
  source_unresolved = answered false;
}

abbrev session : Session
session = record (stash (some strict) "A") { code_id = some "c1"; policy_unresolved = false }

abbrev replica : Option PolicySource
replica = some (campaign_policy (after history create_campaign_policy_source))

campaign-closes_example :
    any is_row
      (run engine trim replica (result none (offer_ready "A" (offer ∷ [])) ∷ forced) page).1
    ≡ false
campaign-closes_example =
    campaign-closes engine trim history none "A" "camp" offer [] page forced refl refl refl
      machine-Inv refl refl

-- The result of another code, B, is taken for the session of A.
on_result-session_example :
    ((on_result engine none none (unknown_code "B") page).0.machine.scan ≡ unknown_state)
    × ((on_result engine none none (unknown_code "B") page).0.machine.context.session_code
        ≡ page.machine.context.session_code)
    × (token_of (on_result engine none none (unknown_code "B") page).0.submit_ctx ≡ some "B")
on_result-session_example = on_result-session engine none none "B" page machine-Inv refl refl
