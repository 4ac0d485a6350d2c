-- ===== src/Scope/Tests.antt =====
-- One list page and one open checklist, with `Date.parse` as a test that reads one text.
use Prim.Native.String.{◌++◌}
use yumyums_purchase_orders.Common.{
  arith, String, ◌≡◌, refl, Bool, true, false, [], ◌∷◌, none, some, if◌then◌else◌, text_eq, map,
  ◌⊎◌,
}
use mathlib.Core.List
use yumyums_purchase_orders.Scope.{
  is_scope_date, RawScope, mode, Scope, fill, list, ok, refused, Refusal, unsafe_id,
  normalize_scope, normalize_list,
}
use yumyums_purchase_orders.Scope.Normal.{IsSafe, normalize_scope-IsSafe}
use yumyums_purchase_orders.Scope.Filter.{
  checklists, Node, eq_node, eq_filter, scope_filter_for, realtime_filter_for, quote_value,
  fill_responses,
}
use yumyums_purchase_orders.Scope.Reading.{
  Columns, holds, admits, realtime_filter_for-covers, read_quoted, read_quoted-quote_value,
}
use yumyums_purchase_orders.Scope.Plan.{SyncClient, replicated_collections, start_hq_replication}
use yumyums_purchase_orders.Scope.Start.{bounded_by, predicates, start_hq_replication_lem}
use yumyums_purchase_orders.Scope.Identity.{owner, hashed_text-owner}

abbrev parses : String → Bool
parses t = text_eq t "2026-08-06"

abbrev asked : RawScope
asked = record {
  mode_given = mode "list";
  user_id = some "u-1";
  checklist_id = none;
  template_id = none;
  since = some "2026-08-06";
  template_ids = some "t1" ∷ none ∷ some "" ∷ some "t_2" ∷ [];
  field_ids = [];
}

abbrev page : Scope
page = list "u-1" "2026-08-06" ("t1" ∷ "t_2" ∷ [])

-- The dates that the pattern takes.
is_scope_date_runs :
    (is_scope_date "2026-08-06T10:00:00.123Z" ≡ true)
    × (is_scope_date "2026-08-06T10:00:00+02:00" ≡ true)
    × (is_scope_date "2026-08-06,or" ≡ false)
    × (is_scope_date "2026-8-6" ≡ false)
unfolding is_scope_date
is_scope_date_runs = (refl, refl, refl, refl)

asked_ok : normalize_scope parses (some asked) ≡ ok page
unfolding normalize_scope normalize_list is_scope_date
asked_ok = refl

-- An id that would add a clause is refused.
unsafe_refused :
    normalize_scope parses (some (record asked { user_id = some "u,id.gt.0" }))
    ≡ refused (unsafe_id "userId")
unfolding normalize_scope normalize_list
unsafe_refused = refl

page-IsSafe : IsSafe parses page
unfolding is_scope_date
page-IsSafe = (refl, refl, refl, refl, refl, ground arith)

normalize_scope-IsSafe_example : IsSafe parses page
normalize_scope-IsSafe_example = normalize_scope-IsSafe parses (some asked) page asked_ok

abbrev open_checklist : Scope
open_checklist = fill "u-1" "c-9" "t1" ("f1" ∷ [])

open_checklist-IsSafe : IsSafe parses open_checklist
open_checklist-IsSafe = (refl, refl, refl, refl)

-- The row of the open checklist itself; texts are ordered by a test that no case uses.
abbrev le : String → String → Bool
le a b = false

abbrev row : Columns
row column = if text_eq column "id" then some "c-9" else none

realtime_filter_for-covers_example : admits le row (eq_filter "id" "c-9") ≡ true
unfolding scope_filter_for realtime_filter_for holds
realtime_filter_for-covers_example =
    realtime_filter_for-covers le row checklists open_checklist (eq_node "id" "c-9")
      (eq_filter "id" "c-9") refl refl refl

-- The answers of the open checklist are one `or`, which a reader that knows its text reads.
abbrev answers : Node
answers = fill_responses "c-9" ("f1" ∷ [])

abbrev draft : Columns
draft column = if text_eq column "field_id" then some "f1" else none

abbrev reads : String → Bool
reads t = true

read_quoted-quote_value_example :
    read_quoted (quote_value "a\",id.gt.\\" ++ ",rest") ≡ some ("a\",id.gt.\\", ",rest")
read_quoted-quote_value_example = read_quoted-quote_value "a\",id.gt.\\" ",rest"

abbrev no_client : SyncClient
no_client = record { filters = []; replications = [] }

start_hq_replication_lem_example :
    ((e : Refusal) × (normalize_scope parses (some asked) ≡ refused e)
      × (start_hq_replication parses (some asked) no_client ≡ (no_client, refused e)))
    ⊎ ((s : Scope) × (normalize_scope parses (some asked) ≡ ok s)
        × ((start_hq_replication parses (some asked) no_client).1 ≡ ok replicated_collections)
        × (predicates (start_hq_replication parses (some asked) no_client).0.replications
            ≡ List.◌++◌
                (predicates no_client.replications)
                (map (bounded_by s) replicated_collections)))
start_hq_replication_lem_example = start_hq_replication_lem parses (some asked) no_client

abbrev predicate : String
predicate = "p"

-- The same checklist, opened with other fields.
abbrev opened_again : Scope
opened_again = fill "u-1" "c-9" "t1" ("f2" ∷ [])

opened_again-IsSafe : IsSafe parses opened_again
opened_again-IsSafe = (refl, refl, refl, refl)

hashed_text-owner_example :
    (owner open_checklist ≡ owner opened_again) × (◌≡◌ {A = String} predicate predicate)
hashed_text-owner_example =
    hashed_text-owner parses open_checklist opened_again predicate predicate open_checklist-IsSafe
      opened_again-IsSafe refl
