-- ===== src/Conflict/Tests.antt =====
-- Conflicts of a response row: the properties at concrete documents, and runs of the definitions.
use yumyums_purchase_orders.Common.{◌≡◌, refl, Bool, true, false, [], ◌∷◌, none, some, ◌⊎◌}
use yumyums_purchase_orders.Json.{Fields, undefined, null, bool, num, str, end, field, get}
use yumyums_purchase_orders.Conflict.{
  Input, Clash, default_options, values_equal, resolve_with, resolve_conflict, returned, no_master,
  thrown, document_id, assumed_master,
}
use yumyums_purchase_orders.Conflict.Handler.{
  Notice, create_hq_conflict_handler, conflict_opts_of, describe_conflict, resolve, Described,
  Resolved,
}
use yumyums_purchase_orders.Conflict.Merge.{clash_at, resolve_with-field}
use yumyums_purchase_orders.Conflict.Report.{clash_of, edit_survives_or_reported}
use yumyums_purchase_orders.Conflict.Notices.{notice_at}

-- A temperature that both sides corrected, a note that the fork alone wrote, a flag.
abbrev base_row : Fields
base_row =
    field "id" (str "r1")
      (field "value" (num 38) (field "note" (str "") (field "_deleted" (bool false) end)))

abbrev fork_row : Fields
fork_row =
    field "id" (str "r1")
      (field "value" (num 41) (field "note" (str "door open") (field "_deleted" (bool true) end)))

abbrev master_row : Fields
master_row = field "id" (str "r1") (
    field "value" (num 40) (
      field "note" (str "") (field "_deleted" (bool false) (field "answered_by" (str "dana") end))))

default_undefined : default_options.is_value_equal undefined undefined ≡ true
unfolding values_equal
default_undefined = refl

resolved_document :
    (resolve_with default_options (some base_row) fork_row master_row).document
    ≡ field "id" (str "r1") (
        field "value" (num 40) (
          field "note"
            (str "door open")
            (field "_deleted" (bool true) (field "answered_by" (str "dana") end))))
unfolding resolve_with values_equal
resolved_document = refl

edit_survives_or_reported_example :
    (get "value" (resolve_with default_options (some base_row) fork_row master_row).document
      ≡ get "value" fork_row)
    ⊎ ((default_options.is_value_equal (get "value" fork_row) (get "value" master_row) ≡ true)
        ⊎ (clash_of "value"
              (resolve_with default_options (some base_row) fork_row master_row).clashes
            ≡ some (clash_at fork_row master_row "value")))
unfolding values_equal
edit_survives_or_reported_example =
    edit_survives_or_reported default_options base_row fork_row master_row "value" refl refl refl
      refl

resolve_with-field_example :
    get "note" (resolve_with default_options (some base_row) fork_row master_row).document
    ≡ str "door open"
unfolding values_equal
resolve_with-field_example =
    resolve_with-field default_options (some base_row) fork_row master_row "note" refl

abbrev sample_input : Input
sample_input = record { assumed = some base_row; fork = some fork_row; master = some master_row }

-- A subscriber that throws on every clash.
abbrev failing : Notice → Bool
failing n = false

abbrev value_clash : Clash
value_clash = record { name = "value"; discarded = num 41; winner = num 40 }

abbrev sample_description : Described
sample_description = record {
  id = str "r1";
  baseline = assumed_master;
  clashes = value_clash ∷ [];
  winner_actor = str "dana";
  winner_at = null;
  assumed = some base_row;
  fork = some fork_row;
  master = master_row;
}

abbrev sample_resolved : Resolved
sample_resolved = record {
  document = field "id" (str "r1") (
      field "value" (num 40) (
        field "note" (str "door open")
          (field "_deleted" (bool true) (field "answered_by" (str "dana") end))));
  notices = notice_at (str "r1") assumed_master value_clash ∷ [];
  warnings = notice_at (str "r1") assumed_master value_clash ∷ [];
}

sample_described :
    describe_conflict
      (conflict_opts_of (some (create_hq_conflict_handler default_options (some failing))))
      sample_input
    ≡ returned sample_description
unfolding describe_conflict conflict_opts_of create_hq_conflict_handler resolve_conflict
    resolve_with values_equal document_id
sample_described = refl

sample_resolves :
    resolve (create_hq_conflict_handler default_options (some failing)) sample_input
    ≡ returned sample_resolved
unfolding resolve create_hq_conflict_handler resolve_conflict resolve_with values_equal document_id
sample_resolves = refl

no_master_throws :
    resolve_conflict default_options
      (record { assumed = none; fork = some fork_row; master = none })
    ≡ thrown no_master
unfolding resolve_conflict
no_master_throws = refl
