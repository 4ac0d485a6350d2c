-- ===== src/Notice/Tests.antt =====
-- A sheet of three records, one of which shows nothing, with a cap of one group; a conflict, and taps.
use yumyums_purchase_orders.Common.{
  ◌+◌, String, ◌≡◌, refl, Bool, true, false, ◌||◌, List, [], ◌∷◌, Option, none, some, length, any,
  text_eq, if◌then◌else◌, ◌⊎◌,
}
use yumyums_purchase_orders.Common.Int.{ℤ, pos, ◌-ℤ◌}
use yumyums_purchase_orders.Json.{Value, Fields, null, str, field, end, get}
use yumyums_purchase_orders.Conflict.{
  Input, default_options, assumed_master, returned, values_equal, resolve_with, resolve_conflict,
  document_id,
}
use yumyums_purchase_orders.Conflict.Handler.{Described, describe_conflict}
use yumyums_purchase_orders.Notice.{
  Record, Group, build_sheet_model, within_retention, total, any_row,
}
use yumyums_purchase_orders.Notice.Counts.{build_sheet_model_counts}
use yumyums_purchase_orders.Notice.Rows.{upsert_all, sweep_expired, row_of}
use yumyums_purchase_orders.Notice.Sweep.{sweep_expired_lem}
use yumyums_purchase_orders.Notice.Capture.{
  Context, HasEdit, records_from_conflict, edit_survives_or_stored,
}
use yumyums_purchase_orders.Notice.Restore.{
  Applied, written, refused, offline, Action, commit_group, undo_row, keep_row, restore, act_all,
  shown_groups,
}
use yumyums_purchase_orders.Notice.Handled.{
  is_handled_at, wrote, marks, act_all-handled, restore-unfinished,
}

abbrev record_at : String → String → Value → String → Option ℤ → Record
record_at id doc discarded status ms = record {
  id = id;
  doc_id = doc;
  submission_id = "";
  field_id = "f";
  field_removed = false;
  discarded_value = discarded;
  current_value = str "theirs";
  overwritten_by = null;
  overwritten_at = id;
  overwritten_ms = ms;
  status = status;
  undone = false;
  failure = "";
}

abbrev records : List Record
records =
    record_at "a" "s1" (str "mine") "open" (some (pos 90))
    ∷ record_at "b" "s2" (str "mine") "kept" none
    ∷ record_at "c" "s1" null "open" (some (pos 95))
    ∷ []

abbrev any_order : String → String → Bool
any_order a b = true

build_sheet_model_counts_example :
    let sheet = build_sheet_model any_order any_order 1 (pos 100) (pos 20) records in
    let live = within_retention (pos 100) (pos 20) records in
    (sheet.totals.still + sheet.totals.handled ≡ sheet.totals.answers)
    × (sheet.totals.answers + sheet.totals.unidentified_rows ≡ length live)
    × (total any_row sheet.groups + sheet.hidden_answers ≡ length live)
build_sheet_model_counts_example =
    build_sheet_model_counts any_order any_order 1 (pos 100) (pos 20) records

abbrev old_record : Record
old_record = record_at "d" "s3" (str "mine") "open" (some (pos 10))

sweep_expired_lem_example :
    ((sweep_expired (pos 100) (pos 20) (old_record ∷ records)).0
      ≡ within_retention (pos 100) (pos 20) (old_record ∷ records))
    × ((sweep_expired (pos 100) (pos 20) (old_record ∷ records)).1
          + length (within_retention (pos 100) (pos 20) (old_record ∷ records))
        ≡ 4)
sweep_expired_lem_example = sweep_expired_lem (pos 100) (pos 20) (old_record ∷ records) refl

swept_one : (sweep_expired (pos 100) (pos 20) (old_record ∷ records)).1 ≡ 1
unfolding sweep_expired ◌-ℤ◌
swept_one = refl

-- A row that both sides changed: the fork's note and master's.
abbrev base_row : Fields
base_row = field "id" (str "r1") (field "note" (str "old") end)

abbrev fork_row : Fields
fork_row = field "id" (str "r1") (field "note" (str "mine") end)

abbrev master_row : Fields
master_row = field "id" (str "r1") (field "note" (str "theirs") end)

abbrev emission : Input
emission = record { assumed = some base_row; fork = some fork_row; master = some master_row }

abbrev emitted : Described
emitted = record {
  id = str "r1";
  baseline = assumed_master;
  clashes = (record { name = "note"; discarded = str "mine"; winner = str "theirs" }) ∷ [];
  winner_actor = null;
  winner_at = null;
  assumed = some base_row;
  fork = some fork_row;
  master = master_row;
}

abbrev context : Context
context = record { submission_id = ""; field_removed = false; now = "noon" }

abbrev no_date : String → Option ℤ
no_date t = none

abbrev value_text : Value → String
value_text (str s) = s
value_text v = "other"

emission_described : describe_conflict default_options emission ≡ returned emitted
unfolding describe_conflict resolve_conflict values_equal document_id resolve_with
emission_described = refl

edit_survives_or_stored_example :
    (get "note" (resolve_with default_options (some base_row) fork_row master_row).document
      ≡ str "mine")
    ⊎ ((values_equal (str "mine") (str "theirs") ≡ true)
        ⊎ HasEdit no_date value_text "now" emitted "note"
            (str "mine")
            (str "theirs")
            (upsert_all (records_from_conflict no_date value_text "now" context emitted) records))
unfolding values_equal
edit_survives_or_stored_example =
    edit_survives_or_stored no_date value_text "now" context default_options base_row fork_row
      master_row emitted records "note" emission_described refl refl refl refl

abbrev sheet : List Record → List Group
sheet rows = shown_groups any_order any_order 10 (pos 100) (pos 20) rows

-- A batch whose second write fails, an undo, and a row that is kept.
abbrev answers : String → Applied
answers id = if text_eq id "a" then written else offline

abbrev taps : List Action
taps = commit_group answers "s1" ∷ undo_row "b" ∷ keep_row "b" ∷ []

act_all-handled_example :
    ((is_handled_at "a" records || any (λ a. marks true a "a") taps)
      || wrote "a" (act_all true sheet taps records).1)
    ≡ true
unfolding act_all build_sheet_model within_retention ◌-ℤ◌
act_all-handled_example = act_all-handled true sheet taps records "a" refl

restore-unfinished_example :
    (row_of "a" (restore true sheet offline "a" records).0
      ≡ some (record (record_at "a" "s1" (str "mine") "failed" (some (pos 90))) {
        failure = "offline";
      }))
    × ((is_handled_at "a" (restore true sheet offline "a" records).0 ≡ false)
        × ((j : String)
            → text_eq "a" j ≡ false
            → row_of j (restore true sheet offline "a" records).0 ≡ row_of j records))
unfolding build_sheet_model within_retention ◌-ℤ◌
restore-unfinished_example =
    restore-unfinished sheet offline "a" records
      (record_at "a" "s1" (str "mine") "open" (some (pos 90)))
      (record_at "a" "s1" (str "mine") "open" (some (pos 90))) refl refl refl

-- A write that succeeds, one that is refused, and a sheet without `applyRestore`.
abbrev status_at : String → List Record → String × String
status_at id rows = elim (row_of id rows) [ none ↦ ("", "") | some r ↦ (r.status, r.failure) ]

restored : status_at "a" (restore true sheet written "a" records).0 ≡ ("restored", "")
unfolding restore build_sheet_model within_retention ◌-ℤ◌
restored = refl

refused_write : status_at "a" (restore true sheet refused "a" records).0 ≡ ("failed", "conflict")
unfolding restore build_sheet_model within_retention ◌-ℤ◌
refused_write = refl

without_callback :
    (status_at "a" (restore false sheet offline "a" records).0 ≡ ("restored", ""))
    × ((restore false sheet offline "a" records).1 ≡ [])
unfolding restore build_sheet_model within_retention ◌-ℤ◌
without_callback = (refl, refl)
