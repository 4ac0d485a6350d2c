-- ===== src/Notice.antt =====
-- sync-rxdb/conflict-notice.js: which of the stored conflict records the sheet shows, how it groups
-- them, and the counts that it prints. Times are milliseconds, as integers; JavaScript's orders of texts
-- (`>` and `localeCompare`) and `Date` are parameters. A record's drawn texts are not modelled.
pub mod Counts
pub mod Rows
pub mod Sweep
pub mod Capture
pub mod Restore
pub mod Handled
mod Tests
use yumyums_purchase_orders.Common.{
  ℕ, ◌+◌, String, Bool, true, false, not, ◌&&◌, ◌||◌, List, [], ◌∷◌, ◌++◌, Option, none, some,
  if◌then◌else◌, text_eq, length, any, ltb, keep, take, drop,
}
use yumyums_purchase_orders.Json.{Value, undefined, null}
use yumyums_purchase_orders.Common.Int.{ℤ, pos, ◌-ℤ◌, leb_ℤ}

-- MAX_GROUPS and RETENTION_DAYS are the options' defaults, arguments here.
pub data RowKind : Type 0 where
  answer removed unidentified : RowKind

-- A stored record, without the fields that are only drawn. A null text is "", and `overwritten_at` is
-- there as text and as `Date` reads it.
pub record Record : Type 0 where
  pub id : String
  pub doc_id : String
  pub submission_id : String
  pub field_id : String
  pub field_removed : Bool
  pub discarded_value : Value
  pub current_value : Value
  pub overwritten_by : Value
  pub overwritten_at : String
  pub overwritten_ms : Option ℤ
  pub status : String
  pub undone : Bool
  pub failure : String

-- `a || b`, of texts.
abbrev pub or_text : String → String → String
or_text a b = if text_eq a "" then b else a

-- The key for grouping.
abbrev pub doc_key : Record → String
doc_key r = or_text r.doc_id (or_text r.submission_id r.id)

abbrev pub is_nullish : Value → Bool
is_nullish undefined = true
is_nullish null = true
is_nullish _ = false

-- `rowKind`.
abbrev pub row_kind : Record → RowKind
row_kind r =
    if is_nullish r.discarded_value
    then unidentified
    else if r.field_removed
    then removed
    else answer

-- `isHandled`.
abbrev pub is_handled : Record → Bool
is_handled r = text_eq r.status "restored" || text_eq r.status "kept"

abbrev pub is_answer_kind : RowKind → Bool
is_answer_kind answer = true
is_answer_kind _ = false

abbrev pub is_identified : Record → Bool
is_identified r = elim (row_kind r) [ unidentified ↦ false | _ ↦ true ]

-- `isBatchTarget`.
abbrev pub is_batch_target : Record → Bool
is_batch_target r = is_answer_kind (row_kind r) && not (is_handled r)

-- `withinRetention`, of a list: the floor is `now - days * MS_PER_DAY`.
unfoldable pub within_retention : ℤ → ℤ → List Record → List Record
within_retention now window records =
    keep (λ r. elim r.overwritten_ms [ none ↦ true | some t ↦ leb_ℤ (now -ℤ window) t ]) records

-- A group: the records of one document.
pub record Group : Type 0 where
  pub doc_key : String
  pub records : List Record

-- `byDoc`: a Map keeps the order of its first insertions.
abbrev pub add_record : Record → List Group → List Group
add_record r [] = record { doc_key = doc_key r; records = r ∷ [] } ∷ []
add_record r (g ∷ gs) =
    let others = add_record r gs in
    if text_eq g.doc_key (doc_key r)
    then record g { records = g.records ++ r ∷ [] } ∷ gs
    else g ∷ others

abbrev pub group_records : List Group → List Record → List Group
group_records gs [] = gs
group_records gs (r ∷ rs) = group_records (add_record r gs) rs

-- How many rows of some groups pass a test.
abbrev pub total : (Record → Bool) → List Group → ℕ
total p [] = 0
total p (g ∷ gs) = length (keep p g.records) + total p gs

abbrev pub any_row : Record → Bool
any_row r = true

pub record Totals : Type 0 where
  pub answers : ℕ
  pub still : ℕ
  pub handled : ℕ
  pub unidentified_rows : ℕ
  pub checklists : ℕ

pub record Sheet : Type 0 where
  pub is_empty : Bool
  pub totals : Totals
  pub groups : List Group
  pub hidden_groups : ℕ
  pub hidden_answers : ℕ
  pub collapsed : Bool

abbrev pub is_nil : List Record → Bool
is_nil [] = true
is_nil (r ∷ rs) = false

module _ (gt : String → String → Bool) (locale_le : String → String → Bool) where
  -- `recs.sort`, by the time of overwriting.
  abbrev pub insert_record : Record → List Record → List Record
  insert_record r [] = r ∷ []
  insert_record r (x ∷ xs) =
      if locale_le r.overwritten_at x.overwritten_at then r ∷ (x ∷ xs) else x ∷ insert_record r xs

  abbrev pub sort_records : List Record → List Record
  sort_records [] = []
  sort_records (r ∷ rs) = insert_record r (sort_records rs)

  abbrev pub in_order : List Group → List Group
  in_order [] = []
  in_order (g ∷ gs) = record g { records = sort_records g.records } ∷ in_order gs

  -- The reduction to `newest`.
  abbrev pub newest_from : String → List Record → String
  newest_from acc [] = acc
  newest_from acc (r ∷ rs) =
      newest_from (if gt r.overwritten_at acc then r.overwritten_at else acc) rs

  abbrev pub newest : Group → String
  newest g = newest_from "" g.records

  -- The stable sort of the groups, newest first.
  abbrev pub insert_group : Group → List Group → List Group
  insert_group g [] = g ∷ []
  insert_group g (h ∷ hs) =
      if locale_le (newest h) (newest g) then g ∷ (h ∷ hs) else h ∷ insert_group g hs

  abbrev pub sort_groups : List Group → List Group
  sort_groups [] = []
  sort_groups (g ∷ gs) = insert_group g (sort_groups gs)

  -- A group with more than COLLAPSE_MAX_ROWS_PER_GROUP rows.
  abbrev pub is_long : Group → Bool
  is_long g = ltb 2 (length g.records)

module _ (gt : String → String → Bool) (locale_le : String → String → Bool) where
  -- `buildSheetModel`: the totals are over all groups; the newest are shown, the oldest of them first.
  unfoldable pub build_sheet_model : ℕ → ℤ → ℤ → List Record → Sheet
  unfolding within_retention
  build_sheet_model max_groups now window records =
      let live = within_retention now window records in
      let groups = sort_groups gt locale_le (in_order gt locale_le (group_records [] live)) in
      let answers = total is_identified groups in
      let hidden = drop max_groups groups in
      record {
        is_empty = is_nil live;
        totals = record {
          answers = answers;
          still = total (λ r. is_identified r && not (is_handled r)) groups;
          handled = total (λ r. is_identified r && is_handled r) groups;
          unidentified_rows = total (λ r. not (is_identified r)) groups;
          checklists = length groups;
        };
        groups = sort_groups gt (λ a b. locale_le b a) (take max_groups groups);
        hidden_groups = length hidden;
        hidden_answers = total any_row hidden;
        collapsed = ltb 1 (length groups) || any (is_long gt locale_le) groups;
      }
