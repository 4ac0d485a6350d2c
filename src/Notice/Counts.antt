-- ===== src/Notice/Counts.antt =====
-- The counting rules of sync-rxdb/conflict-notice.js.
use yumyums_purchase_orders.Common.{
  ℕ, zero, suc, ◌+◌, String, ◌≡◌, refl, ◌∙◌, Bool, not, ◌&&◌, List, [], ◌∷◌, ◌++◌, if◌then◌else◌,
  length, keep, take, drop, arith,
}
use yumyums_purchase_orders.Common.Int.{ℤ}
use yumyums_purchase_orders.Notice.{
  Record, Group, total, add_record, group_records, insert_group, sort_groups, within_retention,
  build_sheet_model, any_row, is_identified, is_handled, insert_record, sort_records, in_order,
}

keep-append :
    (p : Record → Bool) (xs : List Record) (r : Record)
    → length (keep p (xs ++ r ∷ [])) ≡ length (keep p xs) + (if p r then 1 else 0)
keep-append p [] r = ground arith
keep-append p (x ∷ xs) r = ground (arith, keep-append p xs r)

total-add_record :
    (p : Record → Bool) (r : Record) (gs : List Group)
    → total p (add_record r gs) ≡ total p gs + (if p r then 1 else 0)
total-add_record p r [] = ground arith
total-add_record p r (g ∷ gs) = ground (arith, total-add_record p r gs, keep-append p g.records r)

total-group_records :
    (p : Record → Bool) (gs : List Group) (rs : List Record)
    → total p (group_records gs rs) ≡ total p gs + length (keep p rs)
total-group_records p gs [] = omega arith
total-group_records p gs (r ∷ rs) =
    ground (arith, total-group_records p (add_record r gs) rs, total-add_record p r gs)

total-insert_group :
    (gt locale_le : String → String → Bool) (p : Record → Bool) (g : Group) (gs : List Group)
    → total p (insert_group gt locale_le g gs) ≡ length (keep p g.records) + total p gs
total-insert_group gt locale_le p g [] = refl
total-insert_group gt locale_le p g (h ∷ hs) =
    ground (arith, total-insert_group gt locale_le p g hs)

total-sort_groups :
    (gt locale_le : String → String → Bool) (p : Record → Bool) (gs : List Group)
    → total p (sort_groups gt locale_le gs) ≡ total p gs
total-sort_groups gt locale_le p [] = refl
total-sort_groups gt locale_le p (g ∷ gs) = ground (
  arith,
  total-insert_group gt locale_le p g (sort_groups gt locale_le gs),
  total-sort_groups gt locale_le p gs,
)

keep-insert_record :
    (gt locale_le : String → String → Bool) (p : Record → Bool) (r : Record) (rs : List Record)
    → length (keep p (insert_record gt locale_le r rs)) ≡ length (keep p (r ∷ rs))
keep-insert_record gt locale_le p r [] = refl
keep-insert_record gt locale_le p r (x ∷ xs) =
    ground (arith, keep-insert_record gt locale_le p r xs)

keep-sort_records :
    (gt locale_le : String → String → Bool) (p : Record → Bool) (rs : List Record)
    → length (keep p (sort_records gt locale_le rs)) ≡ length (keep p rs)
keep-sort_records gt locale_le p [] = refl
keep-sort_records gt locale_le p (r ∷ rs) = ground (
  arith,
  keep-insert_record gt locale_le p r (sort_records gt locale_le rs),
  keep-sort_records gt locale_le p rs,
)

total-in_order :
    (gt locale_le : String → String → Bool) (p : Record → Bool) (gs : List Group)
    → total p (in_order gt locale_le gs) ≡ total p gs
total-in_order gt locale_le p [] = refl
total-in_order gt locale_le p (g ∷ gs) =
    ground (arith, keep-sort_records gt locale_le p g.records, total-in_order gt locale_le p gs)

total-take-drop :
    (p : Record → Bool) (n : ℕ) (gs : List Group)
    → total p (take n gs) + total p (drop n gs) ≡ total p gs
total-take-drop p zero gs = omega arith
total-take-drop p (suc n) [] = omega arith
total-take-drop p (suc n) (g ∷ gs) = omega (arith, total-take-drop p n gs)

-- The records of a list, split by a test.
keep-split :
    (p q : Record → Bool) (rs : List Record)
    → length (keep (λ r. p r && not (q r)) rs) + length (keep (λ r. p r && q r) rs)
      ≡ length (keep p rs)
keep-split p q [] = omega arith
keep-split p q (r ∷ rs) = ground (arith, keep-split p q rs)

keep-not :
    (p : Record → Bool) (rs : List Record)
    → length (keep p rs) + length (keep (λ r. not (p r)) rs) ≡ length rs
keep-not p [] = omega arith
keep-not p (r ∷ rs) = ground (arith, keep-not p rs)

keep-any : (rs : List Record) → length (keep any_row rs) ≡ length rs
keep-any [] = refl
keep-any (r ∷ rs) = ground (arith, keep-any rs)

-- No record inside the window is lost or counted twice: what was overwritten is what is still to review
-- and what is handled, together with the rows that show nothing it is every record inside the window,
-- and the rows of the groups that are shown and the rows that the cap line counts as hidden are
-- all of them, however many groups the cap allows.
pub build_sheet_model_counts :
    (gt locale_le : String → String → Bool) (max_groups : ℕ) (now window : ℤ)
    (records : List Record)
    → let sheet = build_sheet_model gt locale_le max_groups now window records in
      let live = within_retention now window records in
      (sheet.totals.still + sheet.totals.handled ≡ sheet.totals.answers)
      × (sheet.totals.answers + sheet.totals.unidentified_rows ≡ length live)
      × (total any_row sheet.groups + sheet.hidden_answers ≡ length live)
unfolding build_sheet_model
build_sheet_model_counts gt locale_le max_groups now window records =
    let live = within_retention now window records in
    let grouped = group_records [] live in
    let groups = sort_groups gt locale_le (in_order gt locale_le grouped) in
    let count : (p : Record → Bool) → total p groups ≡ length (keep p live) = λ p.
      total-sort_groups gt locale_le p (in_order gt locale_le grouped)
      ∙ total-in_order gt locale_le p grouped
      ∙ total-group_records p [] live
      ∙ zero_add (length (keep p live)) in
    (
      omega (
        arith,
        count is_identified,
        count (λ r. is_identified r && not (is_handled r)),
        count (λ r. is_identified r && is_handled r),
        keep-split is_identified is_handled live,
      ),
      omega (
        arith,
        count is_identified,
        count (λ r. not (is_identified r)),
        keep-not is_identified live,
      ),
      omega (
        arith,
        total-sort_groups gt (λ a b. locale_le b a) any_row (take max_groups groups),
        total-take-drop any_row max_groups groups,
        count any_row,
        keep-any live,
      ),
    )
  where
    zero_add : (n : ℕ) → 0 + n ≡ n
    zero_add n = omega arith
