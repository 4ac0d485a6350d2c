-- ===== src/Sync/Ops/Open.antt =====
-- sync.js, `rerenderOpenChecklistAfterSave`: the checklist that is open in the runner when its template
-- changes. It waits for `loadMyChecklists`, so it is two steps, and the view may change in between.
use yumyums_purchase_orders.Common.{
  String, ◌≡◌, Bool, true, false, not, ◌&&◌, List, [], ◌∷◌, ◌++◌, Option, none, some, arith,
  if◌then◌else◌, includes,
}
use yumyums_purchase_orders.Sync.Ops.{OpBody, save_template}

-- `fillState`, and whether the location has a hash.
pub record View : Type 0 where
  pub is_list : Bool
  pub active_template : Option String
  pub readonly : Bool
  pub has_hash : Bool

pub data ViewCall : Type 0 where
  lists_loaded : ViewCall
  fill_out_rendered : ViewCall
  toast_shown : String → ViewCall

abbrev pub is_save : OpBody → Bool
is_save save_template = true
is_save _ = false

-- Up to the wait: the id of the open checklist, if there is one.
unfoldable pub rerender_start : View → Option String × List ViewCall
rerender_start v = elim v.active_template [
  | none ↦ (none, [])
  | some id ↦ (some id, lists_loaded ∷ [])
]

-- After the wait: `today` has the ids of MY_CHECKLISTS, `none` where it is not an array.
abbrev pub still_today : Option (List String) → String → Bool
still_today none id = false
still_today (some ids) id = includes ids id

unfoldable pub rerender_finish :
    OpBody → Bool → String → Option (List String) → View → View × List ViewCall
rerender_finish body silent open_id today v =
    if not (still_today today open_id)
    then (
      record { is_list = true; active_template = none; readonly = false; has_hash = false },
      fill_out_rendered ∷ (if silent then [] else toast_shown "This checklist was removed" ∷ []),
    )
    else (v, if not silent && is_save body then toast_shown "Checklist updated" ∷ [] else [])

unfoldable pub rerender_open_checklist_after_save :
    OpBody → Bool → Option (List String) → View → View → View × List ViewCall
unfolding rerender_start rerender_finish
rerender_open_checklist_after_save body silent today before later =
    let (open_id, calls) = rerender_start before in
    elim open_id [
      | none ↦ (later, calls)
      | some id ↦ let (v, more) = rerender_finish body silent id today later in (v, calls ++ more)
    ]

-- A checklist that the crew opened during the wait is closed as well, although it is still among today's, when
-- the one that was open before is not: the close is of whatever is open by then.
rerender-closes_other :
    (body : OpBody) (silent : Bool) (ids : List String) (before later : View) (id other : String)
    → before.active_template ≡ some id
    → includes ids id ≡ false
    → later.active_template ≡ some other
    → includes ids other ≡ true
    → ((rerender_open_checklist_after_save body silent (some ids) before later).0.active_template
        ≡ none)
      × ((rerender_open_checklist_after_save body silent (some ids) before later).0.is_list ≡ true)
unfolding rerender_open_checklist_after_save rerender_start rerender_finish
rerender-closes_other body silent ids before later id other b gone l there = ground (arith, b, gone)

-- A checklist that stays open during the wait is shown afterwards just when it is still among today's,
-- and the view is then as it was.
rerender-keeps :
    (body : OpBody) (silent : Bool) (today : Option (List String)) (v : View) (id : String)
    → v.active_template ≡ some id
    → (rerender_open_checklist_after_save body silent today v v).0.active_template
      ≡ (if still_today today id then some id else none)
unfolding rerender_open_checklist_after_save rerender_start rerender_finish
rerender-keeps body silent today v id h = ground (arith, h)
