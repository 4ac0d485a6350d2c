-- ===== src/Notice/Restore.antt =====
-- sync-rxdb/conflict-notice-ui.js, `mountConflictNotice`: what the controls of the sheet do to the stored records. The
-- model that a control reads is built from the store's rows. `applyRestore` may be missing; where it
-- is given, what it does is an argument of each call, and the calls are listed. The store's calls do not fail.
use yumyums_purchase_orders.Common.{
  ℕ, String, Bool, true, false, List, [], ◌∷◌, ◌++◌, Option, none, some, text_eq, find, keep,
  if◌then◌else◌,
}
use yumyums_purchase_orders.Common.Int.{ℤ}
use yumyums_purchase_orders.Json.{Value}
use yumyums_purchase_orders.Notice.{Record, Group, build_sheet_model, is_batch_target}
use yumyums_purchase_orders.Notice.Rows.{row_of, patch, remove_row, ids_of}

-- What `applyRestore` does: it resolves, or it rejects with a ConflictError or with another error.
pub data Applied : Type 0 where
  written refused offline : Applied

-- A call of `applyRestore`, with the row's id and unformatted value.
pub record Write : Type 0 where
  pub id : String
  pub value : Value
  pub result : Applied

-- A control of the sheet that changes the store.
pub data Action : Type 0 where
  restore_row : Applied → String → Action
  keep_row undo_row dismiss_row : String → Action
  commit_group : (String → Applied) → String → Action

-- The fields of each patch.
abbrev pub starting : Record → Record
starting r = record r { status = "restoring"; failure = "" }

abbrev pub finish : Applied → Record → Record
finish written r = record r { status = "restored"; undone = false; failure = "" }
finish refused r = record r { status = "failed"; failure = "conflict" }
finish offline r = record r { status = "failed"; failure = "offline" }

abbrev pub keeping : Record → Record
keeping r = record r { status = "kept"; undone = false }

abbrev pub undoing : Record → Record
undoing r = record r { status = "open"; undone = true }

-- `findRow`, over the groups that are shown.
abbrev pub find_row : String → List Group → Option Record
find_row id [] = none
find_row id (g ∷ gs) = elim (row_of id g.records) [ none ↦ find_row id gs | some r ↦ some r ]

-- `g.batchIds`, of the group of a document.
abbrev pub batch_ids : String → List Group → List String
batch_ids doc gs = elim (find (λ g. text_eq g.doc_key doc) gs) [
  | none ↦ []
  | some g ↦ ids_of (keep is_batch_target g.records)
]

module _ (has_apply_restore : Bool) (model : List Record → List Group) where
  -- `restore`, of a row that the model found or did not find.
  abbrev pub restore_found :
      Applied → String → Option Record → List Record → List Record × List Write
  restore_found result id none rows = (rows, [])
  restore_found result id (some row) rows =
      if has_apply_restore
      then (
        patch (finish result) id (patch starting id rows),
        (record { id = id; value = row.discarded_value; result = result }) ∷ [],
      )
      else (patch (finish written) id (patch starting id rows), [])

  unfoldable pub restore : Applied → String → List Record → List Record × List Write
  restore result id rows = restore_found result id (find_row id (model rows)) rows

  -- The loop of 'cn-commit' over the ids of the batch.
  unfoldable pub restore_each :
      (String → Applied) → List String → List Record → List Record × List Write
  unfolding restore
  restore_each result [] rows = (rows, [])
  restore_each result (id ∷ ids) rows =
      let (next, first) = restore (result id) id rows in
      let (last, more) = restore_each result ids next in (last, first ++ more)

  -- `onClick`, of the controls that change the store.
  unfoldable pub act : Action → List Record → List Record × List Write
  unfolding restore_each
  act (restore_row result id) rows = restore result id rows
  act (keep_row id) rows = (patch keeping id rows, [])
  act (undo_row id) rows = (patch undoing id rows, [])
  act (dismiss_row id) rows = (remove_row id rows, [])
  act (commit_group result doc) rows = restore_each result (batch_ids doc (model rows)) rows

  unfoldable pub act_all : List Action → List Record → List Record × List Write
  unfolding act
  act_all [] rows = (rows, [])
  act_all (a ∷ rest) rows =
      let (next, first) = act a rows in
      let (last, more) = act_all rest next in (last, first ++ more)

-- The model of `rebuild`.
abbrev pub shown_groups :
    (String → String → Bool) → (String → String → Bool) → ℕ → ℤ → ℤ → List Record → List Group
shown_groups gt locale_le max_groups now window rows =
    (build_sheet_model gt locale_le max_groups now window rows).groups
