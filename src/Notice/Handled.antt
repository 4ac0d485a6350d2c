-- ===== src/Notice/Handled.antt =====
-- When a row of the sheet counts as handled.
use yumyums_purchase_orders.Common.{
  String, ◌≡◌, refl, ap, Bool, true, false, not, ◌&&◌, ◌||◌, List, [], ◌∷◌, ◌++◌, Option, none,
  some, arith, text_eq, eq_refl, any,
}
use yumyums_purchase_orders.Notice.{Record, Group, is_handled}
use yumyums_purchase_orders.Notice.Rows.{row_of, patch, row_of-patch, row_of-remove}
use yumyums_purchase_orders.Notice.Restore.{
  Applied, written, refused, offline, Write, Action, restore_row, keep_row, undo_row, dismiss_row,
  commit_group, starting, finish, keeping, undoing, find_row, batch_ids, restore_found, restore,
  restore_each, act, act_all,
}

abbrev pub is_handled_at : String → List Record → Bool
is_handled_at j rows = elim (row_of j rows) [ none ↦ false | some r ↦ is_handled r ]

abbrev pub is_written : Applied → Bool
is_written written = true
is_written _ = false

-- A call of `applyRestore` for a row that resolved.
abbrev pub wrote : String → List Write → Bool
wrote j log = any (λ w. is_written w.result && text_eq w.id j) log

-- Whether a tap may make the row handled with no write: it keeps the row, or it asks to restore the row
-- or a group and there is no `applyRestore`.
abbrev pub marks : Bool → Action → String → Bool
marks has_apply_restore (keep_row id) j = text_eq id j
marks has_apply_restore (restore_row result id) j = not has_apply_restore && text_eq id j
marks has_apply_restore (commit_group result doc) j = not has_apply_restore
marks has_apply_restore _ j = false

wrote-append : (j : String) (xs ys : List Write) → wrote j (xs ++ ys) ≡ (wrote j xs || wrote j ys)
wrote-append j [] ys = refl
wrote-append j (x ∷ xs) ys = ground (arith, wrote-append j xs ys)

-- One step after another.
chain :
    (j : String) (a b k l : Bool) (first more : List Write)
    → (b ≡ true → ((a || k) || wrote j first) ≡ true)
    → ((b || l) || wrote j more) ≡ true
    → ((a || (k || l)) || wrote j (first ++ more)) ≡ true
chain j a b k l first more here later = ground (arith, here, later, wrote-append j first more)

again :
    (j : String) (a b k : Bool) (first more : List Write)
    → (b ≡ true → ((a || k) || wrote j first) ≡ true)
    → ((b || k) || wrote j more) ≡ true
    → ((a || k) || wrote j (first ++ more)) ≡ true
again j a b k first more here later = ground (arith, here, later, wrote-append j first more)

-- The kind of a failure, as the sheet is told it.
abbrev pub failure_kind : Applied → String
failure_kind written = ""
failure_kind refused = "conflict"
failure_kind offline = "offline"

finish-id : (o : Applied) (x : Record) → (finish o x).id ≡ x.id
finish-id written x = refl
finish-id refused x = refl
finish-id offline x = refl

module _ (has_apply_restore : Bool) (model : List Record → List Group) where
  -- `applyRestore` is there and its call resolves, or it is there and rejects, or it is not there.
  restore-handled :
      (result : Applied) (id : String) (o : Option Record) (rows : List Record) (j : String)
      → is_handled_at j (restore_found has_apply_restore model result id o rows).0 ≡ true
      → ((is_handled_at j rows || (not has_apply_restore && text_eq id j))
          || wrote j (restore_found has_apply_restore model result id o rows).1)
        ≡ true
  restore-handled result id none rows j h = ground (arith, h)
  restore-handled written id (some row) rows j h = ground (
    arith,
    h,
    row_of-patch starting (λ r. refl) id rows j,
    row_of-patch (finish written) (λ r. refl) id (patch starting id rows) j,
  )
  restore-handled refused id (some row) rows j h = ground (
    arith,
    h,
    row_of-patch starting (λ r. refl) id rows j,
    row_of-patch (finish refused) (λ r. refl) id (patch starting id rows) j,
    row_of-patch (finish written) (λ r. refl) id (patch starting id rows) j,
  )
  restore-handled offline id (some row) rows j h = ground (
    arith,
    h,
    row_of-patch starting (λ r. refl) id rows j,
    row_of-patch (finish offline) (λ r. refl) id (patch starting id rows) j,
    row_of-patch (finish written) (λ r. refl) id (patch starting id rows) j,
  )

  -- Of one row of a group.
  restore-may_mark :
      (result : Applied) (id : String) (rows : List Record) (j : String)
      → is_handled_at j (restore has_apply_restore model result id rows).0 ≡ true
      → ((is_handled_at j rows || not has_apply_restore)
          || wrote j (restore has_apply_restore model result id rows).1)
        ≡ true
  unfolding restore
  restore-may_mark result id rows j h =
      loosen (is_handled_at j rows) has_apply_restore (text_eq id j) _
        (restore-handled result id (find_row id (model rows)) rows j h)
    where
      loosen : (a b c d : Bool) → ((a || (not b && c)) || d) ≡ true → ((a || not b) || d) ≡ true
      loosen a b c d e = ground (arith, e)

  restore_each-handled :
      (result : String → Applied) (ids : List String) (rows : List Record) (j : String)
      → is_handled_at j (restore_each has_apply_restore model result ids rows).0 ≡ true
      → ((is_handled_at j rows || not has_apply_restore)
          || wrote j (restore_each has_apply_restore model result ids rows).1)
        ≡ true
  unfolding restore_each
  restore_each-handled result [] rows j h = ground (arith, h)
  restore_each-handled result (id ∷ ids) rows j h =
      let next = restore has_apply_restore model (result id) id rows in
      let rest = restore_each has_apply_restore model result ids next.0 in
      let here = restore-may_mark (result id) id rows j in
      let later = restore_each-handled result ids next.0 j h in
      again j (is_handled_at j rows) (is_handled_at j next.0) (not has_apply_restore) next.1 rest.1
        here later

  act-handled :
      (a : Action) (rows : List Record) (j : String)
      → is_handled_at j (act has_apply_restore model a rows).0 ≡ true
      → ((is_handled_at j rows || marks has_apply_restore a j)
          || wrote j (act has_apply_restore model a rows).1)
        ≡ true
  unfolding act restore
  act-handled (restore_row result id) rows j h =
      restore-handled result id (find_row id (model rows)) rows j h
  act-handled (keep_row id) rows j h = ground (arith, h, row_of-patch keeping (λ r. refl) id rows j)
  act-handled (undo_row id) rows j h = ground (arith, h, row_of-patch undoing (λ r. refl) id rows j)
  act-handled (dismiss_row id) rows j h = ground (arith, h, row_of-remove id rows j)
  act-handled (commit_group result doc) rows j h =
      restore_each-handled result (batch_ids doc (model rows)) rows j h

  -- A row comes to count as handled only by being kept or by a write of its value that succeeded: over any
  -- sequence of restores, keeps, undos, dismissals and batches, whatever each write answered, a row
  -- that is handled in the end was handled before, or one of the controls kept it, or a call of
  -- `applyRestore` for it resolved. A restore that failed never makes a row look done. Where no
  -- `applyRestore` is given, a tap that asks to restore the row, or a group, may do it with no write.
  pub act_all-handled :
      (actions : List Action) (rows : List Record) (j : String)
      → is_handled_at j (act_all has_apply_restore model actions rows).0 ≡ true
      → ((is_handled_at j rows || any (λ a. marks has_apply_restore a j) actions)
          || wrote j (act_all has_apply_restore model actions rows).1)
        ≡ true
  unfolding act_all
  act_all-handled [] rows j h = ground (arith, h)
  act_all-handled (a ∷ actions) rows j h =
      let next = act has_apply_restore model a rows in
      let rest = act_all has_apply_restore model actions next.0 in
      chain j (is_handled_at j rows) (is_handled_at j next.0) (marks has_apply_restore a j)
        (any (λ x. marks has_apply_restore x j) actions) next.1 rest.1 (act-handled a rows j)
        (act_all-handled actions next.0 j h)

module _ (model : List Record → List Group) where
  -- A restore that fails leaves its row on the sheet as unfinished business: of the stored row only the
  -- status and the failure change, the status is 'failed' and the failure 'conflict' where the write
  -- was refused and 'offline' where it rejected otherwise; the row does not count as handled, and
  -- every other row is as it was. The row is among those that are shown, and `applyRestore` is given.
  pub restore-unfinished :
      (result : Applied) (id : String) (rows : List Record) (r row : Record)
      → is_written result ≡ false
      → row_of id rows ≡ some r
      → find_row id (model rows) ≡ some row
      → (row_of id (restore true model result id rows).0
          ≡ some (record r { status = "failed"; failure = failure_kind result }))
        × ((is_handled_at id (restore true model result id rows).0 ≡ false)
            × ((j : String)
                → text_eq id j ≡ false
                → row_of j (restore true model result id rows).0 ≡ row_of j rows))
  unfolding restore
  restore-unfinished result id rows r row failed stored shown =
      rw (shown, restore)
        (
          finished result failed,
          (
            unhandled result failed,
            λ j d. ground (
              arith,
              d,
              row_of-patch starting (λ x. refl) id rows j,
              row_of-patch (finish result) (finish-id result) id (patch starting id rows) j,
            ),
          ),
        )
    where
      finished :
          (o : Applied)
          → is_written o ≡ false
          → row_of id (patch (finish o) id (patch starting id rows))
            ≡ some (record r { status = "failed"; failure = failure_kind o })
      finished written f = ground (arith, f)
      finished refused f = ground (
        arith,
        stored,
        eq_refl id,
        row_of-patch starting (λ x. refl) id rows id,
        row_of-patch (finish refused) (λ x. refl) id (patch starting id rows) id,
      )
      finished offline f = ground (
        arith,
        stored,
        eq_refl id,
        row_of-patch starting (λ x. refl) id rows id,
        row_of-patch (finish offline) (λ x. refl) id (patch starting id rows) id,
      )

      unhandled :
          (o : Applied)
          → is_written o ≡ false
          → is_handled_at id (patch (finish o) id (patch starting id rows)) ≡ false
      unhandled written f = ground (arith, f)
      unhandled refused f =
          ap (λ o. elim o [ none ↦ false | some x ↦ is_handled x ]) (finished refused f)
      unhandled offline f =
          ap (λ o. elim o [ none ↦ false | some x ↦ is_handled x ]) (finished offline f)
