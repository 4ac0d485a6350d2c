-- ===== src/Sync/Ops/Apply.antt =====
-- sync.js, `applyOp` on workflows.html: what an operation of another device does to the answers, the
-- drafts, the notes, the photos and the rejection flags of the page, and which functions of the
-- page it calls. `new Date` is the parameter `date`; `indexed` is `Object.assign({}, v)` of a value that
-- is not an object. The page's functions are all there.
use yumyums_purchase_orders.Common.{
  String, Bool, true, false, ◌&&◌, List, [], ◌∷◌, ◌++◌, Option, none, some, if◌then◌else◌, text_eq,
}
use yumyums_purchase_orders.Common.Int.{ℤ, leb_ℤ}
use yumyums_purchase_orders.Json.{Value, Fields, bool, obj, keys}
use yumyums_purchase_orders.Store.{lookup, write, remove}
use yumyums_purchase_orders.Sync.Ops.{
  Answer, Flag, Draft, Page, OpBody, set_field, submit_checklist, approve_item, reject_item,
  save_template, archive_template, other_op, Op, Effect, changed, rendered, flashed, toasted,
  progress_updated, list_rendered, checklists_loaded, approvals_loaded, templates_loaded, reopened,
  is_truthy, prop, is_undefined, is_nullish, is_bundle, clear_rejection_flag, drop_draft, put_draft,
  has_draft, drop_field, fail_note_of, display_name,
}

module _ (date : String → Option ℤ) (is_url : String → Bool) (indexed : Value → Fields) where
  -- `new Date(a) <= new Date(b)`: an invalid date compares with nothing.
  abbrev pub no_later : String → String → Bool
  no_later a b = elim (date a) [
    | none ↦ false
    | some x ↦ elim (date b) [ none ↦ false | some y ↦ leb_ℤ x y ]
  ]

  -- `flag.rejectedAt && new Date(op.server_ts) <= new Date(flag.rejectedAt)`.
  abbrev pub is_bounced : String → Flag → Bool
  is_bounced at flag = elim flag.rejected_at [ none ↦ false | some r ↦ no_later at r ]

  abbrev pub spread : Value → Fields
  spread (obj o) = o
  spread v = indexed v

  -- `entry.value` and `entry.sub_steps`.
  abbrev pub answer_value : Value → Value
  answer_value a = if is_undefined (prop "value" a) then a else prop "value" a

  abbrev pub answer_steps : Value → Option Fields
  answer_steps a =
      if is_undefined (prop "value" a)
      then none
      else if is_truthy (prop "sub_steps" a)
      then some (spread (prop "sub_steps" a))
      else none

  -- The body of the loop over the sub-steps, and the loop: what is left of the steps, the entry's
  -- value, and the page, whose flags it may clear.
  unfoldable pub gate_flag :
      String → String → Option Flag → Fields × (Value × Page) → Fields × (Value × Page)
  unfolding clear_rejection_flag
  gate_flag at sid none acc = acc
  gate_flag at sid (some flag) (steps, (v, p)) =
      if is_bounced at flag
      then (drop_field sid steps, (bool false, p))
      else (steps, (v, clear_rejection_flag is_url sid p))

  unfoldable pub gate_step : String → String → Fields × (Value × Page) → Fields × (Value × Page)
  unfolding gate_flag
  gate_step at sid (steps, (v, p)) = gate_flag at sid (lookup sid p.flags) (steps, (v, p))

  unfoldable pub gate_steps :
      String → List String → Fields × (Value × Page) → Fields × (Value × Page)
  unfolding gate_step
  gate_steps at [] acc = acc
  gate_steps at (sid ∷ sids) acc = gate_steps at sids (gate_step at sid acc)

  -- The entry that is stored, and the page after the gate.
  unfoldable pub entry_of : String → String → Value → Page → Answer × Page
  unfolding gate_steps
  entry_of at name a p = elim (answer_steps a) [
    | none ↦ (
      record { value = answer_value a; sub_steps = none; answered_by = name; answered_at = at },
      p,
    )
    | some steps ↦
        let (left, (v, q)) = gate_steps at (keys steps) (steps, (answer_value a, p)) in
        (record { value = v; sub_steps = some left; answered_by = name; answered_at = at }, q)
  ]

  -- The photo and the fail note that ride with the answer.
  abbrev pub unwrap : Value → Value
  unwrap v = if is_bundle v then prop "_v" v else v

  unfoldable pub take_photo : String → Value → Page → Page
  take_photo f v p =
      if is_bundle v && is_truthy (prop "_correction_photo" v)
      then record p { photos = write f (prop "_correction_photo" v) p.photos }
      else p

  unfoldable pub take_note : String → Value → Page → Page
  take_note f v p =
      if is_truthy (prop "_fail_note" v)
      then record p { fail_notes = write f (fail_note_of (prop "_fail_note" v)) p.fail_notes }
      else record p { fail_notes = remove f p.fail_notes }

  -- The branch of a value that is null or undefined: the answer is deleted.
  unfoldable pub uncheck : String → Page → Page × List Effect
  uncheck f p =
      let q : Page = record p { responses = remove f p.responses } in
      elim p.drafts [
        | none ↦ (q, changed "fieldResponses" ∷ [])
        | some ds ↦
            if has_draft f ds
            then (
              record q { drafts = some (drop_draft f ds) },
              changed "fieldResponses" ∷ changed "draftResponses" ∷ [],
            )
            else (q, changed "fieldResponses" ∷ [])
      ]

  abbrev pub draft_put : String → Value → String → Option (List Draft) → Option (List Draft)
  draft_put f v at none = none
  draft_put f v at (some ds) = some (put_draft f v at ds)

  abbrev pub draft_change : Option (List Draft) → List Effect
  draft_change none = []
  draft_change (some ds) = changed "draftResponses" ∷ []

  -- The branch of a value: the entry is stored, then the field's own flag is cleared, then the
  -- draft changes.
  unfoldable pub store_entry : String → Value → String → String → Page → Page
  unfolding take_note take_photo entry_of
  store_entry f v name at p =
      let (entry, q) = entry_of at name (unwrap v) (take_note f v (take_photo f v p)) in
      record q { responses = write f entry q.responses }

  abbrev pub clear_own : Option Flag → String → Page → Page
  clear_own none f p = p
  clear_own (some flag) f p = clear_rejection_flag is_url f p

  unfoldable pub answer : String → Value → String → String → Page → Page × List Effect
  unfolding store_entry
  answer f v name at p =
      let cleared = clear_own (lookup f p.flags) f (store_entry f v name at p) in
      (
        record cleared { drafts = draft_put f v at cleared.drafts },
        changed "failNotes" ∷ changed "fieldResponses" ∷ draft_change cleared.drafts,
      )

  abbrev pub is_open : Page → Bool
  is_open p = elim p.runner [ none ↦ false | some id ↦ true ]

  -- What SET_FIELD draws.
  abbrev pub drawn : String → String → String → Bool → Page → List Effect
  drawn f user name silent p =
      rendered f ∷ (if silent then [] else flashed f ∷ toasted user name (f ∷ []) ∷ [])
      ++ (if is_open p then progress_updated ∷ [] else list_rendered ∷ [])

  -- The first gate of SET_FIELD.
  abbrev pub is_gated : String → String → Page → Bool
  is_gated f at p = elim (lookup f p.flags) [ none ↦ false | some flag ↦ is_bounced at flag ]

  unfoldable pub set_branch : String → Value → String → String → Page → Page × List Effect
  unfolding uncheck answer
  set_branch f v name at p = if is_nullish v then uncheck f p else answer f v name at p

  abbrev pub draw : String → String → String → Bool → Page × List Effect → Page × List Effect
  draw f user name silent (q, calls) = (q, calls ++ drawn f user name silent q)

  unfoldable pub apply_set_field :
      String → Value → String → String → String → Bool → Page → Page × List Effect
  unfolding set_branch
  apply_set_field f v name user at silent p =
      let done = draw f user (display_name name) silent (set_branch f v (display_name name) at p) in
      if is_gated f at p then (p, []) else done

  -- `loadMyChecklists`, where a runner is open or the operation is live.
  abbrev pub refresh : Bool → Page → List Effect
  refresh silent p =
      if is_open p then checklists_loaded ∷ [] else if silent then [] else checklists_loaded ∷ []

  unfoldable pub apply_body : Op → OpBody → Bool → Page → Page × List Effect
  unfolding apply_set_field
  apply_body op (set_field f v name) silent p =
      apply_set_field f v name op.user_id op.server_ts silent p
  apply_body op submit_checklist silent p = (p, refresh silent p)
  apply_body op approve_item silent p = (p, approvals_loaded ∷ refresh silent p)
  apply_body op reject_item silent p = (p, approvals_loaded ∷ refresh silent p)
  apply_body op save_template silent p =
      (p, templates_loaded ∷ (if is_open p then reopened ∷ [] else refresh silent p))
  apply_body op archive_template silent p =
      (p, templates_loaded ∷ (if is_open p then reopened ∷ [] else refresh silent p))
  apply_body op (other_op kind) silent p = (p, [])

  -- The op's device is this tab's.
  abbrev pub is_own : Option String → Op → Bool
  is_own none op = false
  is_own (some id) op = text_eq op.device_id id

  -- `applyOp`: `device` is the id of LAMPORT_CLOCK, where there is a clock.
  unfoldable pub apply_op : Option String → Op → Bool → Page → Page × List Effect
  unfolding apply_body
  apply_op device op silent p =
      let done = apply_body op op.body silent p in if is_own device op then (p, []) else done
