-- ===== src/Sync/Ops/Quiet.antt =====
-- A silent replay makes no noise: what `applyOp` calls during a catch-up.
use yumyums_purchase_orders.Common.{
  ℕ, String, ◌≡◌, refl, ap, ◌∙◌, Bool, true, false, ◌&&◌, List, [], ◌∷◌, Option, none, some, arith,
  all, all-append, if_cases, inl, inr, Option-cases,
}
use yumyums_purchase_orders.Common.Int.{ℤ}
use yumyums_purchase_orders.Common.Sort.{sort_by}
use yumyums_purchase_orders.Json.{Value, Fields}
use yumyums_purchase_orders.Sync.Lamport.{receive}
use yumyums_purchase_orders.Sync.Ops.{
  Draft, Page, OpBody, Op, set_field, submit_checklist, approve_item, reject_item, save_template,
  archive_template, other_op, Effect, flashed, toasted, checklists_loaded, reopened, display_name,
  is_nullish,
}
use yumyums_purchase_orders.Sync.Ops.Apply.{
  uncheck, answer, set_branch, draw, drawn, is_gated, is_own, apply_set_field, apply_body, apply_op,
  draft_change,
}
use yumyums_purchase_orders.Sync.Ops.Cases.{apply_op-runner}
use yumyums_purchase_orders.Sync.Ops.Catchup.{Tab, take_op, take_ops, ws_catch_up, is_later}

-- Neither a flash nor a toast, nor a request for the checklists.
abbrev pub is_quiet : Effect → Bool
is_quiet (flashed f) = false
is_quiet (toasted user name fields) = false
is_quiet checklists_loaded = false
is_quiet reopened = false
is_quiet _ = true

module _ (date : String → Option ℤ) (is_url : String → Bool) (indexed : Value → Fields) where
  draft_change-quiet :
      (o : Option (List Draft)) → all is_quiet (draft_change date is_url indexed o) ≡ true
  draft_change-quiet none = refl
  draft_change-quiet (some ds) = refl

  uncheck-quiet : (f : String) (p : Page) → all is_quiet (uncheck date is_url indexed f p).1 ≡ true
  unfolding uncheck
  uncheck-quiet f p = ground arith

  answer-quiet :
      (f : String) (v : Value) (name at : String) (p : Page)
      → all is_quiet (answer date is_url indexed f v name at p).1 ≡ true
  unfolding answer
  answer-quiet f v name at p = draft_change-quiet _

  set_branch-quiet :
      (f : String) (v : Value) (name at : String) (p : Page)
      → all is_quiet (set_branch date is_url indexed f v name at p).1 ≡ true
  unfolding set_branch
  set_branch-quiet f v name at p =
      elim (if_cases (is_nullish v) (uncheck date is_url indexed f p)
        (answer date is_url indexed f v name at p)) [
          | inl (b, e) ↦ ap (λ r. all is_quiet r.1) e ∙ uncheck-quiet f p
          | inr (b, e) ↦ ap (λ r. all is_quiet r.1) e ∙ answer-quiet f v name at p
        ]

  drawn-quiet :
      (f user name : String) (p : Page)
      → all is_quiet (drawn date is_url indexed f user name true p) ≡ true
  drawn-quiet f user name p = ground arith

  apply_set_field-quiet :
      (f : String) (v : Value) (name user at : String) (p : Page)
      → all is_quiet (apply_set_field date is_url indexed f v name user at true p).1 ≡ true
  unfolding apply_set_field
  apply_set_field-quiet f v name user at p =
      let done = set_branch date is_url indexed f v (display_name name) at p in
      elim (if_cases (is_gated date is_url indexed f at p) (p, [])
        (draw date is_url indexed f user (display_name name) true done)) [
          | inl (b, e) ↦ ap (λ r. all is_quiet r.1) e
          | inr (b, e) ↦
              ap (λ r. all is_quiet r.1) e
              ∙ (all-append is_quiet done.1
                    (drawn date is_url indexed f user (display_name name) true done.0)
                  ∙ (ap
                        (λ x.
                          x
                          && all is_quiet
                              (drawn date is_url indexed f user (display_name name) true done.0))
                        (set_branch-quiet f v (display_name name) at p)
                      ∙ drawn-quiet f user (display_name name) done.0))
        ]

  apply_body-quiet :
      (op : Op) (body : OpBody) (p : Page)
      → p.runner ≡ none
      → all is_quiet (apply_body date is_url indexed op body true p).1 ≡ true
  unfolding apply_body
  apply_body-quiet op (set_field f v name) p closed =
      apply_set_field-quiet f v name op.user_id op.server_ts p
  apply_body-quiet op submit_checklist p closed = ground (arith, closed)
  apply_body-quiet op approve_item p closed = ground (arith, closed)
  apply_body-quiet op reject_item p closed = ground (arith, closed)
  apply_body-quiet op save_template p closed = ground (arith, closed)
  apply_body-quiet op archive_template p closed = ground (arith, closed)
  apply_body-quiet op (other_op kind) p closed = refl

  apply_op-quiet :
      (device : Option String) (op : Op) (p : Page)
      → p.runner ≡ none
      → all is_quiet (apply_op date is_url indexed device op true p).1 ≡ true
  unfolding apply_op
  apply_op-quiet device op p closed =
      elim (if_cases (is_own date is_url indexed device op) (p, [])
        (apply_body date is_url indexed op op.body true p)) [
          | inl (b, e) ↦ ap (λ r. all is_quiet r.1) e
          | inr (b, e) ↦ ap (λ r. all is_quiet r.1) e ∙ apply_body-quiet op op.body p closed
        ]

  take_ops-quiet :
      (ops : List Op) (t : Tab)
      → t.page.runner ≡ none
      → all is_quiet (take_ops date is_url indexed ops t).1 ≡ true
  unfolding take_ops take_op
  take_ops-quiet [] t closed = refl
  take_ops-quiet (op ∷ ops) t closed =
      let device = some (receive t.clock op.lamport_ts).device_id in
      let next = (take_op date is_url indexed true op t).0 in
      let more = (take_ops date is_url indexed ops next).1 in
      all-append is_quiet (apply_op date is_url indexed device op true t.page).1 more
      ∙ (ap (λ x. x && all is_quiet more) (apply_op-quiet device op t.page closed)
          ∙ take_ops-quiet ops next
              (apply_op-runner date is_url indexed device op true t.page ∙ closed))

  -- Where no checklist is open, a catch-up of any length and of any operations flashes no field, shows
  -- no toast and requests the checklists not once.
  pub ws_catch_up-quiet :
      (server : ℕ → Option (List Op)) (t : Tab)
      → t.page.runner ≡ none
      → all is_quiet (ws_catch_up date is_url indexed server t).1 ≡ true
  unfolding ws_catch_up
  ws_catch_up-quiet server t closed = elim (Option-cases (server t.clock.ts)) [
    | inl e ↦ rw (e, ws_catch_up) refl
    | inr (ops, e) ↦ rw (e, ws_catch_up) (take_ops-quiet (sort_by is_later ops) t closed)
  ]
