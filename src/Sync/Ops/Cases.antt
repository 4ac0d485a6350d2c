-- ===== src/Sync/Ops/Cases.antt =====
-- `applyOp`: which branch an operation takes, and the answers that it leaves alone.
use yumyums_purchase_orders.Common.{
  String, ◌≡◌, refl, ◌∙◌, Bool, false, [], Option, arith, text_eq, inl, inr, if_cases, ◌⊎◌, ap, sym,
}
use mathlib.Core.Path.{subst}
use yumyums_purchase_orders.Common.Int.{ℤ}
use yumyums_purchase_orders.Json.{Value, Fields}
use yumyums_purchase_orders.Store.{lookup, remove}
use yumyums_purchase_orders.Store.Keys.{lookup-write_ne, lookup-remove_ne}
use yumyums_purchase_orders.Sync.Ops.{
  Page, OpBody, set_field, submit_checklist, approve_item, reject_item, save_template,
  archive_template, other_op, Op, display_name, is_nullish,
}
use yumyums_purchase_orders.Sync.Ops.Apply.{
  uncheck, answer, is_gated, is_own, set_branch, draw, apply_set_field, apply_body, apply_op,
}
use yumyums_purchase_orders.Sync.Ops.Frame.{answer-responses, answer-runner}

-- The field that an operation sets.
abbrev pub sets : OpBody → String → Bool
sets (set_field f v name) j = text_eq f j
sets _ j = false

module _ (date : String → Option ℤ) (is_url : String → Bool) (indexed : Value → Fields) where
  pub uncheck-responses :
      (f : String) (p : Page) → (uncheck date is_url indexed f p).0.responses ≡ remove f p.responses
  unfolding uncheck
  uncheck-responses f p = ground arith

  pub uncheck-flags : (f : String) (p : Page) → (uncheck date is_url indexed f p).0.flags ≡ p.flags
  unfolding uncheck
  uncheck-flags f p = ground arith

  uncheck-runner : (f : String) (p : Page) → (uncheck date is_url indexed f p).0.runner ≡ p.runner
  unfolding uncheck
  uncheck-runner f p = ground arith

  -- What an operation does to the page: nothing, or one of the branches of SET_FIELD, which a
  -- rejection that is as late as the operation keeps shut.
  pub data Applied (op : Op) (p q : Page) : Type 0 where
    skipped : q ≡ p → Applied op p q
    unchecked :
        (f : String) (v : Value) (name : String)
        → op.body ≡ set_field f v name
        → is_gated date is_url indexed f op.server_ts p ≡ false
        → q ≡ (uncheck date is_url indexed f p).0
        → Applied op p q
    answered :
        (f : String) (v : Value) (name : String)
        → op.body ≡ set_field f v name
        → is_gated date is_url indexed f op.server_ts p ≡ false
        → q ≡ (answer date is_url indexed f v (display_name name) op.server_ts p).0
        → Applied op p q

  set_branch-cases :
      (f : String) (v : Value) (name at : String) (p : Page)
      → (set_branch date is_url indexed f v name at p ≡ uncheck date is_url indexed f p)
        ⊎ (set_branch date is_url indexed f v name at p ≡ answer date is_url indexed f v name at p)
  unfolding set_branch
  set_branch-cases f v name at p =
      elim (if_cases (is_nullish v) (uncheck date is_url indexed f p)
        (answer date is_url indexed f v name at p)) [ inl (b, e) ↦ inl e | inr (b, e) ↦ inr e ]

  pub set_branch-elsewhere :
      (f : String) (v : Value) (name at : String) (p : Page) (j : String)
      → text_eq f j ≡ false
      → lookup j (set_branch date is_url indexed f v name at p).0.responses ≡ lookup j p.responses
  set_branch-elsewhere f v name at p j d = elim (set_branch-cases f v name at p) [
    | inl e ↦
        ap (λ r. lookup j r.0.responses) e
        ∙ (ap (λ m. lookup j m) (uncheck-responses f p) ∙ lookup-remove_ne f j p.responses d)
    | inr e ↦
        ap (λ r. lookup j r.0.responses) e
        ∙ (ap (λ m. lookup j m) (answer-responses date is_url indexed f v name at p)
            ∙ lookup-write_ne f j _ p.responses d)
  ]

  apply_set_field-cases :
      (f : String) (v : Value) (name user at : String) (silent : Bool) (p : Page)
      → ((apply_set_field date is_url indexed f v name user at silent p).0 ≡ p)
        ⊎ ((is_gated date is_url indexed f at p ≡ false)
            × ((apply_set_field date is_url indexed f v name user at silent p).0
                ≡ (set_branch date is_url indexed f v (display_name name) at p).0))
  unfolding apply_set_field
  apply_set_field-cases f v name user at silent p =
      elim (if_cases (is_gated date is_url indexed f at p) (p, [])
        (draw date is_url indexed f user (display_name name) silent
          (set_branch date is_url indexed f v (display_name name) at p))) [
            | inl (b, e) ↦ inl (ap (λ r. r.0) e)
            | inr (b, e) ↦ inr (b, ap (λ r. r.0) e)
          ]

  apply_body-cases :
      (op : Op) (body : OpBody) (silent : Bool) (p : Page)
      → op.body ≡ body
      → Applied op p (apply_body date is_url indexed op body silent p).0
  unfolding apply_body
  apply_body-cases op (set_field f v name) silent p e =
      elim (apply_set_field-cases f v name op.user_id op.server_ts silent p) [
        | inl s ↦ skipped s
        | inr (b, s) ↦ elim (set_branch-cases f v (display_name name) op.server_ts p) [
          | inl t ↦ unchecked f v name e b (s ∙ ap (λ r. r.0) t)
          | inr t ↦ answered f v name e b (s ∙ ap (λ r. r.0) t)
        ]
      ]
  apply_body-cases op submit_checklist silent p e = skipped refl
  apply_body-cases op approve_item silent p e = skipped refl
  apply_body-cases op reject_item silent p e = skipped refl
  apply_body-cases op save_template silent p e = skipped refl
  apply_body-cases op archive_template silent p e = skipped refl
  apply_body-cases op (other_op kind) silent p e = skipped refl

  pub apply_op-cases :
      (device : Option String) (op : Op) (silent : Bool) (p : Page)
      → Applied op p (apply_op date is_url indexed device op silent p).0
  unfolding apply_op
  apply_op-cases device op silent p =
      elim (if_cases (is_own date is_url indexed device op) (p, [])
        (apply_body date is_url indexed op op.body silent p)) [
          | inl (b, e) ↦ skipped (ap (λ r. r.0) e)
          | inr (b, e) ↦
              subst (λ r. Applied op p r.0) (sym e) (apply_body-cases op op.body silent p refl)
        ]

  pub apply_op-runner :
      (device : Option String) (op : Op) (silent : Bool) (p : Page)
      → (apply_op date is_url indexed device op silent p).0.runner ≡ p.runner
  apply_op-runner device op silent p = elim (apply_op-cases device op silent p) [
    | skipped e ↦ ap (λ q. q.runner) e
    | unchecked f v name b g e ↦ ap (λ q. q.runner) e ∙ uncheck-runner f p
    | answered f v name b g e ↦
        ap (λ q. q.runner) e
        ∙ answer-runner date is_url indexed f v (display_name name) op.server_ts p
  ]

  -- An operation changes no answer but that of the field it sets.
  pub apply_op-elsewhere :
      (device : Option String) (op : Op) (silent : Bool) (p : Page) (j : String)
      → sets op.body j ≡ false
      → lookup j (apply_op date is_url indexed device op silent p).0.responses
        ≡ lookup j p.responses
  apply_op-elsewhere device op silent p j d = elim (apply_op-cases device op silent p) [
    | skipped e ↦ ap (λ q. lookup j q.responses) e
    | unchecked f v name b g e ↦
        ap (λ q. lookup j q.responses) e
        ∙ (ap (λ m. lookup j m) (uncheck-responses f p)
            ∙ lookup-remove_ne f j p.responses (sym (ap (λ x. sets x j) b) ∙ d))
    | answered f v name b g e ↦
        ap (λ q. lookup j q.responses) e
        ∙ (ap (λ m. lookup j m)
              (answer-responses date is_url indexed f v (display_name name) op.server_ts p)
            ∙ lookup-write_ne f j _ p.responses (sym (ap (λ x. sets x j) b) ∙ d))
  ]
