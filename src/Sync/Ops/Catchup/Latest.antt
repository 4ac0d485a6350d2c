-- ===== src/Sync/Ops/Catchup/Latest.antt =====
-- A catch-up on a page without rejections: the answer of a field is what the last operation on it says.
use yumyums_purchase_orders.Common.{
  String, ◌≡◌, refl, sym, ap, ◌∙◌, Bool, false, List, [], ◌∷◌, Option, none, some, text_eq,
  text_cases, eq_refl, inl, inr, Option-cases, Bool-cases, if◌then◌else◌,
}
use mathlib.Core.Path.{subst}
use yumyums_purchase_orders.Common.Int.{ℤ}
use yumyums_purchase_orders.Json.{Value, Fields, keys}
use yumyums_purchase_orders.Store.{lookup}
use yumyums_purchase_orders.Store.Keys.{lookup-write_self, lookup-remove_self}
use yumyums_purchase_orders.Sync.Ops.{
  Answer, Flag, Page, OpBody, Op, set_field, submit_checklist, approve_item, reject_item,
  save_template, archive_template, other_op, is_nullish, display_name,
}
use yumyums_purchase_orders.Sync.Ops.Apply.{
  gate_step, gate_flag, gate_steps, entry_of, answer_steps, answer_value, unwrap, answer,
  is_bounced, apply_set_field, apply_body, set_branch, draw, clear_own, store_entry,
}
use yumyums_purchase_orders.Sync.Ops.Catchup.Wire.{wire_answer, wire-read, stored_answer}
use yumyums_purchase_orders.Sync.Ops.Frame.{prepared, prepared-kept, answer-responses}
use yumyums_purchase_orders.Sync.Ops.Cases.{uncheck-responses, uncheck-flags, set_branch-elsewhere}

module _ (date : String → Option ℤ) (is_url : String → Bool) (indexed : Value → Fields) where
  -- What an operation says of a field: nothing, or the answer that it leaves there, if any.
  abbrev pub says : String → String → OpBody → Option (Option Answer)
  says f at (set_field g v name) =
      if text_eq g f
      then some (if is_nullish v then none else some (wire_answer indexed at (display_name name) v))
      else none
  says f at _ = none

  abbrev pub or_say : Option (Option Answer) → Option Answer → Option Answer
  or_say none a = a
  or_say (some o) a = o

  -- The last word on a field.
  abbrev pub latest : String → List Op → Option Answer → Option Answer
  latest f [] a = a
  latest f (op ∷ ops) a = latest f ops (or_say (says f op.server_ts op.body) a)

  gate_steps-open :
      (at : String) (sids : List String) (steps : Fields) (v : Value) (p : Page)
      → p.flags ≡ []
      → gate_steps date is_url indexed at sids (steps, (v, p)) ≡ (steps, (v, p))
  unfolding gate_steps gate_step gate_flag
  gate_steps-open at [] steps v p h = refl
  gate_steps-open at (sid ∷ sids) steps v p h =
      let here : gate_step date is_url indexed at sid (steps, (v, p)) ≡ (steps, (v, p)) =
        ap (λ m. gate_flag date is_url indexed at sid (lookup sid m) (steps, (v, p))) h in
      ap (λ r. gate_steps date is_url indexed at sids r) here ∙ gate_steps-open at sids steps v p h

  entry_of-open :
      (at name : String) (a : Value) (p : Page)
      → p.flags ≡ []
      → entry_of date is_url indexed at name a p ≡ (stored_answer date is_url indexed at name a, p)
  unfolding entry_of
  entry_of-open at name a p h = elim (Option-cases (answer_steps date is_url indexed a)) [
    | inl e ↦ rw (e, entry_of) refl
    | inr (steps, e) ↦
        rw (e, entry_of)
          (ap
            (λ r. (
              record { value = r.1.0; sub_steps = some r.0; answered_by = name; answered_at = at },
              r.1.1,
            ))
            (gate_steps-open at (keys steps) steps (answer_value date is_url indexed a) p h))
  ]

  answer-open :
      (f : String) (v : Value) (name at : String) (p : Page)
      → p.flags ≡ []
      → (lookup f (answer date is_url indexed f v name at p).0.responses
          ≡ some (wire_answer indexed at name v))
        × ((answer date is_url indexed f v name at p).0.flags ≡ [])
  unfolding answer store_entry
  answer-open f v name at p h =
      let none_there : (prepared date is_url indexed f v p).flags ≡ [] =
        (prepared-kept date is_url indexed f v p).flags ∙ h in
      let entry =
        entry_of-open at name (unwrap date is_url indexed v) (prepared date is_url indexed f v p)
          none_there in
      (
        ap (λ m. lookup f m) (answer-responses date is_url indexed f v name at p)
            ∙ (lookup-write_self f _ p.responses
                ∙ ap (λ r. some r.0) entry
                ∙ ap some (wire-read date is_url indexed at name v)),
        ap
              (λ m.
                (clear_own date is_url indexed (lookup f m) f
                  (store_entry date is_url indexed f v name at p)).flags)
              h
            ∙ (ap (λ r. r.1.flags) entry ∙ none_there),
      )

  set_branch-open :
      (f : String) (v : Value) (name at : String) (p : Page)
      → p.flags ≡ []
      → (lookup f (set_branch date is_url indexed f v name at p).0.responses
          ≡ (if is_nullish v then none else some (wire_answer indexed at name v)))
        × ((set_branch date is_url indexed f v name at p).0.flags ≡ [])
  unfolding set_branch
  set_branch-open f v name at p h = elim (Bool-cases (is_nullish v)) [
    | inl b ↦
        rw (b, set_branch)
          (
            ap (λ m. lookup f m) (uncheck-responses date is_url indexed f p)
                ∙ lookup-remove_self f p.responses,
            uncheck-flags date is_url indexed f p ∙ h,
          )
    | inr b ↦ rw (b, set_branch) (answer-open f v name at p h)
  ]

  apply_set_field-open :
      (f : String) (v : Value) (name user at : String) (silent : Bool) (p : Page)
      → p.flags ≡ []
      → (apply_set_field date is_url indexed f v name user at silent p).0
        ≡ (set_branch date is_url indexed f v (display_name name) at p).0
  unfolding apply_set_field
  apply_set_field-open f v name user at silent p h =
      ap
        (λ m.
          (if is_bounced_in m
            then (p, [])
            else draw date is_url indexed f user (display_name name) silent
                (set_branch date is_url indexed f v (display_name name) at p)).0)
        h
    where
      is_bounced_in : List (String × Flag) → Bool
      is_bounced_in m = elim (lookup f m) [
        | none ↦ false
        | some flag ↦ is_bounced date is_url indexed at flag
      ]

  -- What a body does to the answer of a field.
  abbrev pub Says : String → String → OpBody → Page → Page → Type 0
  Says f at body p q =
      (lookup f q.responses ≡ or_say (says f at body) (lookup f p.responses)) × (q.flags ≡ [])

  set_branch-Says :
      (f g : String) (v : Value) (name at : String) (p : Page)
      → p.flags ≡ []
      → Says f at
          (set_field g v name)
          p
          (set_branch date is_url indexed g v (display_name name) at p).0
  set_branch-Says f g v name at p h =
      let (said, empty) = set_branch-open g v (display_name name) at p h in
      elim (text_cases g f) [
        | inl e ↦
            subst
              (λ j.
                Says j at (set_field g v name) p
                  (set_branch date is_url indexed g v (display_name name) at p).0)
              e (rw (eq_refl g) (said, empty))
        | inr d ↦
            rw d (set_branch-elsewhere date is_url indexed g v (display_name name) at p f d, empty)
      ]

  pub apply_body-Says :
      (f : String) (op : Op) (body : OpBody) (silent : Bool) (p : Page)
      → p.flags ≡ []
      → Says f op.server_ts body p (apply_body date is_url indexed op body silent p).0
  unfolding apply_body
  apply_body-Says f op (set_field g v name) silent p h =
      subst (λ q. Says f op.server_ts (set_field g v name) p q)
        (sym (apply_set_field-open g v name op.user_id op.server_ts silent p h))
        (set_branch-Says f g v name op.server_ts p h)
  apply_body-Says f op submit_checklist silent p h = (refl, h)
  apply_body-Says f op approve_item silent p h = (refl, h)
  apply_body-Says f op reject_item silent p h = (refl, h)
  apply_body-Says f op save_template silent p h = (refl, h)
  apply_body-Says f op archive_template silent p h = (refl, h)
  apply_body-Says f op (other_op kind) silent p h = (refl, h)
