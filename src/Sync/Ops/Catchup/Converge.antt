-- ===== src/Sync/Ops/Catchup/Converge.antt =====
-- A catch-up as a fold over what the operations say, and two tabs that come to agree.
use yumyums_purchase_orders.Common.{
  ℕ, String, ◌≡◌, refl, sym, ap, ◌∙◌, Bool, true, false, not, List, [], ◌∷◌, Option, some, arith,
  text_eq, any, keep, inl, inr, Bool-cases,
}
use yumyums_purchase_orders.Common.Int.{ℤ}
use yumyums_purchase_orders.Common.Sort.{sort_by}
use yumyums_purchase_orders.Json.{Value, Fields}
use yumyums_purchase_orders.Store.{lookup}
use yumyums_purchase_orders.Sync.Lamport.{receive}
use yumyums_purchase_orders.Sync.Ops.{
  Answer, OpBody, Op, set_field, submit_checklist, approve_item, reject_item, save_template,
  archive_template, other_op,
}
use yumyums_purchase_orders.Sync.Ops.Apply.{apply_op}
use yumyums_purchase_orders.Sync.Ops.Cases.{sets}
use yumyums_purchase_orders.Sync.Ops.Catchup.{Tab, take_op, take_ops, ws_catch_up, is_later}
use yumyums_purchase_orders.Sync.Ops.Catchup.Latest.{latest, says, or_say, apply_body-Says}

module _ (date : String → Option ℤ) (is_url : String → Bool) (indexed : Value → Fields) where
  -- The operations of a tab's own device do not count.
  abbrev pub foreign : String → List Op → List Op
  foreign id ops = keep (λ op. not (text_eq op.device_id id)) ops

  take_op-latest :
      (f : String) (op : Op) (t : Tab)
      → t.page.flags ≡ []
      → let next = (take_op date is_url indexed true op t).0 in
        (lookup f next.page.responses
          ≡ latest date is_url indexed f
              (foreign t.clock.device_id (op ∷ []))
              (lookup f t.page.responses))
        × ((next.page.flags ≡ []) × (next.clock.device_id ≡ t.clock.device_id))
  unfolding take_op receive apply_op
  take_op-latest f op t h = elim (Bool-cases (text_eq op.device_id t.clock.device_id)) [
    | inl own ↦ rw own (refl, (h, refl))
    | inr other ↦
        let (said, empty) = apply_body-Says date is_url indexed f op op.body true t.page h in
        rw other (said, (empty, refl))
  ]

  latest-split :
      (f : String) (op : Op) (ops : List Op) (id : String) (a : Option Answer)
      → latest date is_url indexed f (foreign id (op ∷ ops)) a
        ≡ latest date is_url indexed f
            (foreign id ops)
            (latest date is_url indexed f (foreign id (op ∷ [])) a)
  latest-split f op ops id a = elim (Bool-cases (text_eq op.device_id id)) [
    | inl own ↦ rw own refl
    | inr other ↦ rw other refl
  ]

  take_ops-latest :
      (f : String) (ops : List Op) (t : Tab)
      → t.page.flags ≡ []
      → lookup f (take_ops date is_url indexed ops t).0.page.responses
        ≡ latest date is_url indexed f (foreign t.clock.device_id ops) (lookup f t.page.responses)
  unfolding take_ops
  take_ops-latest f [] t h = refl
  take_ops-latest f (op ∷ ops) t h =
      let (here, (empty, same)) = take_op-latest f op t h in
      take_ops-latest f ops (take_op date is_url indexed true op t).0 empty
      ∙ (ap
            (λ id.
              latest date is_url indexed f (foreign id ops)
                (lookup f (take_op date is_url indexed true op t).0.page.responses))
            same
          ∙ (ap (λ a. latest date is_url indexed f (foreign t.clock.device_id ops) a) here
              ∙ sym (latest-split f op ops t.clock.device_id (lookup f t.page.responses))))

  says_known :
      (f : String) (ops : List Op) (a b : Option Answer)
      → any (λ op. sets op.body f) ops ≡ true
      → latest date is_url indexed f ops a ≡ latest date is_url indexed f ops b
  says_known f [] a b h = absurd (false_true h)
    where
      false_true : false ≡ true → ⊥
      false_true e = ground (arith, e)
  says_known f (op ∷ ops) a b h = elim (Bool-cases (sets op.body f)) [
    | inl s ↦ ap (λ o. latest date is_url indexed f ops o) (said f op.server_ts op.body a b s)
    | inr n ↦ says_known f ops _ _ (ground (arith, n, h))
  ]
    where
      said :
          (f at : String) (body : OpBody) (a b : Option Answer)
          → sets body f ≡ true
          → or_say date is_url indexed (says date is_url indexed f at body) a
            ≡ or_say date is_url indexed (says date is_url indexed f at body) b
      said f at (set_field g v name) a b s = rw s refl
      said f at submit_checklist a b s = ground (arith, s)
      said f at approve_item a b s = ground (arith, s)
      said f at reject_item a b s = ground (arith, s)
      said f at save_template a b s = ground (arith, s)
      said f at archive_template a b s = ground (arith, s)
      said f at (other_op kind) a b s = ground (arith, s)

  -- Where no answer of the page is rejected, a catch-up leaves at each field what the last operation
  -- on it says, the operations taken in the order of their stamps and without those of the tab's own
  -- device: no answer, or the answer that is on the wire, taken out of its bundle where
  -- it has one, with its value, its sub-steps, user and time. A field
  -- on which none of them says anything keeps its answer.
  pub ws_catch_up-latest :
      (f : String) (server : ℕ → Option (List Op)) (ops : List Op) (t : Tab)
      → server t.clock.ts ≡ some ops
      → t.page.flags ≡ []
      → lookup f (ws_catch_up date is_url indexed server t).0.page.responses
        ≡ latest date is_url indexed f
            (foreign t.clock.device_id (sort_by is_later ops))
            (lookup f t.page.responses)
  unfolding ws_catch_up
  ws_catch_up-latest f server ops t reply h =
      rw (reply, ws_catch_up) (take_ops-latest f (sort_by is_later ops) t h)

  -- Two tabs that catch up on the same operations, none of which is their own, show the same answer to
  -- every field that one of the operations sets, whatever they showed before, where neither has a
  -- rejected answer.
  pub ws_catch_up-converges :
      (f : String) (server : ℕ → Option (List Op)) (ops : List Op) (t u : Tab)
      → server t.clock.ts ≡ some ops
      → server u.clock.ts ≡ some ops
      → foreign t.clock.device_id (sort_by is_later ops) ≡ sort_by is_later ops
      → foreign u.clock.device_id (sort_by is_later ops) ≡ sort_by is_later ops
      → t.page.flags ≡ []
      → u.page.flags ≡ []
      → any (λ op. sets op.body f) (sort_by is_later ops) ≡ true
      → lookup f (ws_catch_up date is_url indexed server t).0.page.responses
        ≡ lookup f (ws_catch_up date is_url indexed server u).0.page.responses
  ws_catch_up-converges f server ops t u rt ru ft fu ht hu set =
      ws_catch_up-latest f server ops t rt ht
      ∙ (ap (λ l. latest date is_url indexed f l (lookup f t.page.responses)) ft
          ∙ (says_known f (sort_by is_later ops) _ _ set
              ∙ (sym (ap (λ l. latest date is_url indexed f l (lookup f u.page.responses)) fu)
                  ∙ sym (ws_catch_up-latest f server ops u ru hu))))
