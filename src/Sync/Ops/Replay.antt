-- ===== src/Sync/Ops/Replay.antt =====
-- A catch-up of operations that are all older than a rejection: the rejected field stays as it is.
use yumyums_purchase_orders.Common.{
  String, ◌≡◌, refl, sym, ap, ◌∙◌, Bool, true, false, List, [], ◌∷◌, Option, none, some, arith,
  text_eq, text_cases, all, inl, inr, ℕ,
}
use mathlib.Core.Path.{subst}
use yumyums_purchase_orders.Common.Int.{ℤ}
use yumyums_purchase_orders.Common.Sort.{sort_by, all-sort_by}
use yumyums_purchase_orders.Json.{Value, Fields}
use yumyums_purchase_orders.Store.{lookup, write, remove}
use yumyums_purchase_orders.Store.Keys.{
  lookup-write_self, lookup-write_ne, lookup-remove_self, lookup-remove_ne,
}
use yumyums_purchase_orders.Sync.Lamport.{receive}
use yumyums_purchase_orders.Sync.Ops.{Flag, Page, Op, display_name}
use yumyums_purchase_orders.Sync.Ops.Apply.{
  is_bounced, unwrap, uncheck, answer, store_entry, clear_own, is_gated, apply_op,
}
use yumyums_purchase_orders.Sync.Ops.Frame.{prepared, stored_entry, prepared-kept, answer-responses}
use yumyums_purchase_orders.Sync.Ops.Cases.{
  skipped, unchecked, answered, apply_op-cases, uncheck-responses, uncheck-flags,
}
use yumyums_purchase_orders.Sync.Ops.Catchup.{Tab, take_op, take_ops, ws_catch_up, is_later}
use yumyums_purchase_orders.Sync.Ops.Bounced.{carries, entry_of-bounced, clear_rejection_flag-flags}

-- What a rejection holds on to from page to page: its flag and the answer of its field, and no answer
-- comes to carry it as a sub-step.
abbrev pub Holds : String → Flag → Page → Page → Type 0
Holds f flag p q =
    (lookup f q.flags ≡ some flag)
    × ((lookup f q.responses ≡ lookup f p.responses)
        × ((g : String)
            → carries f (lookup g p.responses) ≡ false
            → carries f (lookup g q.responses) ≡ false))

module _ (date : String → Option ℤ) (is_url : String → Bool) (indexed : Value → Fields) where
  clear_own-flags :
      (o : Option Flag) (g f : String) (p : Page)
      → text_eq g f ≡ false
      → lookup f (clear_own date is_url indexed o g p).flags ≡ lookup f p.flags
  clear_own-flags none g f p d = refl
  clear_own-flags (some flag) g f p d = clear_rejection_flag-flags is_url g f p d

  module _ (f at : String) (flag : Flag)
      (late : is_bounced date is_url indexed at flag ≡ true) where
    gated : (p : Page) → lookup f p.flags ≡ some flag → is_gated date is_url indexed f at p ≡ true
    gated p h =
        ap (λ o. elim o [ none ↦ false | some x ↦ is_bounced date is_url indexed at x ]) h ∙ late

    -- A field whose gate is open is another one.
    apart :
        (g : String) (p : Page)
        → lookup f p.flags ≡ some flag
        → is_gated date is_url indexed g at p ≡ false
        → text_eq g f ≡ false
    apart g p h n = elim (text_cases g f) [
      | inl e ↦
          absurd
            (false_true (sym n ∙ (ap (λ k. is_gated date is_url indexed k at p) e ∙ gated p h)))
      | inr d ↦ d
    ]
      where
        false_true : false ≡ true → ⊥
        false_true e = ground (arith, e)

    answer-flags :
        (g : String) (v : Value) (name : String) (p : Page)
        → lookup f p.flags ≡ some flag
        → text_eq g f ≡ false
        → lookup f (answer date is_url indexed g v name at p).0.flags ≡ some flag
    unfolding answer store_entry
    answer-flags g v name p h d =
        let before : lookup f (prepared date is_url indexed g v p).flags ≡ some flag =
          ap (λ m. lookup f m) (prepared-kept date is_url indexed g v p).flags ∙ h in
        clear_own-flags (lookup g p.flags) g f (store_entry date is_url indexed g v name at p) d
        ∙ (entry_of-bounced date is_url indexed f at flag late name (unwrap date is_url indexed v)
            (prepared date is_url indexed g v p) before).1

    uncheck-Holds :
        (k : String) (p : Page)
        → lookup f p.flags ≡ some flag
        → text_eq k f ≡ false
        → Holds f flag p (uncheck date is_url indexed k p).0
    uncheck-Holds k p h d =
        let gone = uncheck-responses date is_url indexed k p in
        (
          ap (λ m. lookup f m) (uncheck-flags date is_url indexed k p) ∙ h,
          (
            ap (λ m. lookup f m) gone ∙ lookup-remove_ne k f p.responses d,
            λ g n. ap (λ m. carries f (lookup g m)) gone ∙ elim (text_cases k g) [
              | inl e ↦
                  ap (λ j. carries f (lookup j (remove k p.responses))) (sym e)
                  ∙ ap (λ o. carries f o) (lookup-remove_self k p.responses)
              | inr m ↦ ap (λ o. carries f o) (lookup-remove_ne k g p.responses m) ∙ n
            ],
          ),
        )

    answer-Holds :
        (k : String) (v : Value) (name : String) (p : Page)
        → lookup f p.flags ≡ some flag
        → text_eq k f ≡ false
        → Holds f flag p (answer date is_url indexed k v name at p).0
    answer-Holds k v name p h d =
        let entry = stored_entry date is_url indexed k v name at p in
        let put = answer-responses date is_url indexed k v name at p in
        let clean : carries f (some entry) ≡ false =
          (entry_of-bounced date is_url indexed f at flag late name (unwrap date is_url indexed v)
            (prepared date is_url indexed k v p)
            (ap (λ m. lookup f m) (prepared-kept date is_url indexed k v p).flags ∙ h)).0 in
        (
          answer-flags k v name p h d,
          (
            ap (λ m. lookup f m) put ∙ lookup-write_ne k f entry p.responses d,
            λ g n. ap (λ m. carries f (lookup g m)) put ∙ elim (text_cases k g) [
              | inl e ↦
                  ap (λ j. carries f (lookup j (write k entry p.responses))) (sym e)
                  ∙ (ap (λ o. carries f o) (lookup-write_self k entry p.responses) ∙ clean)
              | inr m ↦ ap (λ o. carries f o) (lookup-write_ne k g entry p.responses m) ∙ n
            ],
          ),
        )

  apply_op-Holds :
      (f : String) (flag : Flag) (device : Option String) (op : Op) (silent : Bool) (p : Page)
      → is_bounced date is_url indexed op.server_ts flag ≡ true
      → lookup f p.flags ≡ some flag
      → Holds f flag p (apply_op date is_url indexed device op silent p).0
  apply_op-Holds f flag device op silent p late h =
      elim (apply_op-cases date is_url indexed device op silent p) [
        | skipped e ↦ subst (λ q. Holds f flag p q) (sym e) (h, (refl, λ g n. n))
        | unchecked k v name b shut e ↦
            subst (λ q. Holds f flag p q) (sym e)
              (uncheck-Holds f op.server_ts flag late k p h
                (apart f op.server_ts flag late k p h shut))
        | answered k v name b shut e ↦
            subst (λ q. Holds f flag p q) (sym e)
              (answer-Holds f op.server_ts flag late k v (display_name name) p h
                (apart f op.server_ts flag late k p h shut))
      ]

  take_op-Holds :
      (f : String) (flag : Flag) (op : Op) (t : Tab)
      → is_bounced date is_url indexed op.server_ts flag ≡ true
      → lookup f t.page.flags ≡ some flag
      → Holds f flag t.page (take_op date is_url indexed true op t).0.page
  unfolding take_op
  take_op-Holds f flag op t late h =
      apply_op-Holds f flag (some (receive t.clock op.lamport_ts).device_id) op true t.page late h

  take_ops-Holds :
      (f : String) (flag : Flag) (ops : List Op) (t : Tab)
      → all (λ op. is_bounced date is_url indexed op.server_ts flag) ops ≡ true
      → lookup f t.page.flags ≡ some flag
      → Holds f flag t.page (take_ops date is_url indexed ops t).0.page
  unfolding take_ops
  take_ops-Holds f flag [] t late h = (h, (refl, λ g n. n))
  take_ops-Holds f flag (op ∷ ops) t late h =
      let next = (take_op date is_url indexed true op t).0 in
      let (kept, (same, clean)) = take_op-Holds f flag op t (ground (arith, late)) h in
      let (kept', (same', clean')) = take_ops-Holds f flag ops next (ground (arith, late)) kept in
      (kept', (same' ∙ same, λ g n. clean' g (clean g n)))

  -- A catch-up that brings operations older than a rejection alone leaves the bounced answer where it
  -- is: the flag of the field stays, its answer is not changed by any of them, and no answer of a
  -- parent comes to carry the field as a done sub-step, in whatever order the operations stand.
  pub ws_catch_up-Holds :
      (f : String) (flag : Flag) (server : ℕ → Option (List Op)) (ops : List Op) (t : Tab)
      → server t.clock.ts ≡ some ops
      → all (λ op. is_bounced date is_url indexed op.server_ts flag) ops ≡ true
      → lookup f t.page.flags ≡ some flag
      → Holds f flag t.page (ws_catch_up date is_url indexed server t).0.page
  unfolding ws_catch_up
  ws_catch_up-Holds f flag server ops t reply late h =
      rw (reply, ws_catch_up)
        (take_ops-Holds f flag (sort_by is_later ops) t
          (all-sort_by is_later (λ op. is_bounced date is_url indexed op.server_ts flag) ops ∙ late)
          h)
