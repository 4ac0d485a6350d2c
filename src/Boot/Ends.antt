-- ===== src/Boot/Ends.antt =====
-- The registry of replications when a start ends or a handle is cancelled.
use yumyums_purchase_orders.Common.{
  ℕ, String, ◌≡◌, refl, sym, ap, ◌∙◌, Bool, true, false, none, some, arith, ◌==◌, ==_iff,
  if◌then◌else◌, text_eq, text_cases, eq_refl, inl, inr,
}
use mathlib.Core.Path.{subst}
use yumyums_purchase_orders.Store.{lookup, remove}
use yumyums_purchase_orders.Store.Keys.{lookup-remove_self, lookup-remove_ne}
use yumyums_purchase_orders.Boot.{
  Phase, pending, running, cancelled, rejected, is_live, Handle, Registry, put_handle, Event,
  cancels, is_number, settle,
}
use yumyums_purchase_orders.Boot.Single.{Inv, at_put, handle_eq, number_eq, none_some}

-- A live handle goes on as a live one.
resume-Inv :
    (i : ℕ) (h : Handle) (p : Phase) (r : Registry)
    → r.handles i ≡ some h
    → is_live h.phase ≡ true
    → is_live p ≡ true
    → Inv r
    → Inv (put_handle i (record h { phase = p }) r)
resume-Inv i h p r here was goes v = record {
  live = λ j x e l. elim (at_put i j (record h { phase = p }) r) [
    | inl (at, put) ↦
        ap (λ y. lookup y.key r.open_scopes) (handle_eq x (record h { phase = p }) (sym e ∙ put))
        ∙ (v.live i h here was ∙ ap (λ n. some n) (sym at))
    | inr (other, put) ↦ v.live j x (sym put ∙ e) l
  ];
  entry = λ k j e. elim (at_put i j (record h { phase = p }) r) [
    | inl (at, put) ↦
        let (x, (found, (named, alive))) = v.entry k j e in
        let same = handle_eq x h (sym found ∙ (ap (λ n. r.handles n) at ∙ here)) in
        (record h { phase = p }, (put, (ap (λ y. y.key) (sym same) ∙ named, goes)))
    | inr (other, put) ↦ let (x, (found, rest)) = v.entry k j e in (x, (put ∙ found, rest))
  ];
  fresh = λ j le. elim (at_put i j (record h { phase = p }) r) [
    | inl (at, put) ↦ none_some h (sym (v.fresh j le) ∙ (ap (λ n. r.handles n) at ∙ here))
    | inr (other, put) ↦ put ∙ v.fresh j le
  ];
}

-- A live handle ends, and its key is free.
pub retire-Inv :
    (i : ℕ) (h : Handle) (p : Phase) (r : Registry)
    → r.handles i ≡ some h
    → is_live h.phase ≡ true
    → is_live p ≡ false
    → Inv r
    → Inv (record (put_handle i (record h { phase = p }) r) {
      open_scopes = remove h.key r.open_scopes;
    })
retire-Inv i h p r here was ends v = record {
  live = λ j x e l. elim (at_put i j (record h { phase = p }) r) [
    | inl (at, put) ↦ absurd (
        dead (
          sym (ap (λ y. is_live y.phase) (handle_eq x (record h { phase = p }) (sym e ∙ put))) ∙ l))
    | inr (other, put) ↦
        let old = v.live j x (sym put ∙ e) l in
        elim (text_cases h.key x.key) [
          | inl same ↦ absurd (
              apart j other (
                number_eq i j
                  (sym (v.live i h here was) ∙ (ap (λ k. lookup k r.open_scopes) same ∙ old))))
          | inr d ↦ lookup-remove_ne h.key x.key r.open_scopes d ∙ old
        ]
  ];
  entry = λ k j e. elim (text_cases h.key k) [
    | inl same ↦ none_some j (
        sym (lookup-remove_self h.key r.open_scopes)
        ∙ (ap (λ x. lookup x (remove h.key r.open_scopes)) same ∙ e))
    | inr d ↦
        let (x, (found, (named, alive))) =
          v.entry k j (sym (lookup-remove_ne h.key k r.open_scopes d) ∙ e) in
        elim (at_put i j (record h { phase = p }) r) [
          | inl (at, put) ↦
              let same = handle_eq x h (sym found ∙ (ap (λ n. r.handles n) at ∙ here)) in
              absurd (differ k d (sym (ap (λ y. y.key) same) ∙ named))
          | inr (other, put) ↦ (x, (put ∙ found, (named, alive)))
        ]
  ];
  fresh = λ j le. elim (at_put i j (record h { phase = p }) r) [
    | inl (at, put) ↦ none_some h (sym (v.fresh j le) ∙ (ap (λ n. r.handles n) at ∙ here))
    | inr (other, put) ↦ put ∙ v.fresh j le
  ];
}
  where
    dead : is_live p ≡ true → ⊥
    dead e = ground (arith, ends, e)

    apart : (j : ℕ) → (j == i) ≡ false → i ≡ j → ⊥
    apart j n e = ground (arith, n, e)

    differ : (k : String) → text_eq h.key k ≡ false → h.key ≡ k → ⊥
    differ k d e = ground (arith, d, e, eq_refl k)

-- No handle is cancelled a second time.
abbrev pub is_first : Event → Registry → Bool
is_first (cancels i) r = elim (r.handles i) [
  | none ↦ true
  | some h ↦ elim h.phase [ cancelled ↦ false | _ ↦ true ]
]
is_first _ r = true

pub settle-Inv :
    (ok : Bool) (i : ℕ) (h : Handle) (r : Registry)
    → r.handles i ≡ some h
    → h.phase ≡ pending
    → Inv r
    → Inv (settle ok i h r)
settle-Inv true i h r here was v = resume-Inv i h running r here (ap is_live was) refl v
settle-Inv false i h r here was v =
    subst
      (λ b. Inv (
        if b
        then record (put_handle i (record h { phase = rejected }) r) {
          open_scopes = remove h.key r.open_scopes;
        }
        else put_handle i (record h { phase = rejected }) r))
      (sym (ap (λ o. is_number o i) (v.live i h here (ap is_live was)) ∙ (==_iff i i).1 refl))
      (retire-Inv i h rejected r here (ap is_live was) refl v)
