-- ===== src/Scan/Spent.antt =====
-- When a scan reports a code as used: the F3 rule of marketing/scanner.js.
use mathlib.Core.Path.{subst}
use yumyums_purchase_orders.Common.{
  String, ◌≡◌, ◌≢◌, refl, sym, ap, ◌∙◌, Bool, true, false, not, List, [], ◌∷◌, Option, none, some,
  arith, List-cases, inl, inr, if◌then◌else◌, keep, all,
}
use yumyums_purchase_orders.Common.Int.{ℤ}
use yumyums_purchase_orders.Common.Sort.{sort_by, Sorted, all-sort_by, sort_by-Sorted}
use yumyums_purchase_orders.SyncClock.{SyncClock}
use yumyums_purchase_orders.Scan.{
  Code, Embedded, Result, spent_locally, defer_to_server, is_set, or_null, of_token, date_of,
  by_redeemed, by_latest, is_later, resolve_offers, live_codes, resolve_dead, resolve_redeemed,
  resolve_known, resolve_hash, resolve,
}
use yumyums_purchase_orders.Scan.Live.{is_later-asym, is_later_trans, is_date, by_known}

abbrev pub is_spent : {V : Type 0} → Result V → Bool
is_spent (spent_locally h at by) = true
is_spent _ = false

module _ (parse : String → Option ℤ) (clock : SyncClock) (device_now : ℤ) where
  -- The redeemed rows of the token, the latest first.
  abbrev pub redeemed : List Code → List Code
  redeemed docs =
      sort_by (by_redeemed parse clock device_now) (keep (λ d. is_set d.redeemed_at) docs)

  not_spent_dead :
      {V : Type 0} (h : String) (ds : List Code) (o : Option (Embedded V))
      → is_spent (resolve_dead parse clock device_now h ds o) ≡ false
  not_spent_dead h [] o = ground arith
  not_spent_dead h (d ∷ ds) o = refl

  not_spent_redeemed :
      {V : Type 0} (h : String) (rs docs : List Code) (o : Option (Embedded V))
      → is_spent (resolve_redeemed parse clock device_now true h rs docs o) ≡ false
  not_spent_redeemed h [] docs o =
      not_spent_dead h (sort_by (by_latest parse clock device_now) docs) o
  not_spent_redeemed h (r ∷ rs) docs o = refl

  -- Online, a scan never refuses a code as used: whatever the replicas hold, the server decides.
  pub resolve-online :
      {V : Type 0} (codes offers : List Code) (token : Option String) (o : Option (Embedded V))
      → is_spent (resolve parse clock device_now true codes offers token o) ≡ false
  unfolding resolve
  resolve-online codes offers none o = refl
  resolve-online codes offers (some h) o =
      elim (List-cases (resolve_offers parse clock device_now offers h)) [
        | inr (x, xs, f) ↦ rw (f, resolve_hash) refl
        | inl n ↦ elim (List-cases (live_codes parse clock device_now (of_token h codes))) [
          | inr (x, xs, f) ↦ rw (n, f, resolve_hash) refl
          | inl m ↦
              ap is_spent (by_known parse clock device_now true codes offers h o n m)
              ∙ not_spent_redeemed h (redeemed (of_token h codes)) (of_token h codes) o
        ]
      ]

  abbrev pub redeemed_dated : Code → Bool
  redeemed_dated d = is_date (date_of parse clock device_now d.redeemed_at)

  no_elements : (ds : List Code) → all (λ d. false) ds ≡ true → ds ≡ []
  no_elements [] h = refl
  no_elements (d ∷ ds) h = ground (arith, h)

  is_later_self : (e : Option ℤ) → is_later e e ≡ false
  is_later_self none = refl
  is_later_self (some t) = ground arith

  all-keep : (p : Code → Bool) (ds : List Code) → all p (keep p ds) ≡ true
  all-keep p [] = refl
  all-keep p (d ∷ ds) = ground (arith, all-keep p ds)

  redeemed-set : (docs : List Code) → all (λ d. is_set d.redeemed_at) (redeemed docs) ≡ true
  redeemed-set docs =
      all-sort_by (by_redeemed parse clock device_now) (λ d. is_set d.redeemed_at)
        (keep (λ d. is_set d.redeemed_at) docs)
      ∙ all-keep (λ d. is_set d.redeemed_at) docs

  redeemed-Sorted :
      (docs : List Code)
      → all redeemed_dated (keep (λ d. is_set d.redeemed_at) docs) ≡ true
      → Sorted (by_redeemed parse clock device_now) (redeemed docs)
  redeemed-Sorted docs h =
      let date : Code → Option ℤ = λ d. date_of parse clock device_now d.redeemed_at in
      sort_by-Sorted (by_redeemed parse clock device_now) redeemed_dated
        (λ x y px py. is_later-asym (date y) (date x))
        (λ x y z px py pz k l. is_later_trans (date z) (date y) (date x) py l k)
        (keep (λ d. is_set d.redeemed_at) docs) h

  -- A known code without a live row, of which some row is redeemed: the scan shows the latest
  -- redemption among the codes replica's rows of the token, as a refusal offline and as the
  -- server's to decide online. It is supposed that the dates of the redemptions can be read.
  pub resolve-redeemed :
      {V : Type 0} (online : Bool) (codes offers : List Code) (h : String) (o : Option (Embedded V))
      → resolve_offers parse clock device_now offers h ≡ []
      → live_codes parse clock device_now (of_token h codes) ≡ []
      → keep (λ d. is_set d.redeemed_at) (of_token h codes) ≢ []
      → all redeemed_dated (keep (λ d. is_set d.redeemed_at) (of_token h codes)) ≡ true
      → (r : Code) × (resolve parse clock device_now online codes offers (some h) o ≡ (
          if online
          then defer_to_server h r.redeemed_at (or_null r.redeemed_by) o
          else spent_locally h r.redeemed_at (or_null r.redeemed_by)))
        × (is_set r.redeemed_at ≡ true)
        × (all
              (λ d. not (
                is_later
                  (date_of parse clock device_now d.redeemed_at)
                  (date_of parse clock device_now r.redeemed_at)))
              (redeemed (of_token h codes))
            ≡ true)
  resolve-redeemed online codes offers h o n m some_redeemed dates =
      elim (List-cases (redeemed (of_token h codes))) [
        | inl e ↦ absurd (
            some_redeemed (
              no_elements (keep (λ d. is_set d.redeemed_at) (of_token h codes)) (
                sym (
                  all-sort_by (by_redeemed parse clock device_now) (λ d. false)
                    (keep (λ d. is_set d.redeemed_at) (of_token h codes)))
                ∙ ap (all (λ d. false)) e)))
        | inr (r, rs, e) ↦
            let set =
              subst (λ l. all (λ d. is_set d.redeemed_at) l ≡ true) e
                (redeemed-set (of_token h codes)) in
            let (first, others) =
              subst (Sorted (by_redeemed parse clock device_now)) e
                (redeemed-Sorted (of_token h codes) dates) in
            (
              r,
              by_known parse clock device_now online codes offers h o n m
                  ∙ rw (e, resolve_known) refl,
              ground (arith, set),
              rw (e) (
                  ground
                    (arith, first, is_later_self (date_of parse clock device_now r.redeemed_at))),
            )
      ]
