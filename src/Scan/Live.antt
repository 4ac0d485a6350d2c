-- ===== src/Scan/Live.antt =====
-- What a scan's result says of the replicas.
use yumyums_purchase_orders.Common.{
  List-cases, ◌≤◌, ◌⊎◌, String, ◌≡◌, refl, sym, ap, ◌∙◌, Bool, true, false, not, ◌&&◌, ◌||◌, List,
  [], ◌∷◌, ◌++◌, Option, none, some, map, arith, text_eq, keep, all, any, length, inl, inr, eq_refl,
}
use mathlib.Core.Path.{subst}
use yumyums_purchase_orders.Common.Int.{ℤ}
use yumyums_purchase_orders.Common.Sort.{
  sort_by, Sorted, all-sort_by, length-sort_by, sort_by-Sorted,
}
use yumyums_purchase_orders.SyncClock.{SyncClock, is_expired}
use yumyums_purchase_orders.Scan.{
  Code, Offer, Embedded, Result, offer_ready, is_set, of_token, offer_of, offer_shape, is_later,
  by_expiry, by_latest, by_redeemed, is_after_now, resolve_offers, live_codes, resolve_dead,
  resolve_redeemed, resolve_known, resolve_hash, resolve,
}

pub is_later-asym : (a b : Option ℤ) → is_later a b ≡ true → is_later b a ≡ false
is_later-asym (some a) (some b) h = ground (arith, h)
is_later-asym (some a) none h = ground (arith, h)
is_later-asym none b h = ground (arith, h)

abbrev pub is_date : Option ℤ → Bool
is_date none = false
is_date (some t) = true

pub is_later_trans :
    (a b c : Option ℤ)
    → is_date b ≡ true
    → is_later a b ≡ false
    → is_later b c ≡ false
    → is_later a c ≡ false
is_later_trans none b c d h k = refl
is_later_trans (some a) b none d h k = refl
is_later_trans (some a) none (some c) d h k = ground (arith, d)
is_later_trans (some a) (some b) (some c) d h k = ground (arith, h, k)

abbrev is_ready : {V : Type 0} → Result V → Bool
is_ready (offer_ready h os) = true
is_ready _ = false

module _ (parse : String → Option ℤ) (clock : SyncClock) (device_now : ℤ) where
  -- A row of the token that may be redeemed now: it is not redeemed, and its expiry is still to come.
  abbrev pub is_live_row : String → Code → Bool
  is_live_row h d =
      text_eq d.token_hash h
      && not (is_set d.redeemed_at)
      && is_after_now parse clock device_now (parse d.expires_at)

  -- Whether an offer is that of a live row.
  abbrev pub is_offered : String → List Code → Offer → Bool
  is_offered h docs x =
      any (λ d. is_live_row h d && text_eq d.id x.code_id && text_eq d.expires_at x.expires_at) docs

  not_expired :
      (e : Option ℤ) → not (is_expired clock e device_now) ≡ is_after_now parse clock device_now e
  unfolding is_expired
  not_expired none = refl
  not_expired (some t) = refl

  abbrev dated : Offer → Bool
  dated x = is_date (parse x.expires_at)

  dated-offer_of :
      (q : Code → Bool) (ds : List Code)
      → ((d : Code) → q d ≡ true → is_date (parse d.expires_at) ≡ true)
      → all dated (map offer_of (keep q ds)) ≡ true
  dated-offer_of q [] h = refl
  dated-offer_of q (d ∷ ds) h = ground (arith, h d, dated-offer_of q ds h)

  dated-offer_shape :
      (q : Code → Bool) (ds : List Code)
      → ((d : Code) → q d ≡ true → is_date (parse d.expires_at) ≡ true)
      → all dated (map offer_shape (keep q ds)) ≡ true
  dated-offer_shape q [] h = refl
  dated-offer_shape q (d ∷ ds) h = ground (arith, h d, dated-offer_shape q ds h)

  abbrev pub earliest : Offer → Offer → Bool
  earliest = by_expiry parse clock device_now

  sorted : (os : List Offer) → all dated os ≡ true → Sorted earliest (sort_by earliest os)
  sorted os h =
      sort_by-Sorted earliest dated
        (λ x y px py. is_later-asym (parse x.expires_at) (parse y.expires_at))
        (λ x y z px py pz.
          is_later_trans (parse x.expires_at) (parse y.expires_at) (parse z.expires_at) py)
        os h

  any-append : (q : Code → Bool) (xs ys : List Code) → any q (xs ++ ys) ≡ (any q xs || any q ys)
  any-append q [] ys = refl
  any-append q (x ∷ xs) ys = ground (arith, any-append q xs ys)

  all_weaken :
      (q r : Offer → Bool)
      → ((x : Offer) → q x ≡ true → r x ≡ true)
      → (os : List Offer) → all q os ≡ true
      → all r os ≡ true
  all_weaken q r w [] h = refl
  all_weaken q r w (x ∷ os) h = ground (arith, w x, all_weaken q r w os, h)

  -- The rows of a list that pass a test of live rows are offered by it.
  offered_of :
      (h : String) (q : Code → Bool)
      → ((d : Code) → text_eq d.token_hash h ≡ true → q d ≡ true → is_live_row h d ≡ true)
      → (ds : List Code)
      → (all (is_offered h ds) (map offer_of (keep q (of_token h ds))) ≡ true)
        × (all (is_offered h ds) (map offer_shape (keep q (of_token h ds))) ≡ true)
  offered_of h q w [] = (refl, refl)
  offered_of h q w (d ∷ ds) =
      let rest = offered_of h q w ds in
      let more : (x : Offer) → is_offered h ds x ≡ true → is_offered h (d ∷ ds) x ≡ true =
        λ x k. ground (arith, k) in
      let shaped = all_weaken (is_offered h ds) (is_offered h (d ∷ ds)) more _ rest.1 in
      let offered = all_weaken (is_offered h ds) (is_offered h (d ∷ ds)) more _ rest.0 in
      (
        ground (arith, w d, offered, eq_refl d.id, eq_refl d.expires_at),
        ground (arith, w d, shaped, eq_refl d.id, eq_refl d.expires_at),
      )

  -- The offers of a result: there is one, the earliest expiry stands first, and each is that of a live
  -- row of the token.
  pub record IsReady (h : String) (docs : List Code) (os : List Offer) : Type 0 where
    pub some_offer : 1 ≤ length os
    pub in_order : Sorted earliest os
    pub offered : all (is_offered h docs) os ≡ true

  ready :
      (h : String) (docs : List Code) (os : List Offer)
      → 1 ≤ length os
      → all dated os ≡ true
      → all (is_offered h docs) os ≡ true
      → IsReady h docs (sort_by earliest os)
  ready h docs os n d w = record {
    some_offer = ground (arith, n, length-sort_by earliest os);
    in_order = sorted os d;
    offered = all-sort_by earliest (is_offered h docs) os ∙ w;
  }

  live_dated : (e : Option ℤ) → is_after_now parse clock device_now e ≡ true → is_date e ≡ true
  live_dated none h = h
  live_dated (some t) h = refl

  offers_offered :
      (offers : List Code) (h : String)
      → (all dated (resolve_offers parse clock device_now offers h) ≡ true)
        × (all (is_offered h offers) (resolve_offers parse clock device_now offers h) ≡ true)
  unfolding resolve_offers
  offers_offered offers h =
      let q : Code → Bool = λ d.
        not (is_set d.redeemed_at) && is_after_now parse clock device_now (parse d.expires_at) in
      let dates =
        dated-offer_of q (of_token h offers)
          (λ d k. live_dated (parse d.expires_at) (ground (arith, k))) in
      let rows = (offered_of h q (λ d t k. ground (arith, t, k)) offers).0 in
      (all-sort_by earliest dated _ ∙ dates, all-sort_by earliest (is_offered h offers) _ ∙ rows)

  codes_offered :
      (codes : List Code) (h : String)
      → (all dated (live_codes parse clock device_now (of_token h codes)) ≡ true)
        × (all (is_offered h codes) (live_codes parse clock device_now (of_token h codes)) ≡ true)
  codes_offered codes h =
      let q : Code → Bool =
        λ d. not (is_set d.redeemed_at) && not (is_expired clock (parse d.expires_at) device_now) in
      let dates = dated-offer_shape q (of_token h codes) (λ d k.
        live_dated (parse d.expires_at) (ground (arith, k, not_expired (parse d.expires_at)))) in
      let rows =
        (offered_of h q (λ d t k. ground (arith, t, k, not_expired (parse d.expires_at)))
          codes).1 in
      (dates, rows)

  module _ {V : Type 0} (online : Bool) (codes offers : List Code) (t : String)
      (o : Option (Embedded V)) where
    by_offers :
        (x : Offer) (xs : List Offer)
        → resolve_offers parse clock device_now offers t ≡ x ∷ xs
        → resolve parse clock device_now online codes offers (some t) o
          ≡ offer_ready t (sort_by earliest (x ∷ xs))
    unfolding resolve
    by_offers x xs f = rw (f, resolve_hash) refl

    by_codes :
        (x : Offer) (xs : List Offer)
        → resolve_offers parse clock device_now offers t ≡ []
        → live_codes parse clock device_now (of_token t codes) ≡ x ∷ xs
        → resolve parse clock device_now online codes offers (some t) o
          ≡ offer_ready t (sort_by earliest (x ∷ xs))
    unfolding resolve
    by_codes x xs n f = rw (n, f, resolve_hash) refl

    pub by_known :
        resolve_offers parse clock device_now offers t ≡ []
        → live_codes parse clock device_now (of_token t codes) ≡ []
        → resolve parse clock device_now online codes offers (some t) o
          ≡ resolve_known parse clock device_now online t (of_token t codes) o
    unfolding resolve
    by_known n m = rw (n, m, resolve_hash) refl

    not_ready_dead :
        (ds : List Code) → is_ready (resolve_dead parse clock device_now t ds o) ≡ false
    not_ready_dead [] = ground arith
    not_ready_dead (d ∷ ds) = refl

    not_ready_redeemed :
        (rs docs : List Code)
        → is_ready (resolve_redeemed parse clock device_now online t rs docs o) ≡ false
    not_ready_redeemed [] docs = not_ready_dead (sort_by (by_latest parse clock device_now) docs)
    not_ready_redeemed (r ∷ rs) docs = ground arith

  abbrev Shown : {V : Type 0} → Option String → List Code → List Code → Result V → Type 0
  Shown token offers codes (offer_ready h os) =
      (token ≡ some h) × (IsReady h offers os ⊎ IsReady h codes os)
  Shown token offers codes _ = Unit

  -- A scan shows offers only of live rows: each offer of the result is that of a row of the offers
  -- or of the codes replica with the hash of the scanned token, not redeemed, and with an
  -- expiry that the sync clock has not reached; there is at least one, and they come with
  -- the earliest expiry first.
  pub resolve-offer_ready :
      {V : Type 0} (online : Bool) (codes offers : List Code) (token : Option String)
      (o : Option (Embedded V)) (h : String) (os : List Offer)
      → resolve parse clock device_now online codes offers token o ≡ offer_ready h os
      → (token ≡ some h) × (IsReady h offers os ⊎ IsReady h codes os)
  unfolding resolve
  resolve-offer_ready online codes offers none o h os e = ground (arith, e)
  resolve-offer_ready online codes offers (some t) o h os e =
      elim (List-cases (resolve_offers parse clock device_now offers t)) [
        | inr (x, xs, f) ↦
            let (dates, rows) = offers_offered offers t in
            subst (Shown (some t) offers codes) (sym (by_offers online codes offers t o x xs f) ∙ e)
              (
                refl,
                inl (
                    ready t offers (x ∷ xs) (ground arith) (subst (λ r. all dated r ≡ true) f dates)
                      (subst (λ r. all (is_offered t offers) r ≡ true) f rows)),
              )
        | inl n ↦ elim (List-cases (live_codes parse clock device_now (of_token t codes))) [
          | inr (x, xs, f) ↦
              let (dates, rows) = codes_offered codes t in
              subst (Shown (some t) offers codes)
                (sym (by_codes online codes offers t o x xs n f) ∙ e)
                (
                  refl,
                  inr (
                      ready t codes (x ∷ xs) (ground arith)
                        (subst (λ r. all dated r ≡ true) f dates)
                        (subst (λ r. all (is_offered t codes) r ≡ true) f rows)),
                )
          | inl m ↦
              let other =
                not_ready_redeemed online codes offers t o
                  (sort_by (by_redeemed parse clock device_now)
                    (keep (λ d. is_set d.redeemed_at) (of_token t codes)))
                  (of_token t codes) in
              let both = ap is_ready (sym (by_known online codes offers t o n m) ∙ e) in
              ground (arith, other, both)
        ]
      ]
