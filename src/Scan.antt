-- ===== src/Scan.antt =====
-- marketing/scanner.js: what a scanned payload is resolved to (`createScanResolver`), over the two
-- replicas of codes and their lookup (`resolveOffers` of marketing/sync/replicas.js). RxDB's queries
-- give the documents of a replica that have the token's hash; the digest, `Date.parse` and the
-- device clock are parameters. A property that is null or missing is `none`.
pub mod Payload
pub mod Live
pub mod Spent
pub mod Policy
pub mod Serial
mod Tests
use yumyums_purchase_orders.Common.{
  String, Bool, true, false, not, ◌&&◌, List, [], ◌∷◌, Option, none, some, map, if◌then◌else◌,
  text_eq, keep,
}
use yumyums_purchase_orders.Common.Int.{ℤ, leb_ℤ}
use yumyums_purchase_orders.Common.Sort.{sort_by}
use yumyums_purchase_orders.SyncClock.{SyncClock, now, is_expired}

-- A row of the codes or of the offers replica.
pub record Code : Type 0 where
  pub id : String
  pub token_hash : String
  pub campaign_id : Option String
  pub expires_at : String
  pub redeemed_at : Option String
  pub redeemed_by : Option String

pub record Offer : Type 0 where
  pub code_id : String
  pub campaign_id : Option String
  pub expires_at : String

-- The offer that the payload itself describes; `V` is what its value is.
pub record Embedded (V : Type 0) : Type 0 where
  pub label : String
  pub campaign_id : Option String
  pub expires_at : Option String
  pub face_value : Option V

-- The kinds of result, each with the token's hash but the first.
pub data Result (V : Type 0) : Type 0 where
  invalid_payload : Result V
  offer_ready : String → List Offer → Result V
  spent_locally : String → Option String → Option String → Result V
  defer_to_server : String → Option String → Option String → Option (Embedded V) → Result V
  expired_locally : String → String → Result V
  embedded_offer : String → Embedded V → Bool → Result V
  unknown_code : String → Result V

-- Truthiness of a text that may be missing, and `… || null`.
abbrev pub is_set : Option String → Bool
is_set none = false
is_set (some t) = not (text_eq t "")

abbrev pub or_null : Option String → Option String
or_null none = none
or_null (some t) = if text_eq t "" then none else some t

-- `find({ selector: { token_hash } })`.
abbrev pub of_token : String → List Code → List Code
of_token h docs = keep (λ d. text_eq d.token_hash h) docs

abbrev pub offer_of : Code → Offer
offer_of d = record { code_id = d.id; campaign_id = d.campaign_id; expires_at = d.expires_at }

-- `offerShape`.
abbrev pub offer_shape : Code → Offer
offer_shape d = record {
  code_id = d.id;
  campaign_id = or_null d.campaign_id;
  expires_at = d.expires_at;
}

abbrev pub is_later : Option ℤ → Option ℤ → Bool
is_later (some a) (some b) = not (leb_ℤ a b)
is_later _ _ = false

module _ (parse : String → Option ℤ) (clock : SyncClock) (device_now : ℤ) where
  -- `byExpiry`, and the comparators that put the latest first.
  abbrev pub by_expiry : Offer → Offer → Bool
  by_expiry a b = is_later (parse a.expires_at) (parse b.expires_at)

  abbrev pub date_of : Option String → Option ℤ
  date_of none = none
  date_of (some t) = parse t

  abbrev pub by_redeemed : Code → Code → Bool
  by_redeemed a b = is_later (date_of b.redeemed_at) (date_of a.redeemed_at)

  abbrev pub by_latest : Code → Code → Bool
  by_latest a b = is_later (parse b.expires_at) (parse a.expires_at)

  -- The test of `resolveOffers`: `Date.parse(d.expires_at) > nowMs`.
  abbrev pub is_after_now : Option ℤ → Bool
  is_after_now none = false
  is_after_now (some t) = not (leb_ℤ t (now clock device_now))

  -- `resolveOffers`.
  unfoldable pub resolve_offers : List Code → String → List Offer
  resolve_offers docs h = sort_by by_expiry (
      map offer_of (
        keep (λ d. not (is_set d.redeemed_at) && is_after_now (parse d.expires_at))
          (of_token h docs)))

  -- The live rows of the codes replica, when the offers replica has none.
  abbrev pub live_codes : List Code → List Offer
  live_codes docs = map offer_shape (
      keep
        (λ d. not (is_set d.redeemed_at) && not (is_expired clock (parse d.expires_at) device_now))
        docs)

  abbrev pub has_expired : Option String → Bool
  has_expired none = false
  has_expired (some t) = if text_eq t "" then false else is_expired clock (parse t) device_now

  module _ {V : Type 0} where
    -- The third step: a customer in no replica.
    abbrev pub resolve_unknown : String → Option (Embedded V) → Result V
    resolve_unknown h none = unknown_code h
    resolve_unknown h (some o) = embedded_offer h o (has_expired o.expires_at)

    -- Unredeemed, but dead: the row that expires last.
    abbrev pub resolve_dead : String → List Code → Option (Embedded V) → Result V
    resolve_dead h [] o = resolve_unknown h o
    resolve_dead h (d ∷ ds) o = expired_locally h d.expires_at

    -- A row that is redeemed, the latest first.
    abbrev pub resolve_redeemed :
        Bool → String → List Code → List Code → Option (Embedded V) → Result V
    resolve_redeemed online h [] docs o = resolve_dead h (sort_by by_latest docs) o
    resolve_redeemed online h (r ∷ rs) docs o =
        if online
        then defer_to_server h r.redeemed_at (or_null r.redeemed_by) o
        else spent_locally h r.redeemed_at (or_null r.redeemed_by)

    -- The second step: no live offer in either replica.
    abbrev pub resolve_known : Bool → String → List Code → Option (Embedded V) → Result V
    resolve_known online h docs o =
        resolve_redeemed online h (sort_by by_redeemed (keep (λ d. is_set d.redeemed_at) docs)) docs
          o

    -- The first step: the offers of the offers replica, or of the codes replica.
    abbrev pub resolve_hash : Bool → List Code → List Code → String → Option (Embedded V) → Result V
    unfolding resolve_offers
    resolve_hash online codes offers h o = elim (resolve_offers offers h) [
      | x ∷ xs ↦ offer_ready h (sort_by by_expiry (x ∷ xs))
      | [] ↦ elim (live_codes (of_token h codes)) [
        | x ∷ xs ↦ offer_ready h (sort_by by_expiry (x ∷ xs))
        | [] ↦ resolve_known online h (of_token h codes) o
      ]
    ]

    -- `resolve`, of a payload that was read: its token's hash, and its embedded offer.
    unfoldable pub resolve :
        Bool → List Code → List Code → Option String → Option (Embedded V) → Result V
    unfolding resolve_offers
    resolve online codes offers none o = invalid_payload
    resolve online codes offers (some h) o = resolve_hash online codes offers h o
