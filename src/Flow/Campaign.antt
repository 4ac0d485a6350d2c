-- ===== src/Flow/Campaign.antt =====
-- The page with the campaigns replica behind it (`CAMPAIGN_POLICY` of marketing/submit-flow.js is the
-- source of marketing/sync/replicas.js): B-432, the override of a campaign that has not arrived.
use yumyums_purchase_orders.Common.{
  ◌≡◌, refl, ap, ◌∙◌, String, true, false, List, [], ◌∷◌, Option, some, arith, text_eq, any,
  Bool-cases, Option-cases, inl, inr,
}
use yumyums_purchase_orders.Machine.{resolving, offer_ready_kind}
use yumyums_purchase_orders.Machine.Engine.{Engine}
use yumyums_purchase_orders.Machine.Runs.{Inv}
use yumyums_purchase_orders.Scan.{Code, Offer, offer_ready, or_null}
use yumyums_purchase_orders.Scan.Policy.{
  Policy, Source, Happens, create_campaign_policy_source, after, policy_for, unresolved, delivered,
  is_relaxed, relaxes, policy_for-relaxes,
}
use yumyums_purchase_orders.Flow.{
  PolicySource, answered, Page, Session, stash, stashed, policy_for as page_policy_for,
  policy_unresolved_for,
}
use yumyums_purchase_orders.Flow.Steps.{Input, result, run}
use yumyums_purchase_orders.Flow.Sealed.{is_row}
use yumyums_purchase_orders.Flow.Required.{is_result, result-closes}

-- `CAMPAIGN_POLICY = MS.campaignPolicy.policyFor`.
abbrev pub campaign_policy : Source → PolicySource
campaign_policy s = record {
  policy_of = λ campaign. answered (policy_for s campaign);
  source_unresolved = answered (unresolved s);
}

known_policy :
    (s : Source) (id : String)
    → text_eq id "" ≡ false
    → (p : Policy) × (policy_for s (some id) ≡ some p)
unfolding policy_for
known_policy s id n = elim (Option-cases (policy_for s (some id))) [
  | inl e ↦ ground (arith, n, e)
  | inr e ↦ e
]

closed_campaign :
    (hs : List Happens) (id : String)
    → text_eq id "" ≡ false
    → is_relaxed id (delivered hs []) ≡ false
    → page_policy_for (some (campaign_policy (after hs create_campaign_policy_source))) (some id)
      ≡ true
unfolding page_policy_for
closed_campaign hs id n r =
    let (p, e) = known_policy (after hs create_campaign_policy_source) id n in
    elim (Bool-cases p.requires_online) [
      | inl y ↦ rw (e, page_policy_for) y
      | inr f ↦
          let relaxed : relaxes (policy_for (after hs create_campaign_policy_source) (some id))
              ≡ true =
            rw (e) (ground (arith, f)) in
          ground (arith, r, policy_for-relaxes hs id relaxed)
    ]

-- The override of a known code is open only on the campaign's own word. Whatever the campaigns replica
-- has called back with: when a machine that is resolving gets a result whose first offer names a
-- campaign, and the replica's last delivery does not hold that campaign with
-- `requires_online` false, no offline override is recorded until the next result.
pub campaign-closes :
    (x : Engine) (trim : String → String) (hs : List Happens) (found : Option (List Code))
    (h id : String) (o : Offer) (os : List Offer) (p : Page) (is' : List Input)
    → o.campaign_id ≡ some id
    → text_eq id "" ≡ false
    → is_relaxed id (delivered hs []) ≡ false
    → Inv p.machine
    → p.machine.scan ≡ resolving
    → let policy : Option PolicySource =
        some (campaign_policy (after hs create_campaign_policy_source)) in
      any is_result is' ≡ false
      → any is_row (run x trim policy (result found (offer_ready h (o ∷ os)) ∷ is') p).1 ≡ false
unfolding stashed
campaign-closes x trim hs found h id o os p is' named n r i q k =
    let policy : Option PolicySource =
      some (campaign_policy (after hs create_campaign_policy_source)) in
    let required : page_policy_for policy (or_null o.campaign_id) ≡ true =
      ap (page_policy_for policy) (ap or_null named ∙ rw (n) refl) ∙ closed_campaign hs id n r in
    let begun : Session = record (stash policy h) {
      code_id = some o.code_id;
      policy_unresolved = policy_unresolved_for policy (or_null o.campaign_id);
    } in
    result-closes x trim policy found (offer_ready h (o ∷ os)) p begun offer_ready_kind is' i q
      (ap (λ b. some (begun, offer_ready_kind, b)) required) k
