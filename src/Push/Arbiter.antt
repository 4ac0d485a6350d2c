-- ===== src/Push/Arbiter.antt =====
-- supabase/migrations/20260904000200_redeem_rpc.sql, `redeem`, and the push handler of marketing/sync/push-replication.js run
-- against it: the requests, their answers, the patches of the local row and the replica's news may each be
-- lost, and other devices may redeem the code in between.
pub mod Rounds
use yumyums_purchase_orders.Common.{
  ◌⊎◌, String, ◌≡◌, Bool, true, false, not, ◌&&◌, List, [], ◌∷◌, Option, none, some, if◌then◌else◌,
  text_eq, any,
}
use yumyums_purchase_orders.Push.{
  Attempt, Replies, Answer, Verdict, Status, accepted, rejected, no_answer, answer, push_attempt,
  has_landed,
}
use yumyums_purchase_orders.Push.Retry.{is_redeem, IsSettled}

-- The `redeemed_by` of the code's row, if there is a row.
abbrev pub ServerCode : Type 0
ServerCode = Option (Option String)

-- `redeem`: `alive` is `expires_at > now()`.
unfoldable pub redeem : String → Bool → ServerCode → ServerCode × Verdict
redeem device alive none = (none, record { accepts = false; why = some "not_found" })
redeem device alive (some (some who)) =
    (some (some who), record { accepts = false; why = some "already_used" })
redeem device alive (some none) =
    if alive
    then (some (some device), record { accepts = true; why = none })
    else (some none, record { accepts = false; why = some "expired" })

-- What happens around one run of the handler: another device may redeem first; the request may be lost, or
-- its answer; the replica may not name the winner in time; the patches and the landing may fail.
pub record Round : Type 0 where
  pub other : Option String
  pub alive : Bool
  pub reaches : Bool
  pub answered : Bool
  pub named : Bool
  pub at : Option String
  pub land : Answer
  pub burn_patch : Bool
  pub final_patch : Bool

abbrev pub other_redeems : Round → ServerCode → ServerCode
other_redeems r code = elim r.other [ none ↦ code | some who ↦ (redeem who r.alive code).0 ]

-- The winner that the row names.
abbrev pub holder : Option String → ServerCode → Option (String × Option String)
holder at none = none
holder at (some none) = none
holder at (some (some who)) = some (who, at)

abbrev pub replies_of : String → Round → ServerCode → Replies
replies_of device r code =
    let asked = redeem device r.alive code in
    record {
      redeem = if r.reaches && r.answered then answer 200 else no_answer;
      verdict = asked.1;
      winner = if r.named then holder r.at asked.0 else none;
      land = r.land;
      burn_patch = r.burn_patch;
      final_patch = r.final_patch;
    }

-- Whether the device is who redeemed the code.
abbrev pub owns : String → ServerCode → Bool
owns device none = false
owns device (some none) = false
owns device (some (some who)) = text_eq who device

abbrev pub foreign : String → Round → Bool
foreign device r = elim r.other [ none ↦ true | some who ↦ not (text_eq who device) ]

-- A round in which nothing is lost.
unfoldable pub IsComplete : Round → Type 0
IsComplete r =
    (r.reaches ≡ true)
    × (r.answered ≡ true)
    × (r.named ≡ true)
    × (has_landed r.land ≡ true)
    × (r.burn_patch ≡ true)
    × (r.final_patch ≡ true)

-- What the attempt comes to when its device redeemed the code, and when it did not.
abbrev pub outcome : Bool → Status
outcome true = accepted
outcome false = rejected

module _ {P : Type 0} where
  -- A run in a round: the row of the code and the attempt after it.
  unfoldable pub round : String → Round → ServerCode × Attempt P → ServerCode × Attempt P
  round device r (code, doc) =
      let before = other_redeems r code in
      let pushed = push_attempt device (replies_of device r before) doc in
      (
        if any is_redeem pushed.requests && r.reaches
            then (redeem device r.alive before).0
            else before,
        pushed.doc,
      )

  unfoldable pub rounds : String → List Round → ServerCode × Attempt P → ServerCode × Attempt P
  unfolding round
  rounds device [] s = s
  rounds device (r ∷ rs) s = rounds device rs (round device r s)

  -- A verdict on the local row is what the row of the code says.
  unfoldable pub Agrees : String → ServerCode × Attempt P → Type 0
  Agrees device (code, doc) =
      (doc.unverified_code ≡ false)
      × ((doc.burn_ok ≡ none) ⊎ (doc.burn_ok ≡ some (owns device code)))
      × IsSettled doc
