-- ===== src/Push/Retry.antt =====
-- marketing/sync/push-replication.js: what the runs of the push handler over one attempt keep.
use yumyums_purchase_orders.Common.{
  ◌⊎◌, ℕ, ◌+◌, String, ◌≡◌, refl, Bool, true, false, List, [], ◌∷◌, ◌++◌, Option, ◌&&◌, ◌||◌, none,
  some, arith, text_eq,
}
use yumyums_purchase_orders.Push.{
  Attempt, Replies, Request, Answer, pending, accepted, rejected, redeem_request, land_request,
  land_unverified, push_attempt, retries, is_pending, land_attempt, after_verdict, persist_verdict,
  land_unverified_attempt, is_status, is_reason, has_landed, answer,
}

unfoldable pub is_redeem : Request → Bool
is_redeem (redeem_request c) = true
is_redeem (land_request i s) = false
is_redeem (land_unverified i) = false

-- The requests that burn a code.
pub redeems : List Request → ℕ
unfolding is_redeem
redeems [] = 0
redeems (redeem_request c ∷ rs) = redeems rs + 1
redeems (land_request i s ∷ rs) = redeems rs
redeems (land_unverified i ∷ rs) = redeems rs

redeems-append : (xs ys : List Request) → redeems (xs ++ ys) ≡ redeems xs + redeems ys
unfolding redeems
redeems-append [] ys = ground arith
redeems-append (redeem_request c ∷ xs) ys = ground (arith, redeems-append xs ys)
redeems-append (land_request i s ∷ xs) ys = redeems-append xs ys
redeems-append (land_unverified i ∷ xs) ys = redeems-append xs ys

-- A run whose redeem request is answered, and not by a refusal that waits for the winner, and whose patch
-- of the verdict onto the local row goes through.
unfoldable pub IsDecided : Replies → Type 0
IsDecided r =
    (is_status r.redeem 200 ≡ true)
    × (r.burn_patch ≡ true)
    × ((r.verdict.accepts ≡ true)
        ⊎ (is_reason r.verdict.why "already_used" ≡ false)
        ⊎ ((w : String × Option String) × (r.winner ≡ some w)))

-- The outcome of such a run: the server accepts, or this very device is who used the code.
pub burns : String → Replies → Bool
burns device r =
    r.verdict.accepts
    || (is_reason r.verdict.why "already_used"
        && elim r.winner [ none ↦ false | some (who, at) ↦ text_eq who device ])

module _ {P : Type 0} where
  -- What the status of an attempt says of its verdict and of its landing.
  unfoldable pub IsSettled : Attempt P → Type 0
  IsSettled doc =
      ((doc.status ≡ pending) × (doc.landed ≡ false))
      ⊎ ((doc.status ≡ accepted)
          × (doc.landed ≡ true)
          × (doc.reason ≡ none)
          × ((doc.unverified_code ≡ true) ⊎ (doc.burn_ok ≡ some true)))
      ⊎ ((doc.status ≡ rejected)
          × (doc.landed ≡ true)
          × (doc.unverified_code ≡ false)
          × (doc.burn_ok ≡ some false)
          × (doc.reason ≡ doc.burn_reason))

  pub push_attempt-IsSettled :
      (device : String) (r : Replies) (doc : Attempt P)
      → IsSettled doc
      → IsSettled (push_attempt device r doc).doc
  unfolding IsSettled push_attempt after_verdict persist_verdict land_attempt
      land_unverified_attempt
  push_attempt-IsSettled device r doc h = ground arith

  push_attempt-recorded :
      (device : String) (r : Replies) (doc : Attempt P) (b : Bool)
      → doc.burn_ok ≡ some b
      → ((push_attempt device r doc).doc.burn_ok ≡ some b)
        × (redeems (push_attempt device r doc).requests ≡ 0)
  unfolding push_attempt after_verdict persist_verdict land_attempt land_unverified_attempt redeems
  push_attempt-recorded device r doc b h = ground arith

  -- The invariant: pending means not landed, accepted means landed with a verdict that accepts (or
  -- with no code to ask about), rejected means landed with the refusal and its reason. However often
  -- the handler is run over the attempt, and whatever the requests of each run give, it is kept.
  pub retries-IsSettled :
      (device : String) (rs : List Replies) (doc : Attempt P)
      → IsSettled doc
      → IsSettled (retries device rs doc).doc
  unfolding retries
  retries-IsSettled device [] doc h = h
  retries-IsSettled device (r ∷ rs) doc h =
      retries-IsSettled device rs (push_attempt device r doc).doc
        (push_attempt-IsSettled device r doc h)

  -- Once a verdict is recorded, it stays, and the code is never asked about again: the later runs
  -- send landings at most.
  pub retries-recorded :
      (device : String) (rs : List Replies) (doc : Attempt P) (b : Bool)
      → doc.burn_ok ≡ some b
      → ((retries device rs doc).doc.burn_ok ≡ some b)
        × (redeems (retries device rs doc).requests ≡ 0)
  unfolding retries redeems
  retries-recorded device [] doc b h = (h, refl)
  retries-recorded device (r ∷ rs) doc b h =
      let first = push_attempt-recorded device r doc b h in
      let rest = retries-recorded device rs (push_attempt device r doc).doc b first.0 in
      (
        rest.0,
        ground (
          arith,
          redeems-append (push_attempt device r doc).requests
              (retries device rs (push_attempt device r doc).doc).requests,
          first.1,
          rest.1,
        ),
      )

  push_attempt-decided :
      (device : String) (r : Replies) (doc : Attempt P)
      → is_pending doc.status ≡ true
      → doc.unverified_code ≡ false
      → doc.burn_ok ≡ none
      → IsDecided r
      → ((push_attempt device r doc).doc.burn_ok ≡ some (burns device r))
        × (redeems (push_attempt device r doc).requests ≡ 1)
  unfolding push_attempt after_verdict persist_verdict land_attempt redeems IsDecided burns
  push_attempt-decided device r doc p u n h = ground arith

  -- A verdict that is persisted is not asked for again: from a run on whose verdict is in and whose patch
  -- of it goes through, however the landing of that run ends, whatever fails after it and however many
  -- runs follow, the redeem request was sent exactly once, and the attempt keeps the outcome: the server accepted, or named the code as used and the replica this device as its user.
  pub retries-decided :
      (device : String) (r : Replies) (rs : List Replies) (doc : Attempt P)
      → is_pending doc.status ≡ true
      → doc.unverified_code ≡ false
      → doc.burn_ok ≡ none
      → IsDecided r
      → (redeems (retries device (r ∷ rs) doc).requests ≡ 1)
        × ((retries device (r ∷ rs) doc).doc.burn_ok ≡ some (burns device r))
  unfolding retries
  retries-decided device r rs doc p u n h =
      let first = push_attempt-decided device r doc p u n h in
      let rest =
        retries-recorded device rs (push_attempt device r doc).doc (burns device r) first.0 in
      (
        ground (
          arith,
          redeems-append (push_attempt device r doc).requests
              (retries device rs (push_attempt device r doc).doc).requests,
          first.1,
          rest.1,
        ),
        rest.0,
      )

  push_attempt-unverified :
      (device : String) (r : Replies) (doc : Attempt P)
      → doc.unverified_code ≡ true
      → ((push_attempt device r doc).doc.unverified_code ≡ true)
        × (redeems (push_attempt device r doc).requests ≡ 0)
  unfolding push_attempt after_verdict persist_verdict land_attempt land_unverified_attempt redeems
  push_attempt-unverified device r doc h = ground arith

  -- An attempt that names no code never asks to burn one.
  pub retries-unverified :
      (device : String) (rs : List Replies) (doc : Attempt P)
      → doc.unverified_code ≡ true
      → redeems (retries device rs doc).requests ≡ 0
  unfolding retries redeems
  retries-unverified device [] doc h = refl
  retries-unverified device (r ∷ rs) doc h =
      let first = push_attempt-unverified device r doc h in
      let rest = retries-unverified device rs (push_attempt device r doc).doc first.0 in
      ground (
        arith,
        redeems-append (push_attempt device r doc).requests
            (retries device rs (push_attempt device r doc).doc).requests,
        first,
        rest,
      )

  -- The lost response: a first run whose redeem request got no verdict leaves the attempt as it was,
  -- and when the next run is refused as `already_used` and its landing arrives, the attempt is accepted
  -- if the replica names this device as the winner, and rejected with the winner recorded if it names
  -- another one.
  pub retries-already_used :
      (device who : String) (at : Option String) (r : Replies) (land : Answer) (doc : Attempt P)
      → is_pending doc.status ≡ true
      → doc.unverified_code ≡ false
      → doc.burn_ok ≡ none
      → is_status r.redeem 200 ≡ false
      → has_landed land ≡ true
      → let next : Replies = record {
        redeem = answer 200;
        verdict = record { accepts = false; why = some "already_used" };
        winner = some (who, at);
        land = land;
        burn_patch = true;
        final_patch = true;
      } in
        let done = (retries device (r ∷ next ∷ []) doc).doc in
        ((text_eq who device ≡ true)
          × (done.status ≡ accepted)
          × (done.burn_ok ≡ some true)
          × (done.reason ≡ none))
        ⊎ ((text_eq who device ≡ false)
            × (done.status ≡ rejected)
            × (done.winner ≡ some (who, at))
            × (done.reason ≡ some "already_used"))
  unfolding retries push_attempt after_verdict persist_verdict land_attempt
  retries-already_used device who at r land doc p u n lost landed = ground arith
