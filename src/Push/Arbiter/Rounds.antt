-- ===== src/Push/Arbiter/Rounds.antt =====
-- The push handler against the arbiter: what its verdicts come to, whatever is lost.
use yumyums_purchase_orders.Common.{
  ◌⊎◌, String, ◌≡◌, refl, sym, ap, ◌∙◌, Bool, true, false, not, ◌&&◌, List, [], ◌∷◌, Option, none,
  some, arith, if◌then◌else◌, text_eq, eq_refl, any, all, inl, inr,
}
use yumyums_purchase_orders.Push.{
  Attempt, Replies, pending, is_pending, push_attempt, land_attempt, after_verdict, persist_verdict,
  land_unverified_attempt,
}
use yumyums_purchase_orders.Push.Retry.{is_redeem, IsSettled, push_attempt-IsSettled}
use yumyums_purchase_orders.Push.Arbiter.{
  ServerCode, redeem, Round, other_redeems, replies_of, owns, foreign, IsComplete, outcome, round,
  rounds, Agrees,
}

-- A redemption by another device does not make the code this one's, nor take it away.
owns-redeem :
    (device who : String) (alive : Bool) (code : ServerCode)
    → text_eq who device ≡ false
    → owns device (redeem who alive code).0 ≡ owns device code
unfolding redeem
owns-redeem device who alive none h = refl
owns-redeem device who alive (some (some w)) h = refl
owns-redeem device who true (some none) h = h
owns-redeem device who false (some none) h = refl

owns-other_redeems :
    (device : String) (r : Round) (code : ServerCode)
    → foreign device r ≡ true
    → owns device (other_redeems r code) ≡ owns device code
owns-other_redeems device r code h = go r.other h
  where
    go :
        (o : Option String)
        → elim o [ none ↦ true | some who ↦ not (text_eq who device) ] ≡ true
        → owns device (elim o [ none ↦ code | some who ↦ (redeem who r.alive code).0 ])
          ≡ owns device code
    go none h = refl
    go (some who) h = owns-redeem device who r.alive code (ground (arith, h))

asked_code :
    (device : String) (r : Round) (before : ServerCode) (asked : Bool)
    → asked ≡ true
    → r.reaches ≡ true
    → (if asked && r.reaches then (redeem device r.alive before).0 else before)
      ≡ (redeem device r.alive before).0
asked_code device r before asked a h = rw (a, h) refl

module _ {P : Type 0} where
  -- A recorded verdict is kept, and nothing is asked.
  push_attempt-kept :
      (device : String) (r : Replies) (doc : Attempt P) (b : Bool)
      → doc.burn_ok ≡ some b
      → ((push_attempt device r doc).doc.burn_ok ≡ some b)
        × (any is_redeem (push_attempt device r doc).requests ≡ false)
  unfolding push_attempt after_verdict persist_verdict land_attempt land_unverified_attempt
      is_redeem
  push_attempt-kept device r doc b h = ground arith

  -- An attempt that names a code keeps naming one.
  push_attempt-names :
      (device : String) (r : Replies) (doc : Attempt P)
      → (push_attempt device r doc).doc.unverified_code ≡ doc.unverified_code
  unfolding push_attempt after_verdict persist_verdict land_attempt land_unverified_attempt
  push_attempt-names device r doc = ground arith

  -- A run without a verdict asks; it records nothing, or what the code's row says after the request.
  push_attempt-asks :
      (device : String) (r : Round) (code : ServerCode) (doc : Attempt P)
      → doc.status ≡ pending
      → doc.unverified_code ≡ false
      → doc.burn_ok ≡ none
      → let pushed = push_attempt device (replies_of device r code) doc in
        (any is_redeem pushed.requests ≡ true)
        × ((pushed.doc.burn_ok ≡ none)
            ⊎ ((r.reaches ≡ true)
                × (pushed.doc.burn_ok ≡ some (owns device (redeem device r.alive code).0))))
  unfolding push_attempt after_verdict persist_verdict land_attempt is_redeem redeem
  push_attempt-asks device r none doc s u n = ground arith
  push_attempt-asks device r (some none) doc s u n = ground (arith, eq_refl device)
  push_attempt-asks device r (some (some who)) doc s u n = ground arith

  settled-pending :
      (doc : Attempt P)
      → IsSettled doc
      → doc.unverified_code ≡ false
      → doc.burn_ok ≡ none
      → doc.status ≡ pending
  unfolding IsSettled
  settled-pending doc h u n = ground arith

  round-Agrees :
      (device : String) (r : Round) (code : ServerCode) (doc : Attempt P)
      → foreign device r ≡ true
      → Agrees device (code, doc)
      → Agrees device (round device r (code, doc))
  unfolding round Agrees
  round-Agrees device r code doc f (u, b, s) =
      let before = other_redeems r code in
      let replies = replies_of device r before in
      (
        push_attempt-names device replies doc ∙ u,
        agreed b,
        push_attempt-IsSettled device replies doc s,
      )
    where
      agreed :
          ((doc.burn_ok ≡ none) ⊎ (doc.burn_ok ≡ some (owns device code)))
          → let before = other_redeems r code in
            let pushed = push_attempt device (replies_of device r before) doc in
            (pushed.doc.burn_ok ≡ none)
            ⊎ (pushed.doc.burn_ok
                ≡ some (
                    owns device (
                      if any is_redeem pushed.requests && r.reaches
                      then (redeem device r.alive before).0
                      else before)))
      agreed (inr b) =
          let before = other_redeems r code in
          let (kept, silent) = push_attempt-kept device (replies_of device r before) doc _ b in
          inr (rw silent (kept ∙ ap some (sym (owns-other_redeems device r code f))))
      agreed (inl n) =
          let before = other_redeems r code in
          let (asked, result) =
            push_attempt-asks device r before doc (settled-pending doc s u n) u n in
          elim result [
            | inl e ↦ inl e
            | inr (reached, e) ↦ inr (
                e
                ∙ ap (λ c. some (owns device c)) (sym (asked_code device r before _ asked reached)))
          ]

  rounds-Agrees :
      (device : String) (rs : List Round) (code : ServerCode) (doc : Attempt P)
      → all (foreign device) rs ≡ true
      → Agrees device (code, doc)
      → Agrees device (rounds device rs (code, doc))
  unfolding rounds
  rounds-Agrees device [] code doc f h = h
  rounds-Agrees device (r ∷ rs) code doc f h =
      let next = round device r (code, doc) in
      rounds-Agrees device rs next.0 next.1 (ground (arith, f))
        (round-Agrees device r code doc (ground (arith, f)) h)

  Agrees-outcome :
      (device : String) (code : ServerCode) (doc : Attempt P)
      → Agrees device (code, doc)
      → (is_pending doc.status ≡ true) ⊎ (doc.status ≡ outcome (owns device code))
  unfolding Agrees IsSettled
  Agrees-outcome device code doc h = ground arith

  push_attempt_complete :
      (device : String) (r : Round) (code : ServerCode) (doc : Attempt P)
      → IsComplete r
      → doc.unverified_code ≡ false
      → is_pending (push_attempt device (replies_of device r code) doc).doc.status ≡ false
  unfolding push_attempt after_verdict persist_verdict land_attempt redeem IsComplete
  push_attempt_complete device r none doc c u = ground arith
  push_attempt_complete device r (some none) doc c u = ground (arith, eq_refl device)
  push_attempt_complete device r (some (some who)) doc c u = ground arith

  round-outcome :
      (device : String) (r : Round) (code : ServerCode) (doc : Attempt P)
      → foreign device r ≡ true
      → IsComplete r
      → Agrees device (code, doc)
      → (round device r (code, doc)).1.status ≡ outcome (owns device (round device r (code, doc)).0)
  unfolding round Agrees
  round-outcome device r code doc f c h =
      let next = round device r (code, doc) in
      let resolved = push_attempt_complete device r (other_redeems r code) doc c h.0 in
      elim (Agrees-outcome device next.0 next.1 (round-Agrees device r code doc f h)) [
        | inl p ↦ ground (arith, p, resolved)
        | inr e ↦ e
      ]

  -- The winner is never flipped, and the loser never accepted. A pending attempt that names a code is run
  -- against the arbiter, round after round; in each, another device may redeem the code first, the code
  -- may have expired, the request or its answer may be lost, the replica may not name the winner, and
  -- either patch of the local row or the landing may fail. After any such rounds the attempt is still
  -- pending, or it is accepted just when the code's row names this device, and rejected otherwise; and
  -- one more round in which nothing is lost decides it. Who redeems the code in between is another device.
  pub rounds-arbitrated :
      (device : String) (rs : List Round) (last : Round) (code : ServerCode) (doc : Attempt P)
      → all (foreign device) rs ≡ true
      → foreign device last ≡ true
      → IsComplete last
      → doc.unverified_code ≡ false
      → doc.burn_ok ≡ none
      → IsSettled doc
      → let now = rounds device rs (code, doc) in
        let decided = round device last now in
        ((is_pending now.1.status ≡ true) ⊎ (now.1.status ≡ outcome (owns device now.0)))
        × (decided.1.status ≡ outcome (owns device decided.0))
  unfolding Agrees
  rounds-arbitrated device rs last code doc fs f c u n s =
      let now = rounds device rs (code, doc) in
      let agreed = rounds-Agrees device rs code doc fs (u, inl n, s) in
      (Agrees-outcome device now.0 now.1 agreed, round-outcome device last now.0 now.1 f c agreed)
