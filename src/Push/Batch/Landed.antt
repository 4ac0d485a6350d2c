-- ===== src/Push/Batch/Landed.antt =====
-- marketing/sync/push-replication.js, `pushHandler`: what a run over the rows has landed.
use mathlib.Core.Path.{subst}
use mathlib.Core.List.{append-nil}
use yumyums_purchase_orders.Common.{
  ◌⊎◌, ℕ, refl, any, text_eq, eq_refl, String, ◌≡◌, Bool, true, false, List, [], ◌∷◌, ◌++◌, Option,
  none, some, arith, if◌then◌else◌, Bool-cases, inl, inr,
}
use yumyums_purchase_orders.Push.{
  Attempt, Replies, Request, Answer, answer, no_answer, has_landed, redeem_request, land_request,
  land_unverified, is_pending, push_attempt, land_attempt, after_verdict, persist_verdict,
  land_unverified_attempt,
}
use yumyums_purchase_orders.Push.Retry.{}
use yumyums_purchase_orders.Push.Batch.{Row, push_found, push_row, push_handler, all_pending}

-- A request that lands the attempt with the id.
abbrev pub lands : String → Request → Bool
lands id (redeem_request c) = false
lands id (land_request i status) = text_eq i id
lands id (land_unverified i) = text_eq i id

any-within :
    {A : Type 0} (p : A → Bool) (xs ys zs : List A)
    → any p ys ≡ true
    → any p (xs ++ (ys ++ zs)) ≡ true
any-within p [] [] zs h = ground (arith, h)
any-within p [] (y ∷ ys) zs h = ground (arith, h, any-within p [] ys zs)
any-within p (x ∷ xs) ys zs h = ground (arith, any-within p xs ys zs h)

module _ {P : Type 0} where
  -- The landing of a pending attempt: it was sent, the server has the row, now or from before, and the
  -- local row says so. An attempt that was not pending is as it was.
  unfoldable pub Landed : List Request → Answer → Attempt P → Attempt P → Type 0
  Landed requests land before after =
      if is_pending before.status
      then ((n : ℕ) × (land ≡ answer n) × ((n ≡ 201) ⊎ (n ≡ 409)))
        × (any (lands before.id) requests ≡ true)
        × (after.landed ≡ true)
        × (is_pending after.status ≡ false)
      else after ≡ before

  -- The same of a row whose attempt may be gone.
  unfoldable pub FoundLanded :
      List Request → Answer → Option (Attempt P) → Option (Attempt P) → Type 0
  FoundLanded requests land none none = Unit
  FoundLanded requests land (some before) (some after) = Landed requests land before after
  FoundLanded requests land _ _ = ⊥

  unfoldable pub EachLanded : List Request → List (Row P) → List (Option (Attempt P)) → Type 0
  EachLanded requests [] [] = Unit
  EachLanded requests (row ∷ rows) (d ∷ ds) =
      FoundLanded requests row.replies.land row.found d × EachLanded requests rows ds
  EachLanded requests _ _ = ⊥

  push_attempt-sent :
      (device : String) (r : Replies) (doc : Attempt P)
      → is_pending doc.status ≡ true
      → (push_attempt device r doc).threw ≡ false
      → (has_landed r.land ≡ true)
        × (any (lands doc.id) (push_attempt device r doc).requests ≡ true)
        × ((push_attempt device r doc).doc.landed ≡ true)
        × (is_pending (push_attempt device r doc).doc.status ≡ false)
  unfolding push_attempt after_verdict persist_verdict land_attempt land_unverified_attempt
  push_attempt-sent device r doc p h = ground (arith, p, h, eq_refl doc.id)

  push_attempt-skips :
      (device : String) (r : Replies) (doc : Attempt P)
      → is_pending doc.status ≡ false
      → (push_attempt device r doc).doc ≡ doc
  unfolding push_attempt
  push_attempt-skips device r doc n = rw n refl

  push_attempt-Landed :
      (device : String) (r : Replies) (doc : Attempt P)
      → (push_attempt device r doc).threw ≡ false
      → Landed (push_attempt device r doc).requests r.land doc (push_attempt device r doc).doc
  unfolding Landed
  push_attempt-Landed device r doc h = elim (Bool-cases (is_pending doc.status)) [
    | inl y ↦
        let (stored, sent, flagged, over) = push_attempt-sent device r doc y h in
        rw y (landed_status r.land stored, sent, flagged, over)
    | inr n ↦ rw n (push_attempt-skips device r doc n)
  ]
    where
      landed_status :
          (a : Answer) → has_landed a ≡ true → (n : ℕ) × (a ≡ answer n) × ((n ≡ 201) ⊎ (n ≡ 409))
      landed_status no_answer e = ground (arith, e)
      landed_status (answer n) e = (n, refl, ground (arith, e))

  push_found-Landed :
      (device : String) (r : Replies) (found : Option (Attempt P))
      → (push_found device r found).threw ≡ false
      → FoundLanded
          (push_found device r found).requests
          r.land
          found
          (push_found device r found).doc
  unfolding push_found FoundLanded
  push_found-Landed device r none h = tt
  push_found-Landed device r (some d) h = push_attempt-Landed device r d h

  push_row-Landed :
      (device : String) (row : Row P)
      → is_pending row.state_status ≡ true
      → (push_row device row).threw ≡ false
      → FoundLanded
          (push_row device row).requests
          row.replies.land
          row.found
          (push_row device row).doc
  unfolding push_row
  push_row-Landed device row p h = rw p (push_found-Landed device row.replies row.found (rw p at h))

  FoundLanded-more :
      (xs ys zs : List Request) (land : Answer) (before after : Option (Attempt P))
      → FoundLanded ys land before after
      → FoundLanded (xs ++ (ys ++ zs)) land before after
  unfolding FoundLanded Landed
  FoundLanded-more xs ys zs land none none h = tt
  FoundLanded-more xs ys zs land none (some a) h = elim h [ ]
  FoundLanded-more xs ys zs land (some b) none h = elim h [ ]
  FoundLanded-more xs ys zs land (some b) (some a) h = elim (Bool-cases (is_pending b.status)) [
    | inl y ↦
        let (status, sent, flagged, over) = rw y at h in
        rw y (status, any-within (lands b.id) xs ys zs sent, flagged, over)
    | inr n ↦ rw n (rw n at h)
  ]

  EachLanded-more :
      (xs ys : List Request) (rows : List (Row P)) (ds : List (Option (Attempt P)))
      → EachLanded ys rows ds
      → EachLanded (xs ++ ys) rows ds
  unfolding EachLanded
  EachLanded-more xs ys [] [] h = tt
  EachLanded-more xs ys [] (d ∷ ds) h = elim h [ ]
  EachLanded-more xs ys (row ∷ rows) [] h = elim h [ ]
  EachLanded-more xs ys (row ∷ rows) (d ∷ ds) h = (
    subst (λ rs. FoundLanded (xs ++ rs) row.replies.land row.found d) (append-nil ys)
        (FoundLanded-more xs ys [] row.replies.land row.found d h.0),
    EachLanded-more xs ys rows ds h.1,
  )

  -- A run that does not throw has landed every attempt: for each row whose attempt is there and is pending,
  -- a landing of it was sent and answered 201, or 409 for a row that the server has from before, and
  -- the local row is marked as landed and is not pending any more; an attempt that was resolved
  -- before is as it was. The rows are of pending attempts.
  pub push_handler-resolves :
      (device : String) (rows : List (Row P))
      → all_pending rows ≡ true
      → (push_handler device rows).threw ≡ false
      → EachLanded (push_handler device rows).requests rows (push_handler device rows).docs
  unfolding push_handler EachLanded all_pending
  push_handler-resolves device [] p h = tt
  push_handler-resolves device (row ∷ rows) p h = elim (Bool-cases (push_row device row).threw) [
    | inl y ↦ ground (arith, h, y)
    | inr n ↦
        let one = push_row device row in
        let others = push_handler device rows in
        let here = push_row-Landed device row (ground (arith, p)) n in
        let later = push_handler-resolves device rows (ground (arith, p)) (ground (arith, h, n)) in
        rw n (
          FoundLanded-more [] one.requests others.requests row.replies.land row.found one.doc here,
          EachLanded-more one.requests others.requests rows others.docs later,
        )
  ]
