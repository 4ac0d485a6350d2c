-- ===== src/Push/Enqueue.antt =====
-- marketing/sync/push-replication.js, `enqueueAttempt`: one live attempt of a code.
use yumyums_purchase_orders.Common.{
  ℕ, ◌+◌, ◌≤◌, String, ◌≡◌, refl, Bool, true, List, [], ◌∷◌, ◌++◌, none, some, arith, if◌then◌else◌,
  find, keep, length, Option-cases, text_cases, eq_refl, inl, inr,
}
use mathlib.Core.Path.{subst}
use yumyums_purchase_orders.Push.{Attempt, enqueue_attempt, is_live}

module _ {P : Type 0} where
  abbrev pub lives : String → List (Attempt P) → ℕ
  lives code_id ds = length (keep (is_live code_id) ds)

  pub find-none :
      (code_id : String) (ds : List (Attempt P))
      → find (is_live code_id) ds ≡ none
      → lives code_id ds ≡ 0
  find-none code_id [] h = refl
  find-none code_id (d ∷ ds) h = ground (arith, find-none code_id ds)

  find-some :
      (code_id : String) (ds : List (Attempt P)) (d : Attempt P)
      → find (is_live code_id) ds ≡ some d
      → is_live code_id d ≡ true
  find-some code_id [] d h = ground arith
  find-some code_id (x ∷ ds) d h = ground (arith, find-some code_id ds d)

  pub lives-append :
      (code_id : String) (xs : List (Attempt P)) (d : Attempt P)
      → lives code_id (xs ++ d ∷ []) ≡ lives code_id xs + (if is_live code_id d then 1 else 0)
  lives-append code_id [] d = ground arith
  lives-append code_id (x ∷ xs) d = ground (arith, lives-append code_id xs d)

  add-single :
      (c : String) (ds : List (Attempt P)) (doc : Attempt P)
      → find (is_live doc.code_id) ds ≡ none
      → lives c ds ≤ 1
      → lives c (ds ++ doc ∷ []) ≤ 1
  add-single c ds doc n h = elim (text_cases doc.code_id c) [
    | inl e ↦
        let none_of : lives c ds ≡ 0 = subst (λ k. lives k ds ≡ 0) e (find-none doc.code_id ds n) in
        ground (arith, none_of, lives-append c ds doc)
    | inr d ↦ ground (arith, d, h, lives-append c ds doc)
  ]

  -- The attempt that `enqueueAttempt` gives is a live one of the code; when it says that there
  -- was one, nothing is added; otherwise it is pending, unlanded and without a verdict, under the fresh
  -- id, and stands last. And no code ever gets a second live attempt.
  pub enqueue_attempt-single :
      (ds : List (Attempt P)) (code_id : String) (unverified : Bool) (payload : P)
      (fresh_id : String)
      → ((c : String) → lives c ds ≤ 1)
      → let (after, doc, deduped) = enqueue_attempt ds code_id unverified payload fresh_id in
        ((c : String) → lives c after ≤ 1)
        × (is_live code_id doc ≡ true)
        × (after ≡ (if deduped then ds else ds ++ doc ∷ []))
  unfolding enqueue_attempt
  enqueue_attempt-single ds code_id unverified payload fresh_id h =
      elim (Option-cases (find (is_live code_id) ds)) [
        | inl n ↦
            rw (n, enqueue_attempt)
              (λ c. add-single c ds _ n (h c), ground (arith, eq_refl code_id), refl)
        | inr (d, s) ↦ rw (s, enqueue_attempt) (h, find-some code_id ds d s, refl)
      ]
