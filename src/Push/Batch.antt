-- ===== src/Push/Batch.antt =====
-- marketing/sync/push-replication.js: the loop of `pushHandler` over the rows that RxDB hands it. The
-- rows are of distinct attempts.
pub mod Landed
use yumyums_purchase_orders.Common.{
  ◌⊎◌, ℕ, refl, any, text_eq, eq_refl, String, ◌≡◌, Bool, true, false, not, List, [], ◌∷◌, ◌++◌,
  Option, none, some, arith, if◌then◌else◌, all, map, Bool-cases, inl, inr,
}
use yumyums_purchase_orders.Push.{
  Status, Attempt, Replies, Request, Answer, answer, no_answer, has_landed, redeem_request,
  land_request, land_unverified, is_pending, push_attempt, land_attempt, after_verdict,
  persist_verdict, land_unverified_attempt,
}
use yumyums_purchase_orders.Push.Retry.{IsSettled, push_attempt-IsSettled}

-- A row: the status in `newDocumentState`, what `findOne` gives, and what the requests give.
pub record Row (P : Type 0) : Type 0 where
  pub state_status : Status
  pub found : Option (Attempt P)
  pub replies : Replies

-- What a row's attempt is after its pass, the requests sent, and whether it threw.
pub record Passed (P : Type 0) : Type 0 where
  pub doc : Option (Attempt P)
  pub requests : List Request
  pub threw : Bool

-- The same of all rows.
pub record Batch (P : Type 0) : Type 0 where
  pub docs : List (Option (Attempt P))
  pub requests : List Request
  pub threw : Bool

module _ {P : Type 0} where
  -- The attempt that `findOne` gives, if there is one.
  unfoldable pub push_found : String → Replies → Option (Attempt P) → Passed P
  push_found device r none = record { doc = none; requests = []; threw = false }
  push_found device r (some doc) =
      let pushed = push_attempt device r doc in
      record { doc = some pushed.doc; requests = pushed.requests; threw = pushed.threw }

  -- One pass of the loop.
  unfoldable pub push_row : String → Row P → Passed P
  push_row device row =
      if not (is_pending row.state_status)
      then record { doc = row.found; requests = []; threw = false }
      else push_found device row.replies row.found

  -- `pushHandler`: a throw leaves the loop.
  unfoldable pub push_handler : String → List (Row P) → Batch P
  push_handler device [] = record { docs = []; requests = []; threw = false }
  push_handler device (row ∷ rows) =
      let one = push_row device row in
      let others = push_handler device rows in
      if one.threw
      then record {
        docs = one.doc ∷ map (λ r. r.found) rows;
        requests = one.requests;
        threw = true;
      }
      else record {
        docs = one.doc ∷ others.docs;
        requests = one.requests ++ others.requests;
        threw = others.threw;
      }

  -- Every attempt there is has the property.
  unfoldable pub Holds : (Attempt P → Type 0) → Option (Attempt P) → Type 0
  Holds Q none = Unit
  Holds Q (some d) = Q d

  unfoldable pub Each : (Attempt P → Type 0) → List (Option (Attempt P)) → Type 0
  Each Q [] = Unit
  Each Q (d ∷ ds) = Holds Q d × Each Q ds

  -- The attempts of the rows that RxDB pushes are pending in the row, too.
  unfoldable pub all_pending : List (Row P) → Bool
  all_pending rows = all (λ r. is_pending r.state_status) rows

  push_found-IsSettled :
      (device : String) (r : Replies) (found : Option (Attempt P))
      → Holds IsSettled found
      → Holds IsSettled (push_found device r found).doc
  unfolding push_found Holds
  push_found-IsSettled device r none h = tt
  push_found-IsSettled device r (some d) h = push_attempt-IsSettled device r d h

  push_row-IsSettled :
      (device : String) (row : Row P)
      → Holds IsSettled row.found
      → Holds IsSettled (push_row device row).doc
  unfolding push_row
  push_row-IsSettled device row h = elim (Bool-cases (is_pending row.state_status)) [
    | inl y ↦ rw y (push_found-IsSettled device row.replies row.found h)
    | inr n ↦ rw n h
  ]

  -- Whether it throws or not, the run keeps every attempt settled.
  pub push_handler-IsSettled :
      (device : String) (rows : List (Row P))
      → Each IsSettled (map (λ r. r.found) rows)
      → Each IsSettled (push_handler device rows).docs
  unfolding push_handler Each
  push_handler-IsSettled device [] h = tt
  push_handler-IsSettled device (row ∷ rows) (h, hs) =
      elim (Bool-cases (push_row device row).threw) [
        | inl y ↦ rw y (push_row-IsSettled device row h, hs)
        | inr n ↦ rw n (push_row-IsSettled device row h, push_handler-IsSettled device rows hs)
      ]
