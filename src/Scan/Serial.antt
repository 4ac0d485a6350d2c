-- ===== src/Scan/Serial.antt =====
-- marketing/scanner.js, `makeSerializedEnqueue`: the calls of `enqueueAttempt` of one code wait for each
-- other, because each is a search and an insert between which other calls run. A schedule is a list
-- of moves, in any order; a call that settled, well or not, is gone from the list.
pub mod Runs
pub mod Atomic
use yumyums_purchase_orders.Common.{
  ℕ, zero, suc, ◌+◌, String, Bool, true, false, not, ◌&&◌, List, [], ◌∷◌, ◌++◌, Option, none, some,
  if◌then◌else◌, text_eq, find, includes,
}
use yumyums_purchase_orders.Push.{
  Attempt, Status, is_pending, is_live, pending_attempt, enqueue_attempt,
}

-- A call of the wrapper: the fields of the attempt, and whether its search found nothing yet.
pub record Call (P : Type 0) : Type 0 where
  pub code_id : String
  pub unverified : Bool
  pub payload : P
  pub fresh_id : String
  pub looked : Bool

-- The collection, and the calls that have not settled, the oldest first.
pub record Serial (P : Type 0) : Type 0 where
  pub attempts : List (Attempt P)
  pub calls : List (Call P)

-- A call comes in; the call at an index takes its next step, or it rejects; the push handler resolves
-- a pending attempt.
pub data Move (P : Type 0) : Type 0 where
  enqueue : String → Bool → P → String → Move P
  advance : ℕ → Move P
  reject : ℕ → Move P
  resolve_attempt : String → Status → Move P

module _ {P : Type 0} where
  abbrev pub inserted : Call P → Attempt P
  inserted c = pending_attempt c.code_id c.unverified c.payload c.fresh_id

  -- The next step of a call that nothing holds back: the search of `enqueueAttempt`, or its insert.
  -- The result is the collection, and what is left of the call.
  abbrev pub step_call : List (Attempt P) → Call P → List (Attempt P) × List (Call P)
  step_call attempts c =
      if c.looked
      then (attempts ++ inserted c ∷ [], [])
      else elim (find (is_live c.code_id) attempts) [
        | some live ↦ (attempts, [])
        | none ↦ (attempts, record c { looked = true } ∷ [])
      ]

  -- `tails.get(key)`: a call waits while an older one of its code is there; `seen` are the codes of
  -- the older calls.
  abbrev pub step_at :
      ℕ → List String → List (Attempt P) → List (Call P) → List (Attempt P) × List (Call P)
  step_at n seen attempts [] = (attempts, [])
  step_at zero seen attempts (c ∷ cs) =
      let (attempts', left) = step_call attempts c in
      if includes seen c.code_id then (attempts, c ∷ cs) else (attempts', left ++ cs)
  step_at (suc n) seen attempts (c ∷ cs) =
      let (attempts', rest) = step_at n (c.code_id ∷ seen) attempts cs in (attempts', c ∷ rest)

  -- A rejection reaches the caller, and the tail goes on.
  abbrev pub drop_at : ℕ → List (Call P) → List (Call P)
  drop_at n [] = []
  drop_at zero (c ∷ cs) = cs
  drop_at (suc n) (c ∷ cs) = c ∷ drop_at n cs

  abbrev pub resolved_as : String → Status → List (Attempt P) → List (Attempt P)
  resolved_as id status [] = []
  resolved_as id status (d ∷ ds) =
      let rest = resolved_as id status ds in
      if text_eq d.id id && is_pending d.status
      then record d { status = status } ∷ rest
      else d ∷ rest

  unfoldable pub move : Move P → Serial P → Serial P
  move (enqueue code unverified payload fresh) s =
      let call : Call P = record {
        code_id = code;
        unverified = unverified;
        payload = payload;
        fresh_id = fresh;
        looked = false;
      } in
      record s { calls = s.calls ++ call ∷ [] }
  move (advance n) s =
      let (attempts, calls) = step_at n [] s.attempts s.calls in
      record { attempts = attempts; calls = calls }
  move (reject n) s = record s { calls = drop_at n s.calls }
  move (resolve_attempt id status) s = record s { attempts = resolved_as id status s.attempts }

  unfoldable pub moves : List (Move P) → Serial P → Serial P
  unfolding move
  moves [] s = s
  moves (m ∷ ms) s = moves ms (move m s)
