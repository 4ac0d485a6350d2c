-- ===== src/Push.antt =====
-- marketing/sync/push-replication.js: the queue of scan attempts (`enqueueAttempt`) and the push
-- handler that arbitrates them (`makePushHandler`). The network, the codes replica, the clock and
-- the generator of ids are parameters: what a call of them gives is an argument. An attempt is kept
-- by its id in the list of the collection.
pub mod Retry
pub mod Batch
pub mod Arbiter
pub mod Enqueue
pub mod Winner
mod Tests
use yumyums_purchase_orders.Common.{
  ℕ, String, Bool, true, false, not, ◌&&◌, ◌||◌, List, [], ◌∷◌, ◌++◌, Option, none, some, ◌==◌,
  if◌then◌else◌, text_eq, find,
}

pub data Status : Type 0 where
  pending accepted rejected : Status

abbrev pub is_pending : Status → Bool
is_pending pending = true
is_pending _ = false

abbrev pub is_rejected : Status → Bool
is_rejected rejected = true
is_rejected _ = false

-- SCAN_ATTEMPTS_SCHEMA, but for the fields that only ride along (order number, date, value, who
-- overrode): `payload` stands for those.
pub record Attempt (P : Type 0) : Type 0 where
  pub id : String
  pub code_id : String
  pub status : Status
  pub reason : Option String
  pub unverified_code : Bool
  pub payload : P
  pub burn_ok : Option Bool
  pub burn_reason : Option String
  pub winner : Option (String × Option String)
  pub landed : Bool

module _ {P : Type 0} where
  -- Whether an attempt is of the code, and not rejected.
  abbrev pub is_live : String → Attempt P → Bool
  is_live code_id d = text_eq d.code_id code_id && not (is_rejected d.status)

  -- What `enqueueAttempt` inserts.
  abbrev pub pending_attempt : String → Bool → P → String → Attempt P
  pending_attempt code_id unverified payload fresh_id = record {
    id = fresh_id;
    code_id = code_id;
    status = pending;
    reason = none;
    unverified_code = unverified;
    payload = payload;
    burn_ok = none;
    burn_reason = none;
    winner = none;
    landed = false;
  }

  -- `enqueueAttempt`: the live attempt of the code, or a new pending one under a fresh id.
  unfoldable pub enqueue_attempt :
      List (Attempt P) → String → Bool → P → String → List (Attempt P) × Attempt P × Bool
  enqueue_attempt attempts code_id unverified payload fresh_id =
      let doc : Attempt P = pending_attempt code_id unverified payload fresh_id in
      elim (find (is_live code_id) attempts) [
        | some live ↦ (attempts, live, true)
        | none ↦ (attempts ++ doc ∷ [], doc, false)
      ]

-- What a request gives: no answer (the promise rejects), or a status; for `redeem` a verdict too.
pub data Answer : Type 0 where
  no_answer : Answer
  answer : ℕ → Answer

pub record Verdict : Type 0 where
  pub accepts : Bool
  pub why : Option String

-- What the calls of one run of the handler over one attempt give: the redeem request and its
-- verdict, what `awaitWinner` finds, and the landing request; and whether the two patches of the local
-- row go through. A patch that fails, or a device that dies before it, ends the run like a throw.
pub record Replies : Type 0 where
  pub redeem : Answer
  pub verdict : Verdict
  pub winner : Option (String × Option String)
  pub land : Answer
  pub burn_patch : Bool
  pub final_patch : Bool

pub data Request : Type 0 where
  redeem_request : String → Request
  -- the attempt's id, and the status that the row is inserted with
  land_request : String → Status → Request
  land_unverified : String → Request

-- The attempt after a run, the requests sent, and whether the handler threw.
pub record Pushed (P : Type 0) : Type 0 where
  pub doc : Attempt P
  pub requests : List Request
  pub threw : Bool

abbrev pub is_status : Answer → ℕ → Bool
is_status no_answer n = false
is_status (answer s) n = s == n

-- `land.status === 201 || land.status === 409`.
abbrev pub has_landed : Answer → Bool
has_landed a = is_status a 201 || is_status a 409

abbrev pub is_reason : Option String → String → Bool
is_reason none t = false
is_reason (some s) t = text_eq s t

module _ {P : Type 0} where
  -- The terminal half: insert the resolved attempt, then patch it.
  unfoldable pub land_attempt : Replies → Bool → Option String → Attempt P → List Request → Pushed P
  land_attempt r burn_ok burn_reason doc sent =
      let status = if burn_ok then accepted else rejected in
      let reason = if burn_ok then none else burn_reason in
      let sent' = sent ++ land_request doc.id status ∷ [] in
      if has_landed r.land && r.final_patch
      then record {
        doc = record doc { status = status; reason = reason; landed = true };
        requests = sent';
        threw = false;
      }
      else record { doc = doc; requests = sent'; threw = true }

  -- The patch of the verdict, before anything is landed.
  abbrev pub patched :
      Bool → Option String → Option (String × Option String) → Attempt P → Attempt P
  patched burn_ok burn_reason winner doc = record doc {
    burn_ok = some burn_ok;
    burn_reason = burn_reason;
    winner = winner;
  }

  -- Belt 1: the verdict is patched onto the row, and then landed.
  unfoldable pub persist_verdict :
      Replies
      → Bool
      → Option String
      → Option (String × Option String)
      → Attempt P
      → List Request
      → Pushed P
  unfolding land_attempt
  persist_verdict r burn_ok burn_reason winner doc sent =
      if r.burn_patch
      then land_attempt r burn_ok burn_reason (patched burn_ok burn_reason winner doc) sent
      else record { doc = doc; requests = sent; threw = true }

  -- The verdict of the server, with the one refusal that is looked into: a code that was used by
  -- this very device was burnt by this attempt.
  unfoldable pub after_verdict : String → Replies → Attempt P → List Request → Pushed P
  unfolding persist_verdict
  after_verdict device r doc sent =
      let refused = r.verdict.why in
      if r.verdict.accepts
      then persist_verdict r true none none doc sent
      else if is_reason refused "already_used"
      then elim r.winner [
        | none ↦ record { doc = doc; requests = sent; threw = true }
        | some (who, at) ↦
            if text_eq who device
            then persist_verdict r true none none doc sent
            else persist_verdict r false refused (some (who, at)) doc sent
      ]
      else persist_verdict r false refused none doc sent

  -- The unverified half: it names no code, so it is landed and never burnt.
  unfoldable pub land_unverified_attempt : Replies → Attempt P → Pushed P
  land_unverified_attempt r doc =
      let sent = land_unverified doc.id ∷ [] in
      if has_landed r.land && r.final_patch
      then record {
        doc = record doc { status = accepted; reason = none; landed = true };
        requests = sent;
        threw = false;
      }
      else record { doc = doc; requests = sent; threw = true }

  -- The body of the loop over the rows, for the attempt as the collection holds it.
  unfoldable pub push_attempt : String → Replies → Attempt P → Pushed P
  unfolding after_verdict persist_verdict land_attempt land_unverified_attempt
  push_attempt device r doc =
      if not (is_pending doc.status)
      then record { doc = doc; requests = []; threw = false }
      else if doc.unverified_code
      then land_unverified_attempt r doc
      else elim doc.burn_ok [
        | some burnt ↦ land_attempt r burnt doc.burn_reason doc []
        | none ↦
            let asked = redeem_request doc.code_id ∷ [] in
            if is_status r.redeem 200
            then after_verdict device r doc asked
            else record { doc = doc; requests = asked; threw = true }
      ]

  -- RxDB pushes the row again after a throw: the handler over one attempt, run after run.
  unfoldable pub retries : String → List Replies → Attempt P → Pushed P
  unfolding push_attempt
  retries device [] doc = record { doc = doc; requests = []; threw = false }
  retries device (r ∷ rs) doc =
      let first = push_attempt device r doc in
      let rest = retries device rs first.doc in
      record rest { requests = first.requests ++ rest.requests }
