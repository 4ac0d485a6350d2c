-- ===== src/Push/Tests.antt =====
-- Scan attempts at work: the properties at concrete attempts.
use yumyums_purchase_orders.Common.{
  ◌⊎◌, ◌++◌, Option, ◌*◌, ◌+◌, ℕ, ◌≤◌, String, ◌≡◌, refl, true, false, List, [], ◌∷◌, none, some,
  inl, map, arith,
}
use yumyums_purchase_orders.Push.Winner.{CodeRow, await_winner, Outcome, await_winner-returns}
use yumyums_purchase_orders.Push.{
  push_attempt, after_verdict, persist_verdict, land_attempt, Status, pending, accepted, rejected,
  Attempt, no_answer, answer, Replies, retries, is_pending,
}
use yumyums_purchase_orders.Push.Retry.{
  is_redeem, IsSettled, IsDecided, burns, redeems, retries-decided,
}
use yumyums_purchase_orders.Push.Enqueue.{lives}
use yumyums_purchase_orders.Push.Batch.{
  Row, push_row, push_found, push_handler, Each, Holds, all_pending,
}
use yumyums_purchase_orders.Push.Batch.Landed.{EachLanded, push_handler-resolves}
use yumyums_purchase_orders.Push.Arbiter.{
  ServerCode, redeem, Round, owns, IsComplete, outcome, round, rounds,
}
use yumyums_purchase_orders.Push.Arbiter.Rounds.{rounds-arbitrated}

abbrev attempt : Attempt ℕ
attempt = record {
  id = "u1";
  code_id = "c1";
  status = pending;
  reason = none;
  unverified_code = false;
  payload = 1200;
  burn_ok = none;
  burn_reason = none;
  winner = none;
  landed = false;
}

abbrev unverified : Attempt ℕ
unverified = record attempt { unverified_code = true }

abbrev burnt : Attempt ℕ
burnt = record attempt { burn_ok = some true }

abbrev done : Attempt ℕ
done = record burnt { status = accepted; landed = true }

-- The server accepts, but the landing gets no answer; and then it gets one.
abbrev no_landing : Replies
no_landing = record {
  redeem = answer 200;
  verdict = record { accepts = true; why = none };
  winner = none;
  land = no_answer;
  burn_patch = true;
  final_patch = true;
}

abbrev landing : Replies
landing = record no_landing { land = answer 201 }

abbrev offline : Replies
offline = record no_landing { redeem = no_answer }

attempt-IsSettled : IsSettled attempt
unfolding IsSettled
attempt-IsSettled = inl (refl, refl)

no_landing-IsDecided : IsDecided no_landing
unfolding IsDecided
no_landing-IsDecided = (refl, refl, inl refl)

retries-decided_example :
    (redeems (retries "d1" (no_landing ∷ landing ∷ []) attempt).requests ≡ 1)
    × ((retries "d1" (no_landing ∷ landing ∷ []) attempt).doc.burn_ok
        ≡ some (burns "d1" no_landing))
retries-decided_example =
    retries-decided "d1" no_landing (landing ∷ []) attempt refl refl refl no_landing-IsDecided

abbrev no_attempts : List (Attempt ℕ)
no_attempts = []

no_lives : (c : String) → lives c no_attempts ≤ 1
no_lives c = ground arith

abbrev rows : List (Row ℕ)
rows =
    record { state_status = pending; found = some attempt; replies = landing }
    ∷ record { state_status = pending; found = none; replies = offline }
    ∷ record { state_status = pending; found = some burnt; replies = landing }
    ∷ []

rows_pending : all_pending rows ≡ true
unfolding all_pending
rows_pending = refl

rows_pass : (push_handler "d1" rows).threw ≡ false
unfolding push_handler push_row push_found push_attempt after_verdict persist_verdict land_attempt
rows_pass = refl

push_handler-resolves_example :
    EachLanded (push_handler "d1" rows).requests rows (push_handler "d1" rows).docs
push_handler-resolves_example = push_handler-resolves "d1" rows rows_pending rows_pass

-- The answer of the first request is lost; then the patch of the verdict is; then all goes well.
abbrev good : Round
good = record {
  other = none;
  alive = true;
  reaches = true;
  answered = true;
  named = true;
  at = none;
  land = answer 201;
  burn_patch = true;
  final_patch = true;
}

abbrev unlucky : List Round
unlucky =
    record good { answered = false }
    ∷ record good { other = some "d2"; burn_patch = false }
    ∷ record good { land = no_answer }
    ∷ []

good-IsComplete : IsComplete good
unfolding IsComplete
good-IsComplete = (refl, refl, refl, refl, refl, refl)

rounds-arbitrated_example :
    let now = rounds "d1" unlucky (some none, attempt) in
    let decided = round "d1" good now in
    ((is_pending now.1.status ≡ true) ⊎ (now.1.status ≡ outcome (owns "d1" now.0)))
    × (decided.1.status ≡ outcome (owns "d1" decided.0))
rounds-arbitrated_example =
    rounds-arbitrated "d1" unlucky good (some none) attempt refl refl good-IsComplete refl refl
      attempt-IsSettled

-- The one that redeems first wins, whoever is told first.
abbrev code_and_status : List Round → ServerCode × Status
code_and_status rs = let s = rounds "d1" rs (some none, attempt) in (s.0, s.1.status)

won_and_lost :
    (code_and_status (unlucky ++ good ∷ []) ≡ (some (some "d1"), accepted))
    × (code_and_status (record good { other = some "d2" } ∷ []) ≡ (some (some "d2"), rejected))
unfolding rounds round redeem push_attempt after_verdict persist_verdict land_attempt is_redeem
won_and_lost = (refl, refl)

rows-IsSettled : Each IsSettled (map (λ r. r.found) rows)
unfolding Each Holds IsSettled
rows-IsSettled = (attempt-IsSettled, (tt, (inl (refl, refl), tt)))

-- A replica that never names a winner, and a clock that goes on by a hundred a round.
abbrev no_row : ℕ → Option CodeRow
no_row n = none

abbrev ticks : ℕ → ℕ
ticks n = n * 100 + 5

await_winner-returns_example :
    (r : Option (String × Option String)) × (await_winner no_row ticks 11 5 10 ≡ some r)
    × Outcome no_row ticks 15 0 r
await_winner-returns_example =
    await_winner-returns no_row ticks 5 10 (λ m. omega arith) (omega arith)
