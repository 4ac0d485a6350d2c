-- ===== src/Push/Winner.antt =====
-- marketing/sync/push-replication.js, `awaitWinner`: the bounded wait for the codes replica to name who
-- redeemed a code. What the replica holds and what the clock reads in each round are parameters; the
-- loop is on fuel.
use yumyums_purchase_orders.Common.{
  Option-cases, Bool-cases, ℕ, zero, suc, ◌+◌, ◌≤◌, ◌<◌, String, ◌≡◌, inl, inr, refl, true, Option,
  none, some, arith, if◌then◌else◌, text_eq, leb,
}

-- A row of the codes replica: its `redeemed_by` and `redeemed_at`.
pub record CodeRow : Type 0 where
  pub redeemed_by : Option String
  pub redeemed_at : Option String

-- `c && c.redeemed_by`, with what is returned of it.
abbrev pub winner_in : Option CodeRow → Option (String × Option String)
winner_in none = none
winner_in (some c) = elim c.redeemed_by [
  | none ↦ none
  | some who ↦ if text_eq who "" then none else some (who, c.redeemed_at)
]

module _ (row : ℕ → Option CodeRow) (clock : ℕ → ℕ) where
  -- The loop from a round on; `none` when the fuel is spent.
  unfoldable pub wait_rounds : ℕ → ℕ → ℕ → Option (Option (String × Option String))
  wait_rounds zero deadline n = none
  wait_rounds (suc fuel) deadline n =
      let rest = wait_rounds fuel deadline (suc n) in
      elim (winner_in (row n)) [
        | some w ↦ some (some w)
        | none ↦ if leb deadline (clock n) then some none else rest
      ]

  -- `awaitWinner`, called when the clock reads `start`.
  unfoldable pub await_winner : ℕ → ℕ → ℕ → Option (Option (String × Option String))
  unfolding wait_rounds
  await_winner fuel start wait = wait_rounds fuel (start + wait) 0

  -- What a wait gives: the winner of a round that comes before the deadline's, or none after it.
  abbrev pub Outcome : ℕ → ℕ → Option (String × Option String) → Type 0
  Outcome deadline n (some w) = (k : ℕ) × (n ≤ k) × (winner_in (row k) ≡ some w)
  Outcome deadline n none = (k : ℕ) × (n ≤ k) × (deadline ≤ clock k) × (winner_in (row k) ≡ none)

  later :
      (deadline n : ℕ) (r : Option (String × Option String))
      → Outcome deadline (suc n) r
      → Outcome deadline n r
  later deadline n (some w) (k, l, f) = (k, omega (arith, l), f)
  later deadline n none (k, l, d, f) = (k, omega (arith, l), d, f)

  wait_rounds-returns :
      (fuel deadline n : ℕ)
      → ((m : ℕ) → clock m < clock (suc m))
      → deadline ≤ clock n + fuel
      → (r : Option (String × Option String)) × (wait_rounds (suc fuel) deadline n ≡ some r)
        × Outcome deadline n r
  unfolding wait_rounds
  wait_rounds-returns zero deadline n goes_on enough = elim (Option-cases (winner_in (row n))) [
    | inr (w, f) ↦ (some w, rw (f, wait_rounds) refl, (n, omega arith, f))
    | inl f ↦
        let over : leb deadline (clock n) ≡ true = ground (arith, enough) in
        (none, rw (f, over, wait_rounds) refl, (n, omega arith, ground (arith, enough), f))
  ]
  wait_rounds-returns (suc fuel) deadline n goes_on enough =
      elim (Option-cases (winner_in (row n))) [
        | inr (w, f) ↦ (some w, rw (f, wait_rounds) refl, (n, omega arith, f))
        | inl f ↦ elim (Bool-cases (leb deadline (clock n))) [
          | inl y ↦ (none, rw (f, y, wait_rounds) refl, (n, omega arith, ground (arith, y), f))
          | inr y ↦
              let (r, got, out) =
                wait_rounds-returns fuel deadline (suc n) goes_on
                  (ground (arith, enough, goes_on n)) in
              (r, rw (f, y, wait_rounds) got, later deadline n r out)
        ]
      ]

  -- The wait ends: when the clock reads more in each round than in the one before, as many rounds as the
  -- wait has milliseconds, and one more, are enough. It gives a winner that the replica named in some
  -- round, or none, and that only in a round without a winner at or past the deadline.
  pub await_winner-returns :
      (start wait : ℕ)
      → ((m : ℕ) → clock m < clock (suc m))
      → start ≤ clock 0
      → (r : Option (String × Option String)) × (await_winner (suc wait) start wait ≡ some r)
        × Outcome (start + wait) 0 r
  unfolding await_winner
  await_winner-returns start wait goes_on begun =
      wait_rounds-returns wait (start + wait) 0 goes_on (omega (arith, begun))
