-- ===== src/Scan/Serial/Atomic.antt =====
-- The serialised enqueues against their specification: each call that settles is one `enqueueAttempt`
-- that nothing interrupts, at the moment when it settles.
use yumyums_purchase_orders.Common.{
  ℕ, zero, suc, ◌+◌, ◌-◌, ◌≤◌, String, ◌≡◌, refl, sym, ap, ◌∙◌, List, [], ◌∷◌, ◌++◌, none, some,
  arith, if◌then◌else◌, find, includes, Bool-cases, Option-cases, inl, inr,
}
use yumyums_purchase_orders.Push.{Attempt, Status, is_live, enqueue_attempt}
use yumyums_purchase_orders.Push.Enqueue.{lives}
use yumyums_purchase_orders.Scan.Serial.{
  Call, Serial, Move, inserted, enqueue, advance, reject, resolve_attempt, step_call, step_at,
  resolved_as, move, moves,
}
use yumyums_purchase_orders.Scan.Serial.Runs.{Fits, FitsCall, IsSerial, move-IsSerial}

-- What the collection sees: a whole enqueue, or the push handler.
pub data Op (P : Type 0) : Type 0 where
  whole_enqueue : Call P → Op P
  resolution : String → Status → Op P

module _ {P : Type 0} where
  abbrev pub apply : Op P → List (Attempt P) → List (Attempt P)
  unfolding enqueue_attempt
  apply (whole_enqueue c) ds = (enqueue_attempt ds c.code_id c.unverified c.payload c.fresh_id).0
  apply (resolution id status) ds = resolved_as id status ds

  abbrev pub apply_all : List (Op P) → List (Attempt P) → List (Attempt P)
  apply_all [] ds = ds
  apply_all (o ∷ os) ds = apply_all os (apply o ds)

  -- The call that settles well when the call at an index takes its next step.
  abbrev pub settles : List (Attempt P) → Call P → List (Op P)
  settles ds c =
      if c.looked
      then whole_enqueue c ∷ []
      else elim (find (is_live c.code_id) ds) [ some live ↦ whole_enqueue c ∷ [] | none ↦ [] ]

  abbrev pub settles_at : ℕ → List String → List (Attempt P) → List (Call P) → List (Op P)
  settles_at n seen ds [] = []
  settles_at zero seen ds (c ∷ cs) = if includes seen c.code_id then [] else settles ds c
  settles_at (suc n) seen ds (c ∷ cs) = settles_at n (c.code_id ∷ seen) ds cs

  abbrev pub ops_of : Move P → Serial P → List (Op P)
  ops_of (advance n) s = settles_at n [] s.attempts s.calls
  ops_of (resolve_attempt id status) s = resolution id status ∷ []
  ops_of _ s = []

  unfoldable pub history : List (Move P) → Serial P → List (Op P)
  history [] s = []
  history (m ∷ ms) s = ops_of m s ++ history ms (move m s)

  none_live : (k : String) (ds : List (Attempt P)) → lives k ds ≡ 0 → find (is_live k) ds ≡ none
  none_live k [] h = refl
  none_live k (d ∷ ds) h = ground (arith, h, none_live k ds)

  enqueue_new :
      (ds : List (Attempt P)) (c : Call P)
      → find (is_live c.code_id) ds ≡ none
      → apply (whole_enqueue c) ds ≡ ds ++ inserted c ∷ []
  unfolding enqueue_attempt apply
  enqueue_new ds c e = rw (e, apply, enqueue_attempt) refl

  enqueue_known :
      (ds : List (Attempt P)) (c : Call P) (d : Attempt P)
      → find (is_live c.code_id) ds ≡ some d
      → apply (whole_enqueue c) ds ≡ ds
  unfolding enqueue_attempt apply
  enqueue_known ds c d e = rw (e, apply, enqueue_attempt) refl

  step_call-apply :
      (ds : List (Attempt P)) (seen : List String) (c : Call P)
      → FitsCall ds seen c
      → (step_call ds c).0 ≡ apply_all (settles ds c) ds
  step_call-apply ds seen c f = elim (Bool-cases c.looked) [
    | inl y ↦ ground (arith, y, enqueue_new ds c (none_live c.code_id ds (f y).1))
    | inr n ↦ elim (Option-cases (find (is_live c.code_id) ds)) [
      | inl e ↦ ground (arith, n, e)
      | inr (d, e) ↦ ground (arith, n, e, enqueue_known ds c d e)
    ]
  ]

  step_at-apply :
      (n : ℕ) (seen : List String) (ds : List (Attempt P)) (cs : List (Call P))
      → Fits ds seen cs
      → (step_at n seen ds cs).0 ≡ apply_all (settles_at n seen ds cs) ds
  step_at-apply n seen ds [] f = refl
  step_at-apply zero seen ds (c ∷ cs) (f, fs) = elim (Bool-cases (includes seen c.code_id)) [
    | inl waits ↦ rw (waits) refl
    | inr free ↦ rw (free) (step_call-apply ds seen c f)
  ]
  step_at-apply (suc n) seen ds (c ∷ cs) (f, fs) = step_at-apply n (c.code_id ∷ seen) ds cs fs

  apply_all-append :
      (os ps : List (Op P)) (ds : List (Attempt P))
      → apply_all (os ++ ps) ds ≡ apply_all ps (apply_all os ds)
  apply_all-append [] ps ds = refl
  apply_all-append (o ∷ os) ps ds = apply_all-append os ps (apply o ds)

  move-apply :
      (m : Move P) (s : Serial P)
      → IsSerial s
      → (move m s).attempts ≡ apply_all (ops_of m s) s.attempts
  unfolding move apply
  move-apply (enqueue code unverified payload fresh) s i = refl
  move-apply (advance n) s i = step_at-apply n [] s.attempts s.calls i.fits
  move-apply (reject n) s i = refl
  move-apply (resolve_attempt id status) s i = refl

  -- The serialised enqueues are atomic: after any schedule the collection is what the calls that
  -- settled give when each runs whole, one after the other in the order in which they
  -- settled, with the push handler's resolutions between them.
  pub moves-atomic :
      (ms : List (Move P)) (s : Serial P)
      → IsSerial s
      → (moves ms s).attempts ≡ apply_all (history ms s) s.attempts
  unfolding moves history
  moves-atomic [] s i = refl
  moves-atomic (m ∷ ms) s i =
      moves-atomic ms (move m s) (move-IsSerial m s i)
      ∙ ap (apply_all (history ms (move m s))) (move-apply m s i)
      ∙ sym (apply_all-append (ops_of m s) (history ms (move m s)) s.attempts)

  -- How many steps the calls still have to take.
  abbrev pub steps_left : List (Call P) → ℕ
  steps_left [] = 0
  steps_left (c ∷ cs) = (if c.looked then 1 else 2) + steps_left cs

  abbrev pub oldest_first : ℕ → List (Move P)
  oldest_first zero = []
  oldest_first (suc n) = advance 0 ∷ oldest_first n

  oldest_steps :
      (ds : List (Attempt P)) (cs : List (Call P))
      → steps_left (step_at 0 [] ds cs).1 ≤ steps_left cs - 1
  oldest_steps ds [] = omega arith
  oldest_steps ds (c ∷ cs) = ground arith

  no_steps : (cs : List (Call P)) → steps_left cs ≤ 0 → cs ≡ []
  no_steps [] h = refl
  no_steps (c ∷ cs) h = ground (arith, h)

  -- No call waits for ever: when the oldest call takes a step as often as there are steps left, which is
  -- at most two for each call, every call has settled.
  pub moves_settle :
      (n : ℕ) (s : Serial P) → steps_left s.calls ≤ n → (moves (oldest_first n) s).calls ≡ []
  unfolding moves
  moves_settle zero s h = no_steps s.calls h
  moves_settle (suc n) s h =
      moves_settle n (move (advance 0) s) (omega (arith, oldest_steps s.attempts s.calls, h))
