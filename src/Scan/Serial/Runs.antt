-- ===== src/Scan/Serial/Runs.antt =====
-- What every schedule of the serialised enqueues keeps: one live attempt of a code.
use yumyums_purchase_orders.Common.{
  ℕ, zero, suc, ◌+◌, ◌≤◌, String, ◌≡◌, refl, ap, ◌∙◌, true, false, List, [], ◌∷◌, ◌++◌, arith,
  if◌then◌else◌, text_eq, find, includes, Bool-cases, Option-cases, eq_refl, inl, inr, eq_iff,
}
use yumyums_purchase_orders.Push.{Attempt, Status, is_live}
use yumyums_purchase_orders.Push.Enqueue.{lives, find-none, lives-append}
use yumyums_purchase_orders.Scan.Serial.{
  Call, Serial, Move, enqueue, advance, reject, resolve_attempt, inserted, step_call, step_at,
  drop_at, resolved_as, move, moves,
}

same_includes :
    (a b : String) (seen : List String) → text_eq a b ≡ true → includes seen a ≡ includes seen b
same_includes a b seen h = ap (includes seen) ((eq_iff a b).0 h)

module _ {P : Type 0} where
  -- A call that has searched has no older call of its code, and its code has no live attempt.
  abbrev pub FitsCall : List (Attempt P) → List String → Call P → Type 0
  FitsCall ds seen c =
      c.looked ≡ true → (includes seen c.code_id ≡ false) × (lives c.code_id ds ≡ 0)

  abbrev pub Fits : List (Attempt P) → List String → List (Call P) → Type 0
  Fits ds seen [] = Unit
  Fits ds seen (c ∷ cs) = FitsCall ds seen c × Fits ds (c.code_id ∷ seen) cs

  abbrev pub Single : List (Attempt P) → Type 0
  Single ds = (k : String) → lives k ds ≤ 1

  -- Fewer older calls, and fewer live attempts of the codes that were free.
  Fits-weaken :
      (ds es : List (Attempt P)) (seen seen' : List String)
      → ((k : String) → includes seen' k ≡ true → includes seen k ≡ true)
      → (cs : List (Call P))
      → ((k : String) → includes seen k ≡ false → lives k ds ≡ 0 → lives k es ≡ 0)
      → Fits ds seen cs
      → Fits es seen' cs
  Fits-weaken ds es seen seen' w [] free f = tt
  Fits-weaken ds es seen seen' w (c ∷ cs) free (f, fs) = (
    (λ h. let (a, b) = f h in (ground (arith, w c.code_id, a), free c.code_id a b)),
    Fits-weaken ds es (c.code_id ∷ seen) (c.code_id ∷ seen') (λ k h. ground (arith, w k, h)) cs
        (λ k a b. free k (ground (arith, a)) b) fs,
  )

  lives-inserted :
      (k : String) (ds : List (Attempt P)) (c : Call P)
      → lives k (ds ++ inserted c ∷ []) ≡ lives k ds + (if text_eq c.code_id k then 1 else 0)
  lives-inserted k ds c = ground (arith, lives-append k ds (inserted c))

  same_lives : (a b : String) (ds : List (Attempt P)) → text_eq a b ≡ true → lives a ds ≡ lives b ds
  same_lives a b ds h = ap (λ k. lives k ds) ((eq_iff a b).0 h)

  -- What one step of a call leaves: the older calls' codes keep their number of live attempts, no code
  -- has two, and the calls still fit.
  record Kept (seen : List String) (ds es : List (Attempt P)) (cs : List (Call P)) : Type 0 where
    older : (k : String) → includes seen k ≡ true → lives k es ≡ lives k ds
    single : Single es
    fits : Fits es seen cs

  step_here :
      (seen : List String) (ds : List (Attempt P)) (c : Call P) (cs : List (Call P))
      → includes seen c.code_id ≡ false
      → Single ds
      → Fits ds seen (c ∷ cs)
      → Kept seen ds (step_call ds c).0 ((step_call ds c).1 ++ cs)
  step_here seen ds c cs free one (f, fs) = elim (Bool-cases c.looked) [
    | inl y ↦
        let here : lives c.code_id ds ≡ 0 = (f y).1 in
        rw (y) (record {
          older =
              λ k h. ground (arith, lives-inserted k ds c, same_includes c.code_id k seen, free, h);
          single =
              λ k. ground (arith, lives-inserted k ds c, same_lives c.code_id k ds, here, one k);
          fits =
              Fits-weaken ds (ds ++ inserted c ∷ []) (c.code_id ∷ seen) seen
                (λ k h. ground (arith, h)) cs (λ k a b. ground (arith, lives-inserted k ds c, a, b))
                fs;
        })
    | inr n ↦ elim (Option-cases (find (is_live c.code_id) ds)) [
      | inl none_found ↦
          rw (n, none_found)
            (record {
              older = λ k h. refl;
              single = one;
              fits = (λ h. (free, find-none c.code_id ds none_found), fs);
            })
      | inr (d, found) ↦
          rw (n, found)
            (record {
              older = λ k h. refl;
              single = one;
              fits =
                  Fits-weaken ds ds (c.code_id ∷ seen) seen (λ k h. ground (arith, h)) cs
                    (λ k a b. b) fs;
            })
    ]
  ]

  step_at-Kept :
      (n : ℕ) (seen : List String) (ds : List (Attempt P)) (cs : List (Call P))
      → Single ds
      → Fits ds seen cs
      → Kept seen ds (step_at n seen ds cs).0 (step_at n seen ds cs).1
  step_at-Kept n seen ds [] one f = record { older = λ k h. refl; single = one; fits = tt }
  step_at-Kept zero seen ds (c ∷ cs) one f = elim (Bool-cases (includes seen c.code_id)) [
    | inl waits ↦ rw (waits) (record { older = λ k h. refl; single = one; fits = f })
    | inr free ↦ rw (free) (step_here seen ds c cs free one f)
  ]
  step_at-Kept (suc n) seen ds (c ∷ cs) one (f, fs) =
      let ih = step_at-Kept n (c.code_id ∷ seen) ds cs one fs in
      record {
        older = λ k h. ih.older k (ground (arith, h));
        single = ih.single;
        fits = (
          λ h. let (a, b) = f h in (a, ih.older c.code_id (ground (arith, eq_refl c.code_id)) ∙ b),
          ih.fits,
        );
      }

  -- Dropping a call, and resolving an attempt, keep the rest.
  drop_at-Fits :
      (n : ℕ) (seen : List String) (ds : List (Attempt P)) (cs : List (Call P))
      → Fits ds seen cs
      → Fits ds seen (drop_at n cs)
  drop_at-Fits n seen ds [] f = tt
  drop_at-Fits zero seen ds (c ∷ cs) (f, fs) =
      Fits-weaken ds ds (c.code_id ∷ seen) seen (λ k h. ground (arith, h)) cs (λ k a b. b) fs
  drop_at-Fits (suc n) seen ds (c ∷ cs) (f, fs) = (f, drop_at-Fits n (c.code_id ∷ seen) ds cs fs)

  lives-resolved_as :
      (id : String) (status : Status) (k : String) (ds : List (Attempt P))
      → lives k (resolved_as id status ds) ≤ lives k ds
  lives-resolved_as id status k [] = omega arith
  lives-resolved_as id status k (d ∷ ds) = ground (arith, lives-resolved_as id status k ds)

  add-Fits :
      (seen : List String) (ds : List (Attempt P)) (cs : List (Call P)) (c : Call P)
      → c.looked ≡ false
      → Fits ds seen cs
      → Fits ds seen (cs ++ c ∷ [])
  add-Fits seen ds [] c h f = (λ y. ground (arith, h, y), tt)
  add-Fits seen ds (x ∷ cs) c h (f, fs) = (f, add-Fits (x.code_id ∷ seen) ds cs c h fs)

  -- No code has two live attempts, and each call that has searched may still insert.
  pub record IsSerial (s : Serial P) : Type 0 where
    pub single : Single s.attempts
    pub fits : Fits s.attempts [] s.calls

  pub move-IsSerial : (m : Move P) (s : Serial P) → IsSerial s → IsSerial (move m s)
  unfolding move
  move-IsSerial (enqueue code unverified payload fresh) s i = record {
    single = i.single;
    fits = add-Fits [] s.attempts s.calls _ refl i.fits;
  }
  move-IsSerial (advance n) s i =
      let k = step_at-Kept n [] s.attempts s.calls i.single i.fits in
      record { single = k.single; fits = k.fits }
  move-IsSerial (reject n) s i = record {
    single = i.single;
    fits = drop_at-Fits n [] s.attempts s.calls i.fits;
  }
  move-IsSerial (resolve_attempt id status) s i = record {
    single = λ k. ground (arith, lives-resolved_as id status k s.attempts, i.single k);
    fits =
        Fits-weaken s.attempts (resolved_as id status s.attempts) [] [] (λ k h. h) s.calls
          (λ k a b. ground (arith, b, lives-resolved_as id status k s.attempts)) i.fits;
  }

  -- Whatever the schedule, a code never gets a second live attempt: the searches and inserts of the
  -- calls may run in any order that the wrapper allows, calls may come in and reject at any
  -- time, and attempts may be resolved between them.
  pub moves-IsSerial : (ms : List (Move P)) (s : Serial P) → IsSerial s → IsSerial (moves ms s)
  unfolding moves
  moves-IsSerial [] s i = i
  moves-IsSerial (m ∷ ms) s i = moves-IsSerial ms (move m s) (move-IsSerial m s i)
