-- ===== src/Common/Sort.antt =====
-- `Array.prototype.sort`, which is stable: `after x y` is whether the comparator puts `x` behind `y`.
use mathlib.Core.Path.{◌≡◌, refl}
use mathlib.Core.Bool.{Bool, true, false, not, ◌&&◌}
use mathlib.Core.List.{List, [], ◌∷◌}
use native.Mathlib.Omega.{arith}
use yumyums_purchase_orders.Common.Tests.{if◌then◌else◌, Bool-cases}
use yumyums_purchase_orders.Common.Lists.{all, length}
use Prim.Native.Nat.{suc}
use mathlib.Core.Logic.{inl, inr}

module _ {ℓ} {A : Type ℓ} (after : A → A → Bool) where
  abbrev pub insert_by : A → List A → List A
  insert_by x [] = x ∷ []
  insert_by x (y ∷ ys) = let rest = insert_by x ys in if after x y then y ∷ rest else x ∷ (y ∷ ys)

  abbrev pub sort_by : List A → List A
  sort_by [] = []
  sort_by (x ∷ xs) = insert_by x (sort_by xs)

  -- Nothing stands before what it comes after.
  abbrev pub Sorted : List A → Type 0
  Sorted [] = Unit
  Sorted (x ∷ xs) = (all (λ y. not (after x y)) xs ≡ true) × Sorted xs

  all-insert_by : (p : A → Bool) (x : A) (ys : List A) → all p (insert_by x ys) ≡ (p x && all p ys)
  all-insert_by p x [] = refl
  all-insert_by p x (y ∷ ys) = ground (arith, all-insert_by p x ys)

  -- Sorting keeps what there is.
  pub all-sort_by : (p : A → Bool) (xs : List A) → all p (sort_by xs) ≡ all p xs
  all-sort_by p [] = refl
  all-sort_by p (x ∷ xs) = ground (arith, all-insert_by p x (sort_by xs), all-sort_by p xs)

  length-insert_by : (x : A) (ys : List A) → length (insert_by x ys) ≡ suc (length ys)
  length-insert_by x [] = refl
  length-insert_by x (y ∷ ys) = ground (arith, length-insert_by x ys)

  pub length-sort_by : (xs : List A) → length (sort_by xs) ≡ length xs
  length-sort_by [] = refl
  length-sort_by (x ∷ xs) = ground (arith, length-insert_by x (sort_by xs), length-sort_by xs)

  -- On elements that the comparator compares, that is where it is asymmetric and the reverse of it is
  -- transitive.
  module _ (p : A → Bool)
      (asym : (x y : A) → p x ≡ true → p y ≡ true → after x y ≡ true → after y x ≡ false)
      (trans : (x y z : A)
        → p x ≡ true
        → p y ≡ true
        → p z ≡ true
        → after x y ≡ false
        → after y z ≡ false
        → after x z ≡ false) where
    before_all :
        (x y : A) (ys : List A)
        → p x ≡ true
        → p y ≡ true
        → all p ys ≡ true
        → after x y ≡ false
        → all (λ z. not (after y z)) ys ≡ true
        → all (λ z. not (after x z)) ys ≡ true
    before_all x y [] px py ps h hs = refl
    before_all x y (z ∷ zs) px py ps h hs =
        ground (arith, trans x y z px py, before_all x y zs px py, ps, h, hs)

    insert_by-Sorted :
        (x : A) (ys : List A) → p x ≡ true → all p ys ≡ true → Sorted ys → Sorted (insert_by x ys)
    insert_by-Sorted x [] px ps s = (refl, tt)
    insert_by-Sorted x (y ∷ ys) px ps (least, s) = elim (Bool-cases (after x y)) [
      | inl h ↦
          let first : all (λ z. not (after y z)) (insert_by x ys) ≡ true =
            ground (arith, all-insert_by (λ z. not (after y z)) x ys, least, asym x y px, ps, h) in
          rw (h) (first, insert_by-Sorted x ys px (ground (arith, ps)) s)
      | inr h ↦
          let first : all (λ z. not (after x z)) (y ∷ ys) ≡ true =
            ground
              (arith, h, before_all x y ys px (ground (arith, ps)) (ground (arith, ps)) h least) in
          rw (h) (first, (least, s))
    ]

    pub sort_by-Sorted : (xs : List A) → all p xs ≡ true → Sorted (sort_by xs)
    sort_by-Sorted [] h = tt
    sort_by-Sorted (x ∷ xs) h =
        insert_by-Sorted x (sort_by xs) (ground (arith, h)) (ground (arith, h, all-sort_by p xs))
          (sort_by-Sorted xs (ground (arith, h)))
