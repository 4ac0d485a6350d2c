-- ===== src/Common/Keep.antt =====
-- What `keep` leaves of a list.
use mathlib.Core.Path.{◌≡◌, refl}
use mathlib.Core.Bool.{Bool, true, false, ◌&&◌}
use mathlib.Core.List.{List, [], ◌∷◌, ◌++◌}
use native.Mathlib.Omega.{arith}
use Prim.Native.Nat.{◌≤◌}
use yumyums_purchase_orders.Common.Tests.{}
use yumyums_purchase_orders.Common.Lists.{keep, length}

-- Where nothing passes a test, nothing passes a stronger one.
pub keep-none {ℓ} :
    {A : Type ℓ} (p q : A → Bool)
    → ((a : A) → q a ≡ true → p a ≡ true)
    → (xs : List A) → keep p xs ≡ []
    → keep q xs ≡ []
keep-none p q w [] h = refl
keep-none p q w (x ∷ xs) h = ground (arith, h, w x, keep-none p q w xs)

pub keep-both {ℓ} :
    {A : Type ℓ} (p q : A → Bool) (xs : List A) → keep (λ a. p a && q a) xs ≡ keep q (keep p xs)
keep-both p q [] = refl
keep-both p q (x ∷ xs) = ground (arith, keep-both p q xs)

pub keep-head {ℓ} :
    {A : Type ℓ} (p : A → Bool) (x : A) (xs : List A) → p x ≡ true → keep p (x ∷ xs) ≡ x ∷ keep p xs
keep-head p x xs h = rw h refl

pub keep-tail {ℓ} :
    {A : Type ℓ} (p : A → Bool) (x : A) (xs : List A) → p x ≡ false → keep p (x ∷ xs) ≡ keep p xs
keep-tail p x xs h = rw h refl

pub length-keep {ℓ} : {A : Type ℓ} (p : A → Bool) (xs : List A) → length (keep p xs) ≤ length xs
length-keep p [] = ground arith
length-keep p (x ∷ xs) = ground (arith, length-keep p xs)

pub keep-append {ℓ} :
    {A : Type ℓ} (p : A → Bool) (xs ys : List A) → keep p (xs ++ ys) ≡ keep p xs ++ keep p ys
keep-append p [] ys = refl
keep-append p (x ∷ xs) ys = ground (arith, keep-append p xs ys)

pub append-none {ℓ} : {A : Type ℓ} (xs ys : List A) → xs ++ ys ≡ [] → ys ≡ []
append-none [] ys h = h
append-none (x ∷ xs) ys h = ground (arith, h)
