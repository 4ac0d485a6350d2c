-- ===== src/Store/Keys.antt =====
-- Objects with text keys, as lists of entries: what reading finds after a write or a deletion.
use yumyums_purchase_orders.Common.{
  String, ◌≡◌, refl, false, List, [], ◌∷◌, none, some, arith, text_eq, text_cases, inl, inr,
  eq_refl, eq_iff,
}
use yumyums_purchase_orders.Store.{lookup, write, remove}

module _ {A : Type 0} where
  pub lookup-write_self :
      (k : String) (a : A) (m : List (String × A)) → lookup k (write k a m) ≡ some a
  lookup-write_self k a [] = ground (arith, eq_refl k)
  lookup-write_self k a ((j, b) ∷ m) = ground (arith, eq_iff j k, lookup-write_self k a m)

  pub lookup-write_ne :
      (k j : String) (a : A) (m : List (String × A))
      → text_eq k j ≡ false
      → lookup j (write k a m) ≡ lookup j m
  lookup-write_ne k j a [] d = ground (arith, d)
  lookup-write_ne k j a ((i, b) ∷ m) d = elim (text_cases i k) [
    | inl e ↦ rw e (ground (arith, d, eq_refl k))
    | inr n ↦ ground (arith, n, lookup-write_ne k j a m d)
  ]

  pub lookup-remove_self : (k : String) (m : List (String × A)) → lookup k (remove k m) ≡ none
  lookup-remove_self k [] = refl
  lookup-remove_self k ((j, b) ∷ m) = ground (arith, lookup-remove_self k m)

  pub lookup-remove_ne :
      (k j : String) (m : List (String × A))
      → text_eq k j ≡ false
      → lookup j (remove k m) ≡ lookup j m
  lookup-remove_ne k j [] d = refl
  lookup-remove_ne k j ((i, b) ∷ m) d = elim (text_cases i k) [
    | inl e ↦ rw e (ground (arith, d, eq_refl k, lookup-remove_ne k j m d))
    | inr n ↦ ground (arith, n, lookup-remove_ne k j m d)
  ]
