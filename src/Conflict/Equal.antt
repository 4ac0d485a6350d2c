-- ===== src/Conflict/Equal.antt =====
-- `valuesEqual` as an equality: it holds of a value and itself, and what it says of two objects.
use yumyums_purchase_orders.Common.{
  ℕ, String, ◌≡◌, refl, Bool, true, false, arith, ◌==◌, eq_refl, text_cases, inl, inr,
}
use yumyums_purchase_orders.Json.{
  Value, Items, Fields, undefined, null, bool, num, str, arr, obj, no_items, item, end, field,
  has_own, get, items_length, fields_length,
}
use yumyums_purchase_orders.Conflict.{values_equal, items_equal, fields_equal, bool_eq}

-- Every object within the value has distinct keys, as every object of JavaScript has.
abbrev mutual
  pub HasDistinctKeys : Value → Type 0
  HasDistinctKeys (arr vs) = ItemsHaveDistinctKeys vs
  HasDistinctKeys (obj o) = FieldsHaveDistinctKeys o
  HasDistinctKeys _ = Unit

  pub ItemsHaveDistinctKeys : Items → Type 0
  ItemsHaveDistinctKeys no_items = Unit
  ItemsHaveDistinctKeys (item v vs) = HasDistinctKeys v × ItemsHaveDistinctKeys vs

  pub FieldsHaveDistinctKeys : Fields → Type 0
  FieldsHaveDistinctKeys end = Unit
  FieldsHaveDistinctKeys (field k v o) =
      (has_own k o ≡ false) × HasDistinctKeys v × FieldsHaveDistinctKeys o

bool_eq_refl : (b : Bool) → bool_eq b b ≡ true
bool_eq_refl true = refl
bool_eq_refl false = refl

nat_eq_refl : (n : ℕ) → (n == n) ≡ true
nat_eq_refl n = ground arith

-- The fields of `a` are those of `b` under the same keys.
abbrev Within : Fields → Fields → Type 0
Within a b = (k : String) → has_own k a ≡ true → (has_own k b ≡ true) × (get k b ≡ get k a)

Within-tail :
    (k : String) (v : Value) (a b : Fields)
    → has_own k a ≡ false
    → Within (field k v a) b
    → Within a b
Within-tail k v a b h w j own = elim (text_cases k j) [
  | inl e ↦ absurd (let g : has_own j a ≡ false = rw e at h in ground arith)
  | inr e ↦ ground (arith, w j)
]

mutual
  unfolding values_equal

  equal_refl : (v : Value) → HasDistinctKeys v → values_equal v v ≡ true
  equal_refl undefined d = refl
  equal_refl null d = refl
  equal_refl (bool b) d = bool_eq_refl b
  equal_refl (num n) d = nat_eq_refl n
  equal_refl (str s) d = eq_refl s
  equal_refl (arr vs) d = rw (nat_eq_refl (items_length vs)) (items_refl vs d)
  equal_refl (obj o) d = rw (nat_eq_refl (fields_length o)) (fields_refl o o d (λ k h. (h, refl)))

  items_refl : (vs : Items) → ItemsHaveDistinctKeys vs → items_equal vs vs ≡ true
  items_refl no_items d = refl
  items_refl (item v vs) d = rw (equal_refl v d.0) (items_refl vs d.1)

  fields_refl : (a b : Fields) → FieldsHaveDistinctKeys a → Within a b → fields_equal a b ≡ true
  fields_refl end b d w = refl
  fields_refl (field k v a) b d w =
      ground
        (arith, w k, eq_refl k, equal_refl v d.1, fields_refl a b d.2 (Within-tail k v a b d.0 w))

-- A value whose objects have distinct keys is equal to itself, at every depth, so the shortcut for
-- two references to one object answers what the walk answers.
pub values_equal_refl : (v : Value) → HasDistinctKeys v → values_equal v v ≡ true
values_equal_refl v d = equal_refl v d
