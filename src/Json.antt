-- ===== src/Json.antt =====
-- The JSON-shaped values that the collections of sync-rxdb hold, and objects as lists of fields.
pub mod Laws
use yumyums_purchase_orders.Common.{
  ℕ, suc, String, Bool, false, ◌||◌, List, [], ◌∷◌, if◌then◌else◌, text_eq,
}

-- A number stands for its value by an index: the code of this library only compares numbers by
-- `===`. `undefined` is what reading an absent property gives.
mutual
  pub data Value : Type 0 where
    undefined : Value
    null : Value
    bool : Bool → Value
    num : ℕ → Value
    str : String → Value
    obj : Fields → Value
    arr : Items → Value

  pub data Fields : Type 0 where
    end : Fields
    field : String → Value → Fields → Fields

  pub data Items : Type 0 where
    no_items : Items
    item : Value → Items → Items

-- `Object.keys(o)`, in the order of insertion.
abbrev pub keys : Fields → List String
keys end = []
keys (field k v o) = k ∷ keys o

-- `Object.prototype.hasOwnProperty.call(o, k)`.
abbrev pub has_own : String → Fields → Bool
has_own k end = false
has_own k (field j v o) = text_eq j k || has_own k o

-- `o[k]`.
abbrev pub get : String → Fields → Value
get k end = undefined
get k (field j v o) = if text_eq j k then v else get k o

-- `o[k] = v`, which keeps the place of a key that is there and appends one that is not.
abbrev pub put : String → Value → Fields → Fields
put k v end = field k v end
put k v (field j w o) = if text_eq j k then field j v o else field j w (put k v o)

abbrev pub items_length : Items → ℕ
items_length no_items = 0
items_length (item v vs) = suc (items_length vs)

abbrev pub fields_length : Fields → ℕ
fields_length end = 0
fields_length (field k v o) = suc (fields_length o)
