-- ===== src/Store.antt =====
-- sync.js, `Store`: the collections that a page registers, their subscribers, and the batch. A callback
-- is a number, and does not call the store; what the store calls is a list of calls, in order.
pub mod Batch
pub mod Keys
mod Tests
use yumyums_purchase_orders.Common.{
  ℕ, String, Bool, true, false, not, ◌||◌, List, [], ◌∷◌, ◌++◌, Option, none, some, ◌==◌,
  if◌then◌else◌, text_eq, includes, map, keep,
}

-- A collection: an object with its entries, or another value (an array, a number).
pub data Collection (V : Type 0) : Type 0 where
  object : List (String × V) → Collection V
  other : V → Collection V

-- A callback that is called, with the value and the key that it is given.
pub record Call (V : Type 0) : Type 0 where
  pub callback : ℕ
  pub value : Option (Collection V)
  pub key : String

pub record Store (V : Type 0) : Type 0 where
  pub collections : List (String × Collection V)
  pub subscribers : List (String × List ℕ)
  pub batching : Bool
  pub dirty : List String

-- A property of an object with text keys: read, written, deleted.
abbrev pub lookup : {A : Type 0} → String → List (String × A) → Option A
lookup k [] = none
lookup k ((j, a) ∷ rest) = let found = lookup k rest in if text_eq j k then some a else found

abbrev pub write : {A : Type 0} → String → A → List (String × A) → List (String × A)
write k a [] = (k, a) ∷ []
write k a ((j, b) ∷ rest) =
    let others = write k a rest in if text_eq j k then (j, a) ∷ rest else (j, b) ∷ others

abbrev pub remove : {A : Type 0} → String → List (String × A) → List (String × A)
remove k entries = keep (λ e. not (text_eq e.0 k)) entries

-- `subs.splice(indexOf(callback), 1)`: the first one alone.
abbrev pub remove_first : ℕ → List ℕ → List ℕ
remove_first n [] = []
remove_first n (m ∷ ms) = let rest = remove_first n ms in if m == n then ms else m ∷ rest

-- `Set.add`.
abbrev pub add_dirty : String → List String → List String
add_dirty k ks = if includes ks k then ks else ks ++ k ∷ []

module _ {V : Type 0} where
  -- `new Store()`.
  abbrev pub new_store : Store V
  new_store = record { collections = []; subscribers = []; batching = false; dirty = [] }

  -- `_fire`.
  abbrev pub fire : String → Store V → List (Call V)
  fire key s = elim (lookup key s.subscribers) [
    | none ↦ []
    | some subs ↦
        map (λ n. record { callback = n; value = lookup key s.collections; key = key }) subs
  ]

  -- `_notify`.
  abbrev pub notify : String → Store V → Store V × List (Call V)
  notify key s =
      if s.batching then (record s { dirty = add_dirty key s.dirty }, []) else (s, fire key s)

  -- `register`, of one definition.
  unfoldable pub register : String → Collection V → Store V → Store V
  register key initial s = record s {
    collections = write key initial s.collections;
    subscribers = write key [] s.subscribers;
  }

  -- `set` and `delete` change an object alone, and notify in any case.
  unfoldable pub set : String → String → V → Store V → Store V × List (Call V)
  set key sub_key value s = elim (lookup key s.collections) [
    | none ↦ (s, [])
    | some (object entries) ↦
        notify key (record s {
          collections = write key (object (write sub_key value entries)) s.collections;
        })
    | some (other v) ↦ notify key s
  ]

  unfoldable pub set_all : String → Collection V → Store V → Store V × List (Call V)
  set_all key value s = elim (lookup key s.collections) [
    | none ↦ (s, [])
    | some old ↦ notify key (record s { collections = write key value s.collections })
  ]

  unfoldable pub delete : String → String → Store V → Store V × List (Call V)
  delete key sub_key s = elim (lookup key s.collections) [
    | none ↦ (s, [])
    | some (object entries) ↦
        notify key
          (record s { collections = write key (object (remove sub_key entries)) s.collections })
    | some (other v) ↦ notify key s
  ]

  unfoldable pub on : String → ℕ → Store V → Store V
  on key callback s = elim (lookup key s.subscribers) [
    | none ↦ record s { subscribers = write key (callback ∷ []) s.subscribers }
    | some subs ↦ record s { subscribers = write key (subs ++ callback ∷ []) s.subscribers }
  ]

  unfoldable pub off : String → ℕ → Store V → Store V
  off key callback s = elim (lookup key s.subscribers) [
    | none ↦ s
    | some subs ↦ record s { subscribers = write key (remove_first callback subs) s.subscribers }
  ]

-- The changes that the function of a batch makes.
pub data Change (V : Type 0) : Type 0 where
  set_change : String → String → V → Change V
  set_all_change : String → Collection V → Change V
  delete_change : String → String → Change V

module _ {V : Type 0} where
  abbrev pub change : Change V → Store V → Store V × List (Call V)
  change (set_change k j v) s = set k j v s
  change (set_all_change k c) s = set_all k c s
  change (delete_change k j) s = delete k j s

  abbrev pub changes : List (Change V) → Store V → Store V × List (Call V)
  changes [] s = (s, [])
  changes (c ∷ cs) s =
      let (first, calls) = change c s in
      let (last, more) = changes cs first in (last, calls ++ more)

  abbrev pub fire_each : List String → Store V → List (Call V)
  fire_each [] s = []
  fire_each (k ∷ ks) s = fire k s ++ fire_each ks s

  -- `batch`.
  unfoldable pub batch : List (Change V) → Store V → Store V × List (Call V)
  batch cs s =
      let (after, calls) = changes cs (record s { batching = true; dirty = [] }) in
      let done = record after { batching = false } in
      (record done { dirty = [] }, calls ++ fire_each done.dirty done)
