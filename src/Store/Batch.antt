-- ===== src/Store/Batch.antt =====
-- sync.js, `Store.batch`: when the subscribers of a batch are called.
use yumyums_purchase_orders.Common.{
  String, ◌≡◌, refl, Bool, true, false, not, ◌&&◌, List, [], ◌∷◌, ◌++◌, arith, includes, text_eq,
  text_cases, inl, inr, eq_refl, sym, ap, ◌∙◌,
}
use yumyums_purchase_orders.Store.{
  Store, Change, set_change, set_all_change, delete_change, set, set_all, delete, change, changes,
  batch, fire_each, add_dirty,
}

-- No key stands twice.
abbrev pub are_distinct : List String → Bool
are_distinct [] = true
are_distinct (k ∷ ks) = not (includes ks k) && are_distinct ks

includes-snoc :
    (ks : List String) (k j : String)
    → includes ks j ≡ false
    → text_eq k j ≡ false
    → includes (ks ++ k ∷ []) j ≡ false
includes-snoc [] k j h n = ground (arith, n)
includes-snoc (x ∷ ks) k j h n = ground (arith, h, n, includes-snoc ks k j)

text_eq_flip : (a b : String) → text_eq a b ≡ false → text_eq b a ≡ false
text_eq_flip a b h = elim (text_cases b a) [
  | inl e ↦ absurd (true_is_false (sym (eq_refl b) ∙ ap (λ c. text_eq c b) e ∙ h))
  | inr d ↦ d
]
  where
    true_is_false : true ≡ false → ⊥
    true_is_false p = ground (arith, p)

distinct-snoc :
    (ks : List String) (k : String)
    → are_distinct ks ≡ true
    → includes ks k ≡ false
    → are_distinct (ks ++ k ∷ []) ≡ true
distinct-snoc [] k h n = refl
distinct-snoc (x ∷ ks) k h n =
    let apart : text_eq x k ≡ false = ground (arith, n) in
    let absent : includes ks x ≡ false = ground (arith, h) in
    ground (arith, h, n, includes-snoc ks k x absent (text_eq_flip x k apart), distinct-snoc ks k)

add_dirty-distinct :
    (k : String) (ks : List String) → are_distinct ks ≡ true → are_distinct (add_dirty k ks) ≡ true
add_dirty-distinct k ks h = ground (arith, h, distinct-snoc ks k h)

module _ {V : Type 0} where
  -- While a batch is open nothing is called, and it stays open.
  change-quiet :
      (c : Change V) (s : Store V)
      → s.batching ≡ true
      → ((change c s).1 ≡ []) × ((change c s).0.batching ≡ true)
  unfolding set set_all delete
  change-quiet (set_change k j v) s h = ground (arith, h)
  change-quiet (set_all_change k c) s h = ground (arith, h)
  change-quiet (delete_change k j) s h = ground (arith, h)

  change-distinct :
      (c : Change V) (s : Store V)
      → are_distinct s.dirty ≡ true
      → are_distinct (change c s).0.dirty ≡ true
  unfolding set set_all delete
  change-distinct (set_change k j v) s h = ground (arith, h, add_dirty-distinct k s.dirty h)
  change-distinct (set_all_change k c) s h = ground (arith, h, add_dirty-distinct k s.dirty h)
  change-distinct (delete_change k j) s h = ground (arith, h, add_dirty-distinct k s.dirty h)

  changes-distinct :
      (cs : List (Change V)) (s : Store V)
      → are_distinct s.dirty ≡ true
      → are_distinct (changes cs s).0.dirty ≡ true
  changes-distinct [] s h = h
  changes-distinct (c ∷ cs) s h = changes-distinct cs (change c s).0 (change-distinct c s h)

  changes-quiet :
      (cs : List (Change V)) (s : Store V)
      → s.batching ≡ true
      → ((changes cs s).1 ≡ []) × ((changes cs s).0.batching ≡ true)
  changes-quiet [] s h = (refl, h)
  changes-quiet (c ∷ cs) s h =
      let first = change-quiet c s h in
      let rest = changes-quiet cs (change c s).0 first.1 in
      (ground (arith, first.0, rest.0), rest.1)

  -- A batch calls nobody while its function runs; afterwards each key that was changed is fired just
  -- once, however often it was changed, with the collections as the whole batch left them, and the
  -- store is open again with no key left to fire.
  pub batch_lem :
      (cs : List (Change V)) (s : Store V)
      → let after = (changes cs (record s { batching = true; dirty = [] })).0 in
        let closed = record after { batching = false } in
        ((batch cs s).1 ≡ fire_each after.dirty closed)
        × (are_distinct after.dirty ≡ true)
        × ((batch cs s).0 ≡ record closed { dirty = [] })
  unfolding batch
  batch_lem cs s =
      let start : Store V = record s { batching = true; dirty = [] } in
      (rw (changes-quiet cs start refl).0 refl, changes-distinct cs start refl, refl)
