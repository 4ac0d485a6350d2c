-- ===== src/Pull/Keysets/Batches.antt =====
-- marketing/sync/pull-replication.js: what one batch of the rows after a checkpoint leaves for the next.
use mathlib.Core.Path.{subst}
use yumyums_purchase_orders.Common.{
  ℕ, zero, suc, ◌+◌, ◌≤◌, ◌⊎◌, String, ◌≡◌, refl, sym, ap, Bool, true, false, List, [], ◌∷◌, ◌++◌,
  take, length, keep, arith, inl, inr, Bool-cases,
}
use yumyums_purchase_orders.Common.Int.{}
use yumyums_purchase_orders.Common.Keep.{keep-head, keep-tail, length-keep}
use yumyums_purchase_orders.Pull.Url.{Keyset}
use yumyums_purchase_orders.Pull.{Row, keyset_of, next_checkpoint}
use yumyums_purchase_orders.Pull.Keysets.{
  key_lt, above, is_ordered, after, after-all, checkpoint-past, above-keep, ordered-keep,
  above-take, ordered-take, above-after, after-after, after-next, above_trans,
}

module _ (instant uuid_value : String → ℕ) {P : Type 0} where
  -- A batch and what comes after its checkpoint have the rows that every window shows, each once.
  pub batch-alive :
      (shown alive : Row P → Bool)
      → ((r : Row P) → alive r ≡ true → shown r ≡ true)
      → (b : ℕ) (k : Keyset) (rest : List (Row P)) → above instant uuid_value k rest ≡ true
      → is_ordered instant uuid_value rest ≡ true
      → keep alive (take b (keep shown rest))
          ++ keep alive
              (after instant uuid_value (next_checkpoint k (take b (keep shown rest))) rest)
        ≡ keep alive rest
  batch-alive shown alive w zero k rest a o =
      ap (λ l. keep alive l) (after-all instant uuid_value k rest a)
  batch-alive shown alive w (suc b) k [] a o = refl
  batch-alive shown alive w (suc b) k (r ∷ rest) a o = elim (Bool-cases (shown r)) [
    | inl y ↦
        let batch = take b (keep shown rest) in
        let above_batch =
          above-take instant uuid_value (keyset_of r) b (keep shown rest)
            (above-keep instant uuid_value (keyset_of r) shown rest (ground (arith, o))) in
        let ordered_batch =
          ordered-take instant uuid_value b (keep shown rest)
            (ordered-keep instant uuid_value shown rest (ground (arith, o))) in
        let behind =
          checkpoint-past instant uuid_value (keyset_of r) (keyset_of r) batch (ground arith)
            above_batch ordered_batch in
        let rest_alive =
          batch-alive shown alive w b (keyset_of r) rest (ground (arith, o)) (ground (arith, o)) in
        subst
          (λ l.
            keep alive (take (suc b) l)
              ++ keep alive
                  (after instant uuid_value (next_checkpoint k (take (suc b) l)) (r ∷ rest))
            ≡ keep alive (r ∷ rest))
          (sym (keep-head shown r rest y)) (rw behind (ground (arith, rest_alive)))
    | inr n ↦
        let dead : alive r ≡ false = ground (arith, n, w r) in
        let rest_alive =
          batch-alive shown alive w (suc b) k rest (ground (arith, a)) (ground (arith, o)) in
        let k' = next_checkpoint k (take (suc b) (keep shown rest)) in
        subst
          (λ l.
            keep alive (take (suc b) l)
              ++ keep alive
                  (after instant uuid_value (next_checkpoint k (take (suc b) l)) (r ∷ rest))
            ≡ keep alive (r ∷ rest))
          (sym (keep-tail shown r rest n))
          (elim (Bool-cases (key_lt instant uuid_value k' (keyset_of r))) [
            | inl c ↦ rw (c, dead) rest_alive
            | inr c ↦ rw (c, dead) rest_alive
          ])
  ]

  -- A batch that is not empty leaves fewer rows.
  pub batch-shorter :
      (shown : Row P → Bool) (b : ℕ) (k : Keyset) (rest : List (Row P))
      → 1 ≤ b
      → above instant uuid_value k rest ≡ true
      → is_ordered instant uuid_value rest ≡ true
      → (keep shown rest ≡ [])
        ⊎ (length (after instant uuid_value (next_checkpoint k (take b (keep shown rest))) rest) + 1
            ≤ length rest)
  batch-shorter shown zero k rest p a o = ground (arith, p)
  batch-shorter shown (suc b) k [] p a o = inl refl
  batch-shorter shown (suc b) k (r ∷ rest) p a o = elim (Bool-cases (shown r)) [
    | inl y ↦
        let batch = take b (keep shown rest) in
        let above_batch =
          above-take instant uuid_value (keyset_of r) b (keep shown rest)
            (above-keep instant uuid_value (keyset_of r) shown rest (ground (arith, o))) in
        let ordered_batch =
          ordered-take instant uuid_value b (keep shown rest)
            (ordered-keep instant uuid_value shown rest (ground (arith, o))) in
        let behind =
          checkpoint-past instant uuid_value (keyset_of r) (keyset_of r) batch (ground arith)
            above_batch ordered_batch in
        let fewer =
          length-keep
            (λ x. key_lt instant uuid_value (next_checkpoint (keyset_of r) batch) (keyset_of x))
            rest in
        inr (
          subst
            (λ l.
              length (after instant uuid_value (next_checkpoint k (take (suc b) l)) (r ∷ rest)) + 1
              ≤ length (r ∷ rest))
            (sym (keep-head shown r rest y)) (rw behind (omega (arith, fewer))))
    | inr n ↦ elim (batch-shorter shown (suc b) k rest p (ground (arith, a)) (ground (arith, o))) [
      | inl e ↦ inl (rw n e)
      | inr e ↦
          let k' = next_checkpoint k (take (suc b) (keep shown rest)) in
          inr (
            subst
              (λ l.
                length (after instant uuid_value (next_checkpoint k (take (suc b) l)) (r ∷ rest))
                  + 1
                ≤ length (r ∷ rest))
              (sym (keep-tail shown r rest n))
              (elim (Bool-cases (key_lt instant uuid_value k' (keyset_of r))) [
                | inl c ↦ rw c (omega (arith, e))
                | inr c ↦ rw c (omega (arith, e))
              ]))
    ]
  ]

  -- A batch, and rows that come after its checkpoint.
  ordered-append :
      (k : Keyset) (batch more : List (Row P))
      → above instant uuid_value k batch ≡ true
      → is_ordered instant uuid_value batch ≡ true
      → above instant uuid_value (next_checkpoint k batch) more ≡ true
      → is_ordered instant uuid_value more ≡ true
      → (above instant uuid_value k (batch ++ more) ≡ true)
        × (is_ordered instant uuid_value (batch ++ more) ≡ true)
  ordered-append k [] more a o a' o' = (a', o')
  ordered-append k (r ∷ batch) more a o a' o' =
      let (later, ordered) =
        ordered-append (keyset_of r) batch more (ground (arith, o)) (ground (arith, o)) a' o' in
      (
        ground (arith, a, above_trans instant uuid_value k (keyset_of r) (batch ++ more), later),
        ground (arith, later, ordered),
      )

  -- A batch of rows after a checkpoint: their order, and what its own checkpoint then leaves of a table.
  pub batch-ordered :
      (shown : Row P → Bool) (b : ℕ) (k : Keyset) (table more : List (Row P))
      → is_ordered instant uuid_value table ≡ true
      → let batch = take b (keep shown (after instant uuid_value k table)) in
        above instant uuid_value (next_checkpoint k batch) more ≡ true
        → is_ordered instant uuid_value more ≡ true
        → (above instant uuid_value k (batch ++ more) ≡ true)
          × (is_ordered instant uuid_value (batch ++ more) ≡ true)
  batch-ordered shown b k table more o a' o' =
      let rest = after instant uuid_value k table in
      ordered-append k (take b (keep shown rest)) more
        (above-take instant uuid_value k b (keep shown rest)
          (above-keep instant uuid_value k shown rest (above-after instant uuid_value k table)))
        (ordered-take instant uuid_value b (keep shown rest) (
          ordered-keep instant uuid_value shown rest (
            ordered-keep instant uuid_value (λ r. key_lt instant uuid_value k (keyset_of r)) table
              o)))
        a' o'

  pub batch-rest :
      (shown : Row P → Bool) (b : ℕ) (k : Keyset) (table : List (Row P))
      → is_ordered instant uuid_value table ≡ true
      → let k' = next_checkpoint k (take b (keep shown (after instant uuid_value k table))) in
        after instant uuid_value k' (after instant uuid_value k table)
        ≡ after instant uuid_value k' table
  batch-rest shown b k table o =
      let rest = after instant uuid_value k table in
      let batch = take b (keep shown rest) in
      after-after instant uuid_value k (next_checkpoint k batch) table (λ r.
        after-next instant uuid_value k batch r
          (above-take instant uuid_value k b (keep shown rest)
            (above-keep instant uuid_value k shown rest (above-after instant uuid_value k table)))
          (ordered-take instant uuid_value b (keep shown rest) (
            ordered-keep instant uuid_value shown rest (
              ordered-keep instant uuid_value (λ x. key_lt instant uuid_value k (keyset_of x)) table
                o))))
